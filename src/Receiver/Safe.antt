-- ===== src/Receiver/Safe.antt =====
-- receiver.c: no run of the receiver leaves its arrays, and a file is received whole.
use hermes_broadcast.Common.{
  zero, suc, ◌/◌, ◌%◌, ◌^◌, ap, ◌∙◌, get_or, replicate, ℕ, ◌==◌, ◌||◌, ◌≤◌, ◌<◌, Bool, true, false,
  not, ◌&&◌, List, [], ◌∷◌, Option, none, some, if◌then◌else◌, All, ◌≡◌, refl, arith,
}
use hermes_broadcast.Nanorq.{Nanorq}
use hermes_broadcast.Nanorq.Laws.{Laws, announced}
use hermes_broadcast.Receiver.{
  parse_frame_header, Receiver, Turn, continues, received, other_file, fault, Input, got_frame,
  nothing, broken, file_received, use_payload, use_configuration, new_decoder, receive_frame,
  start_receiver,
}
use hermes_broadcast.Receiver.Run.{
  by_signal, by_error, by_file, by_other_file, Over, ends, crashes, after_turn, receive,
}
use hermes_broadcast.Header.{byte, parse_tag_oti_common, parse_tag_oti_scheme}
use hermes_broadcast.Modes.{packet_rq_config, packet_rq_payload}
use hermes_broadcast.Receiver.Keeps.{KeepsBlocks, use_payload-KeepsBlocks}
use hermes_broadcast.Receiver.Blocks.{Repairs, IsValid, IsSafe, use_payload-IsSafe}

first_true : (a b : Bool) → (a && b) ≡ true → a ≡ true
first_true true b e = refl
first_true false b e = e

second_true : (a b : Bool) → (a && b) ≡ true → b ≡ true
second_true true b e = e
second_true false b e = absurd cc

-- What a received array has to announce: symbols that fit behind the header, and a block for which
-- the receiver has room.
unfoldable pub FitsArrays : List ℕ → Type 0
FitsArrays data_frame =
    (byte data_frame 0 / 2 ^ 6 % 4 ≡ 2 → announced (parse_tag_oti_common data_frame) ≤ 752)
    × (byte data_frame 0 / 2 ^ 6 % 4 ≡ 3 → byte data_frame 1 < 128)

type_of :
    (data_frame : List ℕ) (n packet_type : ℕ)
    → parse_frame_header data_frame n ≡ some packet_type
    → byte data_frame 0 / 2 ^ 6 % 4 ≡ packet_type
unfolding parse_frame_header
type_of data_frame n packet_type e = ground arith

marked :
    (n : ℕ) (ds : List Bool) (b : ℕ) → file_received n ds ≡ true → b < n → get_or ds b false ≡ true
unfolding file_received
marked zero ds b e h = absurd (omega arith)
marked (suc n) [] b e h = absurd cc
marked (suc n) (d ∷ ds) zero e h = first_true d (file_received n ds) e
marked (suc n) (d ∷ ds) (suc b) e h =
    marked n ds b (second_true d (file_received n ds) e) (omega arith)

no_marks : (n b : ℕ) → get_or (replicate n false) b false ≡ false
no_marks zero b = refl
no_marks (suc n) zero = refl
no_marks (suc n) (suc b) = no_marks n b

module _ (N : Nanorq) (laws : Laws N) (Whole : N.Coder → ℕ → Type 0) (repairs : Repairs N Whole)
    (few : (common scheme : ℕ) (c : N.Coder)
      → N.decoder_new common scheme ≡ some c
      → N.blocks c ≤ 128) where
  -- A well-formed receiver, of at most 128 blocks.
  record IsSmall (r : Receiver N) : Type 0 where
    valid : IsValid N Whole r
    small : r.configuration_received ≡ true → r.num_sbn ≤ 128

  -- The decoder of the receiver has repaired every block.
  unfoldable pub IsWhole : Receiver N → Type 0
  IsWhole r = (c : N.Coder) × (r.rq ≡ some c) × ((b : ℕ) → b < N.blocks c → Whole c b)

  received-IsWhole :
      (r : Receiver N) (c : Option N.Coder)
      → r.rq ≡ c
      → r.configuration_received ≡ true
      → file_received r.num_sbn r.block_decoded ≡ true
      → IsValid N Whole r
      → IsWhole r
  unfolding IsWhole
  received-IsWhole r none e on done v = absurd (v.coder on e)
  received-IsWhole r (some c) e on done v = (
    c,
    e,
    λ b h.
        v.whole c b e on (marked r.num_sbn r.block_decoded b done (omega (arith, v.blocks c e on))),
  )

  -- A turn that does not fault, and that ends the program on a whole file only.
  IsGood : Turn N → Type 0
  IsGood (continues r) = IsSmall r
  IsGood (received r) = IsWhole r
  IsGood (other_file r) = Unit
  IsGood fault = ⊥

  both-IsGood : (n : ℕ) (t : Turn N) → n ≤ 128 → IsSafe N Whole t → KeepsBlocks n t → IsGood t
  unfolding IsGood IsSafe
  both-IsGood n (continues r) h v k = record { valid = v; small = λ e. omega (arith, h, k.0) }
  both-IsGood n (received r) h v k = received-IsWhole r r.rq refl k.2 k.1 v
  both-IsGood n (other_file r) h v k = tt
  both-IsGood n fault h v k = v

  same : (c d : N.Coder) → some c ≡ some d → c ≡ d
  same c d h = cc

  unset : {b : Bool} → b ≡ false → b ≡ true → ⊥
  unset e f = cc

  new_decoder-IsGood :
      (r : Receiver N) (common scheme : ℕ) (c : Option N.Coder)
      → N.decoder_new common scheme ≡ c
      → r.configuration_received ≡ false
      → announced common ≤ 752
      → IsValid N Whole r
      → IsGood (new_decoder N r common scheme c)
  unfolding new_decoder IsGood
  new_decoder-IsGood r common scheme none e off fits v = record {
    valid = record {
      coder = λ h. absurd (ground arith);
      blocks = λ d h k. absurd (ground arith);
      sizes = v.sizes;
      symbol = λ d h k. absurd (ground arith);
      whole = λ d b h k m. absurd (ground arith);
      unmarked = λ b e. v.unmarked b off;
    };
    small = λ h. absurd (ground arith);
  }
  new_decoder-IsGood r common scheme (some c) e off fits v = record {
    valid = record {
      coder = λ h. ground arith;
      blocks = λ d h k. ground arith;
      sizes = v.sizes;
      symbol = λ d h k. omega (
        arith,
        ap (λ x. (N.oti x).symbol_size) (same (N.set_max_esi c 65535) d h),
        ap (λ o. o.symbol_size) (laws.oti-set_max_esi c 65535),
        laws.new_decoder_symbol common scheme c e,
      );
      whole = λ d b h k m. absurd (unset (v.unmarked b off) m);
      unmarked = λ b h. v.unmarked b off;
    };
    small = λ h. omega (arith, few common scheme c e, laws.blocks-set_max_esi c 65535);
  }

  branch-IsGood :
      (b : Bool) (x y : Turn N)
      → (b ≡ true → IsGood x)
      → (b ≡ false → IsGood y)
      → IsGood (if b then x else y)
  branch-IsGood true x y h k = h refl
  branch-IsGood false x y h k = k refl

  use_configuration-IsGood :
      (r : Receiver N) (data_frame : List ℕ)
      → announced (parse_tag_oti_common data_frame) ≤ 752
      → IsSmall r
      → IsGood (use_configuration N r data_frame)
  unfolding use_configuration IsGood
  use_configuration-IsGood r data_frame fits v =
      let common = parse_tag_oti_common data_frame in
      let scheme = parse_tag_oti_scheme data_frame in
      let other = not (common == r.oti_common) || not (scheme == r.oti_scheme) in
      branch-IsGood (not r.configuration_received)
        (new_decoder N r common scheme (N.decoder_new common scheme))
        (if other then other_file r else continues r)
        (λ e.
          new_decoder-IsGood r common scheme (N.decoder_new common scheme) refl (ground arith) fits
            (v.valid))
        (λ e. branch-IsGood other (other_file r) (continues r) (λ d. tt) (λ d. v))

  receive_frame-IsGood :
      (r : Receiver N) (data_frame : List ℕ) (n : ℕ)
      → FitsArrays data_frame
      → IsSmall r
      → IsGood (receive_frame N r data_frame n)
  unfolding receive_frame IsGood FitsArrays
  receive_frame-IsGood r data_frame n fits v = of_type (parse_frame_header data_frame n) refl
    where
      kind :
          (packet_type k : ℕ)
          → parse_frame_header data_frame n ≡ some packet_type
          → (packet_type == k) ≡ true
          → byte data_frame 0 / 2 ^ 6 % 4 ≡ k
      kind packet_type k p e =
          let is : packet_type ≡ k = ground arith in type_of data_frame n packet_type p ∙ is

      of_type :
          (t : Option ℕ)
          → parse_frame_header data_frame n ≡ t
          → IsGood (elim t [
            | none ↦ continues r
            | some packet_type ↦
                if packet_type == packet_rq_config
                then use_configuration N r data_frame
                else (if r.configuration_received && packet_type == packet_rq_payload
                    then use_payload N r data_frame r.rq
                    else continues r)
          ])
      of_type none p = v
      of_type (some packet_type) p =
          branch-IsGood (packet_type == packet_rq_config) (use_configuration N r data_frame)
            (if r.configuration_received && packet_type == packet_rq_payload
              then use_payload N r data_frame r.rq
              else continues r)
            (λ e.
              use_configuration-IsGood r data_frame (fits.0 (kind packet_type packet_rq_config p e))
                v)
            (λ e.
              branch-IsGood (r.configuration_received && packet_type == packet_rq_payload)
                (use_payload N r data_frame r.rq) (continues r)
                (λ d.
                  let on : r.configuration_received ≡ true =
                    first_true r.configuration_received (packet_type == packet_rq_payload) d in
                  both-IsGood r.num_sbn (use_payload N r data_frame r.rq) (v.small on)
                    (use_payload-IsSafe N Whole laws repairs r data_frame on (v.small on)
                      (fits.1 (
                        kind packet_type packet_rq_payload p (
                          second_true r.configuration_received (packet_type == packet_rq_payload)
                            d)))
                      v.valid)
                    (use_payload-KeepsBlocks N r data_frame r.rq on))
                (λ d. v))

  -- The end of a run.
  unfoldable pub IsOver : Over N → Type 0
  IsOver (ends by_file r) = IsWhole r
  IsOver (ends by_signal r) = IsValid N Whole r
  IsOver (ends by_error r) = IsValid N Whole r
  IsOver (ends by_other_file r) = Unit
  IsOver crashes = ⊥

  after_turn-IsOver :
      (t : Turn N) (go : Receiver N → Over N)
      → IsGood t
      → ((r : Receiver N) → IsSmall r → IsOver (go r))
      → IsOver (after_turn t go)
  unfolding IsGood IsOver
  after_turn-IsOver (continues r) go v k = k r v
  after_turn-IsOver (received r) go v k = v
  after_turn-IsOver (other_file r) go v k = tt
  after_turn-IsOver fault go v k = v

  turns-IsOver :
      (turns : List (Input × (List ℕ))) (r : Receiver N)
      → All (λ turn. FitsArrays turn.1) turns
      → IsSmall r
      → IsOver (receive N turns r)
  unfolding receive IsOver
  turns-IsOver [] r h v = v.valid
  turns-IsOver ((got_frame n, data_frame) ∷ turns) r (fits, h) v =
      after_turn-IsOver (receive_frame N r data_frame n) (receive N turns)
        (receive_frame-IsGood r data_frame n fits v) (λ q w. turns-IsOver turns q h w)
  turns-IsOver ((nothing, data_frame) ∷ turns) r (fits, h) v = turns-IsOver turns r h v
  turns-IsOver ((broken, data_frame) ∷ turns) r h v = v.valid

  start_receiver-IsSmall : (io : N.Io) → IsSmall (start_receiver N io)
  unfolding start_receiver
  start_receiver-IsSmall io = record {
    valid = record {
      coder = λ e. absurd (ground arith);
      blocks = λ c e h. absurd (ground arith);
      sizes = (refl, refl);
      symbol = λ c e h. absurd (ground arith);
      whole = λ c b e h m. absurd (ground arith);
      unmarked = λ b e. no_marks 128 b;
    };
    small = λ e. absurd (ground arith);
  }

  -- With a RaptorQ library that keeps its laws and makes no decoder of more than 128 blocks: on any
  -- readings whose arrays announce what fits, in any number, the receiver neither leaves its arrays
  -- nor uses a null coder; and it reports a file as received only when its decoder has repaired
  -- every block.
  pub receive-IsOver :
      (io : N.Io) (turns : List (Input × (List ℕ)))
      → All (λ turn. FitsArrays turn.1) turns
      → IsOver (receive N turns (start_receiver N io))
  receive-IsOver io turns h = turns-IsOver turns (start_receiver N io) h (start_receiver-IsSmall io)
