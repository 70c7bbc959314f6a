-- ===== src/Receiver/Blocks.antt =====
-- receiver.c: files of up to MAX_BLOCKS blocks, and of more.
use hermes_broadcast.Common.{
  ◌-◌, ◌==◌, get_or-set_ne, subst, sym, ap, ℕ, suc, ◌*◌, ◌%◌, ◌^◌, ◌≤◌, ◌<◌, bit_or, Bool, true,
  false, not, ◌&&◌, List, Option, none, some, ltb, leb, if◌then◌else◌, length, length-set, get_or,
  set, drop, ◌≡◌, ◌≢◌, refl, ◌∙◌, Bool-cases, inl, inr, arith,
}
use hermes_broadcast.Nanorq.{Nanorq, SymbolResult, added, ignored, duplicate, failed, is_added, tag}
use hermes_broadcast.Kiss.{max_payload}
use hermes_broadcast.Nanorq.Laws.{Laws}
use hermes_broadcast.Header.{byte}
use hermes_broadcast.Receiver.{
  Receiver, Turn, continues, received, other_file, fault, max_blocks, check_received, file_received,
  try_block, use_symbol, use_payload,
}

-- What a successful repair makes of a block, a property that later calls keep.
pub record Repairs (N : Nanorq) (Whole : N.Coder → ℕ → Type 0) : Type 0 where
  pub repaired :
      (c : N.Coder) (io : N.Io) (b : ℕ)
      → (N.repair_block c io b).0 ≡ true
      → Whole (N.repair_block c io b).1 b
  pub whole-repair :
      (c : N.Coder) (io : N.Io) (b d : ℕ) → Whole c d → Whole (N.repair_block c io b).1 d
  pub whole-add :
      (c : N.Coder) (bytes : List ℕ) (t : ℕ) (io : N.Io) (d : ℕ)
      → Whole c d
      → Whole (N.add_symbol c bytes t io).1 d

-- The coder of an accepted configuration has the blocks that the loop counts, with symbols that fit
-- the array, and a block that is marked as decoded is whole. None is marked before.
pub record IsValid (N : Nanorq) (Whole : N.Coder → ℕ → Type 0) (r : Receiver N) : Type 0 where
  pub coder : r.configuration_received ≡ true → r.rq ≢ none
  pub blocks :
      (c : N.Coder) → r.rq ≡ some c → r.configuration_received ≡ true → N.blocks c ≡ r.num_sbn
  pub sizes : (length r.esi ≡ max_blocks) × (length r.block_decoded ≡ max_blocks)
  pub symbol :
      (c : N.Coder) → r.rq ≡ some c → r.configuration_received ≡ true → (N.oti c).symbol_size ≤ 752
  pub whole :
      (c : N.Coder) (b : ℕ)
      → r.rq ≡ some c
      → r.configuration_received ≡ true
      → get_or r.block_decoded b false ≡ true
      → Whole c b
  pub unmarked : (b : ℕ) → r.configuration_received ≡ false → get_or r.block_decoded b false ≡ false

-- A turn on a file of at most 128 blocks: it does not fault, and leaves such a receiver.
unfoldable pub IsSafe : (N : Nanorq) → (N.Coder → ℕ → Type 0) → Turn N → Type 0
IsSafe N Whole (continues r) = IsValid N Whole r
IsSafe N Whole (received r) = IsValid N Whole r
IsSafe N Whole (other_file r) = IsValid N Whole r
IsSafe N Whole fault = ⊥

guarded_fault : {N : Nanorq} (b : Bool) (x : Turn N) → x ≡ fault → (if b then fault else x) ≡ fault
guarded_fault true x e = refl
guarded_fault false x e = e

module _ (N : Nanorq) (Whole : N.Coder → ℕ → Type 0) where
  guarded-IsSafe :
      (b : Bool) (x : Turn N)
      → b ≡ false
      → IsSafe N Whole x
      → IsSafe N Whole (if b then fault else x)
  guarded-IsSafe true x e v = absurd cc
  guarded-IsSafe false x e v = v

  check_received-IsSafe :
      (r : Receiver N) → r.num_sbn ≤ 128 → IsValid N Whole r → IsSafe N Whole (check_received r)
  unfolding check_received IsSafe
  check_received-IsSafe r h v =
      let few : ltb max_blocks r.num_sbn ≡ false = ground arith in
      elim (Bool-cases (file_received r.num_sbn r.block_decoded)) [
        | inl done ↦ rw (few, done) v
        | inr more ↦
            rw (few, more)
              (record {
                coder = v.coder;
                blocks = v.blocks;
                sizes = v.sizes;
                symbol = v.symbol;
                whole = v.whole;
                unmarked = v.unmarked;
              })
      ]

module _ (N : Nanorq) where
  -- More than 128 blocks: the loop over them reads beyond `block_decoded`.
  check_received_fault : (r : Receiver N) → 128 < r.num_sbn → check_received r ≡ fault
  unfolding check_received
  check_received_fault r h = ground arith

  try_block_fault :
      (r : Receiver N) (c : N.Coder) (sbn : ℕ) → 128 < r.num_sbn → try_block N r c sbn ≡ fault
  unfolding try_block
  try_block_fault r c sbn h = elim (Bool-cases (ltb sbn max_blocks)) [
    | inr out ↦ rw out refl
    | inl within ↦
        elim (Bool-cases
          (leb (N.block_symbols c sbn) (get_or r.esi sbn 0) && r.have_more_symbols)) [
            | inr few ↦ rw (within, few) (check_received_fault r h)
            | inl enough ↦ elim (Bool-cases ((N.repair_block c r.myio sbn).0)) [
              | inl ok ↦
                  rw (within, enough, ok)
                    (check_received_fault
                      (record r {
                        rq = some (N.repair_block c r.myio sbn).1;
                        myio = (N.repair_block c r.myio sbn).2;
                        block_decoded = set r.block_decoded sbn true;
                      })
                      h)
              | inr bad ↦
                  rw (within, enough, bad)
                    (check_received_fault
                      (record r {
                        rq = some (N.repair_block c r.myio sbn).1;
                        myio = (N.repair_block c r.myio sbn).2;
                      })
                      h)
            ]
          ]
  ]

  -- In a file of more than 128 blocks the first symbol that the decoder does not refuse makes the
  -- receiver access memory beyond its arrays.
  pub many_blocks_fault :
      (r : Receiver N) (c : N.Coder) (sbn : ℕ) (ret : SymbolResult)
      → 128 < r.num_sbn
      → ret ≢ failed
      → use_symbol N r c sbn ret ≡ fault
  unfolding use_symbol
  many_blocks_fault r c sbn failed h f = absurd (f refl)
  many_blocks_fault r c sbn ignored h f = try_block_fault r c sbn h
  many_blocks_fault r c sbn duplicate h f =
      try_block_fault (record r { have_more_symbols = false }) c sbn h
  many_blocks_fault r c sbn added h f =
      let r1 = record r {
        esi = set r.esi sbn (suc (get_or r.esi sbn 0) % 2 ^ 32);
        have_more_symbols = true;
      } in
      guarded_fault (not (ltb sbn max_blocks)) (try_block N r1 c sbn) (try_block_fault r1 c sbn h)

module _ (N : Nanorq) (Whole : N.Coder → ℕ → Type 0) where
  -- The coder and the file change, and the coder keeps its blocks, its symbols and what is whole.
  renewed-IsValid :
      (r : Receiver N) (c : N.Coder) (io : N.Io)
      → r.configuration_received ≡ true
      → IsValid N Whole r
      → N.blocks c ≡ r.num_sbn
      → (N.oti c).symbol_size ≤ 752
      → ((b : ℕ) → get_or r.block_decoded b false ≡ true → Whole c b)
      → IsValid N Whole (record r { rq = some c; myio = io })
  renewed-IsValid r c io on v e small kept = record {
    coder = λ h. ground arith;
    blocks = λ d h k. ground arith;
    sizes = v.sizes;
    symbol = λ d h k. ground arith;
    whole = λ d b h k m. subst (λ x. Whole x b) (same c d h) (kept b m);
    unmarked = λ b off. absurd (ground arith);
  }
    where
      same : (c d : N.Coder) → some c ≡ some d → c ≡ d
      same c d h = cc

  marked-IsValid :
      (r : Receiver N) (sbn : ℕ)
      → r.configuration_received ≡ true
      → IsValid N Whole r
      → ((c : N.Coder) → r.rq ≡ some c → Whole c sbn)
      → IsValid N Whole (record r { block_decoded = set r.block_decoded sbn true })
  marked-IsValid r sbn on v done = record {
    coder = v.coder;
    blocks = v.blocks;
    sizes = ((v.sizes).0, length-set r.block_decoded sbn true ∙ (v.sizes).1);
    symbol = v.symbol;
    whole = λ c b h k m. elim (Bool-cases (sbn == b)) [
      | inl here ↦ subst (λ x. Whole c x) (ground arith) (done c h)
      | inr other ↦
          v.whole c b h k (sym (get_or-set_ne r.block_decoded sbn b true false (ground arith)) ∙ m)
    ];
    unmarked = λ b off. absurd (ground arith);
  }

  counted-IsValid :
      (r : Receiver N) (sbn m : ℕ) (more : Bool)
      → IsValid N Whole r
      → IsValid N Whole (record r { esi = set r.esi sbn m; have_more_symbols = more })
  counted-IsValid r sbn m more v = record {
    coder = v.coder;
    blocks = v.blocks;
    sizes = (length-set r.esi sbn m ∙ (v.sizes).0, (v.sizes).1);
    symbol = v.symbol;
    whole = v.whole;
    unmarked = v.unmarked;
  }

module _ (N : Nanorq) (Whole : N.Coder → ℕ → Type 0) (laws : Laws N)
    (repairs : Repairs N Whole) where
  try_block-IsSafe :
      (r : Receiver N) (c : N.Coder) (sbn : ℕ)
      → r.configuration_received ≡ true
      → r.rq ≡ some c
      → r.num_sbn ≤ 128
      → sbn < 128
      → IsValid N Whole r
      → IsSafe N Whole (try_block N r c sbn)
  unfolding try_block
  try_block-IsSafe r c sbn on has few h v =
      let within : ltb sbn max_blocks ≡ true = ground arith in
      let (repaired, c1, io1) = N.repair_block c r.myio sbn in
      let r1 = record r { rq = some c1; myio = io1 } in
      let v1 : IsValid N Whole r1 =
        renewed-IsValid N Whole r c1 io1 on v (laws.blocks-repair c r.myio sbn ∙ v.blocks c has on)
          (omega (arith, v.symbol c has on, ap (λ o. o.symbol_size) (laws.oti-repair c r.myio sbn)))
          (λ b m. repairs.whole-repair c r.myio sbn b (v.whole c b has on m)) in
      elim (Bool-cases (leb (N.block_symbols c sbn) (get_or r.esi sbn 0) && r.have_more_symbols)) [
        | inr less ↦ rw (within, less) (check_received-IsSafe N Whole r few v)
        | inl enough ↦ elim (Bool-cases repaired) [
          | inl ok ↦
              rw (within, enough, ok)
                (check_received-IsSafe N Whole
                  (record r1 { block_decoded = set r.block_decoded sbn true }) few
                  (marked-IsValid N Whole r1 sbn on v1 (λ d e.
                    subst (λ x. Whole x sbn) (same c1 d e) (repairs.repaired c r.myio sbn ok))))
          | inr bad ↦ rw (within, enough, bad) (check_received-IsSafe N Whole r1 few v1)
        ]
      ]
    where
      same : (c d : N.Coder) → some c ≡ some d → c ≡ d
      same c d h = cc

  use_symbol-IsSafe :
      (r : Receiver N) (c : N.Coder) (sbn : ℕ) (ret : SymbolResult)
      → r.configuration_received ≡ true
      → r.rq ≡ some c
      → r.num_sbn ≤ 128
      → sbn < 128
      → IsValid N Whole r
      → IsSafe N Whole (use_symbol N r c sbn ret)
  unfolding use_symbol IsSafe
  use_symbol-IsSafe r c sbn failed on has few h v = v
  use_symbol-IsSafe r c sbn ignored on has few h v = try_block-IsSafe r c sbn on has few h v
  use_symbol-IsSafe r c sbn duplicate on has few h v =
      try_block-IsSafe (record r { have_more_symbols = false }) c sbn on has few h
        (record {
          coder = v.coder;
          blocks = v.blocks;
          sizes = v.sizes;
          symbol = v.symbol;
          whole = v.whole;
          unmarked = v.unmarked;
        })
  use_symbol-IsSafe r c sbn added on has few h v =
      let m = suc (get_or r.esi sbn 0) % 2 ^ 32 in
      let within : not (ltb sbn max_blocks) ≡ false = ground arith in
      let r1 = record r { esi = set r.esi sbn m; have_more_symbols = true } in
      guarded-IsSafe N Whole (not (ltb sbn max_blocks)) (try_block N r1 c sbn) within
        (try_block-IsSafe r1 c sbn on has few h (counted-IsValid N Whole r sbn m true v))

  -- With a RaptorQ library that keeps its laws, a payload of one of the blocks that the arrays
  -- have, on a file of at most 128 blocks whose configuration was accepted by a well-formed
  -- receiver: its turn touches nothing beyond the arrays and no null pointer, and leaves a
  -- well-formed receiver.
  pub use_payload-IsSafe :
      (r : Receiver N) (data_frame : List ℕ)
      → r.configuration_received ≡ true
      → r.num_sbn ≤ 128
      → byte data_frame 1 < 128
      → IsValid N Whole r
      → IsSafe N Whole (use_payload N r data_frame r.rq)
  unfolding use_payload
  use_payload-IsSafe r data_frame on few h v = with_coder r.rq refl
    where
      with_coder : (c : Option N.Coder) → r.rq ≡ c → IsSafe N Whole (use_payload N r data_frame c)
      with_coder none e = absurd (v.coder on e)
      with_coder (some c) e =
          let sbn = byte data_frame 1 in
          let t = tag sbn (bit_or (byte data_frame 2) (byte data_frame 3 * 2 ^ 8)) in
          let bytes = drop 4 data_frame in
          let (ret, c1, io1) = N.add_symbol c bytes t r.myio in
          let small : (N.oti c).symbol_size ≤ 752 = v.symbol c e on in
          let r1 = record r { rq = some c1; myio = io1 } in
          guarded-IsSafe N Whole (is_added ret && ltb (max_payload - 4) (N.oti c).symbol_size)
            (use_symbol N r1 c1 sbn ret) (ground arith)
            (use_symbol-IsSafe r1 c1 sbn ret on refl few h (
              renewed-IsValid N Whole r c1 io1 on v
                (laws.blocks-add c bytes t r.myio ∙ v.blocks c e on)
                (omega (arith, small, ap (λ o. o.symbol_size) (laws.oti-add c bytes t r.myio)))
                (λ b m. repairs.whole-add c bytes t r.myio b (v.whole c b e on m))))
