-- ===== src/Daemon/Receive/Symbols.antt =====
-- daemon.c: a symbol that the receiving thread adds leaves its session well-formed, without a fault.
use hermes_broadcast.Common.{
  ℕ, suc, ◌%◌, ◌^◌, ◌<◌, true, false, not, ◌&&◌, List, Option, none, some, ltb, leb, length, ◌-◌,
  ◌≤◌, ap, length-set, get_or, set, drop, ◌≡◌, ◌≢◌, refl, ◌∙◌, Bool-cases, inl, inr, arith,
}
use hermes_broadcast.Nanorq.{Nanorq, SymbolResult, added, ignored, duplicate, failed, is_added, tag}
use hermes_broadcast.Kiss.{max_payload}
use hermes_broadcast.Nanorq.Laws.{Laws}
use hermes_broadcast.Header.Oti.{tag_block}
use hermes_broadcast.Daemon.Receive.{
  RxSession, frame_sbn, frame_esi, rx_session_reset, rx_session_is_complete, rx_symbol_added,
  rx_symbol_result, rx_add_symbol, rx_finish, finish_some, rx_use_frame,
}

-- The arrays have an entry for each block of the coder, an active session has a coder and a file,
-- and the symbols of the coder fit the array behind the header.
pub record IsValid {N : Nanorq} (rx : RxSession N) : Type 0 where
  pub decoded : length rx.block_decoded ≡ rx.num_sbn
  pub seen : length rx.block_symbols_seen ≡ rx.num_sbn
  pub blocks : (c : N.Coder) → rx.rq ≡ some c → N.blocks c ≡ rx.num_sbn
  pub coder : rx.active ≡ true → rx.rq ≢ none
  pub file : rx.active ≡ true → rx.myio ≢ none
  pub symbol : (c : N.Coder) → rx.rq ≡ some c → (N.oti c).symbol_size ≤ 744

-- A call returns, with a session of which `P` holds.
abbrev pub Returns : {A : Type 0} → (A → Type 0) → Option A → Type 0
Returns P none = ⊥
Returns P (some x) = P x

module _ (N : Nanorq) (laws : Laws N) where
  pub reset-IsValid : (rx : RxSession N) → IsValid (rx_session_reset rx)
  unfolding rx_session_reset
  reset-IsValid rx = record {
    decoded = refl;
    seen = refl;
    blocks = λ c e. absurd (ground arith);
    coder = λ e. absurd (ground arith);
    file = λ e. absurd (ground arith);
    symbol = λ c e. absurd (ground arith);
  }

  finish-IsValid : (rx : RxSession N) → IsValid rx → IsValid (rx_finish rx)
  unfolding rx_finish
  finish-IsValid rx v = elim (Bool-cases (rx_session_is_complete rx)) [
    | inl done ↦ rw done (
        reset-IsValid (record rx {
          completed_last = true;
          last_completed_oti_common = rx.oti_common;
          last_completed_oti_scheme = rx.oti_scheme;
        }))
    | inr more ↦ rw more v
  ]

  -- A session with another coder of as many blocks, and another file.
  renewed-IsValid :
      (rx : RxSession N) (c : N.Coder) (io : N.Io)
      → IsValid rx
      → N.blocks c ≡ rx.num_sbn
      → (N.oti c).symbol_size ≤ 744
      → IsValid (record rx { rq = some c; myio = some io })
  renewed-IsValid rx c io v e small = record {
    decoded = v.decoded;
    seen = v.seen;
    blocks = λ c' h. ground arith;
    coder = λ h. ground arith;
    file = λ h. ground arith;
    symbol = λ c' h. ground arith;
  }

  counted-IsValid :
      (rx : RxSession N) (sbn n : ℕ)
      → IsValid rx
      → IsValid (record rx { block_symbols_seen = set rx.block_symbols_seen sbn n })
  counted-IsValid rx sbn n v = record {
    decoded = v.decoded;
    seen = length-set rx.block_symbols_seen sbn n ∙ v.seen;
    blocks = v.blocks;
    coder = v.coder;
    file = v.file;
    symbol = v.symbol;
  }

  marked-IsValid :
      (rx : RxSession N) (sbn : ℕ)
      → IsValid rx
      → IsValid (record rx { block_decoded = set rx.block_decoded sbn true })
  marked-IsValid rx sbn v = record {
    decoded = length-set rx.block_decoded sbn true ∙ v.decoded;
    seen = v.seen;
    blocks = v.blocks;
    coder = v.coder;
    file = v.file;
    symbol = v.symbol;
  }

  rx_symbol_added-Returns :
      (rx : RxSession N) (c : N.Coder) (io : N.Io) (sbn : ℕ)
      → IsValid rx
      → N.blocks c ≡ rx.num_sbn
      → sbn < rx.num_sbn
      → (N.oti c).symbol_size ≤ 744
      → Returns IsValid (rx_symbol_added N rx c io sbn)
  unfolding rx_symbol_added
  rx_symbol_added-Returns rx c io sbn v e h small =
      let n = suc (get_or rx.block_symbols_seen sbn 0) % 2 ^ 32 in
      let in_seen : ltb sbn (length rx.block_symbols_seen) ≡ true = ground (arith, v.seen) in
      let in_decoded : ltb sbn (length rx.block_decoded) ≡ true = ground (arith, v.decoded) in
      let rx1 = record rx { block_symbols_seen = set rx.block_symbols_seen sbn n } in
      let v1 : IsValid rx1 = counted-IsValid rx sbn n v in
      let (repaired, c1, io1) = N.repair_block c io sbn in
      let v2 =
        renewed-IsValid rx1 c1 io1 v1 (laws.blocks-repair c io sbn ∙ e)
          (omega (arith, ap (λ o. o.symbol_size) (laws.oti-repair c io sbn))) in
      rw (in_seen, in_decoded)
        (elim (Bool-cases
          (not (get_or rx.block_decoded sbn false) && leb (N.block_symbols c sbn) n)) [
            | inr few ↦ rw few v1
            | inl enough ↦ rw enough (elim (Bool-cases repaired) [
              | inl ok ↦
                  rw ok (marked-IsValid (record rx1 { rq = some c1; myio = some io1 }) sbn v2)
              | inr bad ↦ rw bad v2
            ])
          ])

  rx_symbol_result-Returns :
      (rx : RxSession N) (c : N.Coder) (io : N.Io) (sbn : ℕ) (ret : SymbolResult)
      → IsValid rx
      → N.blocks c ≡ rx.num_sbn
      → (ret ≡ added → sbn < rx.num_sbn)
      → (N.oti c).symbol_size ≤ 744
      → Returns IsValid (rx_symbol_result N rx c io sbn ret)
  unfolding rx_symbol_result
  rx_symbol_result-Returns rx c io sbn added v e h small =
      rx_symbol_added-Returns rx c io sbn v e (h refl) small
  rx_symbol_result-Returns rx c io sbn ignored v e h small = v
  rx_symbol_result-Returns rx c io sbn duplicate v e h small = v
  rx_symbol_result-Returns rx c io sbn failed v e h small = v

  rx_add_symbol-Returns :
      (rx : RxSession N) (frame : List ℕ) (c : Option N.Coder) (io : Option N.Io)
      → IsValid rx
      → rx.rq ≡ c
      → c ≢ none
      → io ≢ none
      → frame_sbn frame < 256
      → frame_esi frame < 2 ^ 16
      → Returns IsValid (rx_add_symbol N rx frame c io)
  unfolding rx_add_symbol
  rx_add_symbol-Returns rx frame none io v e nc nio hs he = nc refl
  rx_add_symbol-Returns rx frame (some c) none v e nc nio hs he = nio refl
  rx_add_symbol-Returns rx frame (some c) (some io) v e nc nio hs he =
      let sbn = frame_sbn frame in
      let t = tag sbn (frame_esi frame) in
      let bytes = drop 12 frame in
      let (ret, c1, io1) = N.add_symbol c bytes t io in
      let before : N.blocks c ≡ rx.num_sbn = v.blocks c e in
      let same : N.blocks c1 ≡ rx.num_sbn = laws.blocks-add c bytes t io ∙ before in
      let small : (N.oti c).symbol_size ≤ 744 = v.symbol c e in
      let small1 : (N.oti c1).symbol_size ≤ 744 =
        omega (arith, small, ap (λ o. o.symbol_size) (laws.oti-add c bytes t io)) in
      let fits : (is_added ret && ltb (max_payload - 12) (N.oti c).symbol_size) ≡ false =
        ground arith in
      rw fits (
        rx_symbol_result-Returns (record rx { rq = some c1; myio = some io1 }) c1 io1 sbn ret
          (renewed-IsValid rx c1 io1 v same small1) same
          (λ h.
            omega (
              arith,
              laws.added_block c bytes t io h,
              tag_block sbn (frame_esi frame) hs he,
              before,
            ))
          small1)

  finish_some-Returns :
      (r : Option (RxSession N)) → Returns IsValid r → Returns IsValid (finish_some r)
  unfolding finish_some
  finish_some-Returns none v = v
  finish_some-Returns (some rx) v = finish-IsValid rx v

  pub rx_use_frame-Returns :
      (rx : RxSession N) (frame : List ℕ)
      → IsValid rx
      → rx.active ≡ true
      → frame_sbn frame < 256
      → frame_esi frame < 2 ^ 16
      → Returns IsValid (rx_use_frame N rx frame)
  unfolding rx_use_frame
  rx_use_frame-Returns rx frame v on hs he =
      finish_some-Returns (rx_add_symbol N rx frame rx.rq rx.myio)
        (rx_add_symbol-Returns rx frame rx.rq rx.myio v refl (v.coder on) (v.file on) hs he)
