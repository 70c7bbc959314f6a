-- ===== src/Net/Reading.antt =====
-- net.c: `tcp_read` fills its buffer exactly, and leaves what comes behind it.
use hermes_broadcast.Common.{
  ℕ, zero, suc, ◌-◌, ◌≤◌, ◌<◌, true, List, [], ◌∷◌, ◌++◌, some, length, length-append, length-take,
  take, take_all, ◌≡◌, refl, ap, ◌∙◌, arith,
}
use mathlib.Core.List.{append_assoc}
use hermes_broadcast.Net.{Recv, closed, interrupted, error, chunk, asked, tcp_read}

abbrev pub stream : List Recv → List ℕ
stream [] = []
stream (chunk bs ∷ rs) = bs ++ stream rs
stream (_ ∷ rs) = stream rs

-- The connection brings the missing bytes, in chunks that are not empty and not longer than asked
-- for, before it is closed or fails.
abbrev pub Brings : ℕ → List Recv → Type 0
Brings zero rs = Unit
Brings (suc left) [] = ⊥
Brings (suc left) (closed ∷ rs) = ⊥
Brings (suc left) (error ∷ rs) = ⊥
Brings (suc left) (interrupted ∷ rs) = Brings (suc left) rs
Brings (suc left) (chunk bs ∷ rs) =
    (0 < length bs) × (length bs ≤ asked (suc left)) × Brings (suc left - length bs) rs

asked_le : (left : ℕ) → asked left ≤ left
asked_le left = ground arith

-- The buffer of `left` bytes is never overrun, and if the call succeeds it is full.
pub tcp_read_bounds :
    (left : ℕ) (rs : List Recv)
    → (length (tcp_read left rs).buffer ≤ left)
      × ((tcp_read left rs).ret ≡ some true → length (tcp_read left rs).buffer ≡ left)
unfolding tcp_read
tcp_read_bounds zero rs = (omega arith, λ e. refl)
tcp_read_bounds (suc left) [] = (omega arith, λ e. absurd (ground arith))
tcp_read_bounds (suc left) (closed ∷ rs) = (omega arith, λ e. absurd (ground arith))
tcp_read_bounds (suc left) (error ∷ rs) = (omega arith, λ e. absurd (ground arith))
tcp_read_bounds (suc left) (interrupted ∷ rs) = tcp_read_bounds (suc left) rs
tcp_read_bounds (suc left) (chunk [] ∷ rs) = (omega arith, λ e. absurd (ground arith))
tcp_read_bounds (suc left) (chunk (b ∷ bs) ∷ rs) =
    let got = take (asked (suc left)) (b ∷ bs) in
    let fits : length got ≤ suc left =
      omega (arith, length-take (asked (suc left)) (b ∷ bs), asked_le (suc left)) in
    let r = tcp_read (suc left - length got) rs in
    let (most, full) = tcp_read_bounds (suc left - length got) rs in
    (
      omega (arith, length-append got r.buffer),
      λ e. omega (arith, length-append got r.buffer, full e),
    )

-- A call for `left` bytes over a connection that brings them succeeds, through interruptions and
-- however they are cut: the buffer receives the first `left` bytes of the stream, and the rest of the
-- stream is still to come.
pub tcp_read_lem :
    (left : ℕ) (rs : List Recv)
    → Brings left rs
    → let r = tcp_read left rs in
      (r.ret ≡ some true) × (length r.buffer ≡ left) × (r.buffer ++ stream r.socket ≡ stream rs)
unfolding tcp_read
tcp_read_lem zero rs h = (refl, refl, refl)
tcp_read_lem (suc left) [] h = absurd h
tcp_read_lem (suc left) (closed ∷ rs) h = absurd h
tcp_read_lem (suc left) (error ∷ rs) h = absurd h
tcp_read_lem (suc left) (interrupted ∷ rs) h = tcp_read_lem (suc left) rs h
tcp_read_lem (suc left) (chunk [] ∷ rs) (some_bytes, fits, more) = absurd (omega arith)
tcp_read_lem (suc left) (chunk (b ∷ bs) ∷ rs) (some_bytes, fits, more) =
    let whole : take (asked (suc left)) (b ∷ bs) ≡ b ∷ bs =
      take_all (asked (suc left)) (b ∷ bs) fits in
    let le : length (b ∷ bs) ≤ suc left = omega (arith, asked_le (suc left)) in
    let r = tcp_read (suc left - length (b ∷ bs)) rs in
    let (ok, full, kept) = tcp_read_lem (suc left - length (b ∷ bs)) rs more in
    rw whole (
      ok,
      length-append (b ∷ bs) r.buffer ∙ omega arith,
      append_assoc (b ∷ bs) r.buffer (stream r.socket) ∙ ap (λ l. (b ∷ bs) ++ l) kept,
    )
