-- ===== src/Ring/Writes.antt =====
-- ring_buffer_posix.c: writes, and single bytes, as operations of the bounded byte queue.
use hermes_broadcast.Common.{
  ℕ, ◌+◌, ◌-◌, ◌≤◌, ◌<◌, true, false, List, ◌++◌, ◌≡◌, refl, sym, ap, ap₂, ◌∙◌, arith, leb, leb→le,
  Bool-cases, inl, inr, length, get_or, take,
}
use hermes_broadcast.Ring
use hermes_broadcast.Ring.{
  Ring, Attempt, waits, done, fault, write_buffer, advance_pointer_n, free_size_internal,
  finish_write,
}
use hermes_broadcast.Ring.Valid.{
  IsValid, used, at, used-le-max, free_size_internal-eq, advance-IsValid,
}
use hermes_broadcast.Ring.Window.{
  tabulate, tabulate_ext, tabulate-add, byte_at, contents, length-contents, take-drop-tabulate,
}
use hermes_broadcast.Ring.Writing.{after_write, write_bytes_lem}
use hermes_broadcast.Ring.Queue
use hermes_broadcast.Ring.Queue.{Outcome, waiting, ok, broken, view}

max-advance : (r : Ring) (len : ℕ) → (advance_pointer_n r len).max ≡ r.max
unfolding advance_pointer_n
max-advance r len = refl

buffer-advance : (r : Ring) (len : ℕ) → (advance_pointer_n r len).buffer ≡ r.buffer
unfolding advance_pointer_n
buffer-advance r len = refl

-- The ring with another storage of the same size.
abbrev pub with_buffer : Ring → List ℕ → Ring
with_buffer r out = record r { buffer = out }

pub with_buffer-IsValid :
    {r : Ring} {out : List ℕ}
    → IsValid r
    → length out ≡ length r.buffer
    → IsValid (with_buffer r out)
with_buffer-IsValid v l = ground arith

-- The bytes held before a write are where they were.
kept :
    (r : Ring) (bs : List ℕ) (len i : ℕ)
    → IsValid r
    → len ≤ r.max - used r
    → i < used r
    → after_write r bs len (at r.tail i r.max) ≡ get_or r.buffer (at r.tail i r.max) 0
kept r bs len i v h lt = ground arith

-- Behind them come the bytes written.
added :
    (r : Ring) (bs : List ℕ) (len i : ℕ)
    → IsValid r
    → len ≤ r.max - used r
    → i < len
    → after_write r bs len (at r.tail (used r + i) r.max) ≡ get_or bs (0 + i) 0
added r bs len i v h lt = ground arith

byte_at-advance :
    (r : Ring) (out : List ℕ) (len i : ℕ)
    → (advance_pointer_n (with_buffer r out) len).tail ≡ r.tail
    → byte_at (advance_pointer_n (with_buffer r out) len) i ≡ get_or out (at r.tail i r.max) 0
byte_at-advance r out len i t =
    let w = with_buffer r out in
    let index : at (advance_pointer_n w len).tail i (advance_pointer_n w len).max
        ≡ at r.tail i r.max =
      rw (t, max-advance w len) in
    ap₂ (λ b j. get_or b j 0) (buffer-advance w len) index

at-lt-max : (t i m : ℕ) → t < m → i ≤ m → at t i m < m
at-lt-max t i m h k = ground arith

pub contents-advance :
    (r : Ring) (bs out : List ℕ) (len : ℕ)
    → IsValid r
    → 0 < len
    → len ≤ r.max - used r
    → len ≤ length bs
    → length out ≡ length r.buffer
    → ((j : ℕ) → j < r.max → get_or out j 0 ≡ after_write r bs len j)
    → contents (advance_pointer_n (with_buffer r out) len) ≡ contents r ++ take len bs
contents-advance r bs out len v p h k l w =
    let after = advance_pointer_n (with_buffer r out) len in
    let (v', u, t, e) = advance-IsValid (with_buffer r out) len (with_buffer-IsValid v l) p h in
    let place : (i : ℕ)
        → i < used r + len
        → byte_at after i ≡ after_write r bs len (at r.tail i r.max) =
      λ i lt.
        byte_at-advance r out len i t
        ∙ w (at r.tail i r.max)
            (at-lt-max r.tail i r.max v.tail_in (omega (arith, used-le-max v))) in
    ap (λ n. tabulate n (byte_at after)) u
    ∙ tabulate-add (used r) len (used r + len) (byte_at after) refl
    ∙ ap₂ ◌++◌
        (tabulate_ext (used r) (byte_at after) (byte_at r)
          (λ i lt. place i (omega arith) ∙ kept r bs len i v h lt))
        (tabulate_ext len (λ i. byte_at after (used r + i)) (λ i. get_or bs (0 + i) 0)
            (λ i lt. place (used r + i) (omega arith) ∙ added r bs len i v h lt)
          ∙ sym (take-drop-tabulate bs 0 len (omega arith)))

write_done :
    {r : Ring} (bs : List ℕ) (len : ℕ)
    → IsValid r
    → 0 < len
    → len ≤ r.max - used r
    → len ≤ length bs
    → view (finish_write r len (Ring.write_bytes r bs len)) ≡ ok (contents r ++ take len bs) tt
write_done {r} bs len v p h k =
    let (out, e, l, w) = write_bytes_lem bs len v p (omega arith) k in
    rw e (ap (λ c. ok c tt) (contents-advance r bs out len v p h k l w))

-- A write of `len` bytes, at least one, to a valid ring: it waits until there is room for all of
-- them, and then adds the first `len` of the caller's behind those held. With `len` bytes at the
-- caller's pointer it makes no access outside an array.
pub write_refines :
    (r : Ring) (bs : List ℕ) (len : ℕ)
    → IsValid r
    → 0 < len
    → len ≤ length bs
    → view (write_buffer r bs len) ≡ Queue.write r.max bs len (contents r)
unfolding write_buffer Queue.write
write_refines r bs len v p k =
    rw (free_size_internal-eq v, length-contents r)
      (elim (Bool-cases (leb len (r.max - used r))) [
        | inl room ↦
            let e : leb (used r + len) r.max ≡ true = ground (arith, used-le-max v) in
            rw (room, e) (write_done bs len v p (leb→le len (r.max - used r) room) k)
        | inr full ↦
            let e : leb (used r + len) r.max ≡ false = ground (arith, used-le-max v) in rw (full, e)
      ])
