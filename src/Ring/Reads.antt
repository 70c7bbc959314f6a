-- ===== src/Ring/Reads.antt =====
-- ring_buffer_posix.c: on a valid ring each call is the operation of the bounded byte queue.
use hermes_broadcast.Common.{
  ℕ, ◌+◌, ◌-◌, ◌≤◌, ◌<◌, ◌≡◌, refl, sym, ap, ap₂, ◌∙◌, arith, leb, leb→le, Bool-cases, inl, inr,
  get_or, take, drop,
}
use hermes_broadcast.Ring
use hermes_broadcast.Ring.{
  Ring, Attempt, waits, done, fault, read_buffer, read_buffer_all, write_buffer, advance_pointer_n,
  retreat_pointer_n, size_internal, free_size_internal, finish_read, finish_write,
}
use hermes_broadcast.Ring.Valid.{
  IsValid, used, at, used-le-max, size_internal-eq-used, retreat-IsValid,
}
use hermes_broadcast.Ring.Window.{
  tabulate, tabulate_ext, byte_at, contents, length-contents, take-tabulate, drop-tabulate,
  read_bytes_lem,
}
use hermes_broadcast.Ring.Queue
use hermes_broadcast.Ring.Queue.{Outcome, waiting, ok, broken, view}

max-retreat : (r : Ring) (len : ℕ) → (retreat_pointer_n r len).max ≡ r.max
unfolding retreat_pointer_n
max-retreat r len = refl

buffer-retreat : (r : Ring) (len : ℕ) → (retreat_pointer_n r len).buffer ≡ r.buffer
unfolding retreat_pointer_n
buffer-retreat r len = refl

at-at : (t l i m : ℕ) → t < m → l + i < m → at (at t l m) i m ≡ at t (l + i) m
at-at t l i m h k = ground arith

byte_at-retreat :
    (r : Ring) (len i : ℕ)
    → IsValid r
    → len ≤ used r
    → (retreat_pointer_n r len).tail ≡ at r.tail len r.max
    → i < used r - len
    → byte_at (retreat_pointer_n r len) i ≡ byte_at r (len + i)
byte_at-retreat r len i v h t lt =
    let index : at (retreat_pointer_n r len).tail i (retreat_pointer_n r len).max
        ≡ at r.tail (len + i) r.max =
      rw (t, max-retreat r len)
        (at-at r.tail len i r.max v.tail_in (omega (arith, used-le-max v))) in
    ap₂ (λ b j. get_or b j 0) (buffer-retreat r len) index

-- A read of `len` bytes leaves the bytes behind them.
pub contents-retreat :
    (r : Ring) (len : ℕ)
    → IsValid r
    → 0 < len
    → len ≤ used r
    → contents (retreat_pointer_n r len) ≡ drop len (contents r)
contents-retreat r len v p h =
    let (v', u, t) = retreat-IsValid r len v p h in
    ap (λ n. tabulate n (byte_at (retreat_pointer_n r len))) u
    ∙ tabulate_ext (used r - len) (byte_at (retreat_pointer_n r len)) (λ i. byte_at r (len + i))
        (λ i lt. byte_at-retreat r len i v h t lt)
    ∙ sym (drop-tabulate len (used r - len) (used r) (byte_at r) (omega arith))

pub read_done :
    {r : Ring} (len : ℕ)
    → IsValid r
    → 0 < len
    → len ≤ used r
    → view (finish_read r len (Ring.read_bytes r len))
      ≡ ok (drop len (contents r)) (take len (contents r))
read_done {r} len v p h =
    rw (read_bytes_lem len v p (omega (arith, used-le-max v)))
      (ap₂ ok (contents-retreat r len v p h) (sym (take-tabulate len (used r) (byte_at r) h)))

-- A read of at least one byte from a valid ring: it waits until `len` bytes are held, and then
-- hands out the oldest `len` and leaves the others. It makes no access outside the storage.
pub read_refines :
    (r : Ring) (len : ℕ)
    → IsValid r
    → 0 < len
    → view (read_buffer r len) ≡ Queue.read len (contents r)
unfolding read_buffer Queue.read
read_refines r len v p =
    rw (size_internal-eq-used v, length-contents r)
      (elim (Bool-cases (leb len (used r))) [
        | inl there ↦ rw there (read_done len v p (leb→le len (used r) there))
        | inr short ↦ rw short
      ])
