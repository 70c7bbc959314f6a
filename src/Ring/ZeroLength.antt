-- ===== src/Ring/ZeroLength.antt =====
-- ring_buffer_posix.c: a read or a write of no bytes takes the branch for a copy round the end.
use hermes_broadcast.Common.{
  ℕ, ◌+◌, ◌%◌, ◌^◌, ◌<◌, Bool, false, List, Option, none, some, ◌≡◌, arith, ltb, if◌then◌else◌,
  length, drop, length-drop, length-take, length-append, take, ◌++◌, ◌∙◌, ap, refl,
}
use hermes_broadcast.Ring.{
  Ring, fault, add_size, sub_size, read_buffer, write_buffer, read_bytes, write_bytes, copy_in,
  copy_out,
}
use hermes_broadcast.Ring.Valid.{IsValid, add_size-mod}

-- More bytes than an array has are not copied.
copy_out_beyond : (src : List ℕ) (i n : ℕ) → length src < n → copy_out src i n ≡ none
unfolding copy_out
copy_out_beyond src i n h = ground arith

copy_in_beyond :
    (dst : List ℕ) (i : ℕ) (src : List ℕ) (n : ℕ) → length dst < n → copy_in dst i src n ≡ none
unfolding copy_in
copy_in_beyond dst i src n h = ground arith

read_nothing : (r : Ring) → IsValid r → length r.buffer < 2 ^ 63 → read_bytes r 0 ≡ none
unfolding read_bytes
read_nothing r v h = ground (
  arith,
  add_size-mod r.tail 0 r.max,
  copy_out_beyond r.buffer 0 (sub_size 0 (sub_size r.max r.tail)),
)

copy_in-length :
    (dst : List ℕ) (i : ℕ) (src : List ℕ) (n : ℕ) (out : List ℕ)
    → copy_in dst i src n ≡ some out
    → length out ≡ length dst
unfolding copy_in
copy_in-length dst i src n out e = ground (
  arith,
  length-append (take i dst) (take n src ++ drop (i + n) dst),
  length-append (take n src) (drop (i + n) dst),
  length-take i dst,
  length-take n src,
  length-drop (i + n) dst,
)

chain_none :
    (o : Option (List ℕ)) (f : List ℕ → Option (List ℕ))
    → ((m : List ℕ) → o ≡ some m → f m ≡ none)
    → elim o [ none ↦ none | some m ↦ f m ] ≡ none
chain_none none f h = refl
chain_none (some m) f h = h m refl

write_nothing :
    (r : Ring) (bs : List ℕ) → IsValid r → length r.buffer < 2 ^ 63 → write_bytes r bs 0 ≡ none
unfolding write_bytes
write_nothing r bs v h =
    let first = sub_size r.max r.head in
    let beyond = sub_size 0 first in
    let at_head : ltb r.head (add_size r.head 0 % r.max) ≡ false =
      ground (arith, add_size-mod r.head 0 r.max) in
    let big : length r.buffer < beyond = omega arith in
    ap (λ (t : Bool). if t then copy_in r.buffer r.head bs 0 else second first beyond) at_head
    ∙ chain_none (copy_in r.buffer r.head bs first) (λ buf. copy_in buf 0 (drop first bs) beyond)
        (λ mid e.
          copy_in_beyond mid 0 (drop first bs) beyond
            (omega (arith, copy_in-length r.buffer r.head bs first mid e)))
  where
    second : ℕ → ℕ → Option (List ℕ)
    second first beyond = elim (copy_in r.buffer r.head bs first) [
      | none ↦ none
      | some buf ↦ copy_in buf 0 (drop first bs) beyond
    ]

-- A call with length 0 on a valid ring takes the branch that copies round the end of the storage,
-- and the length of its second copy wraps: a read and a write of no bytes both leave the arrays.
pub zero_length_faults :
    (r : Ring) (bs : List ℕ)
    → IsValid r
    → length r.buffer < 2 ^ 63
    → (read_buffer r 0 ≡ fault) × (write_buffer r bs 0 ≡ fault)
unfolding read_buffer write_buffer
zero_length_faults r bs v h =
    (ground (arith, read_nothing r v h), ground (arith, write_nothing r bs v h))
