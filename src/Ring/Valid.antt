-- ===== src/Ring/Valid.antt =====
-- ring_buffer_posix.c: the representation invariant, and the sizes that the code computes.
use hermes_broadcast.Common.{
  ℕ, ◌+◌, ◌-◌, ◌%◌, ◌^◌, ◌≤◌, ◌<◌, true, List, ◌≡◌, arith, ltb, leb, if◌then◌else◌, length,
}
use native.Mathlib.Nat.{mod-eq_of_lt, mod-eq-sub-mod}
use native.Mathlib.Decide.{dec_lt}
use hermes_broadcast.Ring.{
  Ring, add_size, size_internal, free_size_internal, size_buffer, free_size, capacity, is_empty,
  reset, init, advance_pointer_n, retreat_pointer_n,
}

-- The pointers stand inside a storage that is no longer than half the address space, and they meet
-- in a full ring.
pub record IsValid (r : Ring) : Type 0 where
  pub stored : r.max ≤ length r.buffer
  pub small : r.max ≤ 2 ^ 63
  pub head_in : r.head < r.max
  pub tail_in : r.tail < r.max
  pub meets : r.full ≡ true → r.head ≡ r.tail

-- The bytes held.
abbrev pub used : Ring → ℕ
used r =
    if r.full
    then r.max
    else (if leb r.tail r.head then r.head - r.tail else r.max + r.head - r.tail)

-- The index `i` places after `t`, round a storage of `m` places.
abbrev pub at : ℕ → ℕ → ℕ → ℕ
at t i m = if ltb (t + i) m then t + i else t + i - m

pub add_size-mod : (t i m : ℕ) → m ≤ 2 ^ 63 → t < m → i ≤ m → add_size t i % m ≡ at t i m
add_size-mod t i m h ht hi = elim (dec_lt (t + i) m) [
  | yes p ↦ let e : add_size t i ≡ t + i = omega arith in rw (e, mod-eq_of_lt p) (ground arith)
  | no p ↦
      let e : add_size t i ≡ t + i = omega arith in
      let f : (t + i) % m ≡ t + i - m = omega (
        arith,
        mod-eq-sub-mod {n = t + i} {m = m} (omega arith),
        mod-eq_of_lt {n = t + i - m} {m = m} (omega arith),
      ) in
      rw (e, f) (ground arith)
]

pub used-le-max : {r : Ring} → IsValid r → used r ≤ r.max
used-le-max v = ground arith

-- `size_buffer` counts the bytes held and `circular_buf_free_size` the places left, with no wrap of
-- a `size_t`: together they make up the capacity.
pub sizes_lem :
    {r : Ring}
    → IsValid r
    → (size_buffer r ≡ used r)
      × (free_size r ≡ r.max - used r)
      × (size_buffer r + free_size r ≡ capacity r)
unfolding size_buffer free_size capacity
sizes_lem v = ground arith

pub size_internal-eq-used : {r : Ring} → IsValid r → size_internal r ≡ used r
unfolding size_internal
size_internal-eq-used v = ground arith

pub free_size_internal-eq : {r : Ring} → IsValid r → free_size_internal r ≡ r.max - used r
unfolding free_size_internal
free_size_internal-eq v = ground arith

-- What `circular_buf_init` and `circular_buf_reset` leave is valid and empty.
pub init-IsValid :
    (buffer : List ℕ) (size : ℕ)
    → 0 < size
    → size ≤ 2 ^ 63
    → size ≤ length buffer
    → IsValid (init buffer size)
      × (used (init buffer size) ≡ 0)
      × (is_empty (init buffer size) ≡ true)
unfolding init reset is_empty
init-IsValid buffer size p s h = ground arith

pub reset-IsValid : {r : Ring} → IsValid r → IsValid (reset r) × (used (reset r) ≡ 0)
unfolding reset
reset-IsValid v = ground arith

-- What a write of `len` bytes does to the pointers.
pub advance-IsValid :
    (r : Ring) (len : ℕ)
    → IsValid r
    → 0 < len
    → len ≤ r.max - used r
    → IsValid (advance_pointer_n r len)
      × (used (advance_pointer_n r len) ≡ used r + len)
      × ((advance_pointer_n r len).tail ≡ r.tail)
      × ((advance_pointer_n r len).head ≡ at r.head len r.max)
unfolding advance_pointer_n
advance-IsValid r len v p h = ground (arith, add_size-mod r.head len r.max)

-- What a read of `len` bytes does to the pointers.
pub retreat-IsValid :
    (r : Ring) (len : ℕ)
    → IsValid r
    → 0 < len
    → len ≤ used r
    → IsValid (retreat_pointer_n r len)
      × (used (retreat_pointer_n r len) ≡ used r - len)
      × ((retreat_pointer_n r len).tail ≡ at r.tail len r.max)
unfolding retreat_pointer_n
retreat-IsValid r len v p h = ground (arith, add_size-mod r.tail len r.max)
