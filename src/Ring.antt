-- ===== src/Ring.antt =====
-- ring_buffer_posix.c and ring_buffer_posix.h: the ring buffer that the programs share with the
-- modem. A function's critical section is one step, since it holds the mutex throughout; a call that
-- finds no room or no data waits on the condition and tries again, so a call's step is an attempt
-- that says `none` when it waits. `size_t` sums are taken modulo 2 ^ 64.
pub mod Valid
pub mod Window
pub mod Writing
pub mod Queue
pub mod Reads
pub mod Writes
pub mod Calls
pub mod Keeps
pub mod ZeroLength
pub mod Shared
mod Tests
use hermes_broadcast.Common.{
  ℕ, ◌+◌, ◌-◌, ◌%◌, ◌^◌, Bool, true, false, not, ◌&&◌, List, [], ◌∷◌, ◌++◌, Option, none, some, ltb,
  leb, ◌==◌, if◌then◌else◌, get_or, set, length, take, drop,
}

-- `circular_buf_t_aux` with the storage that `circular_buf_t` points to.
pub record Ring : Type 0 where
  pub head : ℕ
  pub tail : ℕ
  pub max : ℕ
  pub full : Bool
  pub buffer : List ℕ

abbrev pub add_size : ℕ → ℕ → ℕ
add_size a b = (a + b) % 2 ^ 64

abbrev pub sub_size : ℕ → ℕ → ℕ
sub_size a b = (a + 2 ^ 64 - b) % 2 ^ 64

-- `memcpy(dst + i, src, n)` with `n` bytes of `src`: `none` where it leaves either array.
unfoldable pub copy_in : List ℕ → ℕ → List ℕ → ℕ → Option (List ℕ)
copy_in dst i src n =
    if leb (i + n) (length dst) && leb n (length src)
    then some (take i dst ++ (take n src ++ drop (i + n) dst))
    else none

-- `memcpy(out, src + i, n)`: the bytes read.
unfoldable pub copy_out : List ℕ → ℕ → ℕ → Option (List ℕ)
copy_out src i n = if leb (i + n) (length src) then some (take n (drop i src)) else none

unfoldable pub advance_pointer_n : Ring → ℕ → Ring
advance_pointer_n r len =
    let tail' = if r.full then add_size r.tail len % r.max else r.tail in
    let head' = add_size r.head len % r.max in
    record r { head = head'; tail = tail'; full = head' == tail' }

unfoldable pub advance_pointer : Ring → Ring
advance_pointer r =
    let tail' = if r.full then add_size r.tail 1 % r.max else r.tail in
    let head' = add_size r.head 1 % r.max in
    record r { head = head'; tail = tail'; full = head' == tail' }

unfoldable pub retreat_pointer_n : Ring → ℕ → Ring
retreat_pointer_n r len = record r { full = false; tail = add_size r.tail len % r.max }

unfoldable pub retreat_pointer : Ring → Ring
retreat_pointer r = record r { full = false; tail = add_size r.tail 1 % r.max }

-- `circular_buf_size_internal`, and `size_buffer` under the mutex.
unfoldable pub size_internal : Ring → ℕ
size_internal r =
    if not r.full
    then (if leb r.tail r.head
        then sub_size r.head r.tail
        else sub_size (add_size r.max r.head) r.tail)
    else r.max

-- `circular_buf_free_size_internal`, and `circular_buf_free_size` under the mutex.
unfoldable pub free_size_internal : Ring → ℕ
free_size_internal r =
    if not r.full
    then (if leb r.tail r.head
        then sub_size r.max (sub_size r.head r.tail)
        else sub_size r.tail r.head)
    else 0

unfoldable pub size_buffer : Ring → ℕ
size_buffer r =
    if not r.full
    then (if leb r.tail r.head
        then sub_size r.head r.tail
        else sub_size (add_size r.max r.head) r.tail)
    else r.max

unfoldable pub free_size : Ring → ℕ
free_size r =
    if not r.full
    then (if leb r.tail r.head
        then sub_size r.max (sub_size r.head r.tail)
        else sub_size r.tail r.head)
    else 0

unfoldable pub reset : Ring → Ring
reset r = record r { head = 0; tail = 0; full = false }

unfoldable pub capacity : Ring → ℕ
capacity r = r.max

unfoldable pub is_empty : Ring → Bool
is_empty r = not r.full && r.head == r.tail

unfoldable pub is_full : Ring → Bool
is_full r = r.full

-- How an attempt ends: it waits, it returns the new ring and what it hands out, or it makes an
-- access outside an array.
pub data Attempt {ℓ} (A : Type ℓ) : Type ℓ where
  waits : Attempt A
  done : Ring → A → Attempt A
  fault : Attempt A

-- A store or a load outside the storage is the fault.
unfoldable pub put : Ring → ℕ → Attempt (Unit {0})
put r b =
    if not r.full
    then (if ltb r.head (length r.buffer)
        then done (advance_pointer (record r { buffer = set r.buffer r.head b })) tt
        else fault)
    else waits

unfoldable pub get : Ring → Attempt ℕ
get r =
    if not (not r.full && r.head == r.tail)
    then (if ltb r.tail (length r.buffer)
        then done (retreat_pointer r) (get_or r.buffer r.tail 0)
        else fault)
    else waits

-- The bytes that the two branches of a read copy out, of a length found to be there.
unfoldable pub read_bytes : Ring → ℕ → Option (List ℕ)
read_bytes r len =
    if ltb r.tail (add_size r.tail len % r.max)
    then copy_out r.buffer r.tail len
    else (let first = sub_size r.max r.tail in
        elim (copy_out r.buffer r.tail first) [
          | none ↦ none
          | some xs ↦ elim (copy_out r.buffer 0 (sub_size len first)) [
            | none ↦ none
            | some ys ↦ some (xs ++ ys)
          ]
        ])

abbrev pub finish_read : Ring → ℕ → Option (List ℕ) → Attempt (List ℕ)
finish_read r len none = fault
finish_read r len (some bs) = done (retreat_pointer_n r len) bs

unfoldable pub read_buffer : Ring → ℕ → Attempt (List ℕ)
read_buffer r len =
    if leb len (size_internal r) then finish_read r len (read_bytes r len) else waits

unfoldable pub read_buffer_all : Ring → Attempt (List ℕ)
read_buffer_all r =
    if ltb 0 (size_internal r)
    then finish_read r (size_internal r) (read_bytes r (size_internal r))
    else waits

-- The storage after the two branches of a write.
unfoldable pub write_bytes : Ring → List ℕ → ℕ → Option (List ℕ)
write_bytes r bs len =
    if ltb r.head (add_size r.head len % r.max)
    then copy_in r.buffer r.head bs len
    else (let first = sub_size r.max r.head in
        elim (copy_in r.buffer r.head bs first) [
          | none ↦ none
          | some buf ↦ copy_in buf 0 (drop first bs) (sub_size len first)
        ])

abbrev pub finish_write : Ring → ℕ → Option (List ℕ) → Attempt (Unit {0})
finish_write r len none = fault
finish_write r len (some buf) = done (advance_pointer_n (record r { buffer = buf }) len) tt

unfoldable pub write_buffer : Ring → List ℕ → ℕ → Attempt (Unit {0})
write_buffer r bs len =
    if leb len (free_size_internal r) then finish_write r len (write_bytes r bs len) else waits

-- `circular_buf_init`: the storage is the caller's, and the ring is reset.
unfoldable pub init : List ℕ → ℕ → Ring
unfolding reset
init buffer size = reset (record { head = 0; tail = 0; max = size; full = false; buffer = buffer })
