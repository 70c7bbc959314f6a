-- ===== src/Ring/Calls.antt =====
-- ring_buffer_posix.c: every call on a valid ring is the operation of the bounded byte queue, and
-- leaves a valid ring.
use hermes_broadcast.Common.{
  ℕ, zero, suc, ◌-◌, ◌<◌, Bool, true, false, ◌&&◌, not, [], ◌∷◌, ◌≡◌, ◌≢◌, refl, sym, ap, ap₂, ◌∙◌,
  arith, ltb, ltb→lt, Bool-cases, inl, inr, ◌==◌, if◌then◌else◌, length, get_or, set, drop,
  length-set, take_all, drop_all, get_or-set_self, get_or-set_ne,
}
use hermes_broadcast.Ring
use hermes_broadcast.Ring.{
  Ring, Attempt, waits, done, fault, write_buffer, read_buffer, read_buffer_all, advance_pointer_n,
  advance_pointer, retreat_pointer, retreat_pointer_n, free_size_internal, size_internal,
  finish_write, finish_read,
}
use hermes_broadcast.Ring.Valid.{IsValid, used, at, size_internal-eq-used}
use hermes_broadcast.Ring.Window.{tabulate, byte_at, contents, length-contents}
use hermes_broadcast.Ring.Writing.{after_write}
use hermes_broadcast.Ring.Queue
use hermes_broadcast.Ring.Queue.{
  Outcome, waiting, ok, broken, view, Call, read_call, read_all_call, write_call, put_call,
  get_call, IsCall, attempt, serve, map_attempt, view-map_attempt,
}
use hermes_broadcast.Ring.Reads.{read_refines, read_done, contents-retreat}
use hermes_broadcast.Ring.Writes.{write_refines, contents-advance, with_buffer}

read_all_refines : (r : Ring) → IsValid r → view (read_buffer_all r) ≡ Queue.read_all (contents r)
unfolding read_buffer_all Queue.read_all
read_all_refines r v =
    rw (size_internal-eq-used v, length-contents r)
      (elim (Bool-cases (ltb 0 (used r))) [
        | inl some_held ↦ rw some_held (
            read_done (used r) v (ltb→lt 0 (used r) some_held) (omega arith)
            ∙ ap₂ ok (drop_all (used r) (contents r) (omega (arith, length-contents r)))
                (take_all (used r) (contents r) (omega (arith, length-contents r))))
        | inr empty ↦ rw empty
      ])

-- `advance_pointer` and `retreat_pointer` are the general functions at one byte.
pub advance_one : (r : Ring) → advance_pointer r ≡ advance_pointer_n r 1
unfolding advance_pointer advance_pointer_n
advance_one r = refl

pub retreat_one : (r : Ring) → retreat_pointer r ≡ retreat_pointer_n r 1
unfolding retreat_pointer retreat_pointer_n
retreat_one r = refl

-- The storage after a single byte is stored at the head.
set-after_write :
    (r : Ring) (b j : ℕ)
    → IsValid r
    → j < r.max
    → get_or (set r.buffer r.head b) j 0 ≡ after_write r (b ∷ []) 1 j
set-after_write r b j v lt = elim (Bool-cases (r.head == j)) [
  | inl same ↦
      let e : r.head ≡ j = ground arith in
      rw (← e) (get_or-set_self r.buffer r.head b 0 (omega arith) ∙ at_head)
  | inr other ↦ get_or-set_ne r.buffer r.head j b 0 (ground arith) ∙ off_head (ground arith)
]
  where
    at_head : b ≡ after_write r (b ∷ []) 1 r.head
    at_head =
        let e : r.head - r.head ≡ zero = omega arith in
        ground (arith, ap (λ k. get_or (b ∷ []) k 0) e)

    off_head : r.head ≢ j → get_or r.buffer j 0 ≡ after_write r (b ∷ []) 1 j
    off_head ne = ground arith

put_refines : (r : Ring) (b : ℕ) → IsValid r → view (Ring.put r b) ≡ Queue.put r.max b (contents r)
unfolding Ring.put Queue.put
put_refines r b v = elim (Bool-cases r.full) [
  | inl full ↦
      let closed : ltb (used r) r.max ≡ false = ground arith in
      rw (length-contents r, closed)
        (ap (λ (f : Bool). view (if not f then pushed else waits)) full)
  | inr room ↦
      let inside : ltb r.head (length r.buffer) ≡ true = ground arith in
      let short : ltb (used r) r.max ≡ true = ground arith in
      rw (length-contents r, short)
        (ap (λ (f : Bool). view (if not f then pushed else waits)) room
          ∙ ap (λ (t : Bool). view (if t then stored else fault)) inside
          ∙ ap (λ n. view (done n tt)) (advance_one (with_buffer r (set r.buffer r.head b)))
          ∙ ap (λ c. ok c tt)
              (contents-advance r (b ∷ []) (set r.buffer r.head b) 1 v (omega arith)
                (omega (arith, ltb→lt (used r) r.max short)) (omega arith)
                (length-set r.buffer r.head b) (λ j lt. set-after_write r b j v lt)))
]
  where
    stored : Attempt (Unit {0})
    stored = done (advance_pointer (with_buffer r (set r.buffer r.head b))) tt

    pushed : Attempt (Unit {0})
    pushed = if ltb r.head (length r.buffer) then stored else fault

tabulate_first : (n : ℕ) (f : ℕ → ℕ) → 0 < n → tabulate n f ≡ f 0 ∷ drop 1 (tabulate n f)
tabulate_first zero f h = absurd (omega arith)
tabulate_first (suc n) f h = refl

get_refines : (r : Ring) → IsValid r → view (Ring.get r) ≡ Queue.get (contents r)
unfolding Ring.get Queue.get
get_refines r v = elim (Bool-cases (ltb 0 (used r))) [
  | inl held ↦
      let test : not (not r.full && r.head == r.tail) ≡ true = ground arith in
      let inside : ltb r.tail (length r.buffer) ≡ true = ground arith in
      let first : at r.tail 0 r.max ≡ r.tail = ground arith in
      ap (λ (t : Bool). view (if t then taken else waits)) test
      ∙ ap (λ (t : Bool). view (if t then (done (retreat_pointer r) byte) else fault)) inside
      ∙ ap (λ n. view (done n byte)) (retreat_one r)
      ∙ ap₂ ok (contents-retreat r 1 v (omega arith) (ltb→lt 0 (used r) held))
          (ap (λ k. get_or r.buffer k 0) (sym first))
      ∙ ap Queue.get (sym (tabulate_first (used r) (byte_at r) (ltb→lt 0 (used r) held)))
  | inr empty ↦
      let test : not (not r.full && r.head == r.tail) ≡ false = ground arith in
      let none_held : used r ≡ 0 = ground arith in
      ap (λ (t : Bool). view (if t then taken else waits)) test
      ∙ ap (λ n. Queue.get (tabulate n (byte_at r))) (sym none_held)
]
  where
    byte : ℕ
    byte = get_or r.buffer r.tail 0

    taken : Attempt ℕ
    taken = if ltb r.tail (length r.buffer) then done (retreat_pointer r) byte else fault

-- Every call with a positive length on a valid ring does what the bounded queue of the bytes held
-- does: it waits exactly when that queue lacks the room or the bytes, hands out the same bytes,
-- leaves the same bytes held, and makes no access outside an array.
pub attempt_refines :
    (r : Ring) (c : Call) → IsValid r → IsCall c → view (attempt r c) ≡ serve r.max c (contents r)
attempt_refines r (read_call len) v p = read_refines r len v p
attempt_refines r read_all_call v p = read_all_refines r v
attempt_refines r (write_call bs len) v p =
    view-map_attempt (λ u. []) (write_buffer r bs len)
    ∙ ap (Queue.map_outcome (λ u. [])) (write_refines r bs len v p.0 p.1)
attempt_refines r (put_call b) v p =
    view-map_attempt (λ u. []) (Ring.put r b) ∙ ap (Queue.map_outcome (λ u. [])) (put_refines r b v)
attempt_refines r get_call v p =
    view-map_attempt (λ b. b ∷ []) (Ring.get r)
    ∙ ap (Queue.map_outcome (λ b. b ∷ [])) (get_refines r v)
