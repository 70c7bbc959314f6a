-- ===== src/Ring/Keeps.antt =====
-- ring_buffer_posix.c: every call leaves a valid ring of the same capacity.
use hermes_broadcast.Common.{
  ℕ, ◌-◌, ◌≤◌, ◌<◌, List, [], ◌∷◌, ◌≡◌, refl, sym, arith, ltb, leb, ltb→lt, leb→le, Bool-cases, inl,
  inr, length, get_or, set, length-set, subst,
}
use hermes_broadcast.Ring
use hermes_broadcast.Ring.{
  Ring, Attempt, waits, done, fault, write_buffer, read_buffer, read_buffer_all, advance_pointer_n,
  advance_pointer, retreat_pointer, retreat_pointer_n, free_size_internal, size_internal,
  finish_write, finish_read,
}
use hermes_broadcast.Ring.Valid.{
  IsValid, used, used-le-max, free_size_internal-eq, size_internal-eq-used, advance-IsValid,
  retreat-IsValid,
}
use hermes_broadcast.Ring.Window.{read_bytes_lem}
use hermes_broadcast.Ring.Writing.{write_bytes_lem}
use hermes_broadcast.Ring.Queue.{
  Call, read_call, read_all_call, write_call, put_call, get_call, IsCall, attempt, map_attempt,
}
use hermes_broadcast.Ring.Writes.{with_buffer, with_buffer-IsValid}
use hermes_broadcast.Ring.Calls.{advance_one, retreat_one}

-- A call that returns has left a valid ring of the same capacity, and none has made a fault.
abbrev pub Keeps {ℓ} : {A : Type ℓ} → ℕ → Attempt A → Type 0
Keeps cap waits = Unit
Keeps cap (done r a) = IsValid r × (r.max ≡ cap)
Keeps cap fault = ⊥

map_attempt-Keeps {ℓ κ} :
    {A : Type ℓ} {B : Type κ} (f : A → B) (cap : ℕ) (a : Attempt A)
    → Keeps cap a
    → Keeps cap (map_attempt f a)
map_attempt-Keeps f cap waits k = k
map_attempt-Keeps f cap (done r a) k = k
map_attempt-Keeps f cap fault k = k

finish_read-Keeps :
    {r : Ring} (len : ℕ)
    → IsValid r
    → 0 < len
    → len ≤ used r
    → Keeps r.max (finish_read r len (Ring.read_bytes r len))
unfolding retreat_pointer_n
finish_read-Keeps {r} len v p h =
    rw (read_bytes_lem len v p (omega (arith, used-le-max v)))
      ((retreat-IsValid r len v p h).0, refl)

finish_write-Keeps :
    {r : Ring} (bs : List ℕ) (len : ℕ)
    → IsValid r
    → 0 < len
    → len ≤ r.max - used r
    → len ≤ length bs
    → Keeps r.max (finish_write r len (Ring.write_bytes r bs len))
unfolding advance_pointer_n
finish_write-Keeps {r} bs len v p h k =
    let (out, e, l, w) = write_bytes_lem bs len v p (omega arith) k in
    rw e ((advance-IsValid (with_buffer r out) len (with_buffer-IsValid v l) p h).0, refl)

put-Keeps : (r : Ring) (b : ℕ) → IsValid r → Keeps r.max (Ring.put r b)
unfolding Ring.put advance_pointer_n
put-Keeps r b v = elim (Bool-cases r.full) [
  | inl full ↦ let e : Ring.put r b ≡ waits = ground arith in subst (Keeps r.max) (sym e) tt
  | inr room ↦
      let out = set r.buffer r.head b in
      let e : Ring.put r b ≡ done (advance_pointer_n (with_buffer r out) 1) tt =
        ground (arith, advance_one (with_buffer r out)) in
      subst (Keeps r.max) (sym e) (
        (advance-IsValid (with_buffer r out) 1
            (with_buffer-IsValid v (length-set r.buffer r.head b)) (omega arith) (ground arith)).0,
        refl,
      )
]

get-Keeps : (r : Ring) → IsValid r → Keeps r.max (Ring.get r)
unfolding Ring.get retreat_pointer_n
get-Keeps r v = elim (Bool-cases (ltb 0 (used r))) [
  | inl held ↦
      let e : Ring.get r ≡ done (retreat_pointer_n r 1) (get_or r.buffer r.tail 0) =
        ground (arith, retreat_one r) in
      subst (Keeps r.max) (sym e)
        ((retreat-IsValid r 1 v (omega arith) (ltb→lt 0 (used r) held)).0, refl)
  | inr empty ↦ let e : Ring.get r ≡ waits = ground arith in subst (Keeps r.max) (sym e) tt
]

-- Every call with a positive length keeps the invariant and the capacity.
pub attempt-Keeps : (r : Ring) (c : Call) → IsValid r → IsCall c → Keeps r.max (attempt r c)
unfolding read_buffer read_buffer_all write_buffer
attempt-Keeps r (read_call len) v p =
    rw (size_internal-eq-used v) (elim (Bool-cases (leb len (used r))) [
      | inl there ↦ rw there (finish_read-Keeps len v p (leb→le len (used r) there))
      | inr short ↦ rw short tt
    ])
attempt-Keeps r read_all_call v p =
    rw (size_internal-eq-used v) (elim (Bool-cases (ltb 0 (used r))) [
      | inl held ↦ rw held (finish_read-Keeps (used r) v (ltb→lt 0 (used r) held) (omega arith))
      | inr empty ↦ rw empty tt
    ])
attempt-Keeps r (write_call bs len) v p =
    map_attempt-Keeps (λ u. []) r.max (write_buffer r bs len)
      (rw (free_size_internal-eq v) (elim (Bool-cases (leb len (r.max - used r))) [
        | inl room ↦
            rw room (finish_write-Keeps bs len v p.0 (leb→le len (r.max - used r) room) p.1)
        | inr full ↦ rw full tt
      ]))
attempt-Keeps r (put_call b) v p =
    map_attempt-Keeps (λ u. []) r.max (Ring.put r b) (put-Keeps r b v)
attempt-Keeps r get_call v p = map_attempt-Keeps (λ b. b ∷ []) r.max (Ring.get r) (get-Keeps r v)
