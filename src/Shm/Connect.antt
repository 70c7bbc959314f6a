-- ===== src/Shm/Connect.antt =====
-- ring_buffer_posix.c and shm_posix.c: a connection to a ring.
use hermes_broadcast.Common.{
  ℕ, suc, ◌+◌, ◌-◌, ◌≤◌, ◌<◌, true, false, List, [], ◌∷◌, ◌++◌, Option, none, some, ltb, leb, ◌==◌,
  if◌then◌else◌, length, length-append, ◌≡◌, refl, arith, Bool-cases, inl, inr,
}
use hermes_broadcast.Shm.{
  Shm, Handle, Called, Admission, returns, aborts, as_ring, shm_open, tmp_name, shm_map,
  shm_open_and_get_fd, check_size, connect_internal, connect_buffer, circular_buf_connect_shm,
  ring_of,
}

abbrev pub admitted : Admission
admitted = record { reopen = true; map = true }

-- The names and the objects of the system are left as they are.
abbrev pub Same : Shm → Shm → Type 0
Same m m' = (m'.names ≡ m.names) × (m'.objects ≡ m.objects)

-- What a connection to two objects, or to a name that none has, is answered.
unfoldable pub IsAnswer : Shm → (size : ℕ) → Option ℕ → Option ℕ → Called (Option Handle) → Type 0
IsAnswer m size none j c = (m' : Shm) × (c ≡ returns m' none) × Same m m'
IsAnswer m size (some i) none c = (m' : Shm) × (c ≡ returns m' none) × Same m m'
IsAnswer m size (some i) (some j) c =
    let found = as_ring (m.objects i).bytes (m.objects j).aux in
    if found.max == size
    then ((m' : Shm) × (h : Handle) × (c ≡ returns m' (some h))
        × Same m m'
        × (h ≡ record { buffer = some i; internal = j })
        × (ring_of m' h ≡ some found))
    else c ≡ aborts

-- The state of a process that has mapped the objects of its handle.
abbrev mapping : Shm → ℕ → Shm
mapping m i = record m {
  open_fds = suc m.open_fds - 1;
  mapped = λ k. if i == k then suc (m.mapped k) else m.mapped k;
}

module _ (m : Shm) (base : List ℕ) (size : ℕ) (positive : (size == 0) ≡ false)
    (fits : ltb 255 (length base + 3) ≡ false)
    (short1 : leb 255 (length (base ++ 45 ∷ 49 ∷ [])) ≡ false)
    (short2 : leb 255 (length (base ++ 45 ∷ 50 ∷ [])) ≡ false) where
  answer :
      (i j : Option ℕ)
      → m.names (base ++ 45 ∷ 49 ∷ []) ≡ i
      → m.names (base ++ 45 ∷ 50 ∷ []) ≡ j
      → IsAnswer m size i j (circular_buf_connect_shm true admitted admitted size base m)
  unfolding IsAnswer circular_buf_connect_shm tmp_name shm_open_and_get_fd shm_open connect_buffer
      connect_internal shm_map check_size ring_of
  answer none j e1 e2 = (m, rw (positive, fits, short1, e1) refl, (refl, refl))
  answer (some i) none e1 e2 =
      (mapping m i, rw (positive, fits, short1, e1, fits, short2, e2) refl, (refl, refl))
  answer (some i) (some j) e1 e2 = elim (Bool-cases ((m.objects j).aux.max == size)) [
    | inl fit ↦
        let m' = mapping (mapping m i) j in
        let here : ltb 0 (m'.mapped i) ≡ true = ground arith in
        let there : ltb 0 (m'.mapped j) ≡ true = ground arith in
        rw fit (
          m',
          record { buffer = some i; internal = j },
          rw (positive, fits, short1, e1, fits, short2, e2, fit) refl,
          (refl, refl),
          refl,
          rw (here, there) refl,
        )
    | inr other ↦ rw (other, positive, fits, short1, e1, fits, short2, e2, other) refl
  ]

-- Where the system grants every call, a connection under a base name of at most 252 characters is
-- refused with NULL if one of the ring's two names has no object, it aborts if the ring has not the
-- size asked for, and otherwise its handle leads to the ring that the two objects hold. In no case is
-- a name or an object changed.
pub circular_buf_connect_shm-IsAnswer :
    (m : Shm) (base : List ℕ) (size : ℕ)
    → 0 < size
    → length base ≤ 252
    → IsAnswer m size
        (m.names (base ++ 45 ∷ 49 ∷ []))
        (m.names (base ++ 45 ∷ 50 ∷ []))
        (circular_buf_connect_shm true admitted admitted size base m)
circular_buf_connect_shm-IsAnswer m base size p h =
    let short1 = length-append base (45 ∷ 49 ∷ []) in
    let short2 = length-append base (45 ∷ 50 ∷ []) in
    answer m base size (ground arith) (ground arith) (ground (arith, short1))
      (ground (arith, short2)) (m.names (base ++ 45 ∷ 49 ∷ [])) (m.names (base ++ 45 ∷ 50 ∷ []))
      refl refl
