-- ===== src/Shm/Remove.antt =====
-- ring_buffer_posix.c and shm_posix.c: the end of a ring, the processes that are left on it, and what
-- goes wrong unnoticed.
use hermes_broadcast.Common.{
  ℕ, suc, ◌+◌, ◌-◌, ◌≤◌, ◌<◌, true, false, List, [], ◌∷◌, ◌++◌, Option, none, some, ltb, leb, ◌==◌,
  if◌then◌else◌, length, length-append, replicate, ◌≡◌, refl, sym, ap, subst, ◌∙◌, arith,
}
use hermes_broadcast.Ring
use hermes_broadcast.Ring.{Ring}
use hermes_broadcast.Shm.{
  Shm, Called, Handle, Grants, Admission, returns, fault, bind_name, tmp_name, shm_unmap,
  shm_unlink, shm_open, shm_map, shm_open_and_get_fd, create_and_map, connect_buffer,
  connect_internal, check_size, circular_buf_init_shm, circular_buf_connect_shm,
  circular_buf_destroy_shm, ring_of, store_ring, ring_at, store_at,
}
use hermes_broadcast.Shm.Names.{same_name-digit, same_name_refl}
use hermes_broadcast.Shm.Create.{all_granted, granted-IsRing, fits}
use hermes_broadcast.Shm.Connect.{admitted, IsAnswer, circular_buf_connect_shm-IsAnswer}
use hermes_broadcast.Shm.Client.{seen_by, IsMapped}

-- Under a base name of 253 characters or more, both functions write beyond the array for the name,
-- before any check of its length, and whatever the system would grant.
pub long_name_faults :
    (m : Shm) (base : List ℕ) (size : ℕ) (g1 g2 : Grants) (a1 a2 : Admission)
    → 253 ≤ length base
    → 0 < size
    → (circular_buf_init_shm true g1 g2 size base m ≡ fault)
      × (circular_buf_connect_shm true a1 a2 size base m ≡ fault)
unfolding circular_buf_init_shm circular_buf_connect_shm create_and_map tmp_name
long_name_faults m base size g1 g2 a1 a2 h p =
    let long : ltb 255 (length base + 3) ≡ true = ground arith in
    let positive : (size == 0) ≡ false = ground arith in
    (rw (positive, long) refl, rw (positive, long) refl)

-- A connection to a ring of the right size, whose storage the system then does not map, is taken
-- for a success: it returns a handle, although no call can reach the ring through it.
pub map_failed_unnoticed :
    (m : Shm) (base : List ℕ) (size i j : ℕ)
    → 0 < size
    → length base ≤ 252
    → m.names (base ++ 45 ∷ 49 ∷ []) ≡ some i
    → m.names (base ++ 45 ∷ 50 ∷ []) ≡ some j
    → (m.objects j).aux.max ≡ size
    → (m' : Shm) × (h : Handle) × (circular_buf_connect_shm true
          (record { reopen = true; map = false })
          admitted
          size
          base
          m
        ≡ returns m' (some h))
      × (ring_of m' h ≡ none)
unfolding circular_buf_connect_shm tmp_name shm_open_and_get_fd shm_open connect_buffer
    connect_internal shm_map check_size ring_of
map_failed_unnoticed m base size i j p h e1 e2 s =
    let short1 : leb 255 (length (base ++ 45 ∷ 49 ∷ [])) ≡ false =
      ground (arith, length-append base (45 ∷ 49 ∷ [])) in
    let short2 : leb 255 (length (base ++ 45 ∷ 50 ∷ [])) ≡ false =
      ground (arith, length-append base (45 ∷ 50 ∷ [])) in
    let positive : (size == 0) ≡ false = ground arith in
    let fit : ((m.objects j).aux.max == size) ≡ true = ground arith in
    (
      record m {
        open_fds = suc (suc m.open_fds - 1) - 1;
        mapped = λ k. if j == k then suc (m.mapped k) else m.mapped k;
      },
      record { buffer = none; internal = j },
      rw (positive, fits base h, short1, e1, fits base h, short2, e2, fit) refl,
      refl,
    )

-- No object is changed by a removal, and the names are gone.
removed :
    (m : Shm) (b : Option ℕ) (j : ℕ) (base : List ℕ)
    → length base ≤ 252
    → (m' : Shm) × (circular_buf_destroy_shm (record { buffer = b; internal = j }) true true base m
        ≡ returns m' tt)
      × (m'.objects ≡ m.objects)
      × (m'.names (base ++ 45 ∷ 49 ∷ []) ≡ none)
unfolding circular_buf_destroy_shm shm_unmap shm_unlink tmp_name
removed m none j base h = (
  record m {
    names = bind_name (bind_name m.names (base ++ 45 ∷ 49 ∷ []) none) (base ++ 45 ∷ 50 ∷ []) none;
    mapped = λ k. if j == k then m.mapped k - 1 else m.mapped k;
  },
  rw (fits base h, fits base h) refl,
  refl,
  rw (same_name-digit base 50 49 refl, same_name_refl (base ++ 45 ∷ 49 ∷ [])) refl,
)
removed m (some i) j base h = (
  record m {
    names = bind_name (bind_name m.names (base ++ 45 ∷ 49 ∷ []) none) (base ++ 45 ∷ 50 ∷ []) none;
    mapped =
        (let f : ℕ → ℕ = λ k. if i == k then m.mapped k - 1 else m.mapped k in
          λ k. if j == k then f k - 1 else f k);
  },
  rw (fits base h, fits base h) refl,
  refl,
  rw (same_name-digit base 50 49 refl, same_name_refl (base ++ 45 ∷ 49 ∷ [])) refl,
)

refused :
    (n : Shm) (size : ℕ) (a b : Option ℕ) (c : Called (Option Handle))
    → a ≡ none
    → IsAnswer n size a b c
    → (n' : Shm) × (c ≡ returns n' none)
unfolding IsAnswer
refused n size a b c e v = let (n', e', same) = subst (λ x. IsAnswer n size x b c) e v in (n', e')

-- Where the system grants every call: once a ring is removed, under a base name of at most 252
-- characters, a process that connects under that name is refused with NULL; the objects stay as they
-- were for whoever has mapped them.
pub destroy-connect :
    (m : Shm) (h : Handle) (base : List ℕ) (size fds : ℕ) (f : ℕ → ℕ)
    → 0 < size
    → length base ≤ 252
    → (m' : Shm) × (n : Shm) × (circular_buf_destroy_shm h true true base m ≡ returns m' tt)
      × (m'.objects ≡ m.objects)
      × (circular_buf_connect_shm true admitted admitted size base (seen_by m' fds f)
          ≡ returns n none)
destroy-connect m h base size fds f p l =
    let (m', e, objects, gone) = removed m h.buffer h.internal base l in
    let (n, r) =
      refused (seen_by m' fds f) size (m'.names (base ++ 45 ∷ 49 ∷ []))
        (m'.names (base ++ 45 ∷ 50 ∷ []))
        (circular_buf_connect_shm true admitted admitted size base (seen_by m' fds f)) gone
        (circular_buf_connect_shm-IsAnswer (seen_by m' fds f) base size p l) in
    (m', n, e, objects, r)

-- What is stored in two objects is not seen in two others.
store_elsewhere :
    (m : Shm) (a b i j : ℕ) (r : Ring)
    → (a == i) ≡ false
    → (b == i) ≡ false
    → (a == j) ≡ false
    → (b == j) ≡ false
    → ring_at (store_at m (some a) b r) (some i) j ≡ ring_at m (some i) j
store_elsewhere m a b i j r ai bi aj bj = rw (bi, ai, bj, aj) refl

-- A process that had mapped a ring is left on it when the ring is created again under its name,
-- where the system grants every call, the size is not 0 and the name has at most 252 characters: it
-- still finds what it found, what the creator then stores is not seen there, and what the process
-- stores is not seen in the new ring. Neither is told.
pub created_again :
    (m m' : Shm) (h k : Handle) (base : List ℕ) (size i j fds : ℕ) (f : ℕ → ℕ) (r r' : Ring)
    → 0 < size
    → length base ≤ 252
    → circular_buf_init_shm true all_granted all_granted size base m ≡ returns m' h
    → IsMapped k f i j
    → i < m.next
    → j < m.next
    → ring_of (seen_by m fds f) k ≡ some r
    → (ring_of (seen_by (store_ring m' h r') fds f) k ≡ some r)
      × (ring_of (store_ring m' k r') h ≡ some (Ring.init (replicate size 0) size))
unfolding ring_of store_ring
created_again m m' h k base size i j fds f r r' p l made w hi hj e =
    let v = granted-IsRing m m' h base size p l made in
    let found : ring_at (seen_by m fds f) (some i) j ≡ some r =
      ap (λ (q : Handle). ring_at (seen_by m fds f) q.buffer q.internal) (sym w.at) ∙ e in
    let left : ring_at (seen_by m' fds f) (some i) j ≡ some r =
      rw (v.kept i hi, v.kept j hj) found in
    let fresh : ring_at m' (some m.next) (suc m.next) ≡ some (Ring.init (replicate size 0) size) =
      ap (λ (q : Handle). ring_at m' q.buffer q.internal) (sym v.handle) ∙ v.ring in
    (
      rw (w.at, v.handle)
          (store_elsewhere (seen_by m' fds f) m.next (suc m.next) i j r' (ground arith)
              (ground arith) (ground arith) (ground arith)
            ∙ left),
      rw (w.at, v.handle)
          (store_elsewhere m' i j m.next (suc m.next) r' (ground arith) (ground arith)
              (ground arith) (ground arith)
            ∙ fresh),
    )
