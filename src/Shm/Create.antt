-- ===== src/Shm/Create.antt =====
-- ring_buffer_posix.c and shm_posix.c: the creation of a ring.
use hermes_broadcast.Common.{
  ℕ, suc, ◌+◌, ◌-◌, ◌≤◌, ◌<◌, true, false, List, [], ◌∷◌, ◌++◌, Option, none, some, ltb, ◌==◌,
  ==-refl, if◌then◌else◌, length, take, replicate, take-nil, ◌≡◌, refl, sym, subst, ap, ◌∙◌, arith,
}
use hermes_broadcast.Ring
use hermes_broadcast.Ring.{is_empty, reset}
use hermes_broadcast.Shm.{
  Handle, ring_of, init_internal, aux_size, with_aux, circular_buf_init_shm, Shm, Grants, returns,
  same_name, shm_open, remove_old, shm_unlink, shm_open_create, ftruncate, bind_name, with_object,
  truncated, empty_object, shm_create_and_get_fd, tmp_name, shm_map, create_and_map,
}
use hermes_broadcast.Shm.Names.{same_name_refl, same_name-digit}

abbrev pub all_granted : Grants
all_granted = record { reopen = true; unlink = true; create = true; truncate = true; map = true }

-- `m'` is `m` with a new object of `size` zeros, which is mapped; the objects that were there stay as
-- they are, and so do the other names.
pub record Created (m m' : Shm) (name : List ℕ) (size : ℕ) : Type 0 where
  pub named : m'.names name ≡ some m.next
  pub others : (k : List ℕ) → same_name name k ≡ false → m'.names k ≡ m.names k
  pub after : m'.next ≡ suc m.next
  pub kept : (i : ℕ) → (m.next == i) ≡ false → m'.objects i ≡ m.objects i
  pub zeros : (m'.objects m.next).bytes ≡ replicate size 0
  pub reached : 0 < m'.mapped m.next
  pub still : (i : ℕ) → 0 < m.mapped i → 0 < m'.mapped i

resized :
    (size : ℕ) → take {A = ℕ} size [] ++ replicate (size - length {A = ℕ} []) 0 ≡ replicate size 0
resized size =
    let e : size - 0 ≡ size = omega arith in
    ap (λ t. t ++ replicate (size - 0) 0) (take-nil ℕ size) ∙ ap (λ n. replicate n 0) e

pub fits : (base : List ℕ) → length base ≤ 252 → ltb 255 (length base + 3) ≡ false
fits base h = ground arith

-- What is left of `m` by the creation, with the names `ns` when it begins and `fds` descriptors when
-- it has ended.
abbrev made : (m : Shm) (ns : List ℕ → Option ℕ) (fds : ℕ) (name : List ℕ) (size : ℕ) → Shm
made m ns fds name size = record {
  names = bind_name ns name (some m.next);
  objects =
      (let news = with_object m.objects m.next empty_object in
        with_object news m.next (truncated size (news m.next)));
  next = suc m.next;
  open_fds = fds;
  mapped = λ i. if m.next == i then suc (m.mapped i) else m.mapped i;
}

made-Created :
    (m : Shm) (ns : List ℕ → Option ℕ) (fds : ℕ) (name : List ℕ) (size : ℕ)
    → ((k : List ℕ) → same_name name k ≡ false → ns k ≡ m.names k)
    → Created m (made m ns fds name size) name size
made-Created m ns fds name size h = record {
  named = rw (same_name_refl name) refl;
  others = λ k e. rw e (h k e);
  after = refl;
  kept = λ i e. rw e refl;
  zeros = rw (==-refl m.next) (resized size);
  reached = ground arith;
  still = λ i p. ground arith;
}

create_and_map-eq :
    (m : Shm) (base : List ℕ) (digit size : ℕ) (old : Option ℕ)
    → length base ≤ 252
    → m.names (base ++ 45 ∷ digit ∷ []) ≡ old
    → (m' : Shm) × (create_and_map all_granted base digit size m ≡ returns m' (some m.next))
      × Created m m' (base ++ 45 ∷ digit ∷ []) size
unfolding create_and_map tmp_name shm_create_and_get_fd shm_open remove_old shm_unlink
    shm_open_create ftruncate shm_map
create_and_map-eq m base digit size none h e =
    let name = base ++ 45 ∷ digit ∷ [] in
    (
      made m m.names (suc m.open_fds - 1) name size,
      rw (fits base h, e, e) refl,
      made-Created m m.names (suc m.open_fds - 1) name size (λ k d. refl),
    )
create_and_map-eq m base digit size (some fd) h e =
    let name = base ++ 45 ∷ digit ∷ [] in
    let ns = bind_name m.names name none in
    (
      made m ns (suc (suc m.open_fds) - 1) name size,
      rw (fits base h, e, same_name_refl name) refl,
      made-Created m ns (suc (suc m.open_fds) - 1) name size (λ k d. rw d refl),
    )

-- Whether or not there was an object of the name.
pub create_and_map-Created :
    (m : Shm) (base : List ℕ) (digit size : ℕ)
    → length base ≤ 252
    → (m' : Shm) × (create_and_map all_granted base digit size m ≡ returns m' (some m.next))
      × Created m m' (base ++ 45 ∷ digit ∷ []) size
create_and_map-Created m base digit size h =
    create_and_map-eq m base digit size (m.names (base ++ 45 ∷ digit ∷ [])) h refl

-- What a creation has made of `m`: two new objects under the ring's two names, which hold an empty
-- ring of `size` zeros, and nothing else is changed.
pub record IsRing (m m' : Shm) (h : Handle) (base : List ℕ) (size : ℕ) : Type 0 where
  pub handle : h ≡ record { buffer = some m.next; internal = suc m.next }
  pub name1 : m'.names (base ++ 45 ∷ 49 ∷ []) ≡ some m.next
  pub name2 : m'.names (base ++ 45 ∷ 50 ∷ []) ≡ some (suc m.next)
  pub ring : ring_of m' h ≡ some (Ring.init (replicate size 0) size)
  pub kept : (i : ℕ) → i < m.next → m'.objects i ≡ m.objects i

init_internal-IsRing :
    (m m1 m2 : Shm) (base : List ℕ) (size : ℕ)
    → Created m m1 (base ++ 45 ∷ 49 ∷ []) size
    → Created m1 m2 (base ++ 45 ∷ 50 ∷ []) aux_size
    → (m' : Shm) × (h : Handle) × (init_internal size (some m.next) (some m1.next) m2
        ≡ returns m' h)
      × IsRing m m' h base size
unfolding init_internal reset is_empty ring_of Ring.init
init_internal-IsRing m m1 m2 base size c d =
    let apart : (m1.next == m.next) ≡ false = ground (arith, c.after) in
    let here : ltb 0 (m2.mapped m.next) ≡ true = ground (arith, d.still m.next c.reached) in
    let there : ltb 0 (m2.mapped m1.next) ≡ true = ground (arith, d.reached) in
    let bytes : (m2.objects m.next).bytes ≡ replicate size 0 =
      ap (λ o. o.bytes) (d.kept m.next apart) ∙ c.zeros in
    (
      with_aux m2 m1.next (record { head = 0; tail = 0; max = size; full = false }),
      record { buffer = some m.next; internal = m1.next },
      refl,
      record {
        handle = ap (λ j. record { buffer = some m.next; internal = j }) c.after;
        name1 = d.others (base ++ 45 ∷ 49 ∷ []) (same_name-digit base 50 49 refl) ∙ c.named;
        name2 = d.named ∙ ap some c.after;
        ring = rw (here, there, apart, ==-refl m1.next, bytes) refl;
        kept = λ i h.
            let e1 : (m.next == i) ≡ false = ground arith in
            let e2 : (m1.next == i) ≡ false = ground (arith, c.after) in
            rw e2 (d.kept i e2 ∙ c.kept i e1);
      },
    )

-- Where the system grants every call: a ring is created under a base name of at most 252 characters,
-- whether or not there were objects of its names. The handle leads to an empty ring of the size that
-- was asked for, in two new objects; no other object is changed, so that whoever had mapped the old
-- objects keeps them.
pub circular_buf_init_shm-IsRing :
    (m : Shm) (base : List ℕ) (size : ℕ)
    → 0 < size
    → length base ≤ 252
    → (m' : Shm) × (h : Handle) × (circular_buf_init_shm true all_granted all_granted size base m
        ≡ returns m' h)
      × IsRing m m' h base size
unfolding circular_buf_init_shm
circular_buf_init_shm-IsRing m base size p h =
    let (m1, e1, c) = create_and_map-Created m base 49 size h in
    let (m2, e2, d) = create_and_map-Created m1 base 50 aux_size h in
    let (m', handle, e3, k) = init_internal-IsRing m m1 m2 base size c d in
    let positive : (size == 0) ≡ false = ground arith in (m', handle, rw (positive, e1, e2) e3, k)

same_return : {m m' : Shm} {h h' : Handle} → returns m h ≡ returns m' h' → (m ≡ m') × (h ≡ h')
same_return e = (cc, cc)

-- What any creation that the system grants has made.
pub granted-IsRing :
    (m m' : Shm) (h : Handle) (base : List ℕ) (size : ℕ)
    → 0 < size
    → length base ≤ 252
    → circular_buf_init_shm true all_granted all_granted size base m ≡ returns m' h
    → IsRing m m' h base size
granted-IsRing m m' h base size p l e =
    let (n, k, e', v) = circular_buf_init_shm-IsRing m base size p l in
    let (same, handle) = same_return (sym e' ∙ e) in
    subst (λ x. IsRing m m' x base size) handle (subst (λ x. IsRing m x k base size) same v)
