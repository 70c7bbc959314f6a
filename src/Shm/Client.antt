-- ===== src/Shm/Client.antt =====
-- ring_buffer_posix.c: a process that connects to the ring that another has created.
use hermes_broadcast.Common.{
  ℕ, suc, ◌≤◌, ◌<◌, Bool, true, false, List, [], ◌∷◌, ◌++◌, Option, none, some, ltb, ◌==◌,
  if◌then◌else◌, length, replicate, ◌≡◌, refl, sym, ap, subst, ◌∙◌, arith, ◌&&◌,
}
use hermes_broadcast.Ring
use hermes_broadcast.Ring.{Ring, done}
use hermes_broadcast.Shm.{
  Shm, aborts, Called, Handle, returns, as_ring, circular_buf_init_shm, circular_buf_connect_shm,
  ring_of, ring_at,
}
use hermes_broadcast.Shm.Create.{circular_buf_init_shm-IsRing, all_granted}
use hermes_broadcast.Shm.Connect.{admitted, Same, IsAnswer, circular_buf_connect_shm-IsAnswer}

-- The memory as another process sees it, which has descriptors and mappings of its own.
abbrev pub seen_by : Shm → (open_fds : ℕ) → (mapped : ℕ → ℕ) → Shm
seen_by m fds f = record m { open_fds = fds; mapped = f }

pub some_injective : {r r' : Ring} → some r ≡ some r' → r ≡ r'
some_injective e = cc

-- A handle with two objects of its own, both mapped by the process.
pub record IsMapped (h : Handle) (f : ℕ → ℕ) (i j : ℕ) : Type 0 where
  pub at : h ≡ record { buffer = some i; internal = j }
  pub apart : (i == j) ≡ false
  pub first : ltb 0 (f i) ≡ true
  pub second : ltb 0 (f j) ≡ true

both_true :
    (a b : Bool) (x r : Ring)
    → (if a && b then some x else none) ≡ some r
    → (x ≡ r) × (a ≡ true) × (b ≡ true)
both_true true true x r e = (some_injective e, refl, refl)
both_true true false x r e = absurd cc
both_true false b x r e = absurd cc

pub ring_at_value :
    (m : Shm) (i j : ℕ) (r : Ring)
    → ring_at m (some i) j ≡ some r
    → (as_ring (m.objects i).bytes (m.objects j).aux ≡ r)
      × (ltb 0 (m.mapped i) ≡ true)
      × (ltb 0 (m.mapped j) ≡ true)
ring_at_value m i j r e =
    both_true (ltb 0 (m.mapped i)) (ltb 0 (m.mapped j))
      (as_ring (m.objects i).bytes (m.objects j).aux) r e

-- The ring that a process finds, every process that has mapped its objects finds.
pub ring_of-seen :
    (m : Shm) (h : Handle) (i j fds : ℕ) (f : ℕ → ℕ) (r : Ring)
    → IsMapped h f i j
    → ring_of m h ≡ some r
    → ring_of (seen_by m fds f) h ≡ some r
unfolding ring_of
ring_of-seen m h i j fds f r v e =
    let found : ring_at m (some i) j ≡ some r =
      ap (λ (k : Handle). ring_at m k.buffer k.internal) (sym v.at) ∙ e in
    rw (v.at, v.first, v.second) (ap some (ring_at_value m i j r found).0)

first_branch : {X : Type 0} (Y : Type 0) (b : Bool) → b ≡ true → (if b then X else Y) → X
first_branch Y true e x = x
first_branch Y false e x = absurd cc

-- A connection to objects that hold a ring of the size asked for.
connected :
    (n : Shm) (size i j : ℕ) (a b : Option ℕ) (c : Called (Option Handle)) (r : Ring)
    → a ≡ some i
    → b ≡ some j
    → as_ring (n.objects i).bytes (n.objects j).aux ≡ r
    → r.max ≡ size
    → IsAnswer n size a b c
    → (n' : Shm) × (h : Handle) × (c ≡ returns n' (some h))
      × Same n n'
      × (h ≡ record { buffer = some i; internal = j })
      × (ring_of n' h ≡ some r)
unfolding IsAnswer
connected n size i j a b c r ea eb er es v =
    let w : IsAnswer n size (some i) (some j) c =
      subst (λ y. IsAnswer n size (some i) y c) eb (subst (λ x. IsAnswer n size x b c) ea v) in
    let fit : ((n.objects j).aux.max == size) ≡ true = ground (arith, ap (λ q. q.max) er) in
    let (n', h, e, same, at, ring) =
      first_branch (c ≡ aborts) ((n.objects j).aux.max == size) fit w in
    (n', h, e, same, at, ring ∙ ap some er)

-- Where the system grants every call: a process that connects, with any mappings of its own, to a
-- ring that another has just created, under the same base name of at most 252 characters and with
-- the same size, gets the same handle, has mapped both of the ring's objects, and finds the same
-- empty ring.
pub connect-init :
    (m : Shm) (base : List ℕ) (size fds : ℕ) (f : ℕ → ℕ)
    → 0 < size
    → length base ≤ 252
    → (m' : Shm) × (n : Shm) × (h : Handle) × (circular_buf_init_shm true all_granted all_granted
          size base m
        ≡ returns m' h)
      × (circular_buf_connect_shm true admitted admitted size base (seen_by m' fds f)
          ≡ returns n (some h))
      × IsMapped h n.mapped m.next (suc m.next)
      × (ring_of n h ≡ some (Ring.init (replicate size 0) size))
      × (ring_of m' h ≡ some (Ring.init (replicate size 0) size))
unfolding Ring.init Ring.reset ring_of
connect-init m base size fds f p l =
    let (m', h, e, v) = circular_buf_init_shm-IsRing m base size p l in
    let i = m.next in
    let r = Ring.init (replicate size 0) size in
    let kept = ap (λ (k : Handle). ring_at m' k.buffer k.internal) (sym v.handle) ∙ v.ring in
    let found = ring_at_value m' i (suc i) r kept in
    let (n, h', e', same, at, ring) =
      connected (seen_by m' fds f) size i (suc i) (m'.names (base ++ 45 ∷ 49 ∷ []))
        (m'.names (base ++ 45 ∷ 50 ∷ []))
        (circular_buf_connect_shm true admitted admitted size base (seen_by m' fds f)) r v.name1
        v.name2 found.0 refl (circular_buf_connect_shm-IsAnswer (seen_by m' fds f) base size p l) in
    let mine =
      ring_at_value n i (suc i) r
        (ap (λ (k : Handle). ring_at n k.buffer k.internal) (sym at) ∙ ring) in
    (
      m',
      n,
      h,
      e,
      e' ∙ ap (λ k. returns n (some k)) (at ∙ sym v.handle),
      record { at = v.handle; apart = ground arith; first = mine.1; second = mine.2 },
      ap (λ (k : Handle). ring_at n k.buffer k.internal) (v.handle ∙ sym at) ∙ ring,
      v.ring,
    )
