-- ===== src/Shm/Joined.antt =====
-- ring_buffer_posix.c: the ring that one process has created and another has connected to.
use hermes_broadcast.Common.{
  true, length, ℕ, suc, ◌≤◌, ◌<◌, ◌^◌, false, List, [], ◌++◌, some, ◌==◌, ==-refl, length-replicate,
  replicate, ◌≡◌, refl, sym, ap, ◌∙◌, arith,
}
use hermes_broadcast.Ring
use hermes_broadcast.Ring.{Ring, done}
use hermes_broadcast.Ring.Valid.{init-IsValid}
use hermes_broadcast.Ring.Queue.{Call, IsCall, attempt}
use hermes_broadcast.Ring.Shared.{call, here, next, Fifo, Reach-Fifo, given}
use hermes_broadcast.Shm.{circular_buf_init_shm, returns, Shm, Handle, ring_of, store_ring}
use hermes_broadcast.Shm.Create.{all_granted, granted-IsRing}
use hermes_broadcast.Shm.Client.{seen_by, IsMapped, some_injective, ring_of-seen}

-- What one process stores in the ring, any process that has mapped its two objects finds there.
pub ring_of-store_ring :
    (m : Shm) (h : Handle) (r : Ring) (i j fds : ℕ) (f : ℕ → ℕ)
    → IsMapped h f i j
    → ring_of (seen_by (store_ring m h r) fds f) h ≡ some r
unfolding ring_of store_ring
ring_of-store_ring m h r i j fds f v =
    let apart : (j == i) ≡ false = ground (arith, v.apart) in
    rw (v.at, v.first, v.second, apart, ==-refl i, ==-refl j) refl

-- The memory, with all that its users have written to the ring and read from it, in order.
pub record Joint : Type 0 where
  pub memory : Shm
  pub written : List ℕ
  pub taken : List ℕ

-- A process that has mapped the two objects finds a ring there, and its call returns.
pub data Turn (h : Handle) (i j : ℕ) (s t : Joint) : Type 0 where
  turn :
      (fds : ℕ) (f : ℕ → ℕ) (c : Call) (bs : List ℕ) (r r' : Ring)
      → IsMapped h f i j
      → IsCall c
      → ring_of (seen_by s.memory fds f) h ≡ some r
      → attempt r c ≡ done r' bs
      → t.memory ≡ store_ring s.memory h r'
      → t.written ≡ s.written ++ given c
      → t.taken ≡ s.taken ++ bs
      → Turn h i j s t

pub data Run (h : Handle) (i j : ℕ) (s : Joint) : Joint → Type 0 where
  begins : Run h i j s s
  goes_on : {t u : Joint} → Run h i j s t → Turn h i j t u → Run h i j s u

-- All processes that have mapped the objects find the same ring, and what was read from it, followed
-- by what it holds, is what was written to it.
pub record IsJoint (cap : ℕ) (h : Handle) (i j : ℕ) (s : Joint) : Type 0 where
  pub ring : Ring
  pub seen :
      (fds : ℕ) (f : ℕ → ℕ) → IsMapped h f i j → ring_of (seen_by s.memory fds f) h ≡ some ring
  pub fifo : Fifo cap (record { ring = ring; written = s.written; taken = s.taken })

Turn-IsJoint :
    {cap i j : ℕ} {h : Handle} {s t : Joint}
    → IsJoint cap h i j s
    → Turn h i j s t
    → IsJoint cap h i j t
Turn-IsJoint {cap} {i} {j} {h} {s} {t} v (turn fds f c bs r r' p k found e m w x) =
    let same : r ≡ v.ring = some_injective (sym found ∙ v.seen fds f p) in
    record {
      ring = r';
      seen = λ fds' f' p'.
          ap (λ n. ring_of (seen_by n fds' f') h) m
          ∙ ring_of-store_ring s.memory h r' i j fds' f' p';
      fifo = Reach-Fifo v.fifo (next here (call c bs k (ap (λ q. attempt q c) (sym same) ∙ e) w x));
    }

Run-IsJoint :
    {cap i j : ℕ} {h : Handle} {s t : Joint}
    → IsJoint cap h i j s
    → Run h i j s t
    → IsJoint cap h i j t
Run-IsJoint v begins = v
Run-IsJoint v (goes_on run t) = Turn-IsJoint (Run-IsJoint v run) t

-- A new ring holds nothing.
init-Fifo :
    (size : ℕ)
    → 0 < size
    → size ≤ 2 ^ 63
    → Fifo size (record { ring = Ring.init (replicate size 0) size; written = []; taken = [] })
unfolding Ring.init Ring.reset
init-Fifo size p s =
    let buffer : List ℕ = replicate size 0 in
    let v = init-IsValid buffer size p s (omega (arith, length-replicate {A = ℕ} size 0)) in
    record { valid = v.0; same = refl; order = refl }

-- Where the system has granted the creation of a ring of 1 to 2 ^ 63 bytes under a base name of at
-- most 252 characters: however many processes that have mapped its two objects call on it, in any
-- order, all of them find one ring, which is valid and keeps the size it was created with, and the
-- bytes that they have read, followed by those that it holds, are those that they have written, in
-- order.
pub Run-Fifo :
    (m m' : Shm) (h : Handle) (base : List ℕ) (size : ℕ) (t : Joint)
    → 0 < size
    → size ≤ 2 ^ 63
    → length base ≤ 252
    → circular_buf_init_shm true all_granted all_granted size base m ≡ returns m' h
    → Run h m.next (suc m.next) (record { memory = m'; written = []; taken = [] }) t
    → IsJoint size h m.next (suc m.next) t
Run-Fifo m m' h base size t p s l e run =
    let v = granted-IsRing m m' h base size p l e in
    Run-IsJoint
      (record {
        ring = Ring.init (replicate size 0) size;
        seen = λ fds f q.
            ring_of-seen m' h m.next (suc m.next) fds f (Ring.init (replicate size 0) size) q
              v.ring;
        fifo = init-Fifo size p s;
      })
      run
