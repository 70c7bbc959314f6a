-- ===== src/Ring/Shared.antt =====
-- ring_buffer_posix.c: processes that share a ring. Any of them may make its next call; a call takes
-- effect in its critical section, whole, at a moment at which it need not wait.
use hermes_broadcast.Common.{
  ℕ, ◌+◌, ◌≤◌, ◌<◌, List, [], ◌∷◌, ◌++◌, ◌≡◌, sym, ap, ◌∙◌, arith, leb, leb→le, Bool-cases, inl,
  inr, length, take, drop, take-append-drop, ◌⊎◌, length-take, subst,
}
use mathlib.Core.List.{append_assoc, append-nil}
use hermes_broadcast.Ring.{Ring, Attempt, waits, done, fault}
use hermes_broadcast.Ring.Valid.{IsValid, used}
use hermes_broadcast.Ring.Window.{contents, length-contents}
use hermes_broadcast.Ring.Queue.{
  Outcome, waiting, ok, broken, view, Call, read_call, read_all_call, write_call, put_call,
  get_call, IsCall, attempt, serve, map_outcome,
}
use hermes_broadcast.Ring.Queue
use hermes_broadcast.Ring.Keeps.{Keeps, attempt-Keeps}
use hermes_broadcast.Ring.Calls.{attempt_refines}

-- What a call puts into the ring when it returns.
abbrev pub given : Call → List ℕ
given (write_call bs len) = take len bs
given (put_call b) = b ∷ []
given _ = []

-- The ring with all bytes written to it and all bytes read from it since the start, in order.
pub record Shared : Type 0 where
  pub ring : Ring
  pub written : List ℕ
  pub taken : List ℕ

-- One process gets the mutex and its call returns.
pub data Step (s t : Shared) : Type 0 where
  call :
      (c : Call) (bs : List ℕ)
      → IsCall c
      → attempt s.ring c ≡ done t.ring bs
      → t.written ≡ s.written ++ given c
      → t.taken ≡ s.taken ++ bs
      → Step s t

pub data Reach (s : Shared) : Shared → Type 0 where
  here : Reach s s
  next : {t u : Shared} → Reach s t → Step t u → Reach s u

-- The bytes read, followed by those held, are the bytes written.
pub record Fifo (cap : ℕ) (s : Shared) : Type 0 where
  pub valid : IsValid s.ring
  pub same : s.ring.max ≡ cap
  pub order : s.taken ++ contents s.ring ≡ s.written

-- What the bounded queue hands out, followed by what it keeps, is what it held with what it got.
pub serve_order :
    (cap : ℕ) (c : Call) (q q' bs : List ℕ) → serve cap c q ≡ ok q' bs → bs ++ q' ≡ q ++ given c
unfolding Queue.read Queue.read_all Queue.write Queue.put Queue.get
serve_order cap (read_call len) q q' bs e = ground (arith, take-append-drop len q, append-nil q)
serve_order cap read_all_call q q' bs e = ground (arith, append-nil q)
serve_order cap (write_call xs len) q q' bs e = ground arith
serve_order cap (put_call b) q q' bs e = ground arith
serve_order cap get_call [] q' bs e = ground arith
serve_order cap get_call (b ∷ q) q' bs e = ground (arith, append-nil q)

Step-Fifo : {cap : ℕ} {s t : Shared} → Fifo cap s → Step s t → Fifo cap t
Step-Fifo {cap} {s} {t} f (call c bs p e w k) =
    let keeps = subst (Keeps s.ring.max) e (attempt-Keeps s.ring c f.valid p) in
    let served : serve s.ring.max c (contents s.ring) ≡ ok (contents t.ring) bs =
      sym (attempt_refines s.ring c f.valid p) ∙ ap view e in
    let moved = serve_order s.ring.max c (contents s.ring) (contents t.ring) bs served in
    record {
      valid = keeps.0;
      same = keeps.1 ∙ f.same;
      order =
          ap (λ l. l ++ contents t.ring) k
          ∙ append_assoc s.taken bs (contents t.ring)
          ∙ ap (λ l. s.taken ++ l) moved
          ∙ sym (append_assoc s.taken (contents s.ring) (given c))
          ∙ ap (λ l. l ++ given c) f.order
          ∙ sym w;
    }

-- However any number of processes interleave their calls on a ring, the bytes read from it, followed
-- by the bytes that it still holds, are the bytes written to it, in order: none is lost, repeated
-- or changed; and the ring stays valid, of the capacity that it began with.
pub Reach-Fifo : {cap : ℕ} {s t : Shared} → Fifo cap s → Reach s t → Fifo cap t
Reach-Fifo f here = f
Reach-Fifo f (next r st) = Step-Fifo (Reach-Fifo f r) st

pub view_ok {ℓ} :
    {A : Type ℓ} (a : Attempt A) (q : List ℕ) (x : A)
    → view a ≡ ok q x
    → (r : Ring) × (a ≡ done r x)
view_ok waits q x e = cc
view_ok (done r y) q x e = (r, cc)
view_ok fault q x e = cc

pub serve_read :
    (cap n : ℕ) (q : List ℕ) → n ≤ length q → serve cap (read_call n) q ≡ ok (drop n q) (take n q)
unfolding Queue.read
serve_read cap n q h = ground arith

pub serve_write :
    (cap m : ℕ) (bs q : List ℕ)
    → length q + m ≤ cap
    → serve cap (write_call bs m) q ≡ ok (q ++ take m bs) []
unfolding Queue.write
serve_write cap m bs q h = ground arith

-- A writer of `m` bytes and a reader of `n` cannot both wait on a valid ring whose capacity is at
-- least `m + n - 1`; and the one that can go on does so without a fault.
pub no_standstill :
    (r : Ring) (bs : List ℕ) (m n : ℕ)
    → IsValid r
    → 0 < m
    → 0 < n
    → m ≤ length bs
    → m + n ≤ r.max + 1
    → ((r' : Ring) × (out : List ℕ) × (attempt r (read_call n) ≡ done r' out) × (length out ≡ n))
      ⊎ ((r' : Ring) × (attempt r (write_call bs m) ≡ done r' []))
no_standstill r bs m n v pm pn k room = elim (Bool-cases (leb n (used r))) [
  | inl there ↦
      let (r', e) = view_ok (attempt r (read_call n)) (drop n (contents r)) (take n (contents r)) (
        attempt_refines r (read_call n) v pn
        ∙ serve_read r.max n (contents r) (rw length-contents (leb→le n (used r) there))) in
      inl (
        r',
        take n (contents r),
        e,
        omega (arith, length-take n (contents r), length-contents r, leb→le n (used r) there),
      )
  | inr short ↦
      let less : used r < n = ground arith in
      inr (
        view_ok (attempt r (write_call bs m)) (contents r ++ take m bs) [] (
          attempt_refines r (write_call bs m) v (pm, k)
          ∙ serve_write r.max m bs (contents r) (rw length-contents (omega arith))))
]
