-- ===== src/Pipe/Order.antt =====
-- transmitter.c and receiver.c: the frames that come out of the ring are those that went in.
use hermes_broadcast.Common.{
  ℕ, ◌<◌, List, [], ◌∷◌, ◌++◌, length, length-append, take, drop, take_all, ap₂, take-append_left,
  drop-append_left, length-take, All, All-append, ◌≡◌, refl, sym, ap, subst, ◌∙◌, arith,
}
use mathlib.Core.List.{append_assoc, append-nil}
use hermes_broadcast.Ring.{Ring, done, read_buffer, write_buffer}
use hermes_broadcast.Ring.Valid.{IsValid}
use hermes_broadcast.Ring.Window.{contents}
use hermes_broadcast.Ring.Queue
use hermes_broadcast.Ring.Queue.{
  map_attempt, view, ok, Call, read_call, write_call, IsCall, attempt, serve,
}
use hermes_broadcast.Ring.Keeps.{Keeps, attempt-Keeps}
use hermes_broadcast.Ring.Calls.{attempt_refines}
use hermes_broadcast.Ring.Shared.{serve_order, given}
use hermes_broadcast.Transmitter.Slices.{bytes_of}
use hermes_broadcast.Transmitter.Streams.{bytes_of-append, ArePieces}
use hermes_broadcast.Pipe.{Pipe, Step, writes, reads, Run, here, next}

-- The bytes of the frames read, of the ring and of the writes to come are those of the frames `fs`.
pub record IsPipe (cap size : ℕ) (fs : List (List ℕ)) (s : Pipe) : Type 0 where
  pub valid : IsValid s.ring
  pub same : s.ring.max ≡ cap
  pub order : bytes_of s.frames ++ (contents s.ring ++ bytes_of s.unwritten) ≡ bytes_of fs
  pub whole : All (λ f. length f ≡ size) s.frames
  pub pieces : ArePieces size s.unwritten

-- What a call that returns has done to a valid ring.
called :
    (r r' : Ring) (c : Call) (bs : List ℕ)
    → IsValid r
    → IsCall c
    → attempt r c ≡ done r' bs
    → IsValid r' × (r'.max ≡ r.max) × (bs ++ contents r' ≡ contents r ++ given c)
called r r' c bs v p e =
    let keeps = subst (Keeps r.max) e (attempt-Keeps r c v p) in
    (
      keeps.0,
      keeps.1,
      serve_order r.max c (contents r) (contents r') bs (sym (attempt_refines r c v p) ∙ ap view e),
    )

served_length :
    (cap n : ℕ) (q q' bs : List ℕ) → serve cap (read_call n) q ≡ ok q' bs → length bs ≡ n
unfolding Queue.read
served_length cap n q q' bs e = ground (arith, length-take n q)

written_order :
    (r r' : Ring) (w : List ℕ)
    → IsValid r
    → 0 < length w
    → write_buffer r w (length w) ≡ done r' tt
    → IsValid r' × (r'.max ≡ r.max) × (contents r' ≡ contents r ++ w)
written_order r r' w v p e =
    let (valid, same, order) =
      called r r' (write_call w (length w)) [] v (p, omega arith)
        (ap (map_attempt {A = Unit} {B = List ℕ} (λ u. [])) e) in
    (valid, same, order ∙ ap (λ l. contents r ++ l) (take_all (length w) w (omega arith)))

read_order :
    (r r' : Ring) (n : ℕ) (f : List ℕ)
    → IsValid r
    → 0 < n
    → read_buffer r n ≡ done r' f
    → IsValid r' × (r'.max ≡ r.max) × (f ++ contents r' ≡ contents r) × (length f ≡ n)
read_order r r' n f v p e =
    let (valid, same, order) = called r r' (read_call n) f v p e in
    (
      valid,
      same,
      order ∙ append-nil (contents r),
      served_length r.max n (contents r) (contents r') f
          (sym (attempt_refines r (read_call n) v p) ∙ ap view e),
    )

Step-IsPipe :
    {cap size : ℕ} {fs : List (List ℕ)} {s t : Pipe}
    → 0 < size
    → IsPipe cap size fs s
    → Step size s t
    → IsPipe cap size fs t
Step-IsPipe {cap} {size} {fs} {s} {t} p v (writes w ws e k e' f) =
    let ((positive, small), later) : ArePieces size (w ∷ ws) = subst (ArePieces size) e v.pieces in
    let (valid, same, order) = written_order s.ring t.ring w v.valid positive k in
    let moved : contents t.ring ++ bytes_of ws ≡ contents s.ring ++ bytes_of (w ∷ ws) =
      ap (λ l. l ++ bytes_of ws) order ∙ append_assoc (contents s.ring) w (bytes_of ws) in
    let kept : bytes_of s.frames ++ (contents t.ring ++ bytes_of ws) ≡ bytes_of fs =
      ap (λ l. bytes_of s.frames ++ l) (moved ∙ ap (λ l. contents s.ring ++ bytes_of l) (sym e))
      ∙ v.order in
    record {
      valid = valid;
      same = same ∙ v.same;
      order = rw (f, e') kept;
      whole = rw f v.whole;
      pieces = rw e' later;
    }
Step-IsPipe {cap} {size} {fs} {s} {t} p v (reads f l k e g) =
    let (valid, same, order, len) = read_order s.ring t.ring size f v.valid p k in
    let front : bytes_of (s.frames ++ f ∷ []) ≡ bytes_of s.frames ++ f =
      bytes_of-append s.frames (f ∷ []) ∙ ap (λ b. bytes_of s.frames ++ b) (append-nil f) in
    let rest = contents t.ring ++ bytes_of s.unwritten in
    let moved : f ++ rest ≡ contents s.ring ++ bytes_of s.unwritten =
      sym (append_assoc f (contents t.ring) (bytes_of s.unwritten))
      ∙ ap (λ b. b ++ bytes_of s.unwritten) order in
    let kept : bytes_of (s.frames ++ f ∷ []) ++ rest ≡ bytes_of fs =
      ap (λ b. b ++ rest) front
      ∙ append_assoc (bytes_of s.frames) f rest
      ∙ ap (λ b. bytes_of s.frames ++ b) moved
      ∙ v.order in
    record {
      valid = valid;
      same = same ∙ v.same;
      order = rw (g, e) kept;
      whole = rw g (All-append (λ b. length b ≡ size) s.frames (f ∷ []) v.whole (len, tt));
      pieces = rw e v.pieces;
    }

pub Run-IsPipe :
    {cap size : ℕ} {fs : List (List ℕ)} {s : Pipe} {n : ℕ} {t : Pipe}
    → 0 < size
    → IsPipe cap size fs s
    → Run size s n t
    → IsPipe cap size fs t
Run-IsPipe p v here = v
Run-IsPipe p v (next r st) = Step-IsPipe p (Run-IsPipe p v r) st

-- Frames of one size that begin the bytes of others of that size are the first of them.
pub first_frames :
    (size : ℕ) (gs fs : List (List ℕ)) (rest : List ℕ)
    → 0 < size
    → All (λ g. length g ≡ size) gs
    → All (λ f. length f ≡ size) fs
    → bytes_of gs ++ rest ≡ bytes_of fs
    → (gs ≡ take (length gs) fs) × (rest ≡ bytes_of (drop (length gs) fs))
first_frames size [] fs rest p h k e = (refl, e)
first_frames size (g ∷ gs) [] rest p (hg, h) k e = absurd (
    omega
      (arith, ap length e, length-append (g ++ bytes_of gs) rest, length-append g (bytes_of gs)))
first_frames size (g ∷ gs) (f ∷ fs) rest p (hg, h) (kf, k) e =
    let same : g ++ (bytes_of gs ++ rest) ≡ f ++ bytes_of fs =
      sym (append_assoc g (bytes_of gs) rest) ∙ e in
    let lens : length g ≡ length f = hg ∙ sym kf in
    let first : g ≡ f =
      sym (take-append_left (length g) g (bytes_of gs ++ rest) refl)
      ∙ ap (take (length g)) same
      ∙ take-append_left (length g) f (bytes_of fs) lens in
    let others : bytes_of gs ++ rest ≡ bytes_of fs =
      sym (drop-append_left (length g) g (bytes_of gs ++ rest) refl)
      ∙ ap (drop (length g)) same
      ∙ drop-append_left (length g) f (bytes_of fs) lens in
    let (firsts, left) = first_frames size gs fs rest p h k others in
    (ap₂ (λ a b. a ∷ b) first firsts, left)
