-- ===== src/Pipe/Ends.antt =====
-- transmitter.c and receiver.c: whatever the two processes' speeds, the pipe goes on until all is
-- read.
use hermes_broadcast.Common.{
  ℕ, zero, suc, ◌+◌, ◌*◌, ◌≤◌, ◌<◌, Bool, true, List, [], ◌∷◌, ◌++◌, Option, none, some, length,
  length-append, take, drop, length-drop, length-take, take_all, leb, leb→le, All, ◌≡◌, refl, ap,
  subst, ◌∙◌, arith, ◌⊎◌, inl, inr, Bool-cases,
}
use mathlib.Core.List.{append-nil}
use hermes_broadcast.Nanorq.{Nanorq, Oti}
use hermes_broadcast.Nanorq.Laws.{Laws}
use hermes_broadcast.Ring.{
  Ring, Attempt, waits, done, fault, size_buffer, read_buffer, write_buffer,
}
use hermes_broadcast.Ring.Valid.{IsValid, used, sizes_lem}
use hermes_broadcast.Ring.Window.{contents, length-contents}
use hermes_broadcast.Ring.Queue.{read_call, write_call, attempt, map_attempt}
use hermes_broadcast.Ring.Calls.{attempt_refines}
use hermes_broadcast.Ring.Shared.{view_ok, serve_read, serve_write}
use hermes_broadcast.Transmitter.{output_shm, output_tcp, transmit}
use hermes_broadcast.Transmitter.Slices.{bytes_of, IsNext}
use hermes_broadcast.Transmitter.Streams.{ArePieces, AreStreams, transmit-AreStreams}
use hermes_broadcast.Pipe.{Pipe, Step, writes, reads, Run, here, next}
use hermes_broadcast.Pipe.Order.{IsPipe, Run-IsPipe, first_frames}

can_read :
    (s : Pipe) (size : ℕ)
    → IsValid s.ring
    → 0 < size
    → size ≤ used s.ring
    → (t : Pipe) × Step size s t
can_read s size v p h =
    let q = contents s.ring in
    let (r', e) = view_ok (read_buffer s.ring size) (drop size q) (take size q) (
      attempt_refines s.ring (read_call size) v p
      ∙ serve_read s.ring.max size q (rw length-contents h)) in
    let there : leb size (size_buffer s.ring) ≡ true = ground (arith, (sizes_lem v).0) in
    (
      record { ring = r'; unwritten = s.unwritten; frames = s.frames ++ take size q ∷ [] },
      reads (take size q) there e refl refl,
    )

returned :
    (a : Attempt (Unit {0})) (r : Ring)
    → map_attempt {B = List ℕ} (λ u. []) a ≡ done r []
    → a ≡ done r tt
returned waits r e = absurd cc
returned (done q tt) r e = cc
returned fault r e = absurd cc

can_write :
    (s : Pipe) (size : ℕ) (w : List ℕ) (ws : List (List ℕ))
    → IsValid s.ring
    → s.unwritten ≡ w ∷ ws
    → 0 < length w
    → used s.ring + length w ≤ s.ring.max
    → (t : Pipe) × Step size s t
can_write s size w ws v e p h =
    let q = contents s.ring in
    let (r', e') = view_ok (attempt s.ring (write_call w (length w))) (q ++ take (length w) w) [] (
      attempt_refines s.ring (write_call w (length w)) v (p, omega arith)
      ∙ serve_write s.ring.max (length w) w q (rw length-contents h)) in
    (
      record { ring = r'; unwritten = ws; frames = s.frames },
      writes w ws e (returned (write_buffer s.ring w (length w)) r' e') refl refl,
    )

some_left :
    (size : ℕ) (fs : List (List ℕ))
    → All (λ f. length f ≡ size) fs
    → 0 < length fs
    → size ≤ length (bytes_of fs)
some_left size [] h p = absurd (omega arith)
some_left size (f ∷ fs) (e, h) p = omega (arith, e, length-append f (bytes_of fs))

All-drop :
    (size k : ℕ) (fs : List (List ℕ))
    → All (λ f. length f ≡ size) fs
    → All (λ f. length f ≡ size) (drop k fs)
All-drop size zero fs h = h
All-drop size (suc k) [] h = tt
All-drop size (suc k) (f ∷ fs) h = All-drop size k fs h.1

module _ (cap size : ℕ) (fs : List (List ℕ)) (positive : 0 < size) (room : 2 * size ≤ cap + 1)
    (whole : All (λ f. length f ≡ size) fs) where
  -- As long as a frame has not been read, the transmitter or the receiver can go on.
  pub can_go_on :
      (s : Pipe) (ws : List (List ℕ))
      → s.unwritten ≡ ws
      → IsPipe cap size fs s
      → length s.frames < length fs
      → (t : Pipe) × Step size s t
  can_go_on s [] e v h =
      let (same, left) =
        first_frames size s.frames fs (contents s.ring ++ bytes_of s.unwritten) positive v.whole
          whole v.order in
      let all_left =
        some_left size (drop (length s.frames) fs) (All-drop size (length s.frames) fs whole)
          (omega (arith, length-drop (length s.frames) fs)) in
      let held : contents s.ring ++ bytes_of s.unwritten ≡ contents s.ring =
        ap (λ l. contents s.ring ++ bytes_of l) e ∙ append-nil (contents s.ring) in
      can_read s size v.valid positive
        (omega (arith, ap length left, ap length held, length-contents s.ring, all_left))
  can_go_on s (w ∷ ws) e v h = elim (Bool-cases (leb size (used s.ring))) [
    | inl there ↦ can_read s size v.valid positive (leb→le size (used s.ring) there)
    | inr short ↦
        let (piece, later) : ArePieces size (w ∷ ws) = subst (ArePieces size) e v.pieces in
        let few : used s.ring < size = ground arith in
        can_write s size w ws v.valid e piece.0 (omega (arith, few, piece.1, room, v.same))
  ]

-- Every step is a write or a frame.
pub Run-length :
    {size : ℕ} {s : Pipe} {n : ℕ} {t : Pipe}
    → Run size s n t
    → n + (length t.unwritten + length s.frames) ≡ length s.unwritten + length t.frames
Run-length here = omega arith
Run-length (next {n} {t} {u} run (writes w ws e k e' f)) =
    omega (arith, Run-length run, ap length e, ap length e', ap length f)
Run-length (next {n} {t} {u} run (reads f l k e g)) =
    omega (arith, Run-length run, ap length e, ap length g, length-append t.frames (f ∷ []))

-- The writes of a transmission: none where it faults.
abbrev pub writes_of : Option (List (List ℕ)) → List (List ℕ)
writes_of none = []
writes_of (some ws) = ws

abbrev pub start : Ring → List (List ℕ) → Pipe
start r ws = record { ring = r; unwritten = ws; frames = [] }

no_bytes : (r : Ring) → used r ≡ 0 → contents r ≡ []
no_bytes r e = nothing_in (contents r) (length-contents r ∙ e)
  where
    nothing_in : (xs : List ℕ) → length xs ≡ 0 → xs ≡ []
    nothing_in [] h = refl
    nothing_in (x ∷ xs) h = absurd (omega (arith, h))

module _ (size : ℕ) (r : Ring) (valid : IsValid r) (empty : used r ≡ 0) where
  start-IsPipe :
      (ws fs : Option (List (List ℕ)))
      → AreStreams size ws fs
      → IsPipe r.max size (writes_of fs) (start r (writes_of ws))
        × All (λ f. length f ≡ size) (writes_of fs)
  unfolding AreStreams
  start-IsPipe none fs h = absurd h
  start-IsPipe (some ws) none h = absurd h
  start-IsPipe (some ws) (some fs) (e, p, f) = (
    record {
      valid = valid;
      same = refl;
      order = ap (λ q. q ++ bytes_of ws) (no_bytes r empty) ∙ e;
      whole = tt;
      pieces = p;
    },
    f,
  )

-- A transmission through the ring buffer, and what the same transmission sends over TCP.
module _ (N : Nanorq) (o : Oti) (t n : ℕ) (io : N.Io) (turns : List (ℕ → Bool)) (c : N.Coder)
    (esi : List ℕ) (laws : Laws N) (large : 5 ≤ t) (small : n ≤ 256)
    (next_slice : IsNext N t n c esi) (r : Ring) (valid : IsValid r) (empty : used r ≡ 0) where
  abbrev shm_writes : List (List ℕ)
  shm_writes = writes_of (transmit N o output_shm (t + 4) io turns c esi)

  abbrev tcp_frames : List (List ℕ)
  tcp_frames = writes_of (transmit N o output_tcp (t + 4) io turns c esi)

  begins :
      IsPipe r.max (t + 4) tcp_frames (start r shm_writes) × All (λ f. length f ≡ t + 4) tcp_frames
  begins =
      start-IsPipe (t + 4) r valid empty (transmit N o output_shm (t + 4) io turns c esi)
        (transmit N o output_tcp (t + 4) io turns c esi)
        (transmit-AreStreams N o t n io turns c esi laws large small next_slice)

  -- Under the conditions of a whole transmission, and from an empty ring: whenever the
  -- transmitter's writes and the receiver's readings take their turns, the frames that the receiver
  -- has read are the first of those that the same transmission sends over TCP, whole and in order.
  pub frames_in_order :
      (k : ℕ) (u : Pipe)
      → Run (t + 4) (start r shm_writes) k u
      → u.frames ≡ take (length u.frames) tcp_frames
  frames_in_order k u run =
      let v = Run-IsPipe (omega arith) begins.0 run in
      (first_frames (t + 4) u.frames tcp_frames (contents u.ring ++ bytes_of u.unwritten)
        (omega arith) v.whole begins.1 v.order).0

  -- Under the conditions of a whole transmission, from an empty ring that has room for two frames
  -- less a byte: after any run of turns of the transmitter and the receiver, either all the frames
  -- that the transmission sends over TCP have been read, or one of the two can go on; and there are
  -- no more turns than writes and frames. So however they take turns, all is read in the end.
  pub transmission_arrives :
      (k : ℕ) (u : Pipe)
      → 2 * (t + 4) ≤ r.max + 1
      → Run (t + 4) (start r shm_writes) k u
      → (k ≤ length shm_writes + length tcp_frames)
        × ((u.frames ≡ tcp_frames) ⊎ ((v : Pipe) × Step (t + 4) u v))
  transmission_arrives k u room run =
      let v = Run-IsPipe (omega arith) begins.0 run in
      let (same, left) =
        first_frames (t + 4) u.frames tcp_frames (contents u.ring ++ bytes_of u.unwritten)
          (omega arith) v.whole begins.1 v.order in
      let some_of : length u.frames ≤ length tcp_frames =
        omega (arith, ap length same, length-take (length u.frames) tcp_frames) in
      (
        omega (arith, Run-length run, some_of),
        elim (Bool-cases (leb (length tcp_frames) (length u.frames))) [
          | inl all ↦ inl (
              same
              ∙ take_all (length u.frames) tcp_frames
                  (leb→le (length tcp_frames) (length u.frames) all))
          | inr more ↦ inr (
              can_go_on r.max (t + 4) tcp_frames (omega arith) room begins.1 u u.unwritten refl v
                (ground arith))
        ],
      )
