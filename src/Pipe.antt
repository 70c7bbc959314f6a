-- ===== src/Pipe.antt =====
-- transmitter.c and receiver.c: a transmitter and a receiver on the two ends of the ring.
pub mod Order
pub mod Ends
mod Tests
use hermes_broadcast.Common.{ℕ, suc, true, List, [], ◌∷◌, ◌++◌, length, leb, ◌≡◌}
use hermes_broadcast.Ring.{Ring, done, size_buffer, read_buffer, write_buffer}

-- The ring, the writes that the transmitter has yet to make, and the frames that the receiver has
-- read.
pub record Pipe : Type 0 where
  pub ring : Ring
  pub unwritten : List (List ℕ)
  pub frames : List (List ℕ)

-- The transmitter's next `write_buffer` returns; or the receiver has found that the ring holds a
-- frame, as `read_frame_from_input` asks, and its `read_buffer` returns.
pub data Step (size : ℕ) (s t : Pipe) : Type 0 where
  writes :
      (w : List ℕ) (ws : List (List ℕ))
      → s.unwritten ≡ w ∷ ws
      → write_buffer s.ring w (length w) ≡ done t.ring tt
      → t.unwritten ≡ ws
      → t.frames ≡ s.frames
      → Step size s t
  reads :
      (f : List ℕ)
      → leb size (size_buffer s.ring) ≡ true
      → read_buffer s.ring size ≡ done t.ring f
      → t.unwritten ≡ s.unwritten
      → t.frames ≡ s.frames ++ f ∷ []
      → Step size s t

-- A number of steps.
pub data Run (size : ℕ) (s : Pipe) : ℕ → Pipe → Type 0 where
  here : Run size s 0 s
  next : {n : ℕ} {t u : Pipe} → Run size s n t → Step size t u → Run size s (suc n) u
