-- ===== src/Receiver/Run.antt =====
-- receiver.c, the loop of `main`: the frames that are read, one after the other.
use hermes_broadcast.Common.{ℕ, List, [], ◌∷◌}
use hermes_broadcast.Nanorq.{Nanorq}
use hermes_broadcast.Receiver.{
  Receiver, Turn, continues, received, other_file, fault, Input, got_frame, nothing, broken,
  receive_frame,
}

-- How the loop ends: by a signal, an error of the input, the file or another file, or a fault.
pub data Ending : Type 0 where
  by_signal by_error by_file by_other_file : Ending

pub data Over (N : Nanorq) : Type 0 where
  ends : Ending → Receiver N → Over N
  crashes : Over N

abbrev pub after_turn : {N : Nanorq} → Turn N → (Receiver N → Over N) → Over N
after_turn (continues r) go = go r
after_turn (received r) go = ends by_file r
after_turn (other_file r) go = ends by_other_file r
after_turn fault go = crashes

abbrev pub after_reading :
    {N : Nanorq} → Input → Receiver N → (ℕ → Turn N) → (Receiver N → Over N) → Over N
after_reading (got_frame n) r turn go = after_turn (turn n) go
after_reading nothing r turn go = go r
after_reading broken r turn go = ends by_error r

-- The loop, for the turns that a signal leaves it; each has what `read_frame_from_input` returns, and
-- the frame.
unfoldable pub receive : (N : Nanorq) → List (Input × (List ℕ)) → Receiver N → Over N
unfolding receive_frame
receive N [] r = ends by_signal r
receive N ((input, data_frame) ∷ turns) r =
    after_reading input r (receive_frame N r data_frame) (receive N turns)
