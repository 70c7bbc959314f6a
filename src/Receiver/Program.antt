-- ===== src/Receiver/Program.antt =====
-- receiver.c: the whole program, from its options to its last frame.
use hermes_broadcast.Common.{ℕ, ◌≤◌, some, ◌≡◌, ◌⊎◌}
use hermes_broadcast.Nanorq.{Nanorq}
use hermes_broadcast.Nanorq.Laws.{Laws}
use hermes_broadcast.Receiver.{start_receiver}
use hermes_broadcast.Receiver.Blocks.{Repairs}
use hermes_broadcast.Receiver.Safe.{IsOver}
use hermes_broadcast.Receiver.Main.{Start, exits, dies, listens, Ended, exited, died, listened}

module _ (N : Nanorq) where
  -- The loop begins with nothing received.
  IsStart : Start N → Type 0
  IsStart (exits status) = (status ≡ 0) ⊎ (status ≡ 255)
  IsStart dies = Unit
  IsStart (listens size r) = (io : N.Io) × (r ≡ start_receiver N io)

module _ (N : Nanorq) (laws : Laws N) (Whole : N.Coder → ℕ → Type 0) (repairs : Repairs N Whole)
    (few : (common scheme : ℕ) (c : N.Coder)
      → N.decoder_new common scheme ≡ some c
      → N.blocks c ≤ 128) where
  -- An end of the program: an exit, or the end of its loop without a fault.
  pub IsStop : Ended N → Type 0
  IsStop (exited status) = (status ≡ 0) ⊎ (status ≡ 255)
  IsStop died = Unit
  IsStop (listened over) = IsOver N laws Whole repairs few over
