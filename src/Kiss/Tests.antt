-- ===== src/Kiss/Tests.antt =====
-- Runs of the framer, and its theorems at concrete inputs.
use hermes_broadcast.Common.{
  All, ℕ, ◌≤◌, ◌<◌, ◌≡◌, refl, List, [], ◌∷◌, ◌++◌, true, false, length, replicate, arith,
}
use hermes_broadcast.Kiss.{KissState, kiss_init, kiss_write_frame, escape_byte, escape_all}
use hermes_broadcast.Kiss.Stream.{read_all}
use hermes_broadcast.Kiss.Bounds.{read_all_bounds}
use hermes_broadcast.Kiss.Frames.{write_all, arrived, frames-write_all}
use hermes_broadcast.Kiss.Resync.{resync, stale_escape}

abbrev buffer : List ℕ
buffer = replicate 756 0

kiss_write_frame_run :
    kiss_write_frame (7 ∷ 0xC0 ∷ 0xDB ∷ []) ≡ 0xC0 ∷ 2 ∷ 7 ∷ 0xDB ∷ 0xDC ∷ 0xDB ∷ 0xDD ∷ 0xC0 ∷ []
unfolding kiss_write_frame escape_all escape_byte
kiss_write_frame_run = refl

-- a closed reader, and one that has lost the start of a frame
abbrev cut : KissState
cut = record { frame_len = 3; in_frame = true; escape = false; kiss_command = 2 }

read_all_bounds_example :
    ((read_all cut buffer (7 ∷ 0xC0 ∷ [])).state.frame_len ≤ 756)
    × (length (read_all cut buffer (7 ∷ 0xC0 ∷ [])).buffer ≡ 756)
    × ((read_all cut (buffer ++ 9 ∷ []) (7 ∷ 0xC0 ∷ [])).buffer
        ≡ (read_all cut buffer (7 ∷ 0xC0 ∷ [])).buffer ++ 9 ∷ [])
    × All (λ f. (0 < length f) × (length f ≤ 756)) (read_all cut buffer (7 ∷ 0xC0 ∷ [])).frames
read_all_bounds_example =
    read_all_bounds cut buffer (9 ∷ []) (7 ∷ 0xC0 ∷ []) (omega arith) (omega arith)

frames-write_all_example :
    (read_all kiss_init buffer (write_all ((1 ∷ 0xC0 ∷ []) ∷ [] ∷ (2 ∷ []) ∷ []))).frames
    ≡ (1 ∷ 0xC0 ∷ []) ∷ (2 ∷ []) ∷ []
unfolding kiss_init arrived
frames-write_all_example =
    frames-write_all kiss_init buffer ((1 ∷ 0xC0 ∷ []) ∷ [] ∷ (2 ∷ []) ∷ [])
      (record { closed = refl; plain = refl }) (omega arith)

resync_example :
    (read_all
      (read_all cut buffer (kiss_write_frame (5 ∷ []))).state
      (read_all cut buffer (kiss_write_frame (5 ∷ []))).buffer
      (write_all ((9 ∷ []) ∷ []))).frames
    ≡ (9 ∷ []) ∷ []
unfolding arrived
resync_example = resync cut buffer (5 ∷ []) ((9 ∷ []) ∷ []) refl (omega arith)

stale_escape_example :
    (read_all kiss_init buffer (0xC0 ∷ 2 ∷ 0xDB ∷ 0xC0 ∷ kiss_write_frame (0xDC ∷ 9 ∷ []))).frames
    ≡ (0xC0 ∷ 9 ∷ []) ∷ []
stale_escape_example = stale_escape buffer (9 ∷ []) (omega arith)
