-- ===== src/Receiver/Frames.antt =====
-- receiver.c and transmitter.c: the receiver reads from the ring the frames that the transmitter
-- wrote.
use hermes_broadcast.Common.{
  ℕ, zero, suc, ◌+◌, ◌<◌, true, false, List, [], ◌∷◌, ◌++◌, ltb, length, length-append,
  take-append_left, drop-append_left, All, ◌≡◌, refl, sym, ap, ◌∙◌, arith,
}
use mathlib.Core.List.{append_assoc}
use hermes_broadcast.Receiver.{Input, got_frame, nothing, broken, read_frame_shm}
use hermes_broadcast.Transmitter.Slices.{bytes_of}

abbrev Frames : Type 0
Frames = (List (List ℕ)) × (List ℕ)

abbrev gather : Input → List ℕ → Frames → Frames
gather (got_frame k) f more = (f ∷ more.0, more.1)
gather nothing f more = more
gather broken f more = more

-- `n` readings of the ring: the frames, and what is left in it.
unfoldable pub read_frames : (n frame_size : ℕ) → List ℕ → (List (List ℕ)) × (List ℕ)
read_frames zero size queued = ([], queued)
read_frames (suc n) size queued =
    let r = read_frame_shm queued size in gather r.0 r.1 (read_frames n size r.2)

read_frames_step :
    (n size : ℕ) (queued f left : List ℕ) (i : Input)
    → read_frame_shm queued size ≡ (i, f, left)
    → read_frames (suc n) size queued ≡ gather i f (read_frames n size left)
unfolding read_frames
read_frames_step n size queued f left i e =
    ap (λ (r : Input × (List ℕ) × (List ℕ)). gather r.0 r.1 (read_frames n size r.2)) e

whole_frame :
    (f rest : List ℕ) (size : ℕ)
    → length f ≡ size
    → read_frame_shm (f ++ rest) size ≡ (got_frame size, f, rest)
unfolding read_frame_shm
whole_frame f rest size e =
    let enough : ltb (length (f ++ rest)) size ≡ false = ground (arith, length-append f rest) in
    rw (enough, take-append_left size f rest (sym e), drop-append_left size f rest (sym e)) refl

part_of_frame :
    (part : List ℕ) (size : ℕ) → length part < size → read_frame_shm part size ≡ (nothing, [], part)
unfolding read_frame_shm
part_of_frame part size h =
    let short : ltb (length part) size ≡ true = ground arith in rw short refl

no_frame_yet :
    (n size : ℕ) (part : List ℕ) → length part < size → read_frames n size part ≡ ([], part)
unfolding read_frames
no_frame_yet zero size part h = refl
no_frame_yet (suc n) size part h =
    read_frames_step n size part [] part nothing (part_of_frame part size h)
    ∙ no_frame_yet n size part h

-- A ring that holds frames of one size and the first bytes of another, as the transmitter writes
-- them: readings, one for each frame and any number more, take the frames in order, whole, and the
-- bytes of the frame that is not complete yet stay in the ring.
pub read_frames_lem :
    (more size : ℕ) (fs : List (List ℕ)) (part : List ℕ)
    → All (λ f. length f ≡ size) fs
    → length part < size
    → read_frames (length fs + more) size (bytes_of fs ++ part) ≡ (fs, part)
unfolding read_frames
read_frames_lem more size [] part h k =
    let e : 0 + more ≡ more = omega arith in
    ap (λ m. read_frames m size part) e ∙ no_frame_yet more size part k
read_frames_lem more size (f ∷ fs) part (e, h) k =
    let m : suc (length fs) + more ≡ suc (length fs + more) = omega arith in
    let first : read_frame_shm ((f ++ bytes_of fs) ++ part) size
        ≡ (got_frame size, f, bytes_of fs ++ part) =
      ap (λ q. read_frame_shm q size) (append_assoc f (bytes_of fs) part)
      ∙ whole_frame f (bytes_of fs ++ part) size e in
    ap (λ m. read_frames m size ((f ++ bytes_of fs) ++ part)) m
    ∙ read_frames_step (length fs + more) size ((f ++ bytes_of fs) ++ part) f (bytes_of fs ++ part)
        (got_frame size) first
    ∙ ap (gather (got_frame size) f) (read_frames_lem more size fs part h k)
