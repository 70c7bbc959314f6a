-- ===== src/Kiss/Resync.antt =====
-- kiss.c: a reader that starts inside another frame, and one with an escape pending.
use hermes_broadcast.Common.{
  All, ℕ, ◌+◌, ◌-◌, ◌≤◌, min, true, false, ◌&&◌, List, [], ◌∷◌, ◌++◌, ◌≡◌, refl, ap, sym, ◌∙◌, ◌==◌,
  ap₂, subst, ◌≢◌, take, set, length, length-set, take-set, arith, inl, inr, Bool-cases,
}
use mathlib.Core.List.{append-nil}
use hermes_broadcast.Kiss.{
  KissState, max_payload, kiss_init, kiss_read, kiss_write_frame, escape_byte, escape_all, fend,
  fesc, tfend, cmd_data, cmd_unknown,
}
use hermes_broadcast.Kiss.Bounds.{kiss_write_frame_bounds, length-read_all}
use hermes_broadcast.Kiss.Stream.{read_all}
use hermes_broadcast.Kiss.Frames.{
  in_data, ended, IsIdle, store_all, take-store_all, read-escape_all, read_end, read-frame,
  ended-IsIdle, state-nil, read_all-nil, taken_pos, stored, write_all, arrived, frames-write_all,
}

-- A closed reader skips what stands before a delimiter, which opens a frame.
read_skipped :
    (s : KissState) (buf bs : List ℕ)
    → s.in_frame ≡ false
    → s.escape ≡ false
    → All (λ b. b ≢ fend) bs
    → (read_all s buf (bs ++ fend ∷ [])).state
      ≡ record { frame_len = 0; in_frame = true; escape = false; kiss_command = cmd_unknown }
unfolding read_all kiss_read
read_skipped s buf [] c e a = ground arith
read_skipped s buf (b ∷ bs) c e a = ground (arith, read_skipped s buf bs c e)

-- A reader inside a data frame takes the first delimiter for the end of that frame.
read_closing :
    (s : KissState) (buf bs : List ℕ)
    → (s.in_frame && s.kiss_command == cmd_data) ≡ true
    → (read_all s buf (fend ∷ bs)).state ≡ (read_all (record s { in_frame = false }) buf bs).state
unfolding read_all kiss_read
read_closing s buf bs e = ground arith

frame-IsIdle :
    (s : KissState) (buf p : List ℕ)
    → s.escape ≡ false
    → IsIdle (read_all s buf (kiss_write_frame p)).state
frame-IsIdle s buf p e = elim (Bool-cases (s.in_frame && s.kiss_command == cmd_data)) [
  | inl busy ↦ subst IsIdle (sym (after_busy busy)) (record { closed = refl; plain = refl })
  | inr idle ↦ subst IsIdle (sym (after_idle idle)) (ended-IsIdle (stored p))
]
  where
    after_busy :
        (s.in_frame && s.kiss_command == cmd_data) ≡ true
        → (read_all s buf (kiss_write_frame p)).state
          ≡ record { frame_len = 0; in_frame = true; escape = false; kiss_command = cmd_unknown }
    after_busy busy =
        let (l, u, shape, a) = kiss_write_frame_bounds p in
        ap (λ w. (read_all s buf w).state) shape
        ∙ read_closing s buf ((2 ∷ escape_all p) ++ fend ∷ []) busy
        ∙ read_skipped (record s { in_frame = false }) buf (2 ∷ escape_all p) refl e a

    after_idle :
        (s.in_frame && s.kiss_command == cmd_data) ≡ false
        → (read_all s buf (kiss_write_frame p)).state ≡ ended (stored p)
    after_idle idle =
        ap (λ w. (read_all s buf w).state) (sym (append-nil (kiss_write_frame p)))
        ∙ ap (λ d. d.state) (read-frame s buf p [] (record { closed = idle; plain = e }))
        ∙ state-nil (ended (stored p)) (store_all 0 p buf)

-- Whatever frame a reader is in, if no escape is pending then one written frame later it is idle,
-- so that every frame after that one is delivered.
pub resync :
    (s : KissState) (buf p : List ℕ) (ps : List (List ℕ))
    → s.escape ≡ false
    → max_payload ≤ length buf
    → (read_all
        (read_all s buf (kiss_write_frame p)).state
        (read_all s buf (kiss_write_frame p)).buffer
        (write_all ps)).frames
      ≡ arrived ps
resync s buf p ps e r =
    frames-write_all (read_all s buf (kiss_write_frame p)).state
      (read_all s buf (kiss_write_frame p)).buffer ps (frame-IsIdle s buf p e)
      (omega (arith, length-read_all s buf (kiss_write_frame p)))

stale_start :
    (buf p : List ℕ)
    → (read_all kiss_init buf (fend ∷ cmd_data ∷ fesc ∷ fend ∷ kiss_write_frame (tfend ∷ p))).frames
      ≡ (read_all (in_data 1 false) (set buf 0 fend) (escape_all p ++ fend ∷ [])).frames
unfolding read_all kiss_read kiss_init kiss_write_frame escape_all escape_byte
stale_start buf p = refl

-- `kiss_read` does not clear `escape` at a delimiter: a frame that is cut after FESC changes the
-- next frame if that frame begins with TFEND, which is delivered as FEND.
pub stale_escape :
    (buf p : List ℕ)
    → max_payload ≤ length buf
    → (read_all kiss_init buf (fend ∷ cmd_data ∷ fesc ∷ fend ∷ kiss_write_frame (tfend ∷ p))).frames
      ≡ take max_payload (fend ∷ p) ∷ []
stale_escape buf p r =
    stale_start buf p
    ∙ ap (λ d. d.frames) (read-escape_all 1 p (set buf 0 fend) (fend ∷ []) (omega arith))
    ∙ ap (λ d. d.frames)
        (read_end (min max_payload (1 + length p)) (store_all 1 p (set buf 0 fend)) [])
    ∙ taken_pos (record { state = ended n; buffer = store_all 1 p (set buf 0 fend); ret = n }) _
        (omega arith)
    ∙ ap₂ ◌∷◌ head (read_all-nil (ended n) (store_all 1 p (set buf 0 fend)))
  where
    n : ℕ
    n = min max_payload (1 + length p)

    head : take n (store_all 1 p (set buf 0 fend)) ≡ take max_payload (fend ∷ p)
    head =
        take-store_all 1 p (set buf 0 fend) (omega arith) (omega (arith, length-set buf 0 fend))
        ∙ ap (λ r. r ++ take (max_payload - 1) p) (take-set 0 buf fend (omega arith))
