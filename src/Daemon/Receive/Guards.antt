-- ===== src/Daemon/Receive/Guards.antt =====
-- daemon.c: frames that change nothing in the receiving thread.
use hermes_broadcast.Common.{
  ℕ, Bool, true, false, not, List, some, if◌then◌else◌, take, ap, All, [], ◌∷◌, ◌≡◌, ◌⊎◌, refl, sym,
  ◌∙◌, inl, inr, arith,
}
use hermes_broadcast.Nanorq.{Nanorq}
use hermes_broadcast.Header.{parse_tag_oti_common, parse_tag_oti_scheme}
use hermes_broadcast.Daemon.{Context}
use hermes_broadcast.Daemon.Receive.{
  RxSession, Scene, is_joint_frame, is_completed, rx_session_reset, rx_session_is_complete,
  rx_finish, rx_frame, is_new, rx_started, rx_use_frame, rx_session_start, rx_frames, and_then,
}

guarded :
    {A : Type 0} (joint done : Bool) (x y : A)
    → (joint ≡ false) ⊎ (done ≡ true)
    → (if not joint then x else (if done then x else y)) ≡ x
guarded false done x y h = refl
guarded true true x y h = refl
guarded true false x y h = ground arith

finish_complete :
    {N : Nanorq} (rx : RxSession N)
    → rx_session_is_complete rx ≡ true
    → let r = rx_finish rx in
      (r.active ≡ false)
      × (r.completed_last ≡ true)
      × (r.last_completed_oti_common ≡ rx.oti_common)
      × (r.last_completed_oti_scheme ≡ rx.oti_scheme)
unfolding rx_finish rx_session_reset
finish_complete rx done = rw done (refl, refl, refl, refl)

remembered :
    {N : Nanorq} (rx : RxSession N) (common scheme : ℕ)
    → rx.active ≡ false
    → rx.completed_last ≡ true
    → rx.last_completed_oti_common ≡ common
    → rx.last_completed_oti_scheme ≡ scheme
    → is_completed rx common scheme ≡ true
remembered rx common scheme off last e f = ground arith

module _ (N : Nanorq) (ctx : Context) (scene : Scene N) (rx : RxSession N) where
  -- A frame of another length, another type or another CRC leaves the session as it is, and so does
  -- every frame of the file that was completed last, while no other session runs.
  pub ignored_frame :
      (frame : List ℕ) (frame_len : ℕ)
      → (is_joint_frame ctx (take frame_len frame) ≡ false)
        ⊎ (is_completed rx (parse_tag_oti_common frame) (parse_tag_oti_scheme frame) ≡ true)
      → rx_frame N ctx scene rx frame frame_len ≡ some rx
  unfolding rx_frame
  ignored_frame frame frame_len h =
      guarded (is_joint_frame ctx (take frame_len frame))
        (is_completed rx (parse_tag_oti_common frame) (parse_tag_oti_scheme frame)) (some rx)
        (if is_new rx (parse_tag_oti_common frame) (parse_tag_oti_scheme frame)
          then rx_started N
              (rx_session_start N ctx scene rx (parse_tag_oti_common frame)
                (parse_tag_oti_scheme frame))
              frame
          else rx_use_frame N rx frame)
        h

  -- A frame of no interest, or one of the file that was completed last.
  abbrev pub IsIgnored : (List ℕ) × ℕ → Type 0
  IsIgnored f =
      (is_joint_frame ctx (take f.1 f.0) ≡ false)
      ⊎ (is_completed rx (parse_tag_oti_common f.0) (parse_tag_oti_scheme f.0) ≡ true)

  ignored_frames :
      (frames : List ((List ℕ) × ℕ))
      → All IsIgnored frames
      → rx_frames N ctx scene frames rx ≡ some rx
  unfolding rx_frames
  ignored_frames [] h = refl
  ignored_frames ((frame, frame_len) ∷ frames) (h, k) =
      ap (λ r. and_then r (rx_frames N ctx scene frames)) (ignored_frame frame frame_len h)
      ∙ ignored_frames frames k

-- A frame of the file, or one that is no joint frame of the right length with its CRC.
abbrev pub IsOfFile : {N : Nanorq} → Context → RxSession N → (List ℕ) × ℕ → Type 0
IsOfFile ctx rx f =
    (is_joint_frame ctx (take f.1 f.0) ≡ false)
    ⊎ ((parse_tag_oti_common f.0 ≡ rx.oti_common) × (parse_tag_oti_scheme f.0 ≡ rx.oti_scheme))

still-IsIgnored :
    {N : Nanorq} (ctx : Context) (scene : Scene N) (rx : RxSession N) (frames : List ((List ℕ) × ℕ))
    → rx_session_is_complete rx ≡ true
    → All (IsOfFile ctx rx) frames
    → All (IsIgnored N ctx scene (rx_finish rx)) frames
still-IsIgnored ctx scene rx [] done h = tt
still-IsIgnored ctx scene rx (f ∷ frames) done (inl bad, h) =
    (inl bad, still-IsIgnored ctx scene rx frames done h)
still-IsIgnored ctx scene rx (f ∷ frames) done (inr (common, scheme), h) =
    let (off, last, last_common, last_scheme) = finish_complete rx done in
    (
      inr (
          remembered (rx_finish rx) (parse_tag_oti_common f.0) (parse_tag_oti_scheme f.0) off last
            (last_common ∙ sym common) (last_scheme ∙ sym scheme)),
      still-IsIgnored ctx scene rx frames done h,
    )

-- A session that completes ends and remembers its file: it stays as it is on any number of frames, as
-- long as those that pass the check are of that file; whatever the system answers.
pub completed_ignored :
    (N : Nanorq) (ctx : Context) (scene : Scene N) (rx : RxSession N) (frames : List ((List ℕ) × ℕ))
    → rx_session_is_complete rx ≡ true
    → All (IsOfFile ctx rx) frames
    → ((rx_finish rx).active ≡ false)
      × (rx_frames N ctx scene frames (rx_finish rx) ≡ some (rx_finish rx))
completed_ignored N ctx scene rx frames done h = (
  (finish_complete rx done).0,
  ignored_frames N ctx scene (rx_finish rx) frames (still-IsIgnored ctx scene rx frames done h),
)
