-- ===== src/Daemon/Receive/Session.antt =====
-- daemon.c: the session of the receiving thread stays well-formed, and its calls never fault.
use hermes_broadcast.Common.{
  ℕ, ◌^◌, ◌<◌, ◌≤◌, take, ap, Bool, true, false, not, List, Option, none, some, if◌then◌else◌,
  length-replicate, All, ◌≡◌, refl, Bool-cases, inl, inr, arith,
}
use hermes_broadcast.Common.Bits.{bit_or_above}
use hermes_broadcast.Nanorq.{Nanorq}
use hermes_broadcast.Nanorq.Laws.{Laws, announced}
use hermes_broadcast.Header.{byte, parse_tag_oti_common, parse_tag_oti_scheme}
use hermes_broadcast.Header.Oti.{byte_lt}
use hermes_broadcast.Daemon.{Context, max_esi}
use hermes_broadcast.Daemon.Directory.{build_output_path}
use hermes_broadcast.Daemon.Receive.{
  RxSession, Scene, is_joint_frame, is_completed, is_new, frame_sbn, frame_esi, rx_session_reset,
  rx_session_start, start_path, start_file, start_coder, rx_use_frame, rx_started, rx_frame,
}
use hermes_broadcast.Daemon.Receive.Symbols.{IsValid, Returns, reset-IsValid, rx_use_frame-Returns}

module _ (N : Nanorq) (laws : Laws N) where
  -- What a start leaves: a valid session, which is active if it succeeded.
  IsStart : Bool × RxSession N → Type 0
  IsStart r = IsValid r.1 × (r.0 ≡ true → (r.1).active ≡ true)

  small :
      (c c' : N.Coder) {common scheme : ℕ}
      → N.decoder_new common scheme ≡ some c
      → announced common ≤ 744
      → some (N.set_max_esi c max_esi) ≡ some c'
      → (N.oti c').symbol_size ≤ 744
  small c c' {common} {scheme} e fits h =
      let same : N.set_max_esi c max_esi ≡ c' = cc in
      omega (
        arith,
        ap (λ x. (N.oti x).symbol_size) same,
        ap (λ o. o.symbol_size) (laws.oti-set_max_esi c max_esi),
        laws.new_decoder_symbol common scheme c e,
      )

  start_coder-IsStart :
      (scene : Scene N) (rx0 : RxSession N) (common scheme : ℕ) (path : List ℕ) (io : N.Io)
      (c : Option N.Coder)
      → N.decoder_new common scheme ≡ c
      → announced common ≤ 744
      → IsValid rx0
      → IsStart (start_coder N scene rx0 common scheme path io c)
  unfolding start_coder IsStart
  start_coder-IsStart scene rx0 common scheme path io none e fits v =
      (v, λ h. absurd (ground arith))
  start_coder-IsStart scene rx0 common scheme path io (some c) e fits v =
      let n = N.blocks (N.set_max_esi c max_esi) in
      elim (Bool-cases (scene.calloc_ok n)) [
        | inl got ↦ rw got (
          record {
            decoded = length-replicate n false;
            seen = length-replicate n 0;
            blocks = λ c' h. ground arith;
            coder = λ h. ground arith;
            file = λ h. ground arith;
            symbol = λ c' h. omega (arith, small c c' e fits h);
          },
          λ h. refl,
        )
        | inr out ↦ rw out (v, λ h. absurd (ground arith))
      ]

  start_file-IsStart :
      (scene : Scene N) (rx0 : RxSession N) (common scheme : ℕ) (path : List ℕ) (io : Option N.Io)
      → announced common ≤ 744
      → IsValid rx0
      → IsStart (start_file N scene rx0 common scheme path io)
  unfolding start_file IsStart
  start_file-IsStart scene rx0 common scheme path none fits v = (
    record {
      decoded = v.decoded;
      seen = v.seen;
      blocks = v.blocks;
      coder = v.coder;
      file = v.file;
      symbol = v.symbol;
    },
    λ h. absurd (ground arith),
  )
  start_file-IsStart scene rx0 common scheme path (some io) fits v =
      start_coder-IsStart scene rx0 common scheme path io (N.decoder_new common scheme) refl fits v

  start_path-IsStart :
      (scene : Scene N) (rx0 : RxSession N) (common scheme : ℕ) (path : Option (List ℕ))
      → announced common ≤ 744
      → IsValid rx0
      → IsStart (start_path N scene rx0 common scheme path)
  unfolding start_path IsStart
  start_path-IsStart scene rx0 common scheme none fits v = (v, λ h. absurd (ground arith))
  start_path-IsStart scene rx0 common scheme (some path) fits v =
      start_file-IsStart scene rx0 common scheme path (scene.open_write path) fits v

  rx_started-Returns :
      (r : Bool × RxSession N) (frame : List ℕ)
      → IsStart r
      → frame_sbn frame < 256
      → frame_esi frame < 2 ^ 16
      → Returns IsValid (rx_started N r frame)
  unfolding rx_started IsStart
  rx_started-Returns (false, rx) frame (v, on) hs he = v
  rx_started-Returns (true, rx) frame (v, on) hs he =
      rx_use_frame-Returns N laws (record rx { completed_last = false }) frame
        (record {
          decoded = v.decoded;
          seen = v.seen;
          blocks = v.blocks;
          coder = v.coder;
          file = v.file;
          symbol = v.symbol;
        })
        (on refl) hs he

  rx_session_start-IsStart :
      (ctx : Context) (scene : Scene N) (rx : RxSession N) (common scheme : ℕ)
      → announced common ≤ 744
      → IsStart (rx_session_start N ctx scene rx common scheme)
  unfolding rx_session_start
  rx_session_start-IsStart ctx scene rx common scheme fits =
      start_path-IsStart scene (rx_session_reset rx) common scheme
        (build_output_path scene.exists ctx.rx_dir scene.stamp) fits (reset-IsValid N laws rx)

is_new-active :
    {N : Nanorq} (rx : RxSession N) (common scheme : ℕ)
    → is_new rx common scheme ≡ false
    → rx.active ≡ true
is_new-active rx common scheme h = ground arith

if-Returns :
    {A : Type 0} (P : A → Type 0) (b : Bool) (x y : Option A)
    → Returns P x
    → (b ≡ false → Returns P y)
    → Returns P (if b then x else y)
if-Returns P true x y hx hy = hx
if-Returns P false x y hx hy = hy refl

frame_esi_lt : (frame : List ℕ) → All (λ b. b < 256) frame → frame_esi frame < 2 ^ 16
frame_esi_lt frame h =
    let lo = byte_lt frame 10 h in
    let hi = byte_lt frame 11 h in omega (arith, bit_or_above 8 (byte frame 11) (byte frame 10) lo)

-- With a RaptorQ library that keeps its laws and a well-formed session, and on every array of bytes
-- that announces symbols of at most 744 bytes, which is what the array has behind the header, with
-- any length and whatever the system answers: a turn of the loop returns without an access beyond
-- an array or to a null pointer, and leaves a well-formed session.
pub rx_frame-IsValid :
    (N : Nanorq) (ctx : Context) (scene : Scene N) (rx : RxSession N) (frame : List ℕ)
    (frame_len : ℕ)
    → Laws N
    → IsValid rx
    → All (λ b. b < 256) frame
    → announced (parse_tag_oti_common frame) ≤ 744
    → Returns IsValid (rx_frame N ctx scene rx frame frame_len)
unfolding rx_frame
rx_frame-IsValid N ctx scene rx frame frame_len laws v bytes fits =
    let common = parse_tag_oti_common frame in
    let scheme = parse_tag_oti_scheme frame in
    let hs = byte_lt frame 9 bytes in
    let he = frame_esi_lt frame bytes in
    let start = rx_session_start N ctx scene rx common scheme in
    let go =
      if is_new rx common scheme then rx_started N start frame else rx_use_frame N rx frame in
    if-Returns IsValid (not (is_joint_frame ctx (take frame_len frame))) (some rx)
      (if is_completed rx common scheme then some rx else go) v
      (λ e. if-Returns IsValid (is_completed rx common scheme) (some rx) go v (λ f.
        if-Returns IsValid (is_new rx common scheme) (rx_started N start frame)
          (rx_use_frame N rx frame)
          (rx_started-Returns N laws start frame
            (rx_session_start-IsStart N laws ctx scene rx common scheme fits) hs he)
          (λ g. rx_use_frame-Returns N laws rx frame v (is_new-active rx common scheme g) hs he)))
