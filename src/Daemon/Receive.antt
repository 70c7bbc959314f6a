-- ===== src/Daemon/Receive.antt =====
-- daemon.c: the receiving thread. The RaptorQ library is the parameter `N`; `none` is a fault: a call
-- on a null pointer, or an index beyond an array.
pub mod Guards
pub mod Symbols
pub mod Session
pub mod Added
use hermes_broadcast.Common.{
  ℕ, zero, suc, ◌+◌, ◌-◌, ◌*◌, ◌/◌, ◌%◌, ◌^◌, bit_or, Bool, true, false, not, ◌&&◌, ◌||◌, List, [],
  ◌∷◌, ◌++◌, Option, none, some, ltb, leb, ◌==◌, if◌then◌else◌, length, get_or, set, replicate,
  take, drop,
}
use hermes_broadcast.Nanorq.{Nanorq, SymbolResult, added, ignored, duplicate, failed, is_added, tag}
use hermes_broadcast.Kiss.{max_payload}
use hermes_broadcast.Crc.{crc6_0x6f}
use hermes_broadcast.Header.{byte, parse_tag_oti_common, parse_tag_oti_scheme}
use hermes_broadcast.Modes.{packet_rq_config}
use hermes_broadcast.Daemon.{Context, config_body_size, max_esi}
use hermes_broadcast.Daemon.Directory.{build_output_path}

-- `rx_session_t`
pub record RxSession (N : Nanorq) : Type 0 where
  pub active : Bool
  pub completed_last : Bool
  pub last_completed_oti_common : ℕ
  pub last_completed_oti_scheme : ℕ
  pub oti_common : ℕ
  pub oti_scheme : ℕ
  pub num_sbn : ℕ
  pub out_path : List ℕ
  pub myio : Option N.Io
  pub rq : Option N.Coder
  pub block_decoded : List Bool
  pub block_symbols_seen : List ℕ

-- What the system answers: `access`, the date and time as they are printed, `ioctx_from_file` for
-- writing, and `calloc` of `n` entries.
pub record Scene (N : Nanorq) : Type 0 where
  pub exists : List ℕ → Bool
  pub stamp : List ℕ
  pub open_write : List ℕ → Option N.Io
  pub calloc_ok : ℕ → Bool

unfoldable pub rx_session_reset : {N : Nanorq} → RxSession N → RxSession N
rx_session_reset rx = record {
  active = false;
  completed_last = rx.completed_last;
  last_completed_oti_common = rx.last_completed_oti_common;
  last_completed_oti_scheme = rx.last_completed_oti_scheme;
  oti_common = 0;
  oti_scheme = 0;
  num_sbn = 0;
  out_path = [];
  myio = none;
  rq = none;
  block_decoded = [];
  block_symbols_seen = [];
}

-- What follows the creation of the decoder, the opening of the file, and the choice of its path.
unfoldable pub start_coder :
    (N : Nanorq)
    → Scene N
    → RxSession N
    → (oti_common oti_scheme : ℕ) → List ℕ
    → N.Io
    → Option N.Coder
    → Bool × RxSession N
start_coder N scene rx0 oti_common oti_scheme path io none = (false, rx0)
start_coder N scene rx0 oti_common oti_scheme path io (some c) =
    let limited = N.set_max_esi c max_esi in
    let n = N.blocks limited in
    if not (scene.calloc_ok n) then (false, rx0) else (
      true,
      record rx0 {
        active = true;
        oti_common = oti_common;
        oti_scheme = oti_scheme;
        num_sbn = n;
        out_path = path;
        myio = some io;
        rq = some limited;
        block_decoded = replicate n false;
        block_symbols_seen = replicate n 0;
      },
    )

unfoldable pub start_file :
    (N : Nanorq)
    → Scene N
    → RxSession N
    → (oti_common oti_scheme : ℕ) → List ℕ
    → Option N.Io
    → Bool × RxSession N
unfolding start_coder
start_file N scene rx0 oti_common oti_scheme path none = (false, record rx0 { out_path = path })
start_file N scene rx0 oti_common oti_scheme path (some io) =
    start_coder N scene rx0 oti_common oti_scheme path io (N.decoder_new oti_common oti_scheme)

unfoldable pub start_path :
    (N : Nanorq)
    → Scene N
    → RxSession N
    → (oti_common oti_scheme : ℕ) → Option (List ℕ)
    → Bool × RxSession N
unfolding start_file
start_path N scene rx0 oti_common oti_scheme none = (false, rx0)
start_path N scene rx0 oti_common oti_scheme (some path) =
    start_file N scene rx0 oti_common oti_scheme path (scene.open_write path)

unfoldable pub rx_session_start :
    (N : Nanorq) → Context → Scene N → RxSession N → ℕ → ℕ → Bool × RxSession N
unfolding rx_session_reset build_output_path start_path
rx_session_start N ctx scene rx oti_common oti_scheme =
    start_path N scene (rx_session_reset rx) oti_common oti_scheme
      (build_output_path scene.exists ctx.rx_dir scene.stamp)

-- The loop over the first `n` entries.
unfoldable pub all_decoded : ℕ → List Bool → Bool
all_decoded zero ds = true
all_decoded (suc n) [] = false
all_decoded (suc n) (d ∷ ds) = d && all_decoded n ds

unfoldable pub rx_session_is_complete : {N : Nanorq} → RxSession N → Bool
unfolding all_decoded
rx_session_is_complete rx = all_decoded rx.num_sbn rx.block_decoded

-- The length, the type and the CRC of a frame of `frame_len` bytes.
unfoldable pub is_joint_frame : Context → List ℕ → Bool
unfolding crc6_0x6f
is_joint_frame ctx frame =
    (length frame == ctx.frame_size)
    && ((byte frame 0 / 2 ^ 6 % 4 == packet_rq_config)
        && (byte frame 0 % 64 == crc6_0x6f 1 (drop 1 frame)))

-- The block and the number of the symbol that a frame carries.
abbrev pub frame_sbn : List ℕ → ℕ
frame_sbn frame = byte frame 9

abbrev pub frame_esi : List ℕ → ℕ
frame_esi frame = bit_or (byte frame 10) (byte frame 11 * 2 ^ 8)

-- A symbol was added to block `sbn`: it is counted, and with enough of them the block is repaired.
unfoldable pub rx_symbol_added :
    (N : Nanorq) → RxSession N → N.Coder → N.Io → (sbn : ℕ) → Option (RxSession N)
rx_symbol_added N rx c io sbn =
    if not (ltb sbn (length rx.block_symbols_seen) && ltb sbn (length rx.block_decoded))
    then none
    else (let seen = suc (get_or rx.block_symbols_seen sbn 0) % 2 ^ 32 in
        let rx1 = record rx { block_symbols_seen = set rx.block_symbols_seen sbn seen } in
        if not (get_or rx.block_decoded sbn false) && leb (N.block_symbols c sbn) seen
        then (let (repaired, c1, io1) = N.repair_block c io sbn in
            let rx2 = record rx1 { rq = some c1; myio = some io1 } in
            if repaired
            then some (record rx2 { block_decoded = set rx.block_decoded sbn true })
            else some rx2)
        else some rx1)

unfoldable pub rx_symbol_result :
    (N : Nanorq) → RxSession N → N.Coder → N.Io → (sbn : ℕ) → SymbolResult → Option (RxSession N)
unfolding rx_symbol_added
rx_symbol_result N rx c io sbn added = rx_symbol_added N rx c io sbn
rx_symbol_result N rx c io sbn ignored = some rx
rx_symbol_result N rx c io sbn duplicate = some rx
rx_symbol_result N rx c io sbn failed = some rx

-- The symbol stands behind the header in the array of MAX_PAYLOAD bytes. When it is added the library
-- copies as many bytes as its own symbols have, whatever the length of the frame: more than the array
-- has there is an access beyond it.
unfoldable pub rx_add_symbol :
    (N : Nanorq) → RxSession N → List ℕ → Option N.Coder → Option N.Io → Option (RxSession N)
unfolding rx_symbol_result tag
rx_add_symbol N rx frame none io = none
rx_add_symbol N rx frame (some c) none = none
rx_add_symbol N rx frame (some c) (some io) =
    let sbn = frame_sbn frame in
    let (ret, c1, io1) = N.add_symbol c (drop 12 frame) (tag sbn (frame_esi frame)) io in
    if is_added ret && ltb (max_payload - 12) (N.oti c).symbol_size
    then none
    else rx_symbol_result N (record rx { rq = some c1; myio = some io1 }) c1 io1 sbn ret

-- The end of a turn: a complete file is remembered by its parameters, and the session ends.
unfoldable pub rx_finish : {N : Nanorq} → RxSession N → RxSession N
unfolding rx_session_is_complete rx_session_reset
rx_finish rx =
    if rx_session_is_complete rx
    then rx_session_reset (record rx {
      completed_last = true;
      last_completed_oti_common = rx.oti_common;
      last_completed_oti_scheme = rx.oti_scheme;
    })
    else rx

unfoldable pub finish_some : {N : Nanorq} → Option (RxSession N) → Option (RxSession N)
unfolding rx_finish
finish_some none = none
finish_some (some rx) = some (rx_finish rx)

unfoldable pub rx_use_frame : (N : Nanorq) → RxSession N → List ℕ → Option (RxSession N)
unfolding rx_add_symbol finish_some
rx_use_frame N rx frame = finish_some (rx_add_symbol N rx frame rx.rq rx.myio)

-- A session that was started goes on with the frame.
unfoldable pub rx_started : (N : Nanorq) → Bool × RxSession N → List ℕ → Option (RxSession N)
unfolding rx_use_frame
rx_started N (started, rx1) frame =
    if not started then some rx1 else rx_use_frame N (record rx1 { completed_last = false }) frame

-- The file that was completed last is on the air still.
abbrev pub is_completed : {N : Nanorq} → RxSession N → ℕ → ℕ → Bool
is_completed rx common scheme =
    rx.completed_last
    && (rx.last_completed_oti_common == common)
    && (rx.last_completed_oti_scheme == scheme)
    && not rx.active

-- `!rx.active` or other parameters than the session's.
abbrev pub is_new : {N : Nanorq} → RxSession N → ℕ → ℕ → Bool
is_new rx common scheme =
    not rx.active || not (rx.oti_common == common) || not (rx.oti_scheme == scheme)

-- One turn of the loop, on the array in which the modem delivered a frame of `frame_len` bytes.
unfoldable pub rx_frame :
    (N : Nanorq)
    → Context
    → Scene N
    → RxSession N
    → (frame : List ℕ) → (frame_len : ℕ) → Option (RxSession N)
unfolding is_joint_frame parse_tag_oti_common parse_tag_oti_scheme rx_use_frame rx_started
    rx_session_start
rx_frame N ctx scene rx frame frame_len =
    let common = parse_tag_oti_common frame in
    let scheme = parse_tag_oti_scheme frame in
    if not (is_joint_frame ctx (take frame_len frame))
    then some rx
    else (if is_completed rx common scheme
        then some rx
        else (if is_new rx common scheme
            then rx_started N (rx_session_start N ctx scene rx common scheme) frame
            else rx_use_frame N rx frame))

abbrev pub and_then :
    {N : Nanorq}
    → Option (RxSession N)
    → (RxSession N → Option (RxSession N))
    → Option (RxSession N)
and_then none go = none
and_then (some rx) go = go rx

-- The loop, on the frames that the modem delivers, each with its length.
unfoldable pub rx_frames :
    (N : Nanorq) → Context → Scene N → List ((List ℕ) × ℕ) → RxSession N → Option (RxSession N)
unfolding rx_frame
rx_frames N ctx scene [] rx = some rx
rx_frames N ctx scene ((frame, frame_len) ∷ frames) rx =
    and_then (rx_frame N ctx scene rx frame frame_len) (rx_frames N ctx scene frames)
