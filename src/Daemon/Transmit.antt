-- ===== src/Daemon/Transmit.antt =====
-- daemon.c: the transmitting thread. The RaptorQ library is the parameter `N`; what the calls of the
-- system find in one turn of the loop is a `Scene`.
pub mod Frame
pub mod Counters
pub mod Rounds
pub mod Budget
pub mod Handed
use hermes_broadcast.Common.{
  ℕ, zero, suc, ◌+◌, ◌-◌, ◌*◌, ◌/◌, ◌%◌, ◌^◌, bit_or, Bool, true, false, not, ◌&&◌, ◌||◌, List, [],
  ◌∷◌, ◌++◌, Option, none, some, ltb, leb, ◌==◌, if◌then◌else◌, length, get_or, set, replicate,
  take,
}
use hermes_broadcast.Nanorq.{
  Nanorq, Oti, oti_common_reduced, oti_scheme_specific_align1, tag_reduced,
}
use hermes_broadcast.Crc.{crc6_0x6f}
use hermes_broadcast.Tcp.{Interface, Sent, tcp_interface_send_kiss}
use hermes_broadcast.Modes.{packet_rq_config}
use hermes_broadcast.Daemon.{Context, config_body_size, max_esi}
use hermes_broadcast.Daemon.Filename.{parse_frames_limit_from_filename}
use hermes_broadcast.Daemon.Directory.{Stat, find_first_regular_file}

-- `tx_session_t`: `frames_limit` is `none` for -1, and `esi` is empty for a null pointer.
pub record TxSession (N : Nanorq) : Type 0 where
  pub active : Bool
  pub file_path : List ℕ
  pub mtime : ℕ
  pub frames_limit : Option ℕ
  pub frames_sent : ℕ
  pub next_sbn : ℕ
  pub config_body : List ℕ
  pub myio : Option N.Io
  pub rq : Option N.Coder
  pub esi : List ℕ
  pub num_sbn : ℕ

-- The `path` argument: a string of the caller's, or a pointer to the session's own `file_path`.
pub data PathArg : Type 0 where
  text : List ℕ → PathArg
  own_path : PathArg

-- What the system answers in one turn: `stat`, the entries of the directory, `ioctx_from_file` for
-- reading, `calloc` of `n` counters, `malloc` in the sender and `send`.
pub record Scene (N : Nanorq) : Type 0 where
  pub stat : List ℕ → Option Stat
  pub entries : Option (List (List ℕ))
  pub open_read : List ℕ → Option N.Io
  pub calloc_ok : ℕ → Bool
  pub malloc_ok : Bool
  pub sent : Option ℕ

-- `memset` to 0: a limit of 0 is not -1.
unfoldable pub tx_session_reset : {N : Nanorq} → TxSession N → TxSession N
tx_session_reset tx = record {
  active = false;
  file_path = [];
  mtime = 0;
  frames_limit = some 0;
  frames_sent = 0;
  next_sbn = 0;
  config_body = replicate config_body_size 0;
  myio = none;
  rq = none;
  esi = [];
  num_sbn = 0;
}

-- What the pointer points to when it is read.
unfoldable pub deref : {N : Nanorq} → PathArg → TxSession N → List ℕ
deref (text p) tx = p
deref own_path tx = tx.file_path

-- The loop that generates the symbols of the `k` blocks from `b` on.
unfoldable pub generate_blocks : (N : Nanorq) → N.Io → (k b : ℕ) → N.Coder → N.Coder
generate_blocks N io zero b c = c
generate_blocks N io (suc k) b c = generate_blocks N io k (suc b) (N.generate_symbols c b io)

-- A session on a coder, once everything is allocated.
unfoldable pub loaded_session :
    (N : Nanorq) → (path : List ℕ) → (mtime : ℕ) → N.Io → N.Coder → TxSession N
unfolding generate_blocks parse_frames_limit_from_filename
loaded_session N path mtime io c =
    let n = N.blocks c in
    let ready = generate_blocks N io n 0 c in
    record {
      active = true;
      file_path = take 4095 path;
      mtime = mtime;
      frames_limit = parse_frames_limit_from_filename path;
      frames_sent = 0;
      next_sbn = 0;
      config_body = oti_common_reduced (N.oti ready) ++ oti_scheme_specific_align1 (N.oti ready);
      myio = some io;
      rq = some ready;
      esi = replicate n 0;
      num_sbn = n;
    }

-- What follows the creation of the encoder, and the opening of the file.
unfoldable pub open_coder :
    (N : Nanorq) → Scene N → TxSession N → List ℕ → ℕ → N.Io → Option N.Coder → Bool × TxSession N
unfolding loaded_session
open_coder N scene tx0 file_path mtime io none = (false, tx0)
open_coder N scene tx0 file_path mtime io (some c) =
    let limited = N.set_max_esi c max_esi in
    if not (scene.calloc_ok (N.blocks limited))
    then (false, tx0)
    else (true, loaded_session N file_path mtime io limited)

unfoldable pub open_file :
    (N : Nanorq) → Context → Scene N → TxSession N → List ℕ → ℕ → Option N.Io → Bool × TxSession N
unfolding open_coder
open_file N ctx scene tx0 file_path mtime none = (false, tx0)
open_file N ctx scene tx0 file_path mtime (some io) =
    if ltb 16777215 (N.io_size io)
    then (false, tx0)
    else open_coder N scene tx0 file_path mtime io (N.encoder_new (N.io_size io) ctx.symbol_size 1)

-- The session is reset before the path is read.
unfoldable pub tx_session_open :
    (N : Nanorq) → Context → Scene N → TxSession N → PathArg → ℕ → Bool × TxSession N
unfolding tx_session_reset deref open_file
tx_session_open N ctx scene tx path mtime =
    let tx0 = tx_session_reset tx in
    let file_path = deref path tx0 in
    open_file N ctx scene tx0 file_path mtime (scene.open_read file_path)

-- The frame: the type and the CRC, the parameters, the tag and the symbol.
unfoldable pub joint_frame : (config_body : List ℕ) → (sbn esi : ℕ) → (symbol : List ℕ) → List ℕ
unfolding tag_reduced crc6_0x6f
joint_frame config_body sbn esi symbol =
    let body = config_body ++ (tag_reduced (sbn % 256) esi ++ symbol) in
    bit_or (packet_rq_config * 2 ^ 6 % 256) (crc6_0x6f 1 body) ∷ body

-- What a call leaves: the connection, the session, whether it succeeded, and the frame it gave to
-- the modem, if it came so far.
pub record SendFrame (N : Nanorq) : Type 0 where
  pub iface : Interface
  pub session : TxSession N
  pub ok : Bool
  pub frame : Option (List ℕ)

-- The symbol's number: beyond MAX_ESI it starts again from 0.
abbrev pub wrapped_esi : ℕ → ℕ
wrapped_esi esi = if ltb max_esi esi then 0 else esi

-- `next_sbn` is an `int`: the session is one of fewer than 2 ^ 31 frames. A session without its
-- coder or its file does not call this; it would fail in the library.
unfoldable pub tx_send_one_frame :
    (N : Nanorq) → Context → Scene N → Interface → TxSession N → SendFrame N
unfolding joint_frame tcp_interface_send_kiss
tx_send_one_frame N ctx scene iface tx =
    let sbn = tx.next_sbn % tx.num_sbn in
    let esi = wrapped_esi (get_or tx.esi sbn 0) in
    let tx1 = record tx { next_sbn = suc tx.next_sbn; esi = set tx.esi sbn esi } in
    elim tx.rq [
      | none ↦ record { iface = iface; session = tx1; ok = false; frame = none }
      | some c ↦ elim tx.myio [
        | none ↦ record { iface = iface; session = tx1; ok = false; frame = none }
        | some io ↦
            let (symbol, written, c1) = N.encode c esi (sbn % 256) io in
            if not (written == ctx.symbol_size)
            then record {
              iface = iface;
              session = record tx1 { rq = some c1 };
              ok = false;
              frame = none;
            }
            else (let tx2 = record tx1 { rq = some c1; esi = set tx.esi sbn (suc esi) } in
                let bytes = joint_frame tx.config_body sbn esi symbol in
                let out = tcp_interface_send_kiss iface bytes scene.malloc_ok scene.sent in
                elim out.ret [
                  | none ↦ record {
                    iface = out.iface;
                    session = tx2;
                    ok = false;
                    frame = some bytes;
                  }
                  | some _ ↦ record {
                    iface = out.iface;
                    session = record tx2 { frames_sent = suc tx.frames_sent };
                    ok = true;
                    frame = some bytes;
                  }
                ])
      ]
    ]

-- One turn of the loop; `ok` is `running`, and a turn that only waits sends nothing.
abbrev pub waits : {N : Nanorq} → Interface → TxSession N → SendFrame N
waits iface tx = record { iface = iface; session = tx; ok = true; frame = none }

-- `tx.frames_limit != -1 && tx.frames_sent >= tx.frames_limit`
abbrev pub is_spent : {N : Nanorq} → TxSession N → Bool
is_spent tx = elim tx.frames_limit [ none ↦ false | some limit ↦ leb limit tx.frames_sent ]

unfoldable pub tx_turn_send :
    (N : Nanorq) → Context → Scene N → Interface → TxSession N → SendFrame N
unfolding tx_send_one_frame
tx_turn_send N ctx scene iface tx =
    if is_spent tx then waits iface tx else tx_send_one_frame N ctx scene iface tx

unfoldable pub tx_turn_found :
    (N : Nanorq) → Context → Scene N → Interface → TxSession N → Option ((List ℕ) × ℕ) → SendFrame N
unfolding tx_turn_send tx_session_open
tx_turn_found N ctx scene iface tx none = waits iface tx
tx_turn_found N ctx scene iface tx (some (path, mtime)) =
    let (opened, tx1) = tx_session_open N ctx scene tx (text path) mtime in
    if opened then tx_turn_send N ctx scene iface tx1 else waits iface tx1

unfoldable pub tx_turn_stat :
    (N : Nanorq) → Context → Scene N → Interface → TxSession N → Option Stat → SendFrame N
unfolding tx_turn_send tx_session_reset tx_session_open
tx_turn_stat N ctx scene iface tx none = waits iface (tx_session_reset tx)
tx_turn_stat N ctx scene iface tx (some st) =
    if not (st.mtime == tx.mtime)
    then waits iface (tx_session_open N ctx scene tx own_path st.mtime).1
    else tx_turn_send N ctx scene iface tx

unfoldable pub tx_turn : (N : Nanorq) → Context → Scene N → Interface → TxSession N → SendFrame N
unfolding tx_turn_found tx_turn_stat find_first_regular_file
tx_turn N ctx scene iface tx =
    if tx.active
    then tx_turn_stat N ctx scene iface tx (scene.stat tx.file_path)
    else tx_turn_found N ctx scene iface tx
        (find_first_regular_file scene.stat scene.entries ctx.tx_dir)
