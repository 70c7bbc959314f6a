-- ===== src/Receiver.antt =====
-- receiver.c: the receiver of one file. The RaptorQ library is the parameter `N`; an access beyond
-- the arrays of MAX_BLOCKS entries, or a call on a null coder, is `fault`.
pub mod Frames
pub mod Blocks
pub mod Keeps
pub mod Run
pub mod Safe
pub mod Main
pub mod Program
mod Tests
use hermes_broadcast.Common.{
  ℕ, zero, suc, ◌+◌, ◌-◌, ◌*◌, ◌/◌, ◌%◌, ◌^◌, bit_or, Bool, true, false, not, ◌&&◌, ◌||◌, List, [],
  ◌∷◌, ◌++◌, Option, none, some, ltb, leb, ◌==◌, if◌then◌else◌, length, get_or, set, replicate,
  take, drop,
}
use hermes_broadcast.Nanorq.{
  Nanorq, SymbolResult, added, ignored, duplicate, failed as not_added, is_added, tag,
}
use hermes_broadcast.Crc.{crc6_0x6f}
use hermes_broadcast.Kiss.{max_payload}
use hermes_broadcast.Header.{byte, parse_tag_oti_common, parse_tag_oti_scheme}
use hermes_broadcast.Modes.{packet_rq_config, packet_rq_payload, config_packet_size, hermes_size}
use hermes_broadcast.Tcp.{Received, frame, no_frame, failed}

abbrev pub max_esi : ℕ
max_esi = 65535

abbrev pub max_blocks : ℕ
max_blocks = 128

-- The type of a packet, `none` for -1. The CRC of a configuration covers its own eight bytes only,
-- whatever fills the frame behind them.
unfoldable pub parse_frame_header : List ℕ → (frame_size : ℕ) → Option ℕ
unfolding crc6_0x6f
parse_frame_header data_frame frame_size =
    let packet_type = byte data_frame 0 / 2 ^ 6 % 4 in
    let covered =
      if packet_type == packet_rq_config
      then take (config_packet_size - hermes_size) (drop 1 data_frame)
      else take (frame_size - hermes_size) (drop 1 data_frame) in
    if byte data_frame 0 % 64 == crc6_0x6f 1 covered then some packet_type else none

-- What `read_frame_from_input` returns: 1 with the length in `rx_frame_len`, 0, or -1.
pub data Input : Type 0 where
  got_frame : ℕ → Input
  nothing : Input
  broken : Input

-- The ring buffer holds `queued`: a whole frame is read from it or none.
unfoldable pub read_frame_shm : (queued : List ℕ) → (frame_size : ℕ) → Input × (List ℕ) × (List ℕ)
read_frame_shm queued frame_size =
    if ltb (length queued) frame_size
    then (nothing, [], queued)
    else (got_frame frame_size, take frame_size queued, drop frame_size queued)

-- Over TCP, from what `tcp_interface_recv_kiss` returns.
unfoldable pub read_frame_tcp : Received → (frame_size : ℕ) → Input
read_frame_tcp (frame n) frame_size = if n == frame_size then got_frame n else nothing
read_frame_tcp no_frame frame_size = nothing
read_frame_tcp failed frame_size = broken

-- The variables of `main` that the loop changes.
pub record Receiver (N : Nanorq) : Type 0 where
  pub configuration_received : Bool
  pub oti_common : ℕ
  pub oti_scheme : ℕ
  pub num_sbn : ℕ
  pub esi : List ℕ
  pub block_decoded : List Bool
  pub have_more_symbols : Bool
  pub rq : Option N.Coder
  pub myio : N.Io

-- How a turn of the loop ends.
pub data Turn (N : Nanorq) : Type 0 where
  continues : Receiver N → Turn N
  received : Receiver N → Turn N
  other_file : Receiver N → Turn N
  fault : Turn N

unfoldable pub start_receiver : (N : Nanorq) → N.Io → Receiver N
start_receiver N io = record {
  configuration_received = false;
  oti_common = 0;
  oti_scheme = 0;
  num_sbn = 0;
  esi = replicate max_blocks 0;
  block_decoded = replicate max_blocks false;
  have_more_symbols = false;
  rq = none;
  myio = io;
}

-- A configuration, before and after one was accepted. The parameters are kept even if there is no
-- decoder for them.
unfoldable pub new_decoder :
    (N : Nanorq) → Receiver N → (common scheme : ℕ) → Option N.Coder → Turn N
new_decoder N r common scheme none =
    continues (record r { oti_common = common; oti_scheme = scheme; rq = none })
new_decoder N r common scheme (some c) =
    let limited = N.set_max_esi c max_esi in
    continues (record r {
      oti_common = common;
      oti_scheme = scheme;
      rq = some limited;
      num_sbn = N.blocks limited;
      configuration_received = true;
    })

unfoldable pub use_configuration : (N : Nanorq) → Receiver N → List ℕ → Turn N
unfolding new_decoder parse_tag_oti_common parse_tag_oti_scheme
use_configuration N r data_frame =
    let common = parse_tag_oti_common data_frame in
    let scheme = parse_tag_oti_scheme data_frame in
    if not r.configuration_received
    then new_decoder N r common scheme (N.decoder_new common scheme)
    else (if not (common == r.oti_common) || not (scheme == r.oti_scheme)
        then other_file r
        else continues r)

-- The loop over the blocks: every one of the first `n` is decoded.
unfoldable pub file_received : ℕ → List Bool → Bool
file_received zero ds = true
file_received (suc n) [] = false
file_received (suc n) (d ∷ ds) = d && file_received n ds

-- The end of a payload's turn.
unfoldable pub check_received : {N : Nanorq} → Receiver N → Turn N
unfolding file_received
check_received r =
    if ltb max_blocks r.num_sbn
    then fault
    else (if file_received r.num_sbn r.block_decoded
        then received r
        else continues (record r { have_more_symbols = false }))

-- A block with enough symbols is repaired.
unfoldable pub try_block : (N : Nanorq) → Receiver N → N.Coder → (sbn : ℕ) → Turn N
unfolding check_received
try_block N r c sbn =
    if not (ltb sbn max_blocks)
    then fault
    else (if leb (N.block_symbols c sbn) (get_or r.esi sbn 0) && r.have_more_symbols
        then (let (repaired, c1, io1) = N.repair_block c r.myio sbn in
            let r1 = record r { rq = some c1; myio = io1 } in
            check_received
              (if repaired then record r1 { block_decoded = set r.block_decoded sbn true } else r1))
        else check_received r)

unfoldable pub use_symbol : (N : Nanorq) → Receiver N → N.Coder → (sbn : ℕ) → SymbolResult → Turn N
unfolding try_block
use_symbol N r c sbn not_added = continues r
use_symbol N r c sbn ignored = try_block N r c sbn
use_symbol N r c sbn duplicate = try_block N (record r { have_more_symbols = false }) c sbn
use_symbol N r c sbn added =
    if not (ltb sbn max_blocks)
    then fault
    else try_block N
        (record r {
          esi = set r.esi sbn (suc (get_or r.esi sbn 0) % 2 ^ 32);
          have_more_symbols = true;
        })
        c sbn

-- `data_frame` is the array of MAX_PAYLOAD bytes, with the symbol behind the header. When it is
-- added the library copies as many bytes as its own symbols have: more than the array has there is
-- an access beyond it.
unfoldable pub use_payload : (N : Nanorq) → Receiver N → List ℕ → Option N.Coder → Turn N
unfolding use_symbol tag
use_payload N r data_frame none = fault
use_payload N r data_frame (some c) =
    let sbn = byte data_frame 1 in
    let esi_local = bit_or (byte data_frame 2) (byte data_frame 3 * 2 ^ 8) in
    let (ret, c1, io1) = N.add_symbol c (drop 4 data_frame) (tag sbn esi_local) r.myio in
    if is_added ret && ltb (max_payload - 4) (N.oti c).symbol_size
    then fault
    else use_symbol N (record r { rq = some c1; myio = io1 }) c1 sbn ret

-- One turn of the loop, on a frame that was read.
unfoldable pub receive_frame : (N : Nanorq) → Receiver N → List ℕ → (rx_frame_len : ℕ) → Turn N
unfolding parse_frame_header use_configuration use_payload
receive_frame N r data_frame rx_frame_len = elim (parse_frame_header data_frame rx_frame_len) [
  | none ↦ continues r
  | some packet_type ↦
      if packet_type == packet_rq_config
      then use_configuration N r data_frame
      else (if r.configuration_received && packet_type == packet_rq_payload
          then use_payload N r data_frame r.rq
          else continues r)
]
