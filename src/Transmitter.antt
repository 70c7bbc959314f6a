-- ===== src/Transmitter.antt =====
-- transmitter.c: the sender of one file. The RaptorQ library is the parameter `N`; what goes to the
-- ring buffer or to the modem is the list of the writes, in order.
pub mod Packets
pub mod Slices
pub mod Turns
pub mod Streams
pub mod Ends
pub mod Main
pub mod Starts
pub mod Program
mod Tests
use hermes_broadcast.Common.{
  ℕ, zero, suc, ◌+◌, ◌-◌, ◌*◌, ◌/◌, ◌%◌, ◌^◌, bit_or, Bool, true, false, not, List, [], ◌∷◌, ◌++◌,
  Option, none, some, ltb, leb, ◌==◌, if◌then◌else◌, length, get_or, set, replicate,
}
use hermes_broadcast.Nanorq.{
  Nanorq, Oti, oti_common_reduced, oti_scheme_specific_align1, tag_reduced,
}
use hermes_broadcast.Crc.{crc6_0x6f}
use hermes_broadcast.Modes.{
  packet_rq_config, packet_rq_payload, config_packet_size, rq_header_size, mercury_mode_max,
  mercury_frame_size, hermes_mode_max, hermes_frame_size,
}

pub data OutputMode : Type 0 where
  output_shm output_tcp : OutputMode

abbrev pub max_esi : ℕ
max_esi = 65535

-- `frame_sizes[mod_mode]`, or `none` for a mode beyond the table of the output.
unfoldable pub frame_size_of : OutputMode → ℕ → Option ℕ
frame_size_of output_shm mode =
    if ltb mercury_mode_max mode then none else some (get_or mercury_frame_size mode 0)
frame_size_of output_tcp mode =
    if ltb hermes_mode_max mode then none else some (get_or hermes_frame_size mode 0)

-- `frame_size - (uint32_t) RQ_HEADER_SIZE`, in 32 bits.
unfoldable pub packet_size_of : ℕ → ℕ
packet_size_of frame_size = (frame_size + 2 ^ 32 - rq_header_size) % 2 ^ 32

-- `configuration_packet`, as `main` fills it.
unfoldable pub configuration_packet : Oti → List ℕ
unfolding oti_common_reduced oti_scheme_specific_align1 crc6_0x6f
configuration_packet o =
    let body = oti_common_reduced o ++ oti_scheme_specific_align1 o in
    bit_or (packet_rq_config * 2 ^ 6 % 256) (crc6_0x6f 1 body) ∷ body

-- The packet of a symbol.
unfoldable pub payload_packet : (sbn esi : ℕ) → List ℕ → List ℕ
unfolding tag_reduced crc6_0x6f
payload_packet sbn esi symbol =
    let body = tag_reduced sbn esi ++ symbol in
    bit_or (packet_rq_payload * 2 ^ 6 % 256) (crc6_0x6f 1 body) ∷ body

-- The coder, and what is written; `none` is `abort`.
unfoldable pub write_esi :
    (N : Nanorq) → N.Coder → N.Io → (sbn esi : ℕ) → Option ((List ℕ) × N.Coder)
unfolding payload_packet
write_esi N c io sbn esi =
    let (symbol, written, c1) = N.encode c esi (sbn % 256) io in
    if not (written == (N.oti c).symbol_size)
    then none
    else some (payload_packet (sbn % 256) esi symbol, c1)

-- The zeros behind the configuration fill the frame. A frame too short for the configuration is
-- written beyond its array over TCP: `none`.
unfoldable pub write_configuration_packet :
    Oti → OutputMode → (packet_size : ℕ) → Option (List (List ℕ))
unfolding configuration_packet
write_configuration_packet o output_shm packet_size =
    if ltb config_packet_size packet_size
    then some (configuration_packet o ∷ replicate (packet_size - config_packet_size) 0 ∷ [])
    else some (configuration_packet o ∷ [])
write_configuration_packet o output_tcp packet_size =
    if ltb packet_size config_packet_size
    then none
    else some ((configuration_packet o ++ replicate (packet_size - config_packet_size) 0) ∷ [])

-- A slice: the coder, the counters, what was written, and what the function returns.
pub record Slice (N : Nanorq) : Type 0 where
  pub coder : N.Coder
  pub esi : List ℕ
  pub writes : List (List ℕ)
  pub ret : Bool

abbrev pub put : {N : Nanorq} → List ℕ → Option (Slice N) → Option (Slice N)
put packet none = none
put packet (some s) = some (record s { writes = packet ∷ s.writes })

-- The loop over the `k` blocks from `sbn` on; `running` is what the test of the flag reads at each.
-- `next` goes on with the coder and the counters; a block whose counter reaches 2 ^ 16 ends the
-- slice, and the transmission.
unfoldable pub write_block :
    (N : Nanorq)
    → (sbn : ℕ) → List ℕ
    → (N.Coder → List ℕ → Option (Slice N))
    → Option ((List ℕ) × N.Coder)
    → Option (Slice N)
write_block N sbn esi next none = none
write_block N sbn esi next (some (packet, c)) =
    let esi1 = set esi sbn (suc (get_or esi sbn 0)) in
    if ltb max_esi (get_or esi1 sbn 0)
    then some (record { coder = c; esi = esi1; writes = packet ∷ []; ret = false })
    else put packet (next c esi1)

unfoldable pub write_blocks :
    (N : Nanorq) → (ℕ → Bool) → N.Io → (k sbn : ℕ) → N.Coder → List ℕ → Option (Slice N)
unfolding write_block write_esi
write_blocks N running io zero sbn c esi =
    some (record { coder = c; esi = esi; writes = []; ret = true })
write_blocks N running io (suc k) sbn c esi =
    if not (running sbn)
    then some (record { coder = c; esi = esi; writes = []; ret = true })
    else write_block N sbn esi (write_blocks N running io k (suc sbn))
        (write_esi N c io sbn (get_or esi sbn 0))

unfoldable pub write_interleaved_block_packets :
    (N : Nanorq) → (ℕ → Bool) → N.Io → N.Coder → List ℕ → Option (Slice N)
unfolding write_blocks
write_interleaved_block_packets N running io c esi = write_blocks N running io (N.blocks c) 0 c esi

abbrev pub prepend : List (List ℕ) → Option (List (List ℕ)) → Option (List (List ℕ))
prepend front none = none
prepend front (some later) = some (front ++ later)

-- One turn of the main loop: a configuration and a slice; the transmission ends with the slice that
-- reports it.
unfoldable pub go_on :
    {N : Nanorq}
    → Option (List (List ℕ))
    → Option (Slice N)
    → (N.Coder → List ℕ → Option (List (List ℕ)))
    → Option (List (List ℕ))
go_on none s next = none
go_on (some config) none next = none
go_on (some config) (some s) next =
    let front = config ++ s.writes in
    if s.ret then prepend front (next s.coder s.esi) else some front

-- The main loop, for the turns that a signal leaves it; each has what the flag reads at its blocks.
unfoldable pub transmit :
    (N : Nanorq)
    → Oti
    → OutputMode
    → (frame_size : ℕ) → N.Io
    → List (ℕ → Bool)
    → N.Coder
    → List ℕ
    → Option (List (List ℕ))
unfolding go_on write_configuration_packet write_interleaved_block_packets
transmit N o mode frame_size io [] c esi = some []
transmit N o mode frame_size io (running ∷ turns) c esi =
    go_on (write_configuration_packet o mode frame_size)
      (write_interleaved_block_packets N running io c esi) (transmit N o mode frame_size io turns)
