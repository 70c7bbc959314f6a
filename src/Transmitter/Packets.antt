-- ===== src/Transmitter/Packets.antt =====
-- transmitter.c and receiver.c: the receiver accepts what the transmitter sends, and reads it back.
use hermes_broadcast.Common.{
  ℕ, suc, ◌-◌, ◌*◌, ◌/◌, ◌%◌, ◌^◌, ◌<◌, bit_or, List, ◌∷◌, ◌++◌, some, length, take, take_all, drop,
  ◌≡◌, refl, ap, ◌∙◌, arith,
}
use hermes_broadcast.Nanorq.{
  Oti, oti_common, oti_scheme_specific, oti_common_reduced, oti_scheme_specific_align1, tag_reduced,
}
use hermes_broadcast.Crc.{crc6_0x6f}
use hermes_broadcast.Crc.Poly.{crc6_lt}
use hermes_broadcast.Header.{byte, parse_tag_oti_common, parse_tag_oti_scheme}
use hermes_broadcast.Header.Oti.{first_byte, FitsHeader, parse_oti, parse_tag}
use hermes_broadcast.Receiver.{parse_frame_header}
use hermes_broadcast.Transmitter.{configuration_packet, payload_packet}

accepts_config :
    (crc frame_size : ℕ) (bs : List ℕ)
    → crc < 64
    → crc6_0x6f 1 (take 8 bs) ≡ crc
    → parse_frame_header (bit_or (2 * 2 ^ 6 % 256) crc ∷ bs) frame_size ≡ some 2
unfolding parse_frame_header
accepts_config crc frame_size bs h e = rw (first_byte 2 crc (omega arith) h) (ground arith)

accepts_payload :
    (crc frame_size : ℕ) (bs : List ℕ)
    → crc < 64
    → crc6_0x6f 1 (take (frame_size - 1) bs) ≡ crc
    → parse_frame_header (bit_or (3 * 2 ^ 6 % 256) crc ∷ bs) frame_size ≡ some 3
unfolding parse_frame_header
accepts_payload crc frame_size bs h e = rw (first_byte 3 crc (omega arith) h) (ground arith)

-- Whatever fills the frame behind it, a configuration packet passes the receiver's check, as a
-- configuration, and gives back the parameters of the coder, for a coder whose parameters the
-- packet can hold.
pub configuration_read :
    (o : Oti) (fill : List ℕ) (frame_size : ℕ)
    → FitsHeader o
    → (parse_frame_header (configuration_packet o ++ fill) frame_size ≡ some 2)
      × (parse_tag_oti_common (configuration_packet o ++ fill) ≡ oti_common o)
      × (parse_tag_oti_scheme (configuration_packet o ++ fill) ≡ oti_scheme_specific o)
unfolding configuration_packet oti_common_reduced oti_scheme_specific_align1
configuration_read o fill frame_size f =
    let body = oti_common_reduced o ++ oti_scheme_specific_align1 o in
    let crc = crc6_0x6f 1 body in
    let (common, scheme) = parse_oti (bit_or (2 * 2 ^ 6 % 256) crc) o fill f in
    (accepts_config crc frame_size (body ++ fill) (crc6_lt 1 body) refl, common, scheme)

-- A payload packet that is read with its whole length passes the receiver's check, as a payload, and
-- gives back the block and the number of the symbol and its bytes, for every number of 16 bits.
pub payload_read :
    (sbn esi : ℕ) (symbol : List ℕ)
    → esi < 2 ^ 16
    → let packet = payload_packet sbn esi symbol in
      (parse_frame_header packet (length packet) ≡ some 3)
      × (byte packet 1 ≡ sbn)
      × (bit_or (byte packet 2) (byte packet 3 * 2 ^ 8) ≡ esi)
      × (drop 4 packet ≡ symbol)
unfolding payload_packet tag_reduced
payload_read sbn esi symbol h =
    let body = tag_reduced sbn esi ++ symbol in
    let crc = crc6_0x6f 1 body in
    let e : esi / 2 ^ 8 % 256 ≡ esi / 256 = omega arith in
    let whole : crc6_0x6f 1 (take (suc (length body) - 1) body) ≡ crc =
      ap (crc6_0x6f 1) (take_all (suc (length body) - 1) body (omega arith)) in
    (
      accepts_payload crc (suc (length body)) body (crc6_lt 1 body) whole,
      refl,
      ap (λ b. bit_or (esi % 256) (b * 2 ^ 8)) e ∙ (parse_tag 0 esi (omega arith) h).1,
      refl,
    )
