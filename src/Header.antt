-- ===== src/Header.antt =====
-- receiver.c and daemon.c: the readers of a packet's header. Both files declare the two readers of
-- the parameters, with the same bytes at the same places.
pub mod Oti
mod Tests
use hermes_broadcast.Common.{ℕ, ◌+◌, ◌*◌, ◌/◌, ◌%◌, ◌^◌, bit_or, List, get_or}

-- `packet[i]`
abbrev pub byte : List ℕ → ℕ → ℕ
byte packet i = get_or packet i 0

-- `parse_tag_oti_common` of receiver.c, and with the same body but for the casts
-- `parse_oti_common_from_frame` of daemon.c.
unfoldable pub parse_tag_oti_common : List ℕ → ℕ
parse_tag_oti_common packet =
    let o1 = byte packet 1 % 256 * 2 ^ 24 in
    let o2 = bit_or o1 (byte packet 2 % 256 * 2 ^ 32) in
    let o3 = bit_or o2 (byte packet 3 % 256 * 2 ^ 40) in
    let o4 = bit_or o3 (byte packet 4 % 256) in bit_or o4 (byte packet 5 % 256 * 2 ^ 8)

-- `parse_tag_oti_scheme`, and `parse_oti_scheme_from_frame`.
unfoldable pub parse_tag_oti_scheme : List ℕ → ℕ
parse_tag_oti_scheme packet =
    let o1 = byte packet 6 % 256 * 2 ^ 24 in
    let o2 = bit_or o1 (byte packet 7 % 256 * 2 ^ 8) in
    let o3 = bit_or o2 (byte packet 8 % 256 * 2 ^ 16) in bit_or o3 1
