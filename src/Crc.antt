-- ===== src/Crc.antt =====
-- crc6.c: the 6-bit CRC of a packet, by table. `data` is the list of the `data_len` bytes read.
pub mod Poly
pub mod Detect
mod Tests
use hermes_broadcast.Common.{ℕ, ◌*◌, ◌%◌, bit_xor, List, [], ◌∷◌, get_or}

unfoldable pub crc6_table : List ℕ
crc6_table =
    0x00 ∷ 0x2f ∷ 0x31 ∷ 0x1e ∷ 0x0d ∷ 0x22 ∷ 0x3c ∷ 0x13 ∷ 0x1a ∷ 0x35 ∷ 0x2b ∷ 0x04 ∷ 0x17 ∷ 0x38
    ∷ 0x26 ∷ 0x09 ∷ 0x34 ∷ 0x1b ∷ 0x05 ∷ 0x2a ∷ 0x39 ∷ 0x16 ∷ 0x08 ∷ 0x27 ∷ 0x2e ∷ 0x01 ∷ 0x1f
    ∷ 0x30 ∷ 0x23 ∷ 0x0c ∷ 0x12 ∷ 0x3d ∷ 0x07 ∷ 0x28 ∷ 0x36 ∷ 0x19 ∷ 0x0a ∷ 0x25 ∷ 0x3b ∷ 0x14
    ∷ 0x1d ∷ 0x32 ∷ 0x2c ∷ 0x03 ∷ 0x10 ∷ 0x3f ∷ 0x21 ∷ 0x0e ∷ 0x33 ∷ 0x1c ∷ 0x02 ∷ 0x2d ∷ 0x3e
    ∷ 0x11 ∷ 0x0f ∷ 0x20 ∷ 0x29 ∷ 0x06 ∷ 0x18 ∷ 0x37 ∷ 0x24 ∷ 0x0b ∷ 0x15 ∷ 0x3a ∷ 0x0e ∷ 0x21
    ∷ 0x3f ∷ 0x10 ∷ 0x03 ∷ 0x2c ∷ 0x32 ∷ 0x1d ∷ 0x14 ∷ 0x3b ∷ 0x25 ∷ 0x0a ∷ 0x19 ∷ 0x36 ∷ 0x28
    ∷ 0x07 ∷ 0x3a ∷ 0x15 ∷ 0x0b ∷ 0x24 ∷ 0x37 ∷ 0x18 ∷ 0x06 ∷ 0x29 ∷ 0x20 ∷ 0x0f ∷ 0x11 ∷ 0x3e
    ∷ 0x2d ∷ 0x02 ∷ 0x1c ∷ 0x33 ∷ 0x09 ∷ 0x26 ∷ 0x38 ∷ 0x17 ∷ 0x04 ∷ 0x2b ∷ 0x35 ∷ 0x1a ∷ 0x13
    ∷ 0x3c ∷ 0x22 ∷ 0x0d ∷ 0x1e ∷ 0x31 ∷ 0x2f ∷ 0x00 ∷ 0x3d ∷ 0x12 ∷ 0x0c ∷ 0x23 ∷ 0x30 ∷ 0x1f
    ∷ 0x01 ∷ 0x2e ∷ 0x27 ∷ 0x08 ∷ 0x16 ∷ 0x39 ∷ 0x2a ∷ 0x05 ∷ 0x1b ∷ 0x34 ∷ 0x1c ∷ 0x33 ∷ 0x2d
    ∷ 0x02 ∷ 0x11 ∷ 0x3e ∷ 0x20 ∷ 0x0f ∷ 0x06 ∷ 0x29 ∷ 0x37 ∷ 0x18 ∷ 0x0b ∷ 0x24 ∷ 0x3a ∷ 0x15
    ∷ 0x28 ∷ 0x07 ∷ 0x19 ∷ 0x36 ∷ 0x25 ∷ 0x0a ∷ 0x14 ∷ 0x3b ∷ 0x32 ∷ 0x1d ∷ 0x03 ∷ 0x2c ∷ 0x3f
    ∷ 0x10 ∷ 0x0e ∷ 0x21 ∷ 0x1b ∷ 0x34 ∷ 0x2a ∷ 0x05 ∷ 0x16 ∷ 0x39 ∷ 0x27 ∷ 0x08 ∷ 0x01 ∷ 0x2e
    ∷ 0x30 ∷ 0x1f ∷ 0x0c ∷ 0x23 ∷ 0x3d ∷ 0x12 ∷ 0x2f ∷ 0x00 ∷ 0x1e ∷ 0x31 ∷ 0x22 ∷ 0x0d ∷ 0x13
    ∷ 0x3c ∷ 0x35 ∷ 0x1a ∷ 0x04 ∷ 0x2b ∷ 0x38 ∷ 0x17 ∷ 0x09 ∷ 0x26 ∷ 0x12 ∷ 0x3d ∷ 0x23 ∷ 0x0c
    ∷ 0x1f ∷ 0x30 ∷ 0x2e ∷ 0x01 ∷ 0x08 ∷ 0x27 ∷ 0x39 ∷ 0x16 ∷ 0x05 ∷ 0x2a ∷ 0x34 ∷ 0x1b ∷ 0x26
    ∷ 0x09 ∷ 0x17 ∷ 0x38 ∷ 0x2b ∷ 0x04 ∷ 0x1a ∷ 0x35 ∷ 0x3c ∷ 0x13 ∷ 0x0d ∷ 0x22 ∷ 0x31 ∷ 0x1e
    ∷ 0x00 ∷ 0x2f ∷ 0x15 ∷ 0x3a ∷ 0x24 ∷ 0x0b ∷ 0x18 ∷ 0x37 ∷ 0x29 ∷ 0x06 ∷ 0x0f ∷ 0x20 ∷ 0x3e
    ∷ 0x11 ∷ 0x02 ∷ 0x2d ∷ 0x33 ∷ 0x1c ∷ 0x21 ∷ 0x0e ∷ 0x10 ∷ 0x3f ∷ 0x2c ∷ 0x03 ∷ 0x1d ∷ 0x32
    ∷ 0x3b ∷ 0x14 ∷ 0x0a ∷ 0x25 ∷ 0x36 ∷ 0x19 ∷ 0x07 ∷ 0x28 ∷ []

-- The body of the loop: `tbl_idx` is a uint8_t, and the mask 0x3f keeps six bits.
unfoldable pub crc6_step : ℕ → ℕ → ℕ
unfolding crc6_table
crc6_step crc b = get_or crc6_table (bit_xor (crc * 4) b % 256) 0 % 64

unfoldable pub crc6_0x6f : ℕ → List ℕ → ℕ
crc6_0x6f crc [] = crc % 64
crc6_0x6f crc (b ∷ bs) = crc6_0x6f (crc6_step crc b) bs
