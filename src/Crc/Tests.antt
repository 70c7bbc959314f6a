-- ===== src/Crc/Tests.antt =====
-- Runs of the CRC, and its theorems at concrete inputs.
use hermes_broadcast.Common.{◌<◌, ◌++◌, [], ◌∷◌, ◌≡◌, ◌≢◌, refl, arith}
use hermes_broadcast.Crc.{crc6_0x6f, crc6_step}
use hermes_broadcast.Crc.Poly.{divide, crc6-eq-divide, crc6_lt}
use hermes_broadcast.Crc.Detect.{is_burst, crc6_burst}

crc6_run : crc6_0x6f 1 (0x12 ∷ 0x34 ∷ 0x56 ∷ []) ≡ 0x1e
unfolding crc6_0x6f crc6_step
crc6_run = refl

crc6-eq-divide_example : crc6_0x6f 1 (0x12 ∷ 0xFF ∷ []) ≡ divide 1 (0x12 ∷ 0xFF ∷ [])
crc6-eq-divide_example = crc6-eq-divide 1 (0x12 ∷ 0xFF ∷ []) (omega arith) (omega arith)

six_bits : crc6_0x6f 1 (0x12 ∷ []) < 64
six_bits = crc6_lt 1 (0x12 ∷ [])

-- One bit flipped in the second of three bytes.
crc6_burst_example : crc6_0x6f 1 ((7 ∷ []) ++ 0x80 ∷ 9 ∷ []) ≢ crc6_0x6f 1 ((7 ∷ []) ++ 0 ∷ 9 ∷ [])
unfolding is_burst
crc6_burst_example =
    crc6_burst 1 (7 ∷ []) (9 ∷ []) 0x80 0 (omega arith) (omega arith) (omega arith) (omega arith)
      refl
