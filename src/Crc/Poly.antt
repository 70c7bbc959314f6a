-- ===== src/Crc/Poly.antt =====
-- crc6.c computes the remainder by the polynomial D^6 + D^5 + D^3 + D^2 + D + 1, bit by bit.
use hermes_broadcast.Common.{
  All, ℕ, zero, suc, ◌*◌, ◌/◌, ◌%◌, ◌^◌, ◌<◌, bit_xor, List, [], ◌∷◌, ◌≡◌, refl, ap, ◌∙◌, true,
  Bool, ◌==◌, ==_iff, if◌then◌else◌, arith,
}
use hermes_broadcast.Common.Bits.{passes_under, passes_under_lem}
use hermes_broadcast.Crc.{crc6_step, crc6_0x6f}

-- One bit of the message shifted into the register: the bit that falls out, added to the message's,
-- says whether the polynomial is subtracted.
unfoldable pub shift_bit : ℕ → ℕ → ℕ
shift_bit r bit = if bit_xor (r / 32) bit == 1 then bit_xor (r * 2 % 64) 0x2f else r * 2 % 64

-- The lowest `n` bits of `b`, highest first.
unfoldable pub shift_bits : ℕ → ℕ → ℕ → ℕ
shift_bits zero b r = r
shift_bits (suc n) b r = shift_bits n b (shift_bit r (b / 2 ^ n % 2))

unfoldable pub divide : ℕ → List ℕ → ℕ
divide r [] = r
divide r (b ∷ bs) = divide (shift_bits 8 b r) bs

abbrev agrees : ℕ → ℕ → Bool
agrees c b = crc6_step c b == shift_bits 8 b c

table_agrees : passes_under (λ c. passes_under (λ b. agrees c b) 256) 64 ≡ true
unfolding passes_under crc6_step shift_bits shift_bit
table_agrees = refl

pub crc6_step-eq-shift_bits : (c b : ℕ) → c < 64 → b < 256 → crc6_step c b ≡ shift_bits 8 b c
crc6_step-eq-shift_bits c b hc hb = (==_iff _ _).0 (
    passes_under_lem (λ b. agrees c b) 256
      (passes_under_lem (λ c. passes_under (λ b. agrees c b) 256) 64 table_agrees c hc) b hb)

-- A step leaves six bits, whatever it started from.
pub crc6_step_lt : (c b : ℕ) → crc6_step c b < 64
unfolding crc6_step
crc6_step_lt c b = omega arith

-- On bytes, and from a register of six bits, the table-driven loop computes the division.
pub crc6-eq-divide :
    (c : ℕ) (bs : List ℕ) → c < 64 → All (λ b. b < 256) bs → crc6_0x6f c bs ≡ divide c bs
unfolding crc6_0x6f divide
crc6-eq-divide c [] h a = omega arith
crc6-eq-divide c (b ∷ bs) h a =
    crc6-eq-divide (crc6_step c b) bs (crc6_step_lt c b) a.1
    ∙ ap (λ r. divide r bs) (crc6_step-eq-shift_bits c b h a.0)

-- The result has six bits, whatever the start and the data.
pub crc6_lt : (c : ℕ) (bs : List ℕ) → crc6_0x6f c bs < 64
unfolding crc6_0x6f
crc6_lt c [] = omega arith
crc6_lt c (b ∷ bs) = crc6_lt (crc6_step c b) bs
