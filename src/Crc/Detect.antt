-- ===== src/Crc/Detect.antt =====
-- crc6.c: which errors in a packet change its CRC.
use hermes_broadcast.Common.{
  ℕ, ◌%◌, ◌<◌, bit_xor, List, [], ◌∷◌, ◌++◌, ◌≡◌, ◌≢◌, refl, sym, ap, ◌∙◌, true, Bool, not, ◌&&◌,
  ◌||◌, ◌==◌, ltb, ==_iff, if◌then◌else◌, arith, get_or, All,
}
use hermes_broadcast.Common.Bits.{passes_under, passes_under_lem}
use hermes_broadcast.Crc.{crc6_step, crc6_0x6f}
use hermes_broadcast.Crc.Poly.{crc6_step_lt, crc6_lt}

-- A check of two bytes, or of a register and a byte, at every value.
abbrev all_pairs : ℕ → ℕ → (ℕ → ℕ → Bool) → Bool
all_pairs m n p = passes_under (λ x. passes_under (λ y. p x y) n) m

all_pairs_sound :
    (m n : ℕ) (p : ℕ → ℕ → Bool) (x y : ℕ) → all_pairs m n p ≡ true → x < m → y < n → p x y ≡ true
all_pairs_sound m n p x y h hx hy =
    passes_under_lem (λ y. p x y) n (passes_under_lem (λ x. passes_under (λ y. p x y) n) m h x hx) y
      hy

-- The register before a step, from the register after it and the byte.
before_table : List ℕ
before_table =
    0 ∷ 42 ∷ 59 ∷ 17 ∷ 25 ∷ 51 ∷ 34 ∷ 8 ∷ 50 ∷ 24 ∷ 9 ∷ 35 ∷ 43 ∷ 1 ∷ 16 ∷ 58 ∷ 11 ∷ 33 ∷ 48 ∷ 26
    ∷ 18 ∷ 56 ∷ 41 ∷ 3 ∷ 57 ∷ 19 ∷ 2 ∷ 40 ∷ 32 ∷ 10 ∷ 27 ∷ 49 ∷ 22 ∷ 60 ∷ 45 ∷ 7 ∷ 15 ∷ 37 ∷ 52 ∷ 30
    ∷ 36 ∷ 14 ∷ 31 ∷ 53 ∷ 61 ∷ 23 ∷ 6 ∷ 44 ∷ 29 ∷ 55 ∷ 38 ∷ 12 ∷ 4 ∷ 46 ∷ 63 ∷ 21 ∷ 47 ∷ 5 ∷ 20 ∷ 62
    ∷ 54 ∷ 28 ∷ 13 ∷ 39 ∷ []

before : ℕ → ℕ → ℕ
unfolding before_table
before r b = get_or before_table (bit_xor r (crc6_step 0 b)) 0

before_table_inverts : all_pairs 64 256 (λ c b. before (crc6_step c b) b == c) ≡ true
unfolding passes_under crc6_step before
before_table_inverts = refl

before-crc6_step : (c b : ℕ) → c < 64 → b < 256 → before (crc6_step c b) b ≡ c
before-crc6_step c b hc hb =
    (==_iff _ _).0
      (all_pairs_sound 64 256 (λ c b. before (crc6_step c b) b == c) c b before_table_inverts hc hb)

-- Two registers that differ still differ after a byte.
crc6_step_injective :
    (c c' b : ℕ) → c < 64 → c' < 64 → b < 256 → crc6_step c b ≡ crc6_step c' b → c ≡ c'
crc6_step_injective c c' b h h' hb e =
    sym (before-crc6_step c b h hb) ∙ ap (λ r. before r b) e ∙ before-crc6_step c' b h' hb

crc6_injective :
    (c c' : ℕ) (bs : List ℕ)
    → c < 64
    → c' < 64
    → All (λ b. b < 256) bs
    → crc6_0x6f c bs ≡ crc6_0x6f c' bs
    → c ≡ c'
unfolding crc6_0x6f
crc6_injective c c' [] h h' a e = omega arith
crc6_injective c c' (b ∷ bs) h h' a e = crc6_step_injective c c' b h h' a.0 (
    crc6_injective (crc6_step c b) (crc6_step c' b) bs (crc6_step_lt c b) (crc6_step_lt c' b) a.1 e)

-- The bits that are set lie within six neighbouring ones, and there is one.
unfoldable pub is_burst : ℕ → Bool
is_burst d = not (d == 0) && (ltb d 64 || (d % 2 == 0 && ltb d 128) || d % 4 == 0)

abbrev tells : ℕ → ℕ → Bool
tells b b' = if is_burst (bit_xor b b') then not (crc6_step 0 b == crc6_step 0 b') else true

bursts_told : all_pairs 256 256 tells ≡ true
unfolding passes_under crc6_step is_burst
bursts_told = refl

linear : all_pairs 64 256 (λ c b. bit_xor (crc6_step c 0) (crc6_step c b) == crc6_step 0 b) ≡ true
unfolding passes_under crc6_step
linear = refl

crc6_step_xor :
    (c b : ℕ) → c < 64 → b < 256 → bit_xor (crc6_step c 0) (crc6_step c b) ≡ crc6_step 0 b
crc6_step_xor c b hc hb = (==_iff _ _).0 (
    all_pairs_sound 64 256 (λ c b. bit_xor (crc6_step c 0) (crc6_step c b) == crc6_step 0 b) c b
      linear hc hb)

-- A burst in one byte changes the register, whatever it held.
crc6_step_burst :
    (c b b' : ℕ)
    → c < 64
    → b < 256
    → b' < 256
    → is_burst (bit_xor b b') ≡ true
    → crc6_step c b ≢ crc6_step c b'
crc6_step_burst c b b' hc hb hb' burst e =
    let told = all_pairs_sound 256 256 tells b b' bursts_told hb hb' in
    let same : crc6_step 0 b ≡ crc6_step 0 b' =
      sym (crc6_step_xor c b hc hb) ∙ ap (bit_xor (crc6_step c 0)) e ∙ crc6_step_xor c b' hc hb' in
    let told' = rw burst at told in ground arith

crc6-append :
    (c : ℕ) (xs ys : List ℕ) → c < 64 → crc6_0x6f c (xs ++ ys) ≡ crc6_0x6f (crc6_0x6f c xs) ys
unfolding crc6_0x6f
crc6-append c [] ys h = ap (λ r. crc6_0x6f r ys) (omega arith)
crc6-append c (x ∷ xs) ys h = crc6-append (crc6_step c x) xs ys (crc6_step_lt c x)

-- An error that is confined to six neighbouring bits of one byte changes the CRC, wherever the byte
-- stands in the data and whatever stands before and after it.
pub crc6_burst :
    (c : ℕ) (xs ys : List ℕ) (b b' : ℕ)
    → c < 64
    → b < 256
    → b' < 256
    → All (λ y. y < 256) ys
    → is_burst (bit_xor b b') ≡ true
    → crc6_0x6f c (xs ++ b ∷ ys) ≢ crc6_0x6f c (xs ++ b' ∷ ys)
unfolding crc6_0x6f
crc6_burst c xs ys b b' hc hb hb' ha burst e =
    let r = crc6_0x6f c xs in
    crc6_step_burst r b b' (crc6_lt c xs) hb hb' burst (
      crc6_injective (crc6_step r b) (crc6_step r b') ys (crc6_step_lt r b) (crc6_step_lt r b') ha
        (sym (crc6-append c xs (b ∷ ys) hc) ∙ e ∙ crc6-append c xs (b' ∷ ys) hc))
