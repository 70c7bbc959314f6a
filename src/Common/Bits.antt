-- ===== src/Common/Bits.antt =====
-- Laws of `|` on fields that do not overlap, and checks of every value of a small range.
use Prim.Native.Nat.{
  ℕ, zero, suc, ◌+◌, ◌-◌, ◌*◌, ◌/◌, ◌%◌, ◌≤◌, ◌<◌, ◌^◌, max, bit_or, digits, bit_or-bitwise,
}
use mathlib.Core.Path.{◌≡◌, refl, ◌∙◌, ap, ap₂, sym, subst}
use mathlib.Core.Logic.{◌⊎◌, inl, inr}
use mathlib.Core.Bool.{Bool, true, ◌&&◌}
use native.Mathlib.Omega.{arith}

-- A test passes at every number under a bound.
unfoldable pub passes_under : (ℕ → Bool) → ℕ → Bool
passes_under test zero = true
passes_under test (suc bound) = passes_under test bound && test bound

pub passes_under_lem :
    (test : ℕ → Bool) (bound : ℕ)
    → passes_under test bound ≡ true
    → (v : ℕ) → v < bound
    → test v ≡ true
unfolding passes_under
passes_under_lem test zero ok v below = absurd (omega arith)
passes_under_lem test (suc bound) ok v below =
    let earlier : passes_under test bound ≡ true = ground arith in
    let last : test bound ≡ true = ground arith in
    elim (lt-or-eq v bound below) [
      | inl less ↦ passes_under_lem test bound earlier v less
      | inr same ↦ ap test same ∙ last
    ]
  where
    lt-or-eq : (m n : ℕ) → m < suc n → (m < n) ⊎ (m ≡ n)
    lt-or-eq m n h = ground arith

-- The recursion on digits that the native `|` means. Fuel beyond the first number changes nothing.
abbrev or_fuel : ℕ → ℕ → ℕ → ℕ
or_fuel = digits (λ rest. rest) max

one_more_fuel : (fuel x y : ℕ) → x ≤ fuel → or_fuel (suc fuel) x y ≡ or_fuel fuel x y
one_more_fuel zero zero y le = refl
one_more_fuel (suc fuel) zero y le = refl
one_more_fuel zero (suc x) y le = absurd (omega arith)
one_more_fuel (suc fuel) (suc x) y le =
    let half : suc x / 2 ≤ fuel = omega arith in
    omega (arith, one_more_fuel fuel (suc x / 2) (y / 2) half)

enough_fuel : (extra fuel x y : ℕ) → fuel ≡ x + extra → or_fuel fuel x y ≡ or_fuel x x y
enough_fuel zero fuel x y e = let same : fuel ≡ x = omega arith in ap (λ n. or_fuel n x y) same
enough_fuel (suc extra) zero x y e = absurd (omega arith)
enough_fuel (suc extra) (suc fuel) x y e =
    one_more_fuel fuel x y (omega arith) ∙ enough_fuel extra fuel x y (omega arith)

pub zero-bit_or : (y : ℕ) → bit_or 0 y ≡ y
zero-bit_or = bit_or-bitwise 0

-- The lowest binary digit of `|`, and the rest.
bit_or_halves : (x y : ℕ) → bit_or x y ≡ bit_or (x / 2) (y / 2) * 2 + max (x % 2) (y % 2)
bit_or_halves zero y =
    let low = zero-bit_or y in let high = zero-bit_or (y / 2) in omega (arith, low, high)
bit_or_halves (suc x) y =
    let half = suc x / 2 in
    let whole = bit_or-bitwise (suc x) y in
    let high = bit_or-bitwise half (y / 2) in
    let fuel : or_fuel x half (y / 2) ≡ or_fuel half half (y / 2) =
      enough_fuel (x - half) x half (y / 2) (omega arith) in
    omega (arith, whole, high, fuel)

bit_or-zero_below : (bound x : ℕ) → x < bound → bit_or x 0 ≡ x
bit_or-zero_below zero x lt = absurd (omega arith)
bit_or-zero_below (suc bound) zero lt = refl
bit_or-zero_below (suc bound) (suc k) lt =
    let half : suc k / 2 < bound = omega arith in
    omega (arith, bit_or_halves (suc k) 0, bit_or-zero_below bound (suc k / 2) half)

pub bit_or-zero : (x : ℕ) → bit_or x 0 ≡ x
bit_or-zero x = bit_or-zero_below (suc x) x (omega arith)

-- `|` works apart on what stands above and below the place with weight `m`.
abbrev Splits : ℕ → Type 0
Splits m =
    (a b i j : ℕ) → i < m → j < m → bit_or (m * a + i) (m * b + j) ≡ m * bit_or a b + bit_or i j

bit_or_bit :
    (a b i j : ℕ) → i < 2 → j < 2 → bit_or (2 * a + i) (2 * b + j) ≡ 2 * bit_or a b + max i j
bit_or_bit a b i j p q =
    let ea : (2 * a + i) / 2 ≡ a = omega arith in
    let eb : (2 * b + j) / 2 ≡ b = omega arith in
    bit_or_halves (2 * a + i) (2 * b + j) ∙ omega (arith, ap₂ bit_or ea eb)

Splits-double : (m : ℕ) → Splits m → Splits (2 * m)
Splits-double m s a b i j p q =
    let ea : 2 * m * a + i ≡ 2 * (m * a + i / 2) + i % 2 = omega arith in
    let eb : 2 * m * b + j ≡ 2 * (m * b + j / 2) + j % 2 = omega arith in
    ap₂ bit_or ea eb
    ∙ bit_or_bit (m * a + i / 2) (m * b + j / 2) (i % 2) (j % 2) (omega arith) (omega arith)
    ∙ omega (arith, s a b (i / 2) (j / 2) (omega arith) (omega arith), bit_or_halves i j)

Splits-one : Splits 1
Splits-one a b i j p q =
    let ei : i ≡ 0 = omega arith in
    let ej : j ≡ 0 = omega arith in ap₂ bit_or (omega arith) (omega arith) ∙ low ei ej
  where
    low : i ≡ 0 → j ≡ 0 → bit_or a b ≡ 1 * bit_or a b + bit_or i j
    low ei ej = omega (arith, ap₂ bit_or ei ej)

Splits-pow : (k : ℕ) → Splits (2 ^ k)
Splits-pow zero = Splits-one
Splits-pow (suc k) =
    let e : 2 ^ suc k ≡ 2 * 2 ^ k = omega arith in
    subst Splits (sym e) (Splits-double (2 ^ k) (Splits-pow k))

-- A field below a shifted one is added, on either side of `|`.
pub bit_or_fields : (k a r : ℕ) → r < 2 ^ k → bit_or (a * 2 ^ k) r ≡ a * 2 ^ k + r
bit_or_fields k a r h =
    let ea : a * 2 ^ k ≡ 2 ^ k * a + 0 = omega arith in
    let er : r ≡ 2 ^ k * 0 + r = omega arith in
    ap₂ bit_or ea er
    ∙ Splits-pow k a 0 0 r (omega arith) h
    ∙ omega (arith, ap (λ (t : ℕ). 2 ^ k * t) (bit_or-zero a), zero-bit_or r)

-- A field shifted into the zeros between two others.
pub bit_or_between :
    (k a b r : ℕ) → r < 2 ^ k → bit_or (a * 2 ^ k + r) (b * 2 ^ k) ≡ bit_or a b * 2 ^ k + r
bit_or_between k a b r h =
    let ea : a * 2 ^ k + r ≡ 2 ^ k * a + r = omega arith in
    let eb : b * 2 ^ k ≡ 2 ^ k * b + 0 = omega arith in
    ap₂ bit_or ea eb ∙ Splits-pow k a b r 0 h (omega arith) ∙ omega (arith, bit_or-zero r)

pub bit_or_above : (k a r : ℕ) → r < 2 ^ k → bit_or r (a * 2 ^ k) ≡ a * 2 ^ k + r
bit_or_above k a r h =
    let er : r ≡ 0 * 2 ^ k + r = omega arith in
    ap (λ x. bit_or x (a * 2 ^ k)) er
    ∙ bit_or_between k 0 a r h
    ∙ omega (arith, ap (λ (t : ℕ). t * 2 ^ k) (zero-bit_or a))
