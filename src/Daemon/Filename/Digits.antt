-- ===== src/Daemon/Filename/Digits.antt =====
-- daemon.c: the digits of a file's budget, printed and read.
use hermes_broadcast.Common.{
  ℕ, zero, suc, ◌+◌, ◌-◌, ◌*◌, ◌/◌, ◌%◌, ◌^◌, ◌≤◌, ◌<◌, true, List, [], ◌∷◌, ◌++◌, some, ltb,
  if◌then◌else◌, length, length-append, ◌≡◌, refl, All, All-append, arith, Bool-cases, inl, inr,
}
use hermes_broadcast.Daemon.Filename.{dash, is_digit, decimal, atoll, limit_of}

-- A number below 10 ^ f in decimal.
unfoldable pub print_digits : ℕ → ℕ → List ℕ
print_digits zero n = []
print_digits (suc f) n =
    let front = print_digits f (n / 10) in
    if ltb n 10 then (48 + n) ∷ [] else front ++ (48 + n % 10) ∷ []

-- Nineteen digits are enough for an int64_t.
unfoldable pub print : ℕ → List ℕ
print n = print_digits 19 n

pub decimal-append :
    (acc : ℕ) (xs : List ℕ) (c : ℕ) → decimal acc (xs ++ c ∷ []) ≡ decimal acc xs * 10 + (c - 48)
unfolding decimal
decimal-append acc [] c = refl
decimal-append acc (x ∷ xs) c = decimal-append (acc * 10 + (x - 48)) xs c

pub one_digit : (n : ℕ) → decimal 0 ((48 + n) ∷ []) ≡ n
unfolding decimal
one_digit n = omega arith

pub decimal-print_digits : (f n : ℕ) → n < 10 ^ f → 0 < f → decimal 0 (print_digits f n) ≡ n
unfolding print_digits
decimal-print_digits zero n h p = absurd (omega arith)
decimal-print_digits (suc f) n h p = elim (Bool-cases (ltb n 10)) [
  | inl small ↦ rw small (one_digit n)
  | inr big ↦
      rw (big, decimal-append)
        (omega
          (arith, decimal-print_digits f (n / 10) (quotient f n h) (more f n h (ground arith))))
]
  where
    quotient : (f n : ℕ) → n < 10 ^ suc f → n / 10 < 10 ^ f
    quotient f n h = omega arith

    more : (f n : ℕ) → n < 10 ^ suc f → 10 ≤ n → 0 < f
    more zero n h k = absurd (omega arith)
    more (suc f) n h k = omega arith

pub All-print_digits : (f n : ℕ) → All (λ c. is_digit c ≡ true) (print_digits f n)
unfolding print_digits
All-print_digits zero n = tt
All-print_digits (suc f) n = elim (Bool-cases (ltb n 10)) [
  | inl small ↦ rw small (ground arith, tt)
  | inr big ↦ rw big (
      All-append (λ c. is_digit c ≡ true) (print_digits f (n / 10)) ((48 + n % 10) ∷ [])
        (All-print_digits f (n / 10)) (ground arith, tt))
]

pub length-print_digits : (f n : ℕ) → length (print_digits f n) ≤ f
unfolding print_digits
length-print_digits zero n = omega arith
length-print_digits (suc f) n = ground (
  arith,
  length-append (print_digits f (n / 10)) ((48 + n % 10) ∷ []),
  length-print_digits f (n / 10),
)

pub length-print_digits_pos : (f n : ℕ) → 0 < f → 0 < length (print_digits f n)
unfolding print_digits
length-print_digits_pos zero n h = absurd (omega arith)
length-print_digits_pos (suc f) n h =
    ground (arith, length-append (print_digits f (n / 10)) ((48 + n % 10) ∷ []))

pub limit_of_digits :
    (ds before : List ℕ) (n : ℕ)
    → decimal 0 ds ≡ n
    → length ds ≤ 19
    → 0 < length ds
    → 0 < n
    → n < 2 ^ 63
    → limit_of ds (dash ∷ before) ≡ some n
unfolding limit_of atoll
limit_of_digits ds before n e l k p h = ground arith

pub digits_limit :
    (n : ℕ) (before : List ℕ)
    → 0 < n
    → n < 2 ^ 63
    → limit_of (print_digits 19 n) (dash ∷ before) ≡ some n
digits_limit n before p h =
    limit_of_digits (print_digits 19 n) before n
      (decimal-print_digits 19 n (omega arith) (omega arith)) (length-print_digits 19 n)
      (length-print_digits_pos 19 n (omega arith)) p h
