-- ===== src/Daemon/Transmit/Counters.antt =====
-- daemon.c: the counters of symbols that the transmitting thread keeps for its blocks.
use hermes_broadcast.Common.{
  ℕ, zero, suc, ◌+◌, ◌*◌, ◌%◌, ◌<◌, List, ltb, ◌==◌, if◌then◌else◌, length, get_or, get_or-set_self,
  get_or-set_ne, set, replicate, ◌≡◌, ◌≢◌, refl, sym, ap, ◌∙◌, Bool-cases, inl, inr, arith,
}
use native.Mathlib.Nat.{mod-eq_of_lt, add-mul-mod_self_right}
use hermes_broadcast.Daemon.Transmit.{wrapped_esi}

-- What a counter holds after `c` symbols of its block.
unfoldable pub stored : ℕ → ℕ
stored zero = 0
stored (suc c) = suc (c % 65536)

pub wrapped-stored : (c : ℕ) → wrapped_esi (stored c) ≡ c % 65536
unfolding stored
wrapped-stored zero = ground arith
wrapped-stored (suc c) = ground arith

-- The symbols of block `b` in round `q` with the first `r` blocks served.
unfoldable pub served : ℕ → ℕ → ℕ → ℕ
served q r b = if ltb b r then suc q else q

pub served_self : (q r : ℕ) → served q r r ≡ q
unfolding served
served_self q r = ground arith

pub served_next : (q r b : ℕ) → b ≡ r → served q (suc r) b ≡ suc q
unfolding served
served_next q r b e = ground arith

pub served_other : (q r b : ℕ) → b ≢ r → served q (suc r) b ≡ served q r b
unfolding served
served_other q r b e = ground arith

pub served_round : (q n b : ℕ) → b < n → served (suc q) 0 b ≡ served q n b
unfolding served
served_round q n b h = ground arith

abbrev pub IsRound : ℕ → List ℕ → ℕ → ℕ → Type 0
IsRound n esi q r = (b : ℕ) → b < n → get_or esi b 0 ≡ stored (served q r b)

pub serve :
    (n : ℕ) (esi : List ℕ) (q r : ℕ)
    → length esi ≡ n
    → r < n
    → IsRound n esi q r
    → IsRound n (set esi r (suc (q % 65536))) q (suc r)
unfolding stored
serve n esi q r l h i b hb = elim (Bool-cases (b == r)) [
  | inl e ↦
      let eq_b : b ≡ r = ground arith in
      ap (λ j. get_or (set esi r (suc (q % 65536))) j 0) eq_b
      ∙ get_or-set_self esi r (suc (q % 65536)) 0 (omega arith)
      ∙ ap stored (sym (served_next q r b eq_b))
  | inr e ↦
      let ne : b ≢ r = ground arith in
      get_or-set_ne esi r b (suc (q % 65536)) 0 (λ x. ne (sym x))
      ∙ i b hb
      ∙ ap stored (sym (served_other q r b ne))
]

pub next_round : (n : ℕ) (esi : List ℕ) (q : ℕ) → IsRound n esi q n → IsRound n esi (suc q) 0
next_round n esi q i b hb = i b hb ∙ ap stored (sym (served_round q n b hb))

pub get_or-zeros : (n b : ℕ) → get_or {A = ℕ} (replicate n 0) b 0 ≡ 0
get_or-zeros zero b = refl
get_or-zeros (suc n) zero = refl
get_or-zeros (suc n) (suc b) = get_or-zeros n b

pub IsRound-start : (n : ℕ) → IsRound n (replicate n 0) 0 0
unfolding stored served
IsRound-start n b hb = get_or-zeros n b ∙ ground arith

pub position : (q n r : ℕ) → r < n → (q * n + r) % n ≡ r
position q n r h = ap (λ x. x % n) (omega arith) ∙ add-mul-mod_self_right r q n ∙ mod-eq_of_lt h
