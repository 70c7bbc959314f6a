-- ===== src/Shm/Names.antt =====
-- shm_posix.c: the names of the objects.
use hermes_broadcast.Common.{ℕ, true, false, List, [], ◌∷◌, ◌++◌, ◌==◌, ◌≡◌, refl, arith}
use hermes_broadcast.Shm.{same_name}

pub same_name_refl : (k : List ℕ) → same_name k k ≡ true
unfolding same_name
same_name_refl [] = refl
same_name_refl (c ∷ k) = ground (arith, same_name_refl k)

-- The two objects of a ring have different names.
pub same_name-digit :
    (b : List ℕ) (i j : ℕ)
    → (i == j) ≡ false
    → same_name (b ++ 45 ∷ i ∷ []) (b ++ 45 ∷ j ∷ []) ≡ false
unfolding same_name
same_name-digit [] i j h = ground arith
same_name-digit (c ∷ b) i j h = ground (arith, same_name-digit b i j h)
