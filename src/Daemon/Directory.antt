-- ===== src/Daemon/Directory.antt =====
-- daemon.c: the file that the transmitter takes, and the path that the receiver writes to. A C string
-- is the list of its characters' codes; what `stat` and `access` find is an argument.
pub mod Choice
use hermes_broadcast.Common.{
  ℕ, zero, suc, ◌+◌, ◌-◌, ◌/◌, ◌%◌, Bool, true, false, not, ◌&&◌, ◌||◌, List, [], ◌∷◌, ◌++◌, Option,
  none, some, ltb, ◌==◌, if◌then◌else◌, take,
}
use hermes_broadcast.Daemon.Filename.{slash}

pub record Stat : Type 0 where
  pub regular : Bool
  pub mtime : ℕ

-- `snprintf(..., "%s/%s", ...)` into PATH_MAX bytes.
abbrev pub join : List ℕ → List ℕ → List ℕ
join dir name = take 4095 (dir ++ slash ∷ name)

-- `strcmp(a, b) < 0`
unfoldable pub strcmp_lt : List ℕ → List ℕ → Bool
strcmp_lt a [] = false
strcmp_lt [] (d ∷ b) = true
strcmp_lt (c ∷ a) (d ∷ b) = ltb c d || (c == d && strcmp_lt a b)

-- `de->d_name[0] == '.'`
abbrev pub is_hidden : List ℕ → Bool
is_hidden [] = false
is_hidden (c ∷ name) = c == 46

abbrev pub is_regular : (List ℕ → Option Stat) → List ℕ → List ℕ → Bool
is_regular stat dir name = elim (stat (join dir name)) [ none ↦ false | some st ↦ st.regular ]

abbrev pub is_better : List ℕ → Option (List ℕ) → Bool
is_better name none = true
is_better name (some best) = strcmp_lt name best

-- The loop over the entries, with the best name so far.
unfoldable pub first_name :
    (List ℕ → Option Stat) → List ℕ → Option (List ℕ) → List (List ℕ) → Option (List ℕ)
unfolding strcmp_lt
first_name stat dir best [] = best
first_name stat dir best (name ∷ names) =
    first_name stat dir
      (if is_hidden name
        then best
        else (if not (is_regular stat dir name)
            then best
            else (if is_better name best then some name else best)))
      names

-- `entries` is `none` when `opendir` fails; the path and the time of the file are returned.
unfoldable pub find_first_regular_file :
    (List ℕ → Option Stat) → Option (List (List ℕ)) → List ℕ → Option ((List ℕ) × ℕ)
unfolding first_name
find_first_regular_file stat none dir = none
find_first_regular_file stat (some names) dir = elim (first_name stat dir none names) [
  | none ↦ none
  | some best ↦ elim (stat (join dir best)) [
    | none ↦ none
    | some st ↦ some (join dir best, st.mtime)
  ]
]

-- "%03d" of a number below 1000.
abbrev pub three_digits : ℕ → List ℕ
three_digits i = (48 + i / 100) ∷ (48 + i / 10 % 10) ∷ (48 + i % 10) ∷ []

-- ".bin"
abbrev pub bin_ending : List ℕ
bin_ending = 46 ∷ 98 ∷ 105 ∷ 110 ∷ []

-- The `i`-th path tried; `stamp` is "broadcast_" with the date and the time, in decimal.
unfoldable pub candidate : List ℕ → List ℕ → ℕ → List ℕ
candidate dir stamp zero = take 4095 (dir ++ slash ∷ (stamp ++ bin_ending))
candidate dir stamp (suc i) =
    take 4095 (dir ++ slash ∷ (stamp ++ 95 ∷ (three_digits (suc i) ++ bin_ending)))

-- `k` numbers of the loop are left, from `i` on; `exists` is `access(path, F_OK) == 0`.
unfoldable pub try_paths : (List ℕ → Bool) → List ℕ → List ℕ → (k i : ℕ) → Option (List ℕ)
unfolding candidate
try_paths exists dir stamp zero i = none
try_paths exists dir stamp (suc k) i =
    let rest = try_paths exists dir stamp k (suc i) in
    if not (exists (candidate dir stamp i)) then some (candidate dir stamp i) else rest

unfoldable pub build_output_path : (List ℕ → Bool) → List ℕ → List ℕ → Option (List ℕ)
unfolding try_paths
build_output_path exists dir stamp = try_paths exists dir stamp 1000 0
