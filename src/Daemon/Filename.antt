-- ===== src/Daemon/Filename.antt =====
-- daemon.c, `parse_frames_limit_from_filename`: the number of frames that a file's name asks for.
-- A C string is the list of its characters' codes.
pub mod Digits
pub mod Budget
mod Tests
use hermes_broadcast.Common.{
  ℕ, zero, suc, ◌+◌, ◌-◌, ◌*◌, ◌^◌, min, Bool, true, false, not, ◌&&◌, ◌||◌, List, [], ◌∷◌, ◌++◌,
  Option, none, some, ltb, leb, ◌==◌, if◌then◌else◌, length,
}
use mathlib.Core.List.{reverse}

abbrev pub slash : ℕ
slash = 47

abbrev pub dash : ℕ
dash = 45

-- "_frames"
abbrev pub suffix : List ℕ
suffix = 95 ∷ 102 ∷ 114 ∷ 97 ∷ 109 ∷ 101 ∷ 115 ∷ []

abbrev pub is_digit : ℕ → Bool
is_digit c = leb 48 c && leb c 57

-- `strrchr(path, '/') + 1`, or the path: what stands behind the last slash.
unfoldable pub has_slash : List ℕ → Bool
has_slash [] = false
has_slash (c ∷ cs) = c == slash || has_slash cs

unfoldable pub base_name : List ℕ → List ℕ
unfolding has_slash
base_name [] = []
base_name (c ∷ cs) = if has_slash cs then base_name cs else (if c == slash then cs else c ∷ cs)

unfoldable pub starts_with : List ℕ → List ℕ → Bool
starts_with [] cs = true
starts_with (p ∷ ps) [] = false
starts_with (p ∷ ps) (c ∷ cs) = p == c && starts_with ps cs

-- `strstr(base, "_frames")`: what stands before its first occurrence.
unfoldable pub before_suffix : List ℕ → Option (List ℕ)
unfolding starts_with
before_suffix [] = none
before_suffix (c ∷ cs) =
    let rest = before_suffix cs in
    if starts_with suffix (c ∷ cs)
    then some []
    else elim rest [ none ↦ none | some front ↦ some (c ∷ front) ]

-- The loop that walks back over digits, on the reversed text: the digits, in reading order, and the
-- text before them, reversed.
unfoldable pub walk_back : List ℕ → List ℕ → (List ℕ) × (List ℕ)
walk_back [] ds = (ds, [])
walk_back (c ∷ cs) ds =
    let more = walk_back cs (c ∷ ds) in if is_digit c then more else (ds, c ∷ cs)

-- `atoll` on digits; glibc's `strtoll` stops at LLONG_MAX.
unfoldable pub decimal : ℕ → List ℕ → ℕ
decimal acc [] = acc
decimal acc (c ∷ cs) = decimal (acc * 10 + (c - 48)) cs

unfoldable pub atoll : List ℕ → ℕ
unfolding decimal
atoll ds = min (decimal 0 ds) (2 ^ 63 - 1)

-- `none` is the returned -1: no limit.
unfoldable pub limit_of : List ℕ → List ℕ → Option ℕ
unfolding atoll
limit_of ds [] = none
limit_of ds (c ∷ _) =
    if not (c == dash)
    then none
    else (if length ds == 0 || leb 32 (length ds)
        then none
        else (let val = atoll ds in if ltb 0 val then some val else none))

abbrev pub limit_in : Option (List ℕ) → Option ℕ
limit_in none = none
limit_in (some front) = let (ds, before) = walk_back (reverse front) [] in limit_of ds before

unfoldable pub parse_frames_limit_from_filename : List ℕ → Option ℕ
unfolding base_name before_suffix walk_back limit_of
parse_frames_limit_from_filename path = limit_in (before_suffix (base_name path))
