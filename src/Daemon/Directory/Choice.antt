-- ===== src/Daemon/Directory/Choice.antt =====
-- daemon.c: which file the transmitter takes, and which path the receiver writes to.
use hermes_broadcast.Common.{
  ℕ, zero, suc, ◌+◌, ◌<◌, Bool, true, false, not, ◌&&◌, List, [], ◌∷◌, Option, none, some,
  if◌then◌else◌, All, ◌≡◌, ◌⊎◌, refl, sym, ap, subst, ◌∙◌, Bool-cases, inl, inr, arith,
}
use hermes_broadcast.Daemon.Directory.{
  Stat, strcmp_lt, is_hidden, is_regular, is_better, first_name, candidate, try_paths,
  build_output_path,
}

-- `strcmp` orders the names.
strcmp_lt_irrefl : (a : List ℕ) → strcmp_lt a a ≡ false
unfolding strcmp_lt
strcmp_lt_irrefl [] = refl
strcmp_lt_irrefl (c ∷ a) = ground (arith, strcmp_lt_irrefl a)

strcmp_lt_asym : (a b : List ℕ) → strcmp_lt a b ≡ true → strcmp_lt b a ≡ false
unfolding strcmp_lt
strcmp_lt_asym a [] h = absurd (ground arith)
strcmp_lt_asym [] (d ∷ b) h = refl
strcmp_lt_asym (c ∷ a) (d ∷ b) h = ground (arith, strcmp_lt_asym a b)

strcmp_ge_trans :
    (a b c : List ℕ) → strcmp_lt a b ≡ false → strcmp_lt b c ≡ false → strcmp_lt a c ≡ false
unfolding strcmp_lt
strcmp_ge_trans a b [] h k = refl
strcmp_ge_trans a [] (z ∷ c) h k = absurd (ground arith)
strcmp_ge_trans [] (y ∷ b) (z ∷ c) h k = absurd (ground arith)
strcmp_ge_trans (x ∷ a) (y ∷ b) (z ∷ c) h k = ground (arith, strcmp_ge_trans a b c)

-- A name of a list.
pub IsIn : List ℕ → List (List ℕ) → Type 0
IsIn r [] = ⊥
IsIn r (n ∷ names) = (r ≡ n) ⊎ IsIn r names

module _ (stat : List ℕ → Option Stat) (dir : List ℕ) where
  -- A regular file that is not hidden.
  abbrev pub is_eligible : List ℕ → Bool
  is_eligible name = not (is_hidden name) && is_regular stat dir name

  same_eligible : (a b : List ℕ) → a ≡ b → is_eligible a ≡ true → is_eligible b ≡ true
  same_eligible a b e h = ap is_eligible (sym e) ∙ h

  -- What the loop makes of the names, from the best name before them.
  Picks : List (List ℕ) → Option (List ℕ) → Option (List ℕ) → Type 0
  Picks names best none = (best ≡ none) × All (λ n. is_eligible n ≡ false) names
  Picks names best (some r) =
      ((best ≡ some r) ⊎ (IsIn r names × (is_eligible r ≡ true)))
      × All (λ n. is_eligible n ≡ true → strcmp_lt n r ≡ false) names
      × ((b : List ℕ) → best ≡ some b → strcmp_lt b r ≡ false)

  -- A name that is passed over.
  pass :
      (name : List ℕ) (names : List (List ℕ)) (best r : Option (List ℕ))
      → is_eligible name ≡ false
      → Picks names best r
      → Picks (name ∷ names) best r
  unfolding Picks IsIn
  pass name names best none e (b, rest) = (b, (e, rest))
  pass name names best (some r) e (from, least, before) = (
    elim from [ inl b ↦ inl b | inr (i, ok) ↦ inr (inr i, ok) ],
    (λ h. absurd (ground arith), least),
    before,
  )

  -- A name that is no better than the best one.
  keep :
      (name : List ℕ) (names : List (List ℕ)) (b : List ℕ) (r : Option (List ℕ))
      → strcmp_lt name b ≡ false
      → Picks names (some b) r
      → Picks (name ∷ names) (some b) r
  unfolding Picks IsIn
  keep name names b none h (e, rest) = absurd (ground arith)
  keep name names b (some r) h (from, least, before) = (
    elim from [ inl e ↦ inl e | inr (i, ok) ↦ inr (inr i, ok) ],
    (λ k. strcmp_ge_trans name b r h (before b refl), least),
    before,
  )

  -- A name that becomes the best one.
  take_over :
      (name : List ℕ) (names : List (List ℕ)) (best r : Option (List ℕ))
      → is_eligible name ≡ true
      → ((b : List ℕ) → best ≡ some b → strcmp_lt name b ≡ true)
      → Picks names (some name) r
      → Picks (name ∷ names) best r
  unfolding Picks IsIn
  take_over name names best none e better (f, rest) = absurd (ground arith)
  take_over name names best (some r) e better (from, least, before) = (
    elim from [
      | inl f ↦ inr (inl (ground arith), same_eligible name r (ground arith) e)
      | inr (i, ok) ↦ inr (inr i, ok)
    ],
    (λ k. before name refl, least),
    λ b g. strcmp_ge_trans b name r (strcmp_lt_asym name b (better b g)) (before name refl),
  )

  -- One name more.
  abbrev step : List ℕ → Option (List ℕ) → Option (List ℕ)
  step name best =
      if is_hidden name
      then best
      else (if not (is_regular stat dir name)
          then best
          else (if is_better name best then some name else best))

  step_pass :
      (name : List ℕ) (best : Option (List ℕ)) → is_eligible name ≡ false → step name best ≡ best
  step_pass name best h = ground arith

  step_new : (name : List ℕ) → is_eligible name ≡ true → step name none ≡ some name
  step_new name h = ground arith

  step_better :
      (name b : List ℕ)
      → is_eligible name ≡ true
      → strcmp_lt name b ≡ true
      → step name (some b) ≡ some name
  step_better name b h k = ground arith

  step_keep :
      (name b : List ℕ)
      → is_eligible name ≡ true
      → strcmp_lt name b ≡ false
      → step name (some b) ≡ some b
  step_keep name b h k = ground arith

  some_injective : (a b : List ℕ) → some a ≡ some b → a ≡ b
  some_injective a b e = ground arith

  Picks-cons :
      (name : List ℕ) (names : List (List ℕ)) (best r : Option (List ℕ))
      → Picks names (step name best) r
      → Picks (name ∷ names) best r
  Picks-cons name names best r p = elim (Bool-cases (is_eligible name)) [
    | inr no_file ↦
        pass name names best r no_file
          (subst (λ b. Picks names b r) (step_pass name best no_file) p)
    | inl file ↦ chosen best file p
  ]
    where
      chosen :
          (o : Option (List ℕ))
          → is_eligible name ≡ true
          → Picks names (step name o) r
          → Picks (name ∷ names) o r
      chosen none file p =
          take_over name names none r file (λ b e. absurd (ground arith))
            (subst (λ o. Picks names o r) (step_new name file) p)
      chosen (some b) file p = elim (Bool-cases (strcmp_lt name b)) [
        | inl less ↦
            take_over name names (some b) r file
              (λ c e. subst (λ x. strcmp_lt name x ≡ true) (some_injective b c e) less)
              (subst (λ o. Picks names o r) (step_better name b file less) p)
        | inr more ↦
            keep name names b r more (subst (λ o. Picks names o r) (step_keep name b file more) p)
      ]

  first_name-Picks :
      (best : Option (List ℕ)) (names : List (List ℕ))
      → Picks names best (first_name stat dir best names)
  unfolding first_name Picks
  first_name-Picks none [] = (refl, tt)
  first_name-Picks (some b) [] = (
    inl refl,
    tt,
    λ c e. subst (λ x. strcmp_lt x b ≡ false) (some_injective b c e) (strcmp_lt_irrefl b),
  )
  first_name-Picks best (name ∷ names) =
      Picks-cons name names best (first_name stat dir best (name ∷ names))
        (first_name-Picks (step name best) names)

  -- No entry of the directory is a regular file that is not hidden, or the chosen one is, is an
  -- entry of the directory, and has a name that no such entry precedes in the order of `strcmp`.
  abbrev pub IsChoice : List (List ℕ) → Option (List ℕ) → Type 0
  IsChoice names none = All (λ n. is_eligible n ≡ false) names
  IsChoice names (some r) =
      IsIn r names
      × (is_eligible r ≡ true)
      × All (λ n. is_eligible n ≡ true → strcmp_lt n r ≡ false) names

  -- The loop over the entries of the directory, in whatever order they come, chooses the first
  -- regular file that is not hidden, in the order of `strcmp`, and none only if there is none.
  pub first_name-IsChoice :
      (names : List (List ℕ)) → IsChoice names (first_name stat dir none names)
  unfolding Picks
  first_name-IsChoice names = found (first_name stat dir none names) (first_name-Picks none names)
    where
      found : (r : Option (List ℕ)) → Picks names none r → IsChoice names r
      found none p = p.1
      found (some r) p = elim (p.0) [ inl e ↦ absurd (ground arith) | inr i ↦ (i.0, i.1, p.1) ]

-- The paths tried from number `i` on, `k` of them: the one that is returned is free, and if none is
-- returned all of them exist.
try_paths_free :
    (exists : List ℕ → Bool) (dir stamp : List ℕ) (k i : ℕ)
    → ((p : List ℕ) → try_paths exists dir stamp k i ≡ some p → exists p ≡ false)
      × (try_paths exists dir stamp k i ≡ none
          → (j : ℕ) → j < k
          → exists (candidate dir stamp (i + j)) ≡ true)
unfolding try_paths
try_paths_free exists dir stamp zero i =
    (λ p e. absurd (ground arith), λ e j h. absurd (omega arith))
try_paths_free exists dir stamp (suc k) i =
    let (free, full) = try_paths_free exists dir stamp k (suc i) in
    elim (Bool-cases (exists (candidate dir stamp i))) [
      | inr open_path ↦ (λ p e. ground (arith), λ e. absurd (ground arith))
      | inl taken ↦ (λ p e. free p (ground arith), λ e j h. rest taken (full (ground arith)) j h)
    ]
  where
    rest :
        exists (candidate dir stamp i) ≡ true
        → ((j : ℕ) → j < k → exists (candidate dir stamp (suc i + j)) ≡ true)
        → (j : ℕ) → j < suc k
        → exists (candidate dir stamp (i + j)) ≡ true
    rest taken later zero h =
        let e : i + 0 ≡ i = omega arith in ap (λ x. exists (candidate dir stamp x)) e ∙ taken
    rest taken later (suc j) h =
        let e : i + suc j ≡ suc i + j = omega arith in
        ap (λ x. exists (candidate dir stamp x)) e ∙ later j (omega arith)

-- The receiver never writes over a file: the path it is given does not exist yet, and it is given
-- none only if all thousand paths of the second exist.
pub build_output_path_free :
    (exists : List ℕ → Bool) (dir stamp : List ℕ)
    → ((p : List ℕ) → build_output_path exists dir stamp ≡ some p → exists p ≡ false)
      × (build_output_path exists dir stamp ≡ none
          → (j : ℕ) → j < 1000
          → exists (candidate dir stamp j) ≡ true)
unfolding build_output_path
build_output_path_free exists dir stamp =
    let (free, full) = try_paths_free exists dir stamp 1000 0 in
    (
      free,
      λ e j h.
          let z : j ≡ 0 + j = omega arith in
          ap (λ x. exists (candidate dir stamp x)) z ∙ full e j h,
    )
