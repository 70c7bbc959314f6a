-- ===== src/Daemon/Filename/Budget.antt =====
-- daemon.c: a file named with a budget of N frames is given N frames.
use hermes_broadcast.Common.{
  ℕ, ◌^◌, ◌<◌, true, false, List, [], ◌∷◌, ◌++◌, none, some, ◌≡◌, ◌≢◌, refl, sym, ap, ◌∙◌, All,
  All-append, arith, subst,
}
use mathlib.Core.List.{
  reverse, reverse-cons, reverse-append, reverse-reverse, append-nil, append_assoc,
}
use hermes_broadcast.Daemon.Filename.{
  slash, dash, suffix, is_digit, has_slash, base_name, starts_with, before_suffix, walk_back,
  limit_of, limit_in, parse_frames_limit_from_filename,
}
use hermes_broadcast.Daemon.Filename.Digits.{print_digits, print, All-print_digits, digits_limit}

-- The file part of a path.
has_slash_dir : (dir name : List ℕ) → has_slash (dir ++ slash ∷ name) ≡ true
unfolding has_slash
has_slash_dir [] name = ground arith
has_slash_dir (d ∷ dir) name = ground (arith, has_slash_dir dir name)

has_slash-append :
    (xs ys : List ℕ) → has_slash xs ≡ false → has_slash ys ≡ false → has_slash (xs ++ ys) ≡ false
unfolding has_slash
has_slash-append [] ys h k = k
has_slash-append (x ∷ xs) ys h k = ground (arith, has_slash-append xs ys)

base_name_none : (name : List ℕ) → has_slash name ≡ false → base_name name ≡ name
unfolding base_name has_slash
base_name_none [] h = refl
base_name_none (c ∷ cs) h = ground arith

base_name_dir :
    (dir name : List ℕ) → has_slash name ≡ false → base_name (dir ++ slash ∷ name) ≡ name
unfolding base_name
base_name_dir [] name h = rw h
base_name_dir (d ∷ dir) name h = rw (has_slash_dir dir name) (base_name_dir dir name h)

-- A character that the pattern lacks ends a match before it.
starts_with_stop :
    (ps xs ys : List ℕ) (c : ℕ)
    → All (λ p. p ≢ c) ps
    → starts_with ps (xs ++ c ∷ ys) ≡ starts_with ps xs
unfolding starts_with
starts_with_stop [] xs ys c h = refl
starts_with_stop (p ∷ ps) [] ys c h = ground arith
starts_with_stop (p ∷ ps) (x ∷ xs) ys c h = ground (arith, starts_with_stop ps xs ys c)

before_suffix-none :
    (c : ℕ) (cs : List ℕ)
    → before_suffix (c ∷ cs) ≡ none
    → (starts_with suffix (c ∷ cs) ≡ false) × (before_suffix cs ≡ none)
unfolding before_suffix
before_suffix-none c cs h = (ground arith, ground arith)

-- What precedes the first occurrence, character by character.
before_suffix-cons :
    (c : ℕ) (cs front : List ℕ)
    → starts_with suffix (c ∷ cs) ≡ false
    → before_suffix cs ≡ some front
    → before_suffix (c ∷ cs) ≡ some (c ∷ front)
unfolding before_suffix
before_suffix-cons c cs front h k = rw (h, k)

before_suffix_here : (ext : List ℕ) → before_suffix (suffix ++ ext) ≡ some []
unfolding before_suffix starts_with
before_suffix_here ext = refl

starts_with_digit : (c : ℕ) (cs : List ℕ) → is_digit c ≡ true → starts_with suffix (c ∷ cs) ≡ false
unfolding starts_with
starts_with_digit c cs h = ground arith

before_suffix_digits :
    (ds ext : List ℕ)
    → All (λ c. is_digit c ≡ true) ds
    → before_suffix (ds ++ (suffix ++ ext)) ≡ some ds
before_suffix_digits [] ext h = before_suffix_here ext
before_suffix_digits (d ∷ ds) ext h =
    before_suffix-cons d (ds ++ (suffix ++ ext)) ds
      (starts_with_digit d (ds ++ (suffix ++ ext)) h.0) (before_suffix_digits ds ext h.1)

before_suffix_stem :
    (stem rest front : List ℕ)
    → before_suffix stem ≡ none
    → before_suffix (dash ∷ rest) ≡ some front
    → before_suffix (stem ++ dash ∷ rest) ≡ some (stem ++ front)
before_suffix_stem [] rest front h k = k
before_suffix_stem (c ∷ stem) rest front h k =
    let (no_match, later) = before_suffix-none c stem h in
    before_suffix-cons c (stem ++ dash ∷ rest) (stem ++ front)
      (starts_with_stop suffix (c ∷ stem) rest dash (omega arith) ∙ no_match)
      (before_suffix_stem stem rest front later k)

walk_back_digits :
    (xs acc r : List ℕ)
    → All (λ c. is_digit c ≡ true) xs
    → walk_back (xs ++ dash ∷ r) acc ≡ (reverse xs ++ acc, dash ∷ r)
unfolding walk_back
walk_back_digits [] acc r h = refl
walk_back_digits (x ∷ xs) acc r h = rw h.0 (
    walk_back_digits xs (x ∷ acc) r h.1
    ∙ ap (λ (l : List ℕ). (l, dash ∷ r))
        (sym (ap (λ l. l ++ acc) (reverse-cons x xs) ∙ append_assoc (reverse xs) (x ∷ []) acc)))

All-reverse : (P : ℕ → Type 0) (xs : List ℕ) → All P xs → All P (reverse xs)
All-reverse P [] h = tt
All-reverse P (x ∷ xs) h =
    subst (All P) (sym (reverse-cons x xs))
      (All-append P (reverse xs) (x ∷ []) (All-reverse P xs h.1) (h.0, tt))

walk_back_front :
    (stem ds : List ℕ)
    → All (λ c. is_digit c ≡ true) ds
    → walk_back (reverse (stem ++ dash ∷ ds)) [] ≡ (ds, dash ∷ reverse stem)
walk_back_front stem ds h =
    ap (λ l. walk_back l [])
      (reverse-append stem (dash ∷ ds)
        ∙ ap (λ l. l ++ reverse stem) (reverse-cons dash ds)
        ∙ append_assoc (reverse ds) (dash ∷ []) (reverse stem))
    ∙ walk_back_digits (reverse ds) [] (reverse stem) (All-reverse (λ c. is_digit c ≡ true) ds h)
    ∙ ap (λ (l : List ℕ). (l, dash ∷ reverse stem))
        (append-nil (reverse (reverse ds)) ∙ reverse-reverse ds)

has_slash_digits : (ds : List ℕ) → All (λ c. is_digit c ≡ true) ds → has_slash ds ≡ false
unfolding has_slash
has_slash_digits [] h = refl
has_slash_digits (d ∷ ds) h = ground (arith, has_slash_digits ds h.1)

dash_only : has_slash (dash ∷ []) ≡ false
unfolding has_slash
dash_only = refl

suffix_only : has_slash suffix ≡ false
unfolding has_slash
suffix_only = refl

has_slash_name :
    (stem ds ext : List ℕ)
    → has_slash stem ≡ false
    → has_slash ds ≡ false
    → has_slash ext ≡ false
    → has_slash (stem ++ dash ∷ (ds ++ (suffix ++ ext))) ≡ false
has_slash_name stem ds ext hs hd he = has_slash-append stem (dash ∷ (ds ++ (suffix ++ ext))) hs (
    has_slash-append (dash ∷ []) (ds ++ (suffix ++ ext)) dash_only
      (has_slash-append ds (suffix ++ ext) hd (has_slash-append suffix ext suffix_only he)))

no_match : (cs : List ℕ) → starts_with suffix (dash ∷ cs) ≡ false
unfolding starts_with
no_match cs = refl

dash_digits :
    (ds ext : List ℕ)
    → All (λ c. is_digit c ≡ true) ds
    → before_suffix (dash ∷ (ds ++ (suffix ++ ext))) ≡ some (dash ∷ ds)
dash_digits ds ext h =
    before_suffix-cons dash (ds ++ (suffix ++ ext)) ds (no_match (ds ++ (suffix ++ ext)))
      (before_suffix_digits ds ext h)

limit_by_parts :
    (path name front ds before : List ℕ)
    → base_name path ≡ name
    → before_suffix name ≡ some front
    → walk_back (reverse front) [] ≡ (ds, before)
    → parse_frames_limit_from_filename path ≡ limit_of ds before
unfolding parse_frames_limit_from_filename
limit_by_parts path name front ds before e f g =
    ap (λ b. limit_in (before_suffix b)) e
    ∙ ap limit_in f
    ∙ ap (λ (p : (List ℕ) × (List ℕ)). limit_of p.0 p.1) g

-- A file whose name carries "-N_frames" behind a stem that does not hold "_frames" itself, in any
-- directory and with any ending, is given the limit of N frames, for every N of an int64_t but 0.
pub named_budget :
    (n : ℕ) (dir stem ext : List ℕ)
    → 0 < n
    → n < 2 ^ 63
    → has_slash stem ≡ false
    → has_slash ext ≡ false
    → before_suffix stem ≡ none
    → parse_frames_limit_from_filename
        (dir ++ slash ∷ (stem ++ dash ∷ (print n ++ (suffix ++ ext))))
      ≡ some n
unfolding print
named_budget n dir stem ext p h hs he hb =
    let ds = print_digits 19 n in
    let decimals = All-print_digits 19 n in
    let name = stem ++ dash ∷ (ds ++ (suffix ++ ext)) in
    let base : base_name (dir ++ slash ∷ name) ≡ name =
      base_name_dir dir name (has_slash_name stem ds ext hs (has_slash_digits ds decimals) he) in
    let front : before_suffix name ≡ some (stem ++ dash ∷ ds) =
      before_suffix_stem stem (ds ++ (suffix ++ ext)) (dash ∷ ds) hb
        (dash_digits ds ext decimals) in
    limit_by_parts (dir ++ slash ∷ name) name (stem ++ dash ∷ ds) ds (dash ∷ reverse stem) base
      front (walk_back_front stem ds decimals)
    ∙ digits_limit n (reverse stem) p h
