-- ===== src/Daemon/Filename/Tests.antt =====
-- Names with and without a budget.
use hermes_broadcast.Common.{ℕ, ◌≡◌, refl, false, List, [], ◌∷◌, ◌++◌, none, some, arith}
use Prim.Native.String.{String}
use Prim.Native.Char.{code}
use hermes_broadcast.Daemon.Filename.{
  slash, dash, suffix, has_slash, before_suffix, parse_frames_limit_from_filename,
}
use hermes_broadcast.Daemon.Filename.Digits.{print}
use hermes_broadcast.Daemon.Filename.Budget.{named_budget}

abbrev codes : String → List ℕ
codes String.[] = []
codes (String.◌∷◌ c s) = code c ∷ codes s

readme_name : parse_frames_limit_from_filename (codes "./tx/example-500_frames.bin") ≡ some 500
unfolding parse_frames_limit_from_filename
readme_name = refl

no_budget : parse_frames_limit_from_filename (codes "./tx-7_frames/example.bin") ≡ none
unfolding parse_frames_limit_from_filename
no_budget = refl

no_dash : parse_frames_limit_from_filename (codes "tx/500_frames.bin") ≡ none
unfolding parse_frames_limit_from_filename
no_dash = refl

plain_stem : has_slash (codes "example") ≡ false
unfolding has_slash
plain_stem = refl

plain_ending : has_slash (codes ".bin") ≡ false
unfolding has_slash
plain_ending = refl

stem_without_suffix : before_suffix (codes "example") ≡ none
unfolding before_suffix
stem_without_suffix = refl

named_budget_example :
    parse_frames_limit_from_filename
      (codes "./tx" ++ slash ∷ (codes "example" ++ dash ∷ (print 500 ++ (suffix ++ codes ".bin"))))
    ≡ some 500
named_budget_example =
    named_budget 500 (codes "./tx") (codes "example") (codes ".bin") (omega arith) (omega arith)
      plain_stem plain_ending stem_without_suffix
