-- ===== src/Header/Tests.antt =====
-- The parameters and the tag of a packet of the mode DATAC3.
use hermes_broadcast.Common.{◌≡◌, refl, [], ◌∷◌, ◌++◌, arith}
use hermes_broadcast.Nanorq.{
  Oti, oti_common, oti_scheme_specific, oti_common_reduced, oti_scheme_specific_align1,
}
use hermes_broadcast.Header.{parse_tag_oti_common, parse_tag_oti_scheme}
use hermes_broadcast.Header.Oti.{FitsHeader, parse_oti}

abbrev coder : Oti
coder = record {
  transfer_length = 70000;
  symbol_size = 122;
  alignment = 1;
  source_blocks = 3;
  sub_blocks = 1;
}

coder-FitsHeader : FitsHeader coder
coder-FitsHeader = record {
  file = omega arith;
  symbol = (omega arith, omega arith);
  blocks = (omega arith, omega arith);
  subs = (omega arith, omega arith);
  aligned = refl;
}

parse_oti_example :
    (parse_tag_oti_common
        (130 ∷ (oti_common_reduced coder ++ (oti_scheme_specific_align1 coder ++ (9 ∷ []))))
      ≡ oti_common coder)
    × (parse_tag_oti_scheme
          (130 ∷ (oti_common_reduced coder ++ (oti_scheme_specific_align1 coder ++ (9 ∷ []))))
        ≡ oti_scheme_specific coder)
parse_oti_example = parse_oti 130 coder (9 ∷ []) coder-FitsHeader
