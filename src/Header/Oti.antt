-- ===== src/Header/Oti.antt =====
-- receiver.c and daemon.c read back the parameters that raptorq/nanorq.c writes.
use hermes_broadcast.Common.{
  All, List, zero, suc, [], ◌∷◌, ℕ, ◌+◌, ◌-◌, ◌*◌, ◌/◌, ◌%◌, ◌^◌, ◌≤◌, ◌<◌, bit_or, ◌++◌, ◌≡◌, ap,
  ap₂, ◌∙◌, arith,
}
use hermes_broadcast.Common.Bits.{bit_or_fields, bit_or_between, bit_or_above}
use hermes_broadcast.Nanorq.{
  Oti, oti_common, oti_scheme_specific, oti_common_reduced, oti_scheme_specific_align1, tag,
  tag_reduced,
}
use hermes_broadcast.Header.{byte, parse_tag_oti_common, parse_tag_oti_scheme}

-- Five bytes in the order of the shifts.
common_fields :
    (a b c d e : ℕ)
    → a < 256
    → b < 256
    → c < 256
    → d < 256
    → e < 256
    → bit_or (bit_or (bit_or (bit_or (a * 2 ^ 24) (b * 2 ^ 32)) (c * 2 ^ 40)) d) (e * 2 ^ 8)
      ≡ (c * 65536 + b * 256 + a) * 2 ^ 24 + e * 256 + d
common_fields a b c d e ha hb hc hd he =
    let s1 : bit_or (a * 2 ^ 24) (b * 2 ^ 32) ≡ b * 2 ^ 32 + a * 2 ^ 24 =
      bit_or_above 32 b (a * 2 ^ 24) (omega arith) in
    let s2 : bit_or (b * 2 ^ 32 + a * 2 ^ 24) (c * 2 ^ 40)
        ≡ c * 2 ^ 40 + (b * 2 ^ 32 + a * 2 ^ 24) =
      bit_or_above 40 c (b * 2 ^ 32 + a * 2 ^ 24) (omega arith) in
    let x = c * 65536 + b * 256 + a in
    let e3 : c * 2 ^ 40 + (b * 2 ^ 32 + a * 2 ^ 24) ≡ x * 2 ^ 24 = omega arith in
    let s3 : bit_or (x * 2 ^ 24) d ≡ x * 2 ^ 24 + d = bit_or_fields 24 x d (omega arith) in
    let e4 : x * 2 ^ 24 + d ≡ (x * 2 ^ 16) * 2 ^ 8 + d = omega arith in
    let s4 : bit_or (x * 2 ^ 16 * 2 ^ 8 + d) (e * 2 ^ 8) ≡ bit_or (x * 2 ^ 16) e * 2 ^ 8 + d =
      bit_or_between 8 (x * 2 ^ 16) e d (omega arith) in
    let s5 : bit_or (x * 2 ^ 16) e ≡ x * 2 ^ 16 + e = bit_or_fields 16 x e (omega arith) in
    ap (λ y. bit_or (bit_or (bit_or y (c * 2 ^ 40)) d) (e * 2 ^ 8)) s1
    ∙ ap (λ y. bit_or (bit_or y d) (e * 2 ^ 8)) (s2 ∙ e3)
    ∙ ap (λ y. bit_or y (e * 2 ^ 8)) (s3 ∙ e4)
    ∙ s4
    ∙ omega (arith, s5)

-- The bytes of a number below 2 ^ 24, and of one below 2 ^ 16.
three_bytes : (f : ℕ) → f < 2 ^ 24 → f / 2 ^ 16 % 256 * 65536 + f / 2 ^ 8 % 256 * 256 + f % 256 ≡ f
three_bytes f h = omega arith

two_bytes : (t : ℕ) → t < 2 ^ 16 → t / 2 ^ 8 % 256 * 256 + t % 256 ≡ t
two_bytes t h = omega arith

scheme_fields :
    (z l h : ℕ)
    → z < 256
    → l < 256
    → h < 256
    → bit_or (bit_or (bit_or (z * 2 ^ 24) (l * 2 ^ 8)) (h * 2 ^ 16)) 1
      ≡ z * 2 ^ 24 + (h * 256 + l) * 2 ^ 8 + 1
scheme_fields z l h hz hl hh =
    let s1 : bit_or (z * 2 ^ 24) (l * 2 ^ 8) ≡ z * 2 ^ 24 + l * 2 ^ 8 =
      bit_or_fields 24 z (l * 2 ^ 8) (omega arith) in
    let e1 : z * 2 ^ 24 + l * 2 ^ 8 ≡ z * 2 ^ 8 * 2 ^ 16 + l * 2 ^ 8 = omega arith in
    let s2 : bit_or (z * 2 ^ 8 * 2 ^ 16 + l * 2 ^ 8) (h * 2 ^ 16)
        ≡ bit_or (z * 2 ^ 8) h * 2 ^ 16 + l * 2 ^ 8 =
      bit_or_between 16 (z * 2 ^ 8) h (l * 2 ^ 8) (omega arith) in
    let s3 : bit_or (z * 2 ^ 8) h ≡ z * 2 ^ 8 + h = bit_or_fields 8 z h hh in
    let x = (z * 2 ^ 16 + h * 2 ^ 8 + l) in
    let e2 : bit_or (z * 2 ^ 8) h * 2 ^ 16 + l * 2 ^ 8 ≡ x * 2 ^ 8 = omega (arith, s3) in
    let s4 : bit_or (x * 2 ^ 8) 1 ≡ x * 2 ^ 8 + 1 = bit_or_fields 8 x 1 (omega arith) in
    ap (λ y. bit_or (bit_or y (h * 2 ^ 16)) 1) (s1 ∙ e1)
    ∙ ap (λ y. bit_or y 1) (s2 ∙ e2)
    ∙ s4
    ∙ omega arith

-- The parameters that the reduced headers can hold: a file below 16 MiB, and the alignment 1.
pub record FitsHeader (o : Oti) : Type 0 where
  pub file : o.transfer_length < 2 ^ 24
  pub symbol : (0 < o.symbol_size) × (o.symbol_size ≤ 2 ^ 16)
  pub blocks : (0 < o.source_blocks) × (o.source_blocks ≤ 256)
  pub subs : (0 < o.sub_blocks) × (o.sub_blocks ≤ 2 ^ 16)
  pub aligned : o.alignment ≡ 1

oti_common_lem :
    (o : Oti) → FitsHeader o → oti_common o ≡ o.transfer_length * 2 ^ 24 + (o.symbol_size - 1)
unfolding oti_common
oti_common_lem o f =
    let e1 : o.transfer_length * 2 ^ 24 % 2 ^ 64 ≡ o.transfer_length * 2 ^ 24 = omega arith in
    let e2 : (o.symbol_size + 2 ^ 64 - 1) % 2 ^ 64 % 2 ^ 16 ≡ o.symbol_size - 1 = omega arith in
    ap₂ bit_or e1 e2 ∙ bit_or_fields 24 o.transfer_length (o.symbol_size - 1) (omega arith)

oti_scheme_lem :
    (o : Oti)
    → FitsHeader o
    → oti_scheme_specific o ≡ (o.source_blocks - 1) * 2 ^ 24 + (o.sub_blocks - 1) * 2 ^ 8 + 1
unfolding oti_scheme_specific
oti_scheme_lem o f =
    let z = o.source_blocks - 1 in
    let n = o.sub_blocks - 1 in
    let e1 : (o.source_blocks + 2 ^ 64 - 1) % 2 ^ 64 * 2 ^ 24 % 2 ^ 32 ≡ z * 2 ^ 24 = omega arith in
    let e2 : (o.sub_blocks + 2 ^ 64 - 1) % 2 ^ 64 * 2 ^ 8 % 2 ^ 32 ≡ n * 2 ^ 8 = omega arith in
    let e3 : o.alignment % 2 ^ 32 ≡ 1 = omega arith in
    let s1 : bit_or (z * 2 ^ 24) (n * 2 ^ 8) ≡ z * 2 ^ 24 + n * 2 ^ 8 =
      bit_or_fields 24 z (n * 2 ^ 8) (omega arith) in
    let x = z * 2 ^ 16 + n in
    let e4 : z * 2 ^ 24 + n * 2 ^ 8 ≡ x * 2 ^ 8 = omega arith in
    let s2 : bit_or (x * 2 ^ 8) 1 ≡ x * 2 ^ 8 + 1 = bit_or_fields 8 x 1 (omega arith) in
    ap₂ bit_or (ap₂ bit_or e1 e2 ∙ s1 ∙ e4) e3 ∙ s2 ∙ omega arith

-- What the two readers find in a packet that carries the reduced headers of a coder behind its
-- first byte: the parameters that the library itself states of that coder, for any coder whose
-- parameters the headers can hold, and whatever follows them.
pub parse_oti :
    (h : ℕ) (o : Oti) (rest : List ℕ)
    → FitsHeader o
    → (parse_tag_oti_common (h ∷ (oti_common_reduced o ++ (oti_scheme_specific_align1 o ++ rest)))
        ≡ oti_common o)
      × (parse_tag_oti_scheme (h ∷ (oti_common_reduced o ++ (oti_scheme_specific_align1 o ++ rest)))
          ≡ oti_scheme_specific o)
unfolding parse_tag_oti_common parse_tag_oti_scheme oti_common_reduced oti_scheme_specific_align1
parse_oti h o rest f =
    let fl = o.transfer_length in
    let t = (o.symbol_size + 2 ^ 64 - 1) % 2 ^ 64 in
    let n = (o.sub_blocks + 2 ^ 64 - 1) % 2 ^ 64 in
    let z = (o.source_blocks + 2 ^ 64 - 1) % 2 ^ 64 in
    let ta : t ≡ o.symbol_size - 1 = omega arith in
    (
      common_fields (fl % 256 % 256) (fl / 2 ^ 8 % 256 % 256) (fl / 2 ^ 16 % 256 % 256)
            (t % 256 % 256) (t / 2 ^ 8 % 256 % 256) (omega arith) (omega arith) (omega arith)
            (omega arith) (omega arith)
          ∙ omega (arith, oti_common_lem o f),
      scheme_fields (z % 256 % 256) (n % 256 % 256) (n / 2 ^ 8 % 256 % 256) (omega arith)
            (omega arith) (omega arith)
          ∙ omega (arith, oti_scheme_lem o f),
    )

-- The bytes behind a data frame's parameters: the block and the two bytes of the symbol's number
-- give the tag of that block and number, for every block number and every number of 16 bits.
pub parse_tag :
    (sbn esi : ℕ)
    → sbn < 256
    → esi < 2 ^ 16
    → (tag_reduced sbn esi ≡ sbn ∷ (esi % 256) ∷ (esi / 256) ∷ [])
      × (bit_or (esi % 256) (esi / 256 * 2 ^ 8) ≡ esi)
      × (tag sbn esi ≡ sbn * 2 ^ 24 + esi)
unfolding tag tag_reduced
parse_tag sbn esi hs he =
    let e1 : esi / 2 ^ 8 % 256 ≡ esi / 256 = omega arith in
    let e2 : sbn * 2 ^ 24 % 2 ^ 32 ≡ sbn * 2 ^ 24 = omega arith in
    let e3 : esi % 2 ^ 24 ≡ esi = omega arith in
    (
      ap (λ b. sbn ∷ (esi % 256) ∷ b ∷ []) e1,
      bit_or_above 8 (esi / 256) (esi % 256) (omega arith) ∙ omega arith,
      ap₂ bit_or e2 e3 ∙ bit_or_fields 24 sbn esi (omega arith),
    )

-- The block in a tag.
pub tag_block : (sbn esi : ℕ) → sbn < 256 → esi < 2 ^ 16 → tag sbn esi / 2 ^ 24 % 256 ≡ sbn
tag_block sbn esi hs he = omega (arith, (parse_tag sbn esi hs he).2)

-- The first byte of a packet: its type in two bits, and a CRC of six.
pub first_byte : (t crc : ℕ) → t < 4 → crc < 64 → bit_or (t * 2 ^ 6 % 256) crc ≡ t * 64 + crc
first_byte t crc h k =
    ap (λ x. bit_or x crc) (omega arith) ∙ bit_or_fields 6 t crc (omega arith) ∙ omega arith

-- The bytes of a packet, and what is read behind its end.
pub byte_lt : (frame : List ℕ) (i : ℕ) → All (λ b. b < 256) frame → byte frame i < 256
byte_lt [] i h = omega arith
byte_lt (b ∷ frame) zero h = h.0
byte_lt (b ∷ frame) (suc i) h = byte_lt frame i h.1
