-- ===== src/Daemon/Transmit/Frame.antt =====
-- daemon.c: what the transmitting thread puts in a frame is what the receiving thread reads in it.
use hermes_broadcast.Common.{
  ℕ, suc, ◌+◌, ◌*◌, ◌/◌, ◌%◌, ◌^◌, ◌<◌, bit_or, true, List, ◌∷◌, ◌++◌, length, drop, ◌≡◌, refl, ap,
  ◌∙◌, arith,
}
use hermes_broadcast.Nanorq.{
  Oti, oti_common, oti_scheme_specific, oti_common_reduced, oti_scheme_specific_align1, tag_reduced,
}
use hermes_broadcast.Crc.{crc6_0x6f}
use hermes_broadcast.Crc.Poly.{crc6_lt}
use hermes_broadcast.Header.{parse_tag_oti_common, parse_tag_oti_scheme}
use hermes_broadcast.Header.Oti.{first_byte, FitsHeader, parse_oti, parse_tag}
use hermes_broadcast.Daemon.{Context}
use hermes_broadcast.Daemon.Transmit.{joint_frame}
use hermes_broadcast.Daemon.Receive.{is_joint_frame, frame_sbn, frame_esi}

-- The parameters of a coder as a session keeps them.
abbrev pub config_of : Oti → List ℕ
config_of o = oti_common_reduced o ++ oti_scheme_specific_align1 o

pub length-config_of : (o : Oti) → length (config_of o) ≡ 8
unfolding oti_common_reduced oti_scheme_specific_align1
length-config_of o = refl

-- The body of a frame behind its first byte.
abbrev pub body : Oti → ℕ → ℕ → List ℕ → List ℕ
body o sbn esi symbol = config_of o ++ (tag_reduced sbn esi ++ symbol)

guards_of :
    (ctx : Context) (crc : ℕ) (bs : List ℕ)
    → crc6_0x6f 1 bs ≡ crc
    → crc < 64
    → suc (length bs) ≡ ctx.frame_size
    → is_joint_frame ctx (bit_or (2 * 2 ^ 6 % 256) crc ∷ bs) ≡ true
unfolding is_joint_frame
guards_of ctx crc bs e h l = rw (first_byte 2 crc (omega arith) h, e) (ground arith)

length-body :
    (o : Oti) (sbn esi : ℕ) (symbol : List ℕ) → length (body o sbn esi symbol) ≡ length symbol + 11
unfolding tag_reduced oti_common_reduced oti_scheme_specific_align1
length-body o sbn esi symbol = omega arith

pub oti_read :
    (b : ℕ) (o : Oti) (sbn esi : ℕ) (symbol : List ℕ)
    → FitsHeader o
    → (parse_tag_oti_common (b ∷ body o sbn esi symbol) ≡ oti_common o)
      × (parse_tag_oti_scheme (b ∷ body o sbn esi symbol) ≡ oti_scheme_specific o)
unfolding oti_common_reduced oti_scheme_specific_align1
oti_read b o sbn esi symbol f = parse_oti b o (tag_reduced sbn esi ++ symbol) f

pub tag_read :
    (b : ℕ) (o : Oti) (sbn esi : ℕ) (symbol : List ℕ)
    → esi < 2 ^ 16
    → (frame_sbn (b ∷ body o sbn esi symbol) ≡ sbn)
      × (frame_esi (b ∷ body o sbn esi symbol) ≡ esi)
      × (drop 12 (b ∷ body o sbn esi symbol) ≡ symbol)
unfolding oti_common_reduced oti_scheme_specific_align1 tag_reduced
tag_read b o sbn esi symbol he =
    let e : esi / 2 ^ 8 % 256 ≡ esi / 256 = omega arith in
    (refl, ap (λ h. bit_or (esi % 256) (h * 2 ^ 8)) e ∙ (parse_tag 0 esi (omega arith) he).1, refl)

-- The frame of a symbol has the length, the type and the CRC that the receiving thread asks for; it
-- gives back the parameters of the coder, the block and the number of the symbol, and its bytes:
-- for every coder whose parameters the header can hold, every block and every number of 16 bits,
-- and every symbol of the length that the frame leaves for it.
pub joint_frame_read :
    (ctx : Context) (o : Oti) (sbn esi : ℕ) (symbol : List ℕ)
    → FitsHeader o
    → sbn < 256
    → esi < 2 ^ 16
    → length symbol + 12 ≡ ctx.frame_size
    → let frame = joint_frame (config_of o) sbn esi symbol in
      (is_joint_frame ctx frame ≡ true)
      × (parse_tag_oti_common frame ≡ oti_common o)
      × (parse_tag_oti_scheme frame ≡ oti_scheme_specific o)
      × (frame_sbn frame ≡ sbn)
      × (frame_esi frame ≡ esi)
      × (drop 12 frame ≡ symbol)
unfolding joint_frame
joint_frame_read ctx o sbn esi symbol f hs he hl =
    let s = sbn % 256 in
    let bs = body o s esi symbol in
    let crc = crc6_0x6f 1 bs in
    let b = bit_or (2 * 2 ^ 6 % 256) crc in
    let (common, scheme) = oti_read b o s esi symbol f in
    let (block, number, bytes) = tag_read b o s esi symbol he in
    (
      guards_of ctx crc bs refl (crc6_lt 1 bs) (omega (arith, length-body o s esi symbol)),
      common,
      scheme,
      block ∙ omega arith,
      number,
      bytes,
    )
