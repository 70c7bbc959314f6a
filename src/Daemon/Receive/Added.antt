-- ===== src/Daemon/Receive/Added.antt =====
-- daemon.c: the symbol that the receiving thread adds is the one that was sent.
use hermes_broadcast.Common.{
  ℕ, ◌+◌, ◌%◌, ◌^◌, ◌*◌, bit_or, ◌≤◌, ◌<◌, ◌&&◌, ltb, Bool, true, false, not, List, ◌++◌, Option,
  none, some, if◌then◌else◌, length, take, drop, take-append_left, ◌≡◌, refl, sym, ap, ◌∙◌, arith,
}
use hermes_broadcast.Nanorq.{
  Nanorq, Oti, is_added, tag, tag_reduced, oti_common, oti_scheme_specific, oti_common_reduced,
  oti_scheme_specific_align1,
}
use hermes_broadcast.Crc.{crc6_0x6f}
use hermes_broadcast.Header.{parse_tag_oti_common, parse_tag_oti_scheme}
use hermes_broadcast.Header.Oti.{FitsHeader}
use hermes_broadcast.Daemon.{Context}
use hermes_broadcast.Daemon.Transmit.{joint_frame}
use hermes_broadcast.Daemon.Transmit.Frame.{config_of, body, oti_read, tag_read, joint_frame_read}
use hermes_broadcast.Daemon.Receive.{
  RxSession, Scene, is_joint_frame, is_completed, is_new, frame_sbn, frame_esi, rx_symbol_result,
  rx_add_symbol, finish_some, rx_use_frame, rx_started, rx_session_start, rx_frame,
}

passes :
    {A : Type 0} (joint completed new : Bool) (x y z w : A)
    → joint ≡ true
    → completed ≡ false
    → new ≡ false
    → (if not joint then x else (if completed then y else (if new then z else w))) ≡ w
passes true false false x y z w e f g = refl
passes true false true x y z w e f g = absurd cc
passes true true new x y z w e f g = absurd cc
passes false completed new x y z w e f g = absurd cc

small_enough :
    {A : Type 0} (t : ℕ) (one : Bool) (x y : A) → t ≤ 744 → (if one && ltb 744 t then x else y) ≡ y
small_enough t one x y h = ground arith

array_read :
    (o : Oti) (sbn esi : ℕ) (symbol behind : List ℕ)
    → FitsHeader o
    → sbn < 256
    → esi < 2 ^ 16
    → let array = joint_frame (config_of o) sbn esi symbol ++ behind in
      (parse_tag_oti_common array ≡ oti_common o)
      × (parse_tag_oti_scheme array ≡ oti_scheme_specific o)
      × (frame_sbn array ≡ sbn)
      × (frame_esi array ≡ esi)
      × (drop 12 array ≡ symbol ++ behind)
unfolding joint_frame oti_common_reduced oti_scheme_specific_align1 tag_reduced
array_read o sbn esi symbol behind f hs he =
    let s = sbn % 256 in
    let b = bit_or (2 * 2 ^ 6 % 256) (crc6_0x6f 1 (body o s esi symbol)) in
    let (common, scheme) = oti_read b o s esi (symbol ++ behind) f in
    let (block, number, bytes) = tag_read b o s esi (symbol ++ behind) he in
    (common, scheme, block ∙ omega arith, number, bytes)

running :
    {N : Nanorq} (rx : RxSession N) (common scheme : ℕ)
    → rx.active ≡ true
    → is_completed rx common scheme ≡ false
running rx common scheme on = ground arith

known :
    {N : Nanorq} (rx : RxSession N) (common scheme : ℕ)
    → rx.active ≡ true
    → rx.oti_common ≡ common
    → rx.oti_scheme ≡ scheme
    → is_new rx common scheme ≡ false
known rx common scheme on e g = ground arith

module _ (N : Nanorq) where
  -- What the receiving thread makes of the answer of the library to these bytes.
  abbrev pub answered : RxSession N → N.Coder → N.Io → (sbn esi : ℕ) → List ℕ → Option (RxSession N)
  answered rx c io sbn esi bytes =
      let (ret, c1, io1) = N.add_symbol c bytes (tag sbn esi) io in
      finish_some (rx_symbol_result N (record rx { rq = some c1; myio = some io1 }) c1 io1 sbn ret)

  use_frame_answered :
      (rx : RxSession N) (array : List ℕ) (c : N.Coder) (io : N.Io) (sbn esi : ℕ) (bytes : List ℕ)
      → rx.rq ≡ some c
      → rx.myio ≡ some io
      → (N.oti c).symbol_size ≤ 744
      → frame_sbn array ≡ sbn
      → frame_esi array ≡ esi
      → drop 12 array ≡ bytes
      → rx_use_frame N rx array ≡ answered rx c io sbn esi bytes
  unfolding rx_use_frame rx_add_symbol
  use_frame_answered rx array c io sbn esi bytes has held small es ee eb =
      let (ret, c1, io1) =
        N.add_symbol c (drop 12 array) (tag (frame_sbn array) (frame_esi array)) io in
      ap (λ q. finish_some (rx_add_symbol N rx array q rx.myio)) has
      ∙ ap (λ q. finish_some (rx_add_symbol N rx array (some c) q)) held
      ∙ ap finish_some (
          small_enough (N.oti c).symbol_size (is_added ret) none
            (rx_symbol_result N (record rx { rq = some c1; myio = some io1 }) c1 io1
              (frame_sbn array) ret)
            small)
      ∙ ap (λ s. answered rx c io s (frame_esi array) (drop 12 array)) es
      ∙ ap (λ e. answered rx c io sbn e (drop 12 array)) ee
      ∙ ap (answered rx c io sbn esi) eb

  -- A session that receives the file of a coder whose parameters the header can hold, with a decoder
  -- whose symbols have at most 744 bytes: when the array has the frame of a symbol of that file in front,
  -- whatever stands behind it, the library is given the block and the number of that symbol and its
  -- bytes with what is behind them; and the session goes on with what the library answers.
  pub sent_symbol_added :
      (ctx : Context) (scene : Scene N) (rx : RxSession N) (c : N.Coder) (io : N.Io) (o : Oti)
      (sbn esi : ℕ) (symbol behind : List ℕ)
      → FitsHeader o
      → sbn < 256
      → esi < 2 ^ 16
      → length symbol + 12 ≡ ctx.frame_size
      → rx.active ≡ true
      → rx.oti_common ≡ oti_common o
      → rx.oti_scheme ≡ oti_scheme_specific o
      → rx.rq ≡ some c
      → rx.myio ≡ some io
      → (N.oti c).symbol_size ≤ 744
      → let frame = joint_frame (config_of o) sbn esi symbol in
        rx_frame N ctx scene rx (frame ++ behind) (length frame)
        ≡ answered rx c io sbn esi (symbol ++ behind)
  unfolding rx_frame
  sent_symbol_added ctx scene rx c io o sbn esi symbol behind f hs he hl on ec ech has held small =
      let frame = joint_frame (config_of o) sbn esi symbol in
      let array = frame ++ behind in
      let common = parse_tag_oti_common array in
      let scheme = parse_tag_oti_scheme array in
      let (same_common, same_scheme, block, number, bytes) =
        array_read o sbn esi symbol behind f hs he in
      let joint : is_joint_frame ctx (take (length frame) array) ≡ true =
        ap (is_joint_frame ctx) (take-append_left (length frame) frame behind refl)
        ∙ (joint_frame_read ctx o sbn esi symbol f hs he hl).0 in
      passes (is_joint_frame ctx (take (length frame) array)) (is_completed rx common scheme)
        (is_new rx common scheme) (some rx) (some rx)
        (rx_started N (rx_session_start N ctx scene rx common scheme) array)
        (rx_use_frame N rx array) joint (running rx common scheme on)
        (known rx common scheme on (ec ∙ sym same_common) (ech ∙ sym same_scheme))
      ∙ use_frame_answered rx array c io sbn esi (symbol ++ behind) has held small block number
          bytes
