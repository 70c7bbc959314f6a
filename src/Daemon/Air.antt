-- ===== src/Daemon/Air.antt =====
-- daemon.c, tcp_interface.c and kiss.c together: what one daemon's transmitter puts in frames is what
-- another's receiver reads, over the modem's byte stream.
mod Tests
use hermes_broadcast.Common.{
  ℕ, zero, suc, ◌+◌, ◌-◌, ◌^◌, ◌%◌, ◌≤◌, ◌<◌, Bool, true, false, List, [], ◌∷◌, ◌++◌, map, Option,
  none, some, length, length-append, drop, All, ◌≡◌, refl, sym, ap, ap₂, ◌∙◌, arith,
}
use hermes_broadcast.Nanorq.{
  Oti, oti_common, oti_scheme_specific, oti_common_reduced, oti_scheme_specific_align1, tag_reduced,
}
use hermes_broadcast.Kiss.{max_payload}
use hermes_broadcast.Kiss.Frames.{IsIdle, write_all}
use hermes_broadcast.Header.{parse_tag_oti_common, parse_tag_oti_scheme}
use hermes_broadcast.Header.Oti.{FitsHeader}
use hermes_broadcast.Tcp.{Interface, Statics, is_down, Recv}
use hermes_broadcast.Tcp.Stream.{IsOpen, stream, work, deliver, recv_sent}
use hermes_broadcast.Daemon.{Context}
use hermes_broadcast.Daemon.Setup.{IsReady}
use hermes_broadcast.Daemon.Transmit.{joint_frame}
use hermes_broadcast.Daemon.Transmit.Frame.{config_of, length-config_of, joint_frame_read}
use hermes_broadcast.Daemon.Receive.{is_joint_frame, frame_sbn, frame_esi}

-- A symbol on its way: its block, its number and its bytes.
pub record Symbol : Type 0 where
  pub sbn : ℕ
  pub esi : ℕ
  pub bytes : List ℕ

pub record FitsFrame (ctx : Context) (s : Symbol) : Type 0 where
  pub block : s.sbn < 256
  pub number : s.esi < 2 ^ 16
  pub size : length s.bytes ≡ ctx.symbol_size

abbrev pub frame_of : Oti → Symbol → List ℕ
frame_of o s = joint_frame (config_of o) s.sbn s.esi s.bytes

-- What the receiving thread finds in a frame.
pub record Reading : Type 0 where
  pub joint : Bool
  pub common : ℕ
  pub scheme : ℕ
  pub sbn : ℕ
  pub esi : ℕ
  pub bytes : List ℕ

abbrev pub reading : Context → List ℕ → Reading
reading ctx f = record {
  joint = is_joint_frame ctx f;
  common = parse_tag_oti_common f;
  scheme = parse_tag_oti_scheme f;
  sbn = frame_sbn f;
  esi = frame_esi f;
  bytes = drop 12 f;
}

abbrev pub expected : Oti → Symbol → Reading
expected o s = record {
  joint = true;
  common = oti_common o;
  scheme = oti_scheme_specific o;
  sbn = s.sbn;
  esi = s.esi;
  bytes = s.bytes;
}

module _ (ctx : Context) (o : Oti) (ready : IsReady ctx) (fits : FitsHeader o) where
  reading-frame_of : (s : Symbol) → FitsFrame ctx s → reading ctx (frame_of o s) ≡ expected o s
  reading-frame_of s f =
      let (joint, common, scheme, sbn, esi, bytes) =
        joint_frame_read ctx o s.sbn s.esi s.bytes fits f.block f.number
          (omega (arith, f.size, ready.sizes)) in
      cc

  length-frame_of : (s : Symbol) → FitsFrame ctx s → length (frame_of o s) ≡ ctx.frame_size
  unfolding joint_frame tag_reduced
  length-frame_of s f = omega (
    arith,
    length-append (config_of o) (tag_reduced (s.sbn % 256) s.esi ++ s.bytes),
    length-config_of o,
    f.size,
    ready.sizes,
  )

  readings :
      (ss : List Symbol)
      → All (FitsFrame ctx) ss
      → map (reading ctx) (map (frame_of o) ss) ≡ map (expected o) ss
  readings [] h = refl
  readings (s ∷ ss) (f, h) = ap₂ ◌∷◌ (reading-frame_of s f) (readings ss h)

  frame_sizes :
      (ss : List Symbol)
      → All (FitsFrame ctx) ss
      → All (λ p. (0 < length p) × (length p ≤ max_payload)) (map (frame_of o) ss)
  frame_sizes [] h = tt
  frame_sizes (s ∷ ss) (f, h) = (
    (
      omega (arith, length-frame_of s f, ready.sizes, ready.symbol),
      omega (arith, length-frame_of s f, ready.frame),
    ),
    frame_sizes ss h,
  )

  -- With a mode that the daemon accepts and a coder whose parameters a header can hold, the frames
  -- of any sequence of symbols, written in KISS frames to the modem's stream, reach a receiver
  -- whose connection stays up, with no frame open and enough calls, however TCP cuts the stream:
  -- each call that returns a frame finds it joint, with the coder's parameters and with the block,
  -- the number and the bytes of the next symbol, and none is lost or added.
  pub symbols_arrive :
      (n : ℕ) (i : Interface) (st : Statics) (buf : List ℕ) (rs : List Recv) (ss : List Symbol)
      → All (FitsFrame ctx) ss
      → is_down i ≡ false
      → IsOpen rs
      → IsIdle st.kiss
      → st.partial ≡ []
      → max_payload ≤ length buf
      → stream rs ≡ write_all (map (frame_of o) ss)
      → work rs ≤ n
      → map (reading ctx) (deliver n i st buf rs) ≡ map (expected o) ss
  symbols_arrive n i st buf rs ss h up alive idle e room same calls =
      ap (map (reading ctx)) (
        recv_sent n i st buf rs (map (frame_of o) ss) up alive idle e room (frame_sizes ss h) same
          calls)
      ∙ readings ss h
