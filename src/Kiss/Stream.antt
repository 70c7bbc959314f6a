-- ===== src/Kiss/Stream.antt =====
-- A run of `kiss_read` over a stream of bytes: the frames that its caller takes, in order.
use hermes_broadcast.Common.{ℕ, List, [], ◌∷◌, ◌++◌, ◌≡◌, refl, ◌==◌, if◌then◌else◌, take, arith}
use hermes_broadcast.Kiss.{KissState, Read, kiss_read}

pub record Decoded : Type 0 where
  pub state : KissState
  pub buffer : List ℕ
  pub frames : List (List ℕ)

-- A caller takes a frame when `kiss_read` returns a positive length: that many bytes of the buffer.
abbrev pub taken : Read → List (List ℕ) → List (List ℕ)
taken r fs = if r.ret == 0 then fs else take r.ret r.buffer ∷ fs

abbrev pub cons_read : Read → Decoded → Decoded
cons_read r d = record { state = d.state; buffer = d.buffer; frames = taken r d.frames }

unfoldable pub read_all : KissState → List ℕ → List ℕ → Decoded
read_all s buf [] = record { state = s; buffer = buf; frames = [] }
read_all s buf (b ∷ bs) = let r = kiss_read s b buf in cons_read r (read_all r.state r.buffer bs)

-- The decoded stream followed by another.
abbrev pub followed : Decoded → Decoded → Decoded
followed d e = record { state = e.state; buffer = e.buffer; frames = d.frames ++ e.frames }

taken-append : (r : Read) (fs gs : List (List ℕ)) → taken r (fs ++ gs) ≡ taken r fs ++ gs
taken-append r fs gs = ground arith

-- Reading goes on from where it stopped: the stream may be cut anywhere.
pub read_all-append :
    (s : KissState) (buf xs ys : List ℕ)
    → read_all s buf (xs ++ ys)
      ≡ followed
          (read_all s buf xs)
          (read_all (read_all s buf xs).state (read_all s buf xs).buffer ys)
unfolding read_all
read_all-append s buf [] ys = refl
read_all-append s buf (b ∷ xs) ys =
    let r = kiss_read s b buf in rw (read_all-append r.state r.buffer xs ys, taken-append)
