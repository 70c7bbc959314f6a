-- ===== src/Kiss/Frames.antt =====
-- kiss.c: what `kiss_read` makes of the frames that `kiss_write_frame` writes.
use hermes_broadcast.Common.{
  ℕ, suc, ◌+◌, ◌-◌, ◌≤◌, ◌<◌, min, Bool, true, false, ◌&&◌, List, [], ◌∷◌, ◌++◌, ◌≡◌, refl, ◌∙◌,
  ◌==◌, ltb, ap₂, if◌then◌else◌, take, set, length, length-set, take-set, arith, inl, inr,
  Bool-cases, ltb→lt, take-nil,
}
use mathlib.Core.List.{append_assoc, append-nil}
use native.Mathlib.Numerals.{add-one}
use hermes_broadcast.Kiss.{
  KissState, Read, max_payload, kiss_read, kiss_write_frame, escape_byte, escape_all, fend,
  cmd_data,
}
use hermes_broadcast.Kiss.Stream.{taken, read_all, cons_read}

-- Inside a data frame with `n` bytes stored, and after its end.
abbrev pub in_data : ℕ → Bool → KissState
in_data n e = record { frame_len = n; in_frame = true; escape = e; kiss_command = cmd_data }

abbrev pub ended : ℕ → KissState
ended n = record { frame_len = n; in_frame = false; escape = false; kiss_command = cmd_data }

-- No frame is open and no escape is pending: what a frame has to find for all of it to be read.
pub record IsIdle (s : KissState) : Type 0 where
  pub closed : (s.in_frame && s.kiss_command == cmd_data) ≡ false
  pub plain : s.escape ≡ false

-- The stores of `kiss_read` for a run of bytes, and the length that they leave.
pub store_all : ℕ → List ℕ → List ℕ → List ℕ
store_all n [] buf = buf
store_all n (b ∷ bs) buf = if ltb n max_payload then store_all (n + 1) bs (set buf n b) else buf

-- A byte written, escaped or not, is stored as it was.
read-escape_byte :
    (n b : ℕ) (buf rest : List ℕ)
    → n < max_payload
    → read_all (in_data n false) buf (escape_byte b ++ rest)
      ≡ read_all (in_data (n + 1) false) (set buf n b) rest
unfolding read_all kiss_read escape_byte
read-escape_byte n b buf rest h = ground arith

-- Past the limit it is dropped.
read-escape_byte_full :
    (b : ℕ) (buf rest : List ℕ)
    → read_all (in_data max_payload false) buf (escape_byte b ++ rest)
      ≡ read_all (in_data max_payload false) buf rest
unfolding read_all kiss_read escape_byte
read-escape_byte_full b buf rest = ground arith

store_all_full : (bs buf : List ℕ) → store_all max_payload bs buf ≡ buf
unfolding store_all
store_all_full [] buf = refl
store_all_full (b ∷ bs) buf = refl

length-store_all : (n : ℕ) (bs buf : List ℕ) → length (store_all n bs buf) ≡ length buf
unfolding store_all
length-store_all n [] buf = refl
length-store_all n (b ∷ bs) buf =
    ground (arith, length-store_all (n + 1) bs (set buf n b), length-set buf n b)

pub read-escape_all :
    (n : ℕ) (bs buf rest : List ℕ)
    → n ≤ max_payload
    → read_all (in_data n false) buf (escape_all bs ++ rest)
      ≡ read_all (in_data (min max_payload (n + length bs)) false) (store_all n bs buf) rest
unfolding escape_all store_all
read-escape_all n [] buf rest h = let e : min max_payload (n + 0) ≡ n = omega arith in rw e
read-escape_all n (b ∷ bs) buf rest h = elim (Bool-cases (ltb n max_payload)) [
  | inl lt ↦
      let e : min max_payload (n + suc (length bs)) ≡ min max_payload (n + 1 + length bs) =
        omega arith in
      rw (append_assoc, lt, e)
        (read-escape_byte n b buf (escape_all bs ++ rest) (ltb→lt n max_payload lt)
          ∙ read-escape_all (n + 1) bs (set buf n b) rest (ground arith))
  | inr full ↦
      let e : n ≡ max_payload = ground arith in
      let e1 : min max_payload (max_payload + length bs) ≡ max_payload = omega arith in
      let e2 : min max_payload (max_payload + suc (length bs)) ≡ max_payload = omega arith in
      rw (append_assoc, e)
        (read-escape_byte_full b buf (escape_all bs ++ rest)
          ∙ read-escape_all max_payload bs buf rest (omega arith)
          ∙ rw (store_all_full, e1, e2))
]

-- The buffer then starts with what it held before and the bytes of the run, up to the limit.
pub take-store_all :
    (n : ℕ) (bs buf : List ℕ)
    → n ≤ max_payload
    → max_payload ≤ length buf
    → take (min max_payload (n + length bs)) (store_all n bs buf)
      ≡ take n buf ++ take (max_payload - n) bs
unfolding store_all
take-store_all n [] buf h r =
    let e : min max_payload (n + 0) ≡ n = omega arith in
    rw (e, take-nil ℕ (max_payload - n), append-nil)
take-store_all n (b ∷ bs) buf h r = elim (Bool-cases (ltb n max_payload)) [
  | inl lt ↦
      let e : min max_payload (n + suc (length bs)) ≡ min max_payload (n + 1 + length bs) =
        omega arith in
      let k : max_payload - n ≡ suc (max_payload - (n + 1)) = ground arith in
      rw (lt, e, k)
        (take-store_all (n + 1) bs (set buf n b) (ground arith) (omega (arith, length-set buf n b))
          ∙ rw (add-one, take-set n buf b (omega (arith, ltb→lt n max_payload lt)), append_assoc))
  | inr full ↦
      let e : n ≡ max_payload = ground arith in
      let e2 : min max_payload (max_payload + suc (length bs)) ≡ max_payload = omega arith in
      rw (e, e2, append-nil)
]

-- The opening delimiter and the command byte bring an idle reader into a data frame.
read_start :
    (s : KissState) (buf rest : List ℕ)
    → IsIdle s
    → read_all s buf (fend ∷ cmd_data ∷ rest) ≡ read_all (in_data 0 false) buf rest
unfolding read_all kiss_read
read_start s buf rest i = ground arith

pub read_end :
    (n : ℕ) (buf rest : List ℕ)
    → read_all (in_data n false) buf (fend ∷ rest)
      ≡ cons_read (record { state = ended n; buffer = buf; ret = n }) (read_all (ended n) buf rest)
unfolding read_all kiss_read
read_end n buf rest = refl

-- The reader's length after a whole frame.
abbrev pub stored : List ℕ → ℕ
stored p = min max_payload (0 + length p)

pub ended-IsIdle : (n : ℕ) → IsIdle (ended n)
ended-IsIdle n = record { closed = refl; plain = refl }

pub read-frame :
    (s : KissState) (buf p rest : List ℕ)
    → IsIdle s
    → read_all s buf (kiss_write_frame p ++ rest)
      ≡ cons_read
          (record { state = ended (stored p); buffer = store_all 0 p buf; ret = stored p })
          (read_all (ended (stored p)) (store_all 0 p buf) rest)
unfolding kiss_write_frame
read-frame s buf p rest i =
    read_start s buf ((escape_all p ++ fend ∷ []) ++ rest) i
    ∙ rw append_assoc (read-escape_all 0 p buf (fend ∷ rest) (omega arith))
    ∙ read_end (stored p) (store_all 0 p buf) rest

-- The bytes of several frames, one written after the other.
unfoldable pub write_all : List (List ℕ) → List ℕ
write_all [] = []
write_all (p ∷ ps) = kiss_write_frame p ++ write_all ps

-- What arrives of the payloads written: an empty one is not delivered, a long one is cut.
unfoldable pub arrived : List (List ℕ) → List (List ℕ)
arrived [] = []
arrived ([] ∷ ps) = arrived ps
arrived ((b ∷ bs) ∷ ps) = take max_payload (b ∷ bs) ∷ arrived ps

take-stored :
    (p buf : List ℕ)
    → max_payload ≤ length buf
    → take (stored p) (store_all 0 p buf) ≡ take max_payload p
take-stored p buf r = take-store_all 0 p buf (omega arith) r

pub state-nil : (s : KissState) (buf : List ℕ) → (read_all s buf []).state ≡ s
unfolding read_all
state-nil s buf = refl

pub read_all-nil : (s : KissState) (buf : List ℕ) → (read_all s buf []).frames ≡ []
unfolding read_all
read_all-nil s buf = refl

pub taken_pos : (r : Read) (fs : List (List ℕ)) → 0 < r.ret → taken r fs ≡ take r.ret r.buffer ∷ fs
taken_pos r fs h = ground arith

-- An idle reader delivers, from any number of frames written one after the other, the payloads in
-- order: each cut at the payload limit of 756 bytes, the empty ones left out.
pub frames-write_all :
    (s : KissState) (buf : List ℕ) (ps : List (List ℕ))
    → IsIdle s
    → max_payload ≤ length buf
    → (read_all s buf (write_all ps)).frames ≡ arrived ps
unfolding write_all arrived
frames-write_all s buf [] i r = read_all-nil s buf
frames-write_all s buf ([] ∷ ps) i r = rw (read-frame s buf [] (write_all ps) i) (
    frames-write_all (ended 0) (store_all 0 [] buf) ps (ended-IsIdle 0)
      (omega (arith, length-store_all 0 [] buf)))
frames-write_all s buf ((b ∷ bs) ∷ ps) i r = rw (read-frame s buf (b ∷ bs) (write_all ps) i) (
    taken_pos
      (record {
        state = ended (stored (b ∷ bs));
        buffer = store_all 0 (b ∷ bs) buf;
        ret = stored (b ∷ bs);
      })
      _ (omega arith)
    ∙ ap₂ ◌∷◌ (take-stored (b ∷ bs) buf r) (
        frames-write_all (ended (stored (b ∷ bs))) (store_all 0 (b ∷ bs) buf) ps
          (ended-IsIdle (stored (b ∷ bs))) (omega (arith, length-store_all 0 (b ∷ bs) buf))))
