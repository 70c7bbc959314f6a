-- ===== src/Kiss/Bounds.antt =====
-- kiss.c: no access of the frame buffer is out of range, and how long a written frame can be.
use hermes_broadcast.Common.{
  All, All-append, ℕ, ◌+◌, ◌*◌, ◌≤◌, ◌<◌, List, [], ◌∷◌, ◌++◌, ◌≡◌, ◌≢◌, refl, length, length-set,
  length-append, length-take, arith, ◌∙◌, Bool-cases, inl, inr, ◌==◌, true, false, zero, suc, Bool,
  ltb, ◌&&◌, ◌%◌, if◌then◌else◌, set, ap,
}
use hermes_broadcast.Kiss.{
  KissState, Read, max_payload, kiss_read, kiss_write_frame, escape_byte, escape_all, fend, store,
  read_data, read_body, returns, unescape,
}
use hermes_broadcast.Kiss.Stream.{read_all, taken}

-- One byte keeps the length within the payload limit, returns at most that limit, and leaves the
-- size of the frame buffer as it was.
pub kiss_read_bounds :
    (s : KissState) (b : ℕ) (buf : List ℕ)
    → s.frame_len ≤ max_payload
    → ((kiss_read s b buf).state.frame_len ≤ max_payload)
      × ((kiss_read s b buf).ret ≤ max_payload)
      × (length (kiss_read s b buf).buffer ≡ length buf)
unfolding kiss_read
kiss_read_bounds s b buf h = ground (
  arith,
  length-set buf s.frame_len b,
  length-set buf s.frame_len 0xC0,
  length-set buf s.frame_len 0xDB,
)

length-kiss_read :
    (s : KissState) (b : ℕ) (buf : List ℕ) → length (kiss_read s b buf).buffer ≡ length buf
unfolding kiss_read
length-kiss_read s b buf = ground (
  arith,
  length-set buf s.frame_len b,
  length-set buf s.frame_len 0xC0,
  length-set buf s.frame_len 0xDB,
)

All-taken :
    (d : Read) (bs : List ℕ)
    → d.ret ≤ max_payload
    → max_payload ≤ length d.buffer
    → All (λ f. (0 < length f) × (length f ≤ max_payload)) (read_all d.state d.buffer bs).frames
    → All
        (λ f. (0 < length f) × (length f ≤ max_payload))
        (taken d (read_all d.state d.buffer bs).frames)
All-taken d bs t l a = elim (Bool-cases (d.ret == 0)) [
  | inl z ↦ rw z a
  | inr n ↦ rw n (
    (omega (arith, length-take d.ret d.buffer, pos n), omega (arith, length-take d.ret d.buffer)),
    a,
  )
]
  where
    pos : (d.ret == 0) ≡ false → 0 < d.ret
    pos n = ground arith

in_range :
    (s : KissState) (buf bs : List ℕ)
    → s.frame_len ≤ max_payload
    → max_payload ≤ length buf
    → ((read_all s buf bs).state.frame_len ≤ max_payload)
      × (length (read_all s buf bs).buffer ≡ length buf)
      × All (λ f. (0 < length f) × (length f ≤ max_payload)) (read_all s buf bs).frames
unfolding read_all
in_range s buf [] h r = (h, refl, tt)
in_range s buf (b ∷ bs) h r =
    let (f, t, l) = kiss_read_bounds s b buf h in
    let d = kiss_read s b buf in
    let (f', l', a) = in_range d.state d.buffer bs f (omega arith) in
    (f', l' ∙ l, All-taken d bs t (omega arith) a)

-- What is left when the buffer has memory behind it.
abbrev with_behind : List ℕ → Read → Read
with_behind behind d = returns d.state (d.buffer ++ behind) d.ret

set_append : (xs ys : List ℕ) (i v : ℕ) → i < length xs → set (xs ++ ys) i v ≡ set xs i v ++ ys
set_append [] ys i v h = absurd (omega arith)
set_append (x ∷ xs) ys zero v h = refl
set_append (x ∷ xs) ys (suc i) v h = ap (λ r. x ∷ r) (set_append xs ys i v (omega arith))

if_behind :
    (behind : List ℕ) (b : Bool) (x y x' y' : Read)
    → x ≡ with_behind behind x'
    → y ≡ with_behind behind y'
    → (if b then x else y) ≡ with_behind behind (if b then x' else y')
if_behind behind true x y x' y' h k = h
if_behind behind false x y x' y' h k = k

module _ (buf behind : List ℕ) (r : max_payload ≤ length buf) where
  store_behind :
      (s : KissState) (b : ℕ) → store s b (buf ++ behind) ≡ with_behind behind (store s b buf)
  store_behind s b = elim (Bool-cases (ltb s.frame_len 756)) [
    | inl room ↦ rw room (
        ap (λ held. returns (record s { frame_len = s.frame_len + 1 }) held 0)
          (set_append buf behind s.frame_len b (below room)))
    | inr full ↦ rw full refl
  ]
    where
      below : ltb s.frame_len 756 ≡ true → s.frame_len < length buf
      below room = ground arith

  read_data_behind :
      (s : KissState) (b : ℕ)
      → read_data s b (buf ++ behind) ≡ with_behind behind (read_data s b buf)
  read_data_behind s b =
      let escaped = record s { escape = false } in
      let marked = record s { escape = true } in
      if_behind behind (b == 0xDB) (returns marked (buf ++ behind) 0)
        (if s.escape then store escaped (unescape b) (buf ++ behind) else store s b (buf ++ behind))
        (returns marked buf 0) (if s.escape then store escaped (unescape b) buf else store s b buf)
        refl
        (if_behind behind s.escape (store escaped (unescape b) (buf ++ behind))
          (store s b (buf ++ behind)) (store escaped (unescape b) buf) (store s b buf)
          (store_behind escaped (unescape b)) (store_behind s b))

  read_body_behind :
      (s : KissState) (b : ℕ)
      → read_body s b (buf ++ behind) ≡ with_behind behind (read_body s b buf)
  read_body_behind s b =
      let asked = record s { kiss_command = b % 16 } in
      if_behind behind (s.frame_len == 0 && s.kiss_command == 0xFE)
        (returns asked (buf ++ behind) 0)
        (if s.kiss_command == 0x02
          then read_data s b (buf ++ behind)
          else returns s (buf ++ behind) 0)
        (returns asked buf 0)
        (if s.kiss_command == 0x02 then read_data s b buf else returns s buf 0) refl
        (if_behind behind (s.kiss_command == 0x02) (read_data s b (buf ++ behind))
          (returns s (buf ++ behind) 0) (read_data s b buf) (returns s buf 0) (read_data_behind s b)
          refl)

  kiss_read_behind :
      (s : KissState) (b : ℕ)
      → kiss_read s b (buf ++ behind) ≡ with_behind behind (kiss_read s b buf)
  unfolding kiss_read
  kiss_read_behind s b =
      let inside = s.in_frame && ltb s.frame_len 756 in
      let ended = record s { in_frame = false } in
      let begun = record s { in_frame = true; kiss_command = 0xFE; frame_len = 0 } in
      if_behind behind (s.in_frame && b == 0xC0 && s.kiss_command == 0x02)
        (returns ended (buf ++ behind) s.frame_len)
        (if b == 0xC0
          then returns begun (buf ++ behind) 0
          else (if inside then read_body s b (buf ++ behind) else returns s (buf ++ behind) 0))
        (returns ended buf s.frame_len)
        (if b == 0xC0
          then returns begun buf 0
          else (if inside then read_body s b buf else returns s buf 0))
        refl
        (if_behind behind (b == 0xC0) (returns begun (buf ++ behind) 0)
          (if inside then read_body s b (buf ++ behind) else returns s (buf ++ behind) 0)
          (returns begun buf 0) (if inside then read_body s b buf else returns s buf 0) refl
          (if_behind behind inside (read_body s b (buf ++ behind)) (returns s (buf ++ behind) 0)
            (read_body s b buf) (returns s buf 0) (read_body_behind s b) refl))

read_all_behind :
    (s : KissState) (buf behind bs : List ℕ)
    → max_payload ≤ length buf
    → (read_all s (buf ++ behind) bs).buffer ≡ (read_all s buf bs).buffer ++ behind
unfolding read_all
read_all_behind s buf behind [] r = refl
read_all_behind s buf behind (b ∷ bs) r =
    let d = kiss_read s b buf in
    rw (kiss_read_behind buf behind r s b)
      (read_all_behind d.state d.buffer behind bs (omega (arith, length-kiss_read s b buf)))

-- A stream of bytes from a state in range, with a buffer of at least 756 bytes: the state stays in
-- range, the memory behind the buffer, whatever it holds, is left as it is, and each frame
-- delivered has between 1 and 756 bytes.
pub read_all_bounds :
    (s : KissState) (buf behind bs : List ℕ)
    → s.frame_len ≤ max_payload
    → max_payload ≤ length buf
    → ((read_all s buf bs).state.frame_len ≤ max_payload)
      × (length (read_all s buf bs).buffer ≡ length buf)
      × ((read_all s (buf ++ behind) bs).buffer ≡ (read_all s buf bs).buffer ++ behind)
      × All (λ f. (0 < length f) × (length f ≤ max_payload)) (read_all s buf bs).frames
read_all_bounds s buf behind bs h r =
    let (f, l, a) = in_range s buf bs h r in (f, l, read_all_behind s buf behind bs r, a)

escape_byte_bounds :
    (b : ℕ)
    → (length (escape_byte b) ≤ 2)
      × All (λ c. c ≢ fend) (escape_byte b)
      × (0 < length (escape_byte b))
unfolding escape_byte
escape_byte_bounds b = ground arith

pub escape_all_bounds :
    (bs : List ℕ)
    → (length bs ≤ length (escape_all bs))
      × (length (escape_all bs) ≤ 2 * length bs)
      × All (λ c. c ≢ fend) (escape_all bs)
unfolding escape_all
escape_all_bounds [] = (omega arith, omega arith, tt)
escape_all_bounds (b ∷ bs) =
    let (l, a, p) = escape_byte_bounds b in
    let (m, u, q) = escape_all_bounds bs in
    let e = length-append (escape_byte b) (escape_all bs) in
    (
      omega (arith, e),
      omega (arith, e),
      All-append (λ c. c ≢ fend) (escape_byte b) (escape_all bs) a q,
    )

-- A written frame fits the `len * 2 + 3` bytes that the sender allocates, is at least 3 longer than
-- its payload, and its delimiter occurs at its two ends only.
pub kiss_write_frame_bounds :
    (bs : List ℕ)
    → (length bs + 3 ≤ length (kiss_write_frame bs))
      × (length (kiss_write_frame bs) ≤ length bs * 2 + 3)
      × (kiss_write_frame bs ≡ fend ∷ (2 ∷ escape_all bs) ++ fend ∷ [])
      × All (λ c. c ≢ fend) (2 ∷ escape_all bs)
unfolding kiss_write_frame
kiss_write_frame_bounds bs =
    let (m, u, q) = escape_all_bounds bs in
    let e = length-append (escape_all bs) (fend ∷ []) in
    (omega (arith, e), omega (arith, e), refl, (omega arith, q))

pub length-read_all :
    (s : KissState) (buf bs : List ℕ) → length (read_all s buf bs).buffer ≡ length buf
unfolding read_all
length-read_all s buf [] = refl
length-read_all s buf (b ∷ bs) =
    let d = kiss_read s b buf in length-read_all d.state d.buffer bs ∙ length-kiss_read s b buf
