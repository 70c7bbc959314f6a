-- ===== src/Tcp/Bytes.antt =====
-- tcp_interface.c and kiss.c: the buffers of a connection hold bytes, if it receives bytes.
use hermes_broadcast.Common.{
  ℕ, zero, suc, ◌<◌, Bool, true, false, ◌&&◌, List, [], ◌∷◌, set, take, ltb, ◌==◌, ◌%◌,
  if◌then◌else◌, All, Bool-cases, inl, inr, arith,
}
use hermes_broadcast.Kiss.{
  KissState, Read, kiss_read, read_body, read_data, store, unescape, returns,
}
use hermes_broadcast.Tcp.{
  Interface, Statics, Recv, chunk, closed, would_block, error, Scan, Call, scan, after_recv,
  receive, tcp_interface_recv_kiss, is_down, failed,
}

abbrev pub AreBytes : List ℕ → Type 0
AreBytes bytes = All (λ b. b < 256) bytes

set-AreBytes : (bytes : List ℕ) (i v : ℕ) → v < 256 → AreBytes bytes → AreBytes (set bytes i v)
set-AreBytes [] i v h k = tt
set-AreBytes (x ∷ xs) zero v h (p, k) = (h, k)
set-AreBytes (x ∷ xs) (suc i) v h (p, k) = (p, set-AreBytes xs i v h k)

pub take-AreBytes : (n : ℕ) (bytes : List ℕ) → AreBytes bytes → AreBytes (take n bytes)
take-AreBytes zero bytes h = tt
take-AreBytes (suc n) [] h = tt
take-AreBytes (suc n) (x ∷ xs) (p, h) = (p, take-AreBytes n xs h)

if-AreBytes :
    (b : Bool) (x y : Read)
    → AreBytes x.buffer
    → AreBytes y.buffer
    → AreBytes (if b then x else y).buffer
if-AreBytes true x y h k = h
if-AreBytes false x y h k = k

module _ (buf : List ℕ) (h : AreBytes buf) where
  store-AreBytes : (s : KissState) (b : ℕ) → b < 256 → AreBytes (store s b buf).buffer
  store-AreBytes s b k = elim (Bool-cases (ltb s.frame_len 756)) [
    | inl room ↦ rw room (set-AreBytes buf s.frame_len b k h)
    | inr full ↦ rw full h
  ]

  unescape_lt : (b : ℕ) → b < 256 → unescape b < 256
  unescape_lt b k = ground arith

  read_data-AreBytes : (s : KissState) (b : ℕ) → b < 256 → AreBytes (read_data s b buf).buffer
  read_data-AreBytes s b k =
      if-AreBytes (b == 0xDB) (returns (record s { escape = true }) buf 0)
        (if s.escape then store (record s { escape = false }) (unescape b) buf else store s b buf) h
        (if-AreBytes s.escape (store (record s { escape = false }) (unescape b) buf) (store s b buf)
          (store-AreBytes (record s { escape = false }) (unescape b) (unescape_lt b k))
          (store-AreBytes s b k))

  read_body-AreBytes : (s : KissState) (b : ℕ) → b < 256 → AreBytes (read_body s b buf).buffer
  read_body-AreBytes s b k =
      if-AreBytes (s.frame_len == 0 && s.kiss_command == 0xFE)
        (returns (record s { kiss_command = b % 16 }) buf 0)
        (if s.kiss_command == 0x02 then read_data s b buf else returns s buf 0) h
        (if-AreBytes (s.kiss_command == 0x02) (read_data s b buf) (returns s buf 0)
          (read_data-AreBytes s b k) h)

  kiss_read-AreBytes : (s : KissState) (b : ℕ) → b < 256 → AreBytes (kiss_read s b buf).buffer
  unfolding kiss_read
  kiss_read-AreBytes s b k =
      let rest = if s.in_frame && ltb s.frame_len 756 then read_body s b buf else returns s buf 0 in
      let begun =
        returns (record s { in_frame = true; kiss_command = 0xFE; frame_len = 0 }) buf 0 in
      if-AreBytes (s.in_frame && b == 0xC0 && s.kiss_command == 0x02)
        (returns (record s { in_frame = false }) buf s.frame_len)
        (if b == 0xC0 then begun else rest) h
        (if-AreBytes (b == 0xC0) begun rest h (
          if-AreBytes (s.in_frame && ltb s.frame_len 756) (read_body s b buf) (returns s buf 0)
            (read_body-AreBytes s b k) h))

-- A scan leaves bytes in the buffer, and behind the frame.
AreScanned : Scan → Type 0
AreScanned d = AreBytes d.buffer × AreBytes d.rest

scan-AreScanned :
    (s : KissState) (buf bs : List ℕ) → AreBytes buf → AreBytes bs → AreScanned (scan s buf bs)
unfolding scan AreScanned
scan-AreScanned s buf [] h k = (h, tt)
scan-AreScanned s buf (b ∷ bs) h (p, k) =
    let r = kiss_read s b buf in
    let one = kiss_read-AreBytes buf h s b p in
    elim (Bool-cases (ltb 0 r.ret)) [
      | inl hit ↦ rw (hit, scan) (one, k)
      | inr miss ↦ rw (miss, scan) (scan-AreScanned r.state r.buffer bs one k)
    ]

-- What a socket receives are bytes.
abbrev pub IsByteChunk : Recv → Type 0
IsByteChunk (chunk bytes) = AreBytes bytes
IsByteChunk closed = Unit
IsByteChunk would_block = Unit
IsByteChunk error = Unit

unfoldable pub AreCallBytes : Call → Type 0
AreCallBytes c = AreBytes c.buffer × AreBytes c.statics.partial

receive-AreCallBytes :
    (i : Interface) (s : KissState) (buf : List ℕ) (rs : List Recv)
    → AreBytes buf
    → All IsByteChunk rs
    → AreCallBytes (receive i s buf rs)
unfolding receive AreCallBytes AreScanned
receive-AreCallBytes i s buf [] h k = (h, tt)
receive-AreCallBytes i s buf (would_block ∷ rs) h k = (h, tt)
receive-AreCallBytes i s buf (closed ∷ rs) h k = (h, tt)
receive-AreCallBytes i s buf (error ∷ rs) h k = (h, tt)
receive-AreCallBytes i s buf (chunk bytes ∷ rs) h (p, k) = scan-AreScanned s buf bytes h p

if-AreCallBytes :
    (b : Bool) (x y : Call) → AreCallBytes x → AreCallBytes y → AreCallBytes (if b then x else y)
if-AreCallBytes true x y h k = h
if-AreCallBytes false x y h k = k

-- A call leaves bytes in the caller's buffer and in the buffer of what it did not use.
pub recv-AreCallBytes :
    (i : Interface) (st : Statics) (buf : List ℕ) (rs : List Recv)
    → AreBytes buf
    → AreBytes st.partial
    → All IsByteChunk rs
    → AreCallBytes (tcp_interface_recv_kiss i st buf rs)
unfolding tcp_interface_recv_kiss AreCallBytes AreScanned
recv-AreCallBytes i st buf rs h k chunks =
    let d = scan st.kiss buf st.partial in
    let (stored, behind) = scan-AreScanned st.kiss buf st.partial h k in
    if-AreCallBytes (is_down i)
      (record { iface = i; statics = st; buffer = buf; socket = rs; ret = failed })
      (if ltb 0 d.ret then after_recv i d rs else receive i d.state d.buffer rs) (h, k)
      (if-AreCallBytes (ltb 0 d.ret) (after_recv i d rs) (receive i d.state d.buffer rs)
        (stored, behind) (receive-AreCallBytes i d.state d.buffer rs stored chunks))
