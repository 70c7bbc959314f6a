-- ===== src/Kiss.antt =====
-- kiss.c and kiss.h: the KISS framer. A byte is a number; `frame_buffer` is a list that the reader
-- writes by index, and the writer's output is the list of the bytes that it stores.
pub mod Stream
pub mod Bounds
pub mod Frames
pub mod Resync
mod Tests
use hermes_broadcast.Common.{
  ℕ, ◌+◌, ◌%◌, Bool, true, false, ◌&&◌, List, [], ◌∷◌, ◌++◌, ltb, ◌==◌, if◌then◌else◌, set,
}

abbrev pub fend : ℕ
fend = 0xC0

abbrev pub fesc : ℕ
fesc = 0xDB

abbrev pub tfend : ℕ
tfend = 0xDC

abbrev pub tfesc : ℕ
tfesc = 0xDD

abbrev pub cmd_unknown : ℕ
cmd_unknown = 0xFE

abbrev pub cmd_data : ℕ
cmd_data = 0x02

abbrev pub max_payload : ℕ
max_payload = 756

-- `kiss_state_t`; `in_frame` and `escape` are ints that hold 0 or 1.
pub record KissState : Type 0 where
  pub frame_len : ℕ
  pub in_frame : Bool
  pub escape : Bool
  pub kiss_command : ℕ

unfoldable pub kiss_init : KissState
kiss_init = record { frame_len = 0; in_frame = false; escape = false; kiss_command = cmd_unknown }

-- What `kiss_read` leaves behind: the state, the frame buffer and the returned length.
pub record Read : Type 0 where
  pub state : KissState
  pub buffer : List ℕ
  pub ret : ℕ

abbrev pub returns : KissState → List ℕ → ℕ → Read
returns s buf n = record { state = s; buffer = buf; ret = n }

-- The byte that stands for an escaped one: two `if`s in a row.
abbrev pub unescape : ℕ → ℕ
unescape b = let b' = if b == tfend then fend else b in if b' == tfesc then fesc else b'

-- `frame_buffer[state->frame_len++] = sbyte`, under its guard.
abbrev pub store : KissState → ℕ → List ℕ → Read
store s b buf =
    if ltb s.frame_len max_payload
    then returns (record s { frame_len = s.frame_len + 1 }) (set buf s.frame_len b) 0
    else returns s buf 0

-- A byte of a data frame.
abbrev pub read_data : KissState → ℕ → List ℕ → Read
read_data s b buf =
    if b == fesc
    then returns (record s { escape = true }) buf 0
    else (if s.escape then store (record s { escape = false }) (unescape b) buf else store s b buf)

-- A byte inside a frame with room: the command first, data only under `CMD_DATA`.
abbrev pub read_body : KissState → ℕ → List ℕ → Read
read_body s b buf =
    if s.frame_len == 0 && s.kiss_command == cmd_unknown
    then returns (record s { kiss_command = b % 16 }) buf 0
    else (if s.kiss_command == cmd_data then read_data s b buf else returns s buf 0)

unfoldable pub kiss_read : KissState → ℕ → List ℕ → Read
kiss_read s b buf =
    if s.in_frame && b == fend && s.kiss_command == cmd_data
    then returns (record s { in_frame = false }) buf s.frame_len
    else (if b == fend
        then returns (record s { in_frame = true; kiss_command = cmd_unknown; frame_len = 0 }) buf 0
        else (if s.in_frame && ltb s.frame_len max_payload
            then read_body s b buf
            else returns s buf 0))

-- The `switch` of `kiss_write_frame`.
unfoldable pub escape_byte : ℕ → List ℕ
escape_byte b =
    if b == fend then fesc ∷ tfend ∷ [] else (if b == fesc then fesc ∷ tfesc ∷ [] else b ∷ [])

unfoldable pub escape_all : List ℕ → List ℕ
escape_all [] = []
escape_all (b ∷ bs) = escape_byte b ++ escape_all bs

-- `write_len` is the length of the list.
unfoldable pub kiss_write_frame : List ℕ → List ℕ
kiss_write_frame bs = fend ∷ cmd_data ∷ (escape_all bs ++ fend ∷ [])
