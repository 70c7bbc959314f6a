-- ===== src/Tcp.antt =====
-- tcp_interface.c and tcp_interface.h: the KISS link to the modem over TCP. What the system calls
-- return is an argument of the functions; the static variables of the file are a record.
pub mod Scans
pub mod Stream
pub mod Link
pub mod Bytes
mod Tests
use hermes_broadcast.Common.{
  ℕ, ◌+◌, ◌-◌, Bool, true, false, not, ◌&&◌, ◌||◌, List, [], ◌∷◌, ◌++◌, Option, none, some, ltb,
  ◌==◌, if◌then◌else◌, length, take,
}
use hermes_broadcast.Kiss.{KissState, Read, kiss_init, kiss_read, kiss_write_frame}

abbrev pub default_modem_port : ℕ
default_modem_port = 8100

-- "127.0.0.1"
abbrev pub default_modem_ip : List ℕ
default_modem_ip = 49 ∷ 50 ∷ 55 ∷ 46 ∷ 48 ∷ 46 ∷ 48 ∷ 46 ∷ 49 ∷ []

abbrev pub tcp_buffer_size : ℕ
tcp_buffer_size = 8192

-- `tcp_interface_t`; a socket is `none` for -1. The mutex is held across one `send` only.
pub record Interface : Type 0 where
  pub socket : Option ℕ
  pub connected : Bool
  pub shutdown : Bool
  pub ip : List ℕ
  pub port : ℕ

-- `recv_kiss_state`, and the `recv_partial_len` bytes of `recv_partial_buffer`.
pub record Statics : Type 0 where
  pub kiss : KissState
  pub partial : List ℕ

-- `none` is a null `ip`; a `port` of 0 stands for every value that is not positive. `strncpy` copies
-- 63 bytes at most. What a previous connection left in the partial buffer stays.
unfoldable pub tcp_interface_init : Option (List ℕ) → ℕ → Statics → Interface × Statics
unfolding kiss_init
tcp_interface_init ip port st = (
  record {
    socket = none;
    connected = false;
    shutdown = false;
    ip = take 63 (elim ip [ none ↦ default_modem_ip | some text ↦ text ]);
    port = if ltb 0 port then port else default_modem_port;
  },
  record st { kiss = kiss_init },
)

-- What `socket`, `inet_pton` and `connect` return to one call.
pub record Dial : Type 0 where
  pub fd : Option ℕ
  pub address_ok : Bool
  pub connect_ok : Bool

unfoldable pub tcp_interface_connect : Interface → Dial → Interface × Bool
tcp_interface_connect i d = if i.connected then (i, true) else elim d.fd [
  | none ↦ (record i { socket = none }, false)
  | some fd ↦
      if not d.address_ok
      then (record i { socket = none }, false)
      else (if not d.connect_ok
          then (record i { socket = none }, false)
          else (record i { socket = some fd; connected = true }, true))
]

unfoldable pub tcp_interface_disconnect : Interface → Interface
tcp_interface_disconnect i = record i { shutdown = true; socket = none; connected = false }

unfoldable pub tcp_interface_is_connected : Interface → Bool
tcp_interface_is_connected i = i.connected

-- `!iface->connected || iface->socket < 0`
abbrev pub is_down : Interface → Bool
is_down i = not i.connected || elim i.socket [ none ↦ true | some fd ↦ false ]

-- The returned count, `none` for -1, and the bytes that reached the socket.
pub record Sent : Type 0 where
  pub iface : Interface
  pub ret : Option ℕ
  pub wire : List ℕ

-- `allocated` says whether `malloc` succeeds, and `sent` what `send` returns, `none` for an error.
unfoldable pub tcp_interface_send_kiss : Interface → List ℕ → Bool → Option ℕ → Sent
tcp_interface_send_kiss i bytes allocated sent =
    if is_down i
    then record { iface = i; ret = none; wire = [] }
    else (if not allocated then record { iface = i; ret = none; wire = [] } else elim sent [
      | none ↦ record { iface = record i { connected = false }; ret = none; wire = [] }
      | some n ↦ record { iface = i; ret = some n; wire = take n (kiss_write_frame bytes) }
    ])

-- How one `recv` ends.
pub data Recv : Type 0 where
  closed : Recv
  would_block : Recv
  error : Recv
  chunk : List ℕ → Recv

-- The two loops over bytes: they stop behind the byte that completes a frame.
pub record Scan : Type 0 where
  pub state : KissState
  pub buffer : List ℕ
  pub ret : ℕ
  pub rest : List ℕ

unfoldable pub scan : KissState → List ℕ → List ℕ → Scan
scan s buf [] = record { state = s; buffer = buf; ret = 0; rest = [] }
scan s buf (b ∷ bs) =
    let r = kiss_read s b buf in
    elim (ltb 0 r.ret) [
      | true ↦ record { state = r.state; buffer = r.buffer; ret = r.ret; rest = bs }
      | false ↦ scan r.state r.buffer bs
    ]

-- The returned length, 0, or -1.
pub data Received : Type 0 where
  frame : ℕ → Received
  no_frame : Received
  failed : Received

-- A call leaves the interface, the statics, the caller's buffer and the results of `recv` that are
-- still to come, and returns.
pub record Call : Type 0 where
  pub iface : Interface
  pub statics : Statics
  pub buffer : List ℕ
  pub socket : List Recv
  pub ret : Received

-- The bytes of a chunk go through the decoder, and what stands behind a frame is kept.
abbrev pub after_recv : Interface → Scan → List Recv → Call
after_recv i d rs = record {
  iface = i;
  statics = record { kiss = d.state; partial = d.rest };
  buffer = d.buffer;
  socket = rs;
  ret = if ltb 0 d.ret then frame d.ret else no_frame;
}

-- `recv_partial_len` is 0 here. A socket with no more results blocks.
unfoldable pub receive : Interface → KissState → List ℕ → List Recv → Call
receive i s buf [] = record {
  iface = i;
  statics = record { kiss = s; partial = [] };
  buffer = buf;
  socket = [];
  ret = no_frame;
}
receive i s buf (would_block ∷ rs) = record {
  iface = i;
  statics = record { kiss = s; partial = [] };
  buffer = buf;
  socket = rs;
  ret = no_frame;
}
receive i s buf (closed ∷ rs) = record {
  iface = record i { connected = false };
  statics = record { kiss = s; partial = [] };
  buffer = buf;
  socket = rs;
  ret = failed;
}
receive i s buf (error ∷ rs) = record {
  iface = record i { connected = false };
  statics = record { kiss = s; partial = [] };
  buffer = buf;
  socket = rs;
  ret = failed;
}
receive i s buf (chunk bytes ∷ rs) = after_recv i (scan s buf bytes) rs

unfoldable pub tcp_interface_recv_kiss : Interface → Statics → List ℕ → List Recv → Call
tcp_interface_recv_kiss i st buf rs =
    if is_down i
    then record { iface = i; statics = st; buffer = buf; socket = rs; ret = failed }
    else (let d = scan st.kiss buf st.partial in
        if ltb 0 d.ret then after_recv i d rs else receive i d.state d.buffer rs)
