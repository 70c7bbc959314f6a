-- ===== src/Net.antt =====
-- net.c: connecting a socket, and reading and writing a number of bytes over it. What the system's
-- calls return is an argument.
pub mod Reading
mod Tests
use hermes_broadcast.Common.{
  ℕ, zero, suc, ◌+◌, ◌-◌, ◌≤◌, ◌<◌, Bool, true, false, List, [], ◌∷◌, ◌++◌, Option, none, some, ltb,
  leb, ◌==◌, if◌then◌else◌, length, take, min,
}

abbrev pub tcp_block : ℕ
tcp_block = 512

-- What `socket`, `inet_addr` and `connect` answer.
pub record Dial : Type 0 where
  pub fd : Option ℕ
  pub address_ok : Bool
  pub connect_ok : Bool

-- What is returned, and the socket that is stored for the caller: it stays open where the address or
-- the connection fails. Without a socket `connect` fails.
unfoldable pub tcp_connect : Dial → Bool × Option ℕ
tcp_connect d =
    if d.address_ok
    then (elim d.fd [ none ↦ false | some fd ↦ d.connect_ok ], d.fd)
    else (false, d.fd)

-- How one `recv` ends; a call that a signal interrupts is repeated.
pub data Recv : Type 0 where
  closed : Recv
  interrupted : Recv
  error : Recv
  chunk : List ℕ → Recv

-- `trx_size`: what one `recv` asks for when `left` bytes are missing.
abbrev pub asked : ℕ → ℕ
asked left = if ltb tcp_block left then tcp_block else left

-- What is returned, the bytes put in the buffer, and the results of `recv` that are still to come; a
-- socket with no more results blocks for ever.
pub record Read : Type 0 where
  pub ret : Option Bool
  pub buffer : List ℕ
  pub socket : List Recv

abbrev pub before : List ℕ → Read → Read
before bytes r = record r { buffer = bytes ++ r.buffer }

-- The loop with `left` bytes missing, on the results of `recv`, which returns no more than it is
-- asked for.
unfoldable pub tcp_read : ℕ → List Recv → Read
tcp_read zero rs = record { ret = some true; buffer = []; socket = rs }
tcp_read (suc left) [] = record { ret = none; buffer = []; socket = [] }
tcp_read (suc left) (closed ∷ rs) = record { ret = some false; buffer = []; socket = rs }
tcp_read (suc left) (error ∷ rs) = record { ret = some false; buffer = []; socket = rs }
tcp_read (suc left) (interrupted ∷ rs) = tcp_read (suc left) rs
tcp_read (suc left) (chunk [] ∷ rs) = record { ret = some false; buffer = []; socket = rs }
tcp_read (suc left) (chunk (b ∷ bs) ∷ rs) =
    let got = take (asked (suc left)) (b ∷ bs) in before got (tcp_read (suc left - length got) rs)

-- `none` is an error of `send`.
unfoldable pub tcp_write : (tx_size : ℕ) → Option ℕ → Bool
tcp_write tx_size none = false
tcp_write tx_size (some len) = len == tx_size
