-- ===== src/Tcp/Link.antt =====
-- tcp_interface.c: the life of a connection, and what a send puts on the wire.
use hermes_broadcast.Common.{
  ℕ, Bool, true, false, not, ◌||◌, List, [], ◌≡◌, ◌≢◌, refl, Option, none, some, take, arith,
}
use hermes_broadcast.Kiss.{kiss_write_frame}
use hermes_broadcast.Tcp.{
  Interface, Statics, is_down, Dial, tcp_interface_init, tcp_interface_connect,
  tcp_interface_disconnect, tcp_interface_is_connected, tcp_interface_send_kiss,
}

-- A connected interface has a socket.
abbrev pub IsLink : Interface → Type 0
IsLink i = i.connected ≡ true → i.socket ≢ none

-- An interface starts down. Connecting brings it up exactly when it reports success, and leaves it
-- down otherwise; disconnecting brings it down. Each of them keeps the invariant that a connected
-- interface has a socket, by which "connected" and "up" are the same.
pub tcp_interface_connect-IsLink :
    (i : Interface) (ip : Option (List ℕ)) (port : ℕ) (st : Statics) (d : Dial)
    → IsLink i
    → (is_down (tcp_interface_init ip port st).0 ≡ true)
      × (is_down (tcp_interface_connect i d).0 ≡ not (tcp_interface_connect i d).1)
      × (tcp_interface_is_connected (tcp_interface_connect i d).0 ≡ (tcp_interface_connect i d).1)
      × IsLink (tcp_interface_connect i d).0
      × (is_down (tcp_interface_disconnect i) ≡ true)
      × IsLink (tcp_interface_disconnect i)
unfolding tcp_interface_init tcp_interface_connect tcp_interface_disconnect
    tcp_interface_is_connected
tcp_interface_connect-IsLink i ip port st d v =
    (refl, ground arith, ground arith, ground arith, refl, λ e. cc)

-- A send over an interface that is up: a count means that the bytes of that number of the KISS frame
-- went out and the interface is as it was; -1 means that none did, and the interface is down
-- unless memory ran out. Over one that is down nothing is sent and nothing changes.
pub send_kiss_lem :
    (i : Interface) (bytes : List ℕ) (allocated : Bool) (sent : Option ℕ)
    → let s = tcp_interface_send_kiss i bytes allocated sent in
      ((n : ℕ)
        → s.ret ≡ some n
        → (s.wire ≡ take n (kiss_write_frame bytes)) × (s.iface ≡ i) × (is_down i ≡ false))
      × (s.ret ≡ none → (s.wire ≡ []) × ((is_down s.iface ≡ (is_down i || allocated))))
unfolding tcp_interface_send_kiss
send_kiss_lem i bytes allocated sent = (λ n e. ground arith, λ e. ground arith)
