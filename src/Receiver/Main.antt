-- ===== src/Receiver/Main.antt =====
-- receiver.c, `main`: the options, the mode, the file and the input, up to the loop and its end. The
-- options are those of transmitter.c. What the system and the library answer is an argument.
use hermes_broadcast.Common.{
  ℕ, Bool, true, false, List, [], ◌∷◌, Option, none, some, ltb, if◌then◌else◌, get_or,
}
use hermes_broadcast.Modes.{
  shm_payload_buffer_size, mercury_mode_max, mercury_frame_size, hermes_mode_max, hermes_frame_size,
}
use hermes_broadcast.Nanorq.{Nanorq}
use hermes_broadcast.Tcp.{
  Interface, Statics, Dial, default_modem_ip, default_modem_port, tcp_interface_init,
  tcp_interface_connect,
}
use hermes_broadcast.Shm.{
  Shm, Handle, Called, Admission, returns, aborts, fault, circular_buf_connect_shm,
}
use hermes_broadcast.Transmitter.Main.{
  Opt, set_tcp, set_ip, set_port, help, unknown, Args, too_few, args, shm_payload_name,
}
use hermes_broadcast.Receiver.{Receiver, Input, start_receiver}
use hermes_broadcast.Receiver.Run.{Over, receive}

pub data InputMode : Type 0 where
  input_shm input_tcp : InputMode

-- `frame_sizes[mod_mode]`, or `none` for a mode beyond the table of the input.
unfoldable pub frame_size_of : InputMode → ℕ → Option ℕ
frame_size_of input_shm mode =
    if ltb mercury_mode_max mode then none else some (get_or mercury_frame_size mode 0)
frame_size_of input_tcp mode =
    if ltb hermes_mode_max mode then none else some (get_or hermes_frame_size mode 0)

pub record Settings : Type 0 where
  pub in_mode : InputMode
  pub tcp_ip : List ℕ
  pub tcp_port : ℕ

abbrev pub default_settings : Settings
default_settings = record {
  in_mode = input_shm;
  tcp_ip = default_modem_ip;
  tcp_port = default_modem_port;
}

-- What `ioctx_from_file` makes under a name, the answers to the connection over TCP, and the shared
-- memory with the answers to a connection there.
pub record World (N : Nanorq) : Type 0 where
  pub open_write : List ℕ → Option N.Io
  pub statics : Statics
  pub dial : Dial
  pub memory : Shm
  pub allocated : Bool
  pub first : Admission
  pub second : Admission

-- How far `main` comes: it exits with a status, it dies, or it enters the loop.
pub data Start (N : Nanorq) : Type 0 where
  exits : ℕ → Start N
  dies : Start N
  listens : (frame_size : ℕ) → Receiver N → Start N

abbrev pub linked_tcp : {N : Nanorq} → Start N → Interface × Bool → Start N
linked_tcp go (iface, true) = go
linked_tcp go (iface, false) = exits 255

abbrev pub linked_shm : {N : Nanorq} → Start N → Called (Option Handle) → Start N
linked_shm go (returns m none) = exits 255
linked_shm go (returns m (some h)) = go
linked_shm go aborts = dies
linked_shm go fault = dies

unfoldable pub connect_input :
    (N : Nanorq) → World N → Settings → InputMode → (frame_size : ℕ) → Receiver N → Start N
unfolding tcp_interface_init tcp_interface_connect circular_buf_connect_shm
connect_input N w s input_tcp frame_size r =
    linked_tcp (listens frame_size r)
      (tcp_interface_connect (tcp_interface_init (some s.tcp_ip) s.tcp_port w.statics).0 w.dial)
connect_input N w s input_shm frame_size r = linked_shm (listens frame_size r) (
    circular_buf_connect_shm w.allocated w.first w.second shm_payload_buffer_size shm_payload_name
      w.memory)

unfoldable pub open_output :
    (N : Nanorq) → World N → Settings → (frame_size : ℕ) → Option N.Io → Start N
unfolding start_receiver connect_input
open_output N w s frame_size none = exits 255
open_output N w s frame_size (some io) =
    connect_input N w s s.in_mode frame_size (start_receiver N io)

unfoldable pub check_mode :
    (N : Nanorq) → World N → Settings → (outfile : List ℕ) → (frame_size : Option ℕ) → Start N
unfolding open_output
check_mode N w s outfile none = exits 255
check_mode N w s outfile (some frame_size) = open_output N w s frame_size (w.open_write outfile)

unfoldable pub check_args : (N : Nanorq) → World N → Settings → Args → Start N
unfolding check_mode frame_size_of
check_args N w s too_few = exits 255
check_args N w s (args outfile none) = exits 255
check_args N w s (args outfile (some mode)) =
    check_mode N w s outfile (frame_size_of s.in_mode mode)

-- The loop over the options.
unfoldable pub start_up : (N : Nanorq) → World N → Settings → List Opt → Args → Start N
unfolding check_args
start_up N w s [] a = check_args N w s a
start_up N w s (set_tcp ∷ os) a = start_up N w (record s { in_mode = input_tcp }) os a
start_up N w s (set_ip ip ∷ os) a = start_up N w (record s { tcp_ip = ip }) os a
start_up N w s (set_port port ∷ os) a = start_up N w (record s { tcp_port = port }) os a
start_up N w s (help ∷ os) a = exits 0
start_up N w s (unknown ∷ os) a = exits 255

-- How the program ends: with a status; or it dies, or its loop ends, after which it exits with 0
-- unless the loop crashed.
pub data Ended (N : Nanorq) : Type 0 where
  exited : ℕ → Ended N
  died : Ended N
  listened : Over N → Ended N

unfoldable pub finish : (N : Nanorq) → List (Input × (List ℕ)) → Start N → Ended N
unfolding receive
finish N turns (exits status) = exited status
finish N turns dies = died
finish N turns (listens frame_size r) = listened (receive N turns r)

-- The program, on what it reads while no signal stops it.
unfoldable pub main : (N : Nanorq) → World N → List Opt → Args → List (Input × (List ℕ)) → Ended N
unfolding start_up finish
main N w os a turns = finish N turns (start_up N w default_settings os a)
