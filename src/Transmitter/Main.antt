-- ===== src/Transmitter/Main.antt =====
-- transmitter.c, `main`: the options, the mode, the file, the coder and the output, up to the main
-- loop and its end. What the system and the library answer is an argument.
use hermes_broadcast.Common.{
  ℕ, zero, suc, Bool, true, false, List, [], ◌∷◌, Option, none, some, ltb, if◌then◌else◌, replicate,
}
use hermes_broadcast.Modes.{shm_payload_buffer_size}
use hermes_broadcast.Nanorq.{Nanorq}
use hermes_broadcast.Tcp.{
  Interface, Statics, Dial, default_modem_ip, default_modem_port, tcp_interface_init,
  tcp_interface_connect,
}
use hermes_broadcast.Shm.{
  Shm, Handle, Called, Admission, returns, aborts, fault, circular_buf_connect_shm,
}
use hermes_broadcast.Transmitter.{
  OutputMode, output_shm, output_tcp, max_esi, frame_size_of, packet_size_of, transmit,
}

-- What `getopt_long` yields; a port of 0 stands for every value of `atoi` that is not positive.
pub data Opt : Type 0 where
  set_tcp : Opt
  set_ip : List ℕ → Opt
  set_port : ℕ → Opt
  help : Opt
  unknown : Opt

-- The arguments behind the options; a mode is `none` where `strtol` finds a negative one.
pub data Args : Type 0 where
  too_few : Args
  args : (infile : List ℕ) → (mod_mode : Option ℕ) → Args

pub record Settings : Type 0 where
  pub out_mode : OutputMode
  pub tcp_ip : List ℕ
  pub tcp_port : ℕ

abbrev pub default_settings : Settings
default_settings = record {
  out_mode = output_shm;
  tcp_ip = default_modem_ip;
  tcp_port = default_modem_port;
}

-- What `ioctx_from_file` finds under a name, the answers to the connection over TCP, and the shared
-- memory with the answers to a connection there.
pub record World (N : Nanorq) : Type 0 where
  pub open_read : List ℕ → Option N.Io
  pub statics : Statics
  pub dial : Dial
  pub memory : Shm
  pub allocated : Bool
  pub first : Admission
  pub second : Admission

-- "/mercury-comm"
abbrev pub shm_payload_name : List ℕ
shm_payload_name = 47 ∷ 109 ∷ 101 ∷ 114 ∷ 99 ∷ 117 ∷ 114 ∷ 121 ∷ 45 ∷ 99 ∷ 111 ∷ 109 ∷ 109 ∷ []

-- How far `main` comes: it exits with a status, it dies, or it enters the main loop.
pub data Start (N : Nanorq) : Type 0 where
  exits : ℕ → Start N
  dies : Start N
  transmits : OutputMode → (frame_size : ℕ) → N.Coder → N.Io → Start N

abbrev pub linked_tcp : {N : Nanorq} → Start N → Interface × Bool → Start N
linked_tcp go (iface, true) = go
linked_tcp go (iface, false) = exits 255

abbrev pub linked_shm : {N : Nanorq} → Start N → Called (Option Handle) → Start N
linked_shm go (returns m none) = exits 255
linked_shm go (returns m (some h)) = go
linked_shm go aborts = dies
linked_shm go fault = dies

unfoldable pub connect_output :
    (N : Nanorq) → World N → Settings → OutputMode → (frame_size : ℕ) → N.Coder → N.Io → Start N
unfolding tcp_interface_init tcp_interface_connect circular_buf_connect_shm
connect_output N w s output_tcp frame_size c io =
    linked_tcp (transmits output_tcp frame_size c io)
      (tcp_interface_connect (tcp_interface_init (some s.tcp_ip) s.tcp_port w.statics).0 w.dial)
connect_output N w s output_shm frame_size c io =
    linked_shm (transmits output_shm frame_size c io) (
      circular_buf_connect_shm w.allocated w.first w.second shm_payload_buffer_size shm_payload_name
        w.memory)

-- The loop over the blocks that are left, from `b` on.
unfoldable pub generate_blocks : (N : Nanorq) → N.Io → (k b : ℕ) → N.Coder → N.Coder
generate_blocks N io zero b c = c
generate_blocks N io (suc k) b c = generate_blocks N io k (suc b) (N.generate_symbols c b io)

unfoldable pub new_coder :
    (N : Nanorq) → World N → Settings → (frame_size : ℕ) → N.Io → Option N.Coder → Start N
unfolding generate_blocks connect_output
new_coder N w s frame_size io none = exits 255
new_coder N w s frame_size io (some c) =
    let limited = N.set_max_esi c max_esi in
    connect_output N w s s.out_mode frame_size (generate_blocks N io (N.blocks limited) 0 limited)
      io

-- Files of 16 MB and more are refused.
unfoldable pub open_input :
    (N : Nanorq) → World N → Settings → (frame_size : ℕ) → Option N.Io → Start N
unfolding new_coder packet_size_of
open_input N w s frame_size none = exits 255
open_input N w s frame_size (some io) =
    if ltb 16777215 (N.io_size io)
    then exits 255
    else new_coder N w s frame_size io (N.encoder_new (N.io_size io) (packet_size_of frame_size) 1)

unfoldable pub check_mode :
    (N : Nanorq) → World N → Settings → (infile : List ℕ) → (frame_size : Option ℕ) → Start N
unfolding open_input
check_mode N w s infile none = exits 255
check_mode N w s infile (some frame_size) = open_input N w s frame_size (w.open_read infile)

unfoldable pub check_args : (N : Nanorq) → World N → Settings → Args → Start N
unfolding check_mode frame_size_of
check_args N w s too_few = exits 255
check_args N w s (args infile none) = exits 255
check_args N w s (args infile (some mode)) = check_mode N w s infile (frame_size_of s.out_mode mode)

-- The loop over the options.
unfoldable pub start_up : (N : Nanorq) → World N → Settings → List Opt → Args → Start N
unfolding check_args
start_up N w s [] a = check_args N w s a
start_up N w s (set_tcp ∷ os) a = start_up N w (record s { out_mode = output_tcp }) os a
start_up N w s (set_ip ip ∷ os) a = start_up N w (record s { tcp_ip = ip }) os a
start_up N w s (set_port port ∷ os) a = start_up N w (record s { tcp_port = port }) os a
start_up N w s (help ∷ os) a = exits 0
start_up N w s (unknown ∷ os) a = exits 255

-- How the program ends: with a status; or it dies, or runs its main loop for the turns that the
-- signals leave it and ends with 0, having written what is listed.
pub data Ended : Type 0 where
  exited : ℕ → Ended
  died : Ended
  transmitted : (frame_size : ℕ) → Option (List (List ℕ)) → Ended

unfoldable pub finish : (N : Nanorq) → List (ℕ → Bool) → Start N → Ended
unfolding transmit
finish N turns (exits status) = exited status
finish N turns dies = died
finish N turns (transmits mode frame_size c io) =
    transmitted frame_size
      (transmit N (N.oti c) mode frame_size io turns c (replicate (N.blocks c) 0))

unfoldable pub main : (N : Nanorq) → World N → List Opt → Args → List (ℕ → Bool) → Ended
unfolding start_up finish
main N w os a turns = finish N turns (start_up N w default_settings os a)
