-- ===== src/Daemon/Threads.antt =====
-- daemon.c: `main` and its two threads, which share the connection and the flag `running`. A step
-- is a test of the flag, a turn of a thread's loop, a signal, or a step of `main` on the way out. A
-- `recv` that still waits is a turn that has not been taken.
pub mod Sound
pub mod Interleaved
pub mod Runs
pub mod Ends
mod Tests
use hermes_broadcast.Common.{
  ℕ, suc, Bool, true, false, ◌&&◌, ◌||◌, List, [], ◌∷◌, Option, none, some, take, replicate,
  if◌then◌else◌, All, ◌≡◌,
}
use hermes_broadcast.Kiss.{max_payload}
use hermes_broadcast.Nanorq.{Nanorq}
use hermes_broadcast.Tcp.{
  Interface, Statics, Dial, Recv, Call, Received, frame, no_frame, failed, tcp_interface_init,
  tcp_interface_connect, tcp_interface_disconnect, tcp_interface_recv_kiss,
}
use hermes_broadcast.Tcp.Bytes.{IsByteChunk}
use hermes_broadcast.Daemon.{Context}
use hermes_broadcast.Daemon.Setup.{Opt, Startup, exits, starts, default_settings, start_up}
use hermes_broadcast.Daemon.Transmit.{TxSession, Scene as TxScene}
use hermes_broadcast.Daemon.Receive.{RxSession, Scene as RxScene, rx_frame, rx_session_reset}
use hermes_broadcast.Daemon.Watch.{
  Watch, Event, Inotify, Poll, Thread, no_session, tx_watch_init, watch_turn, close_all,
}

-- Where a thread is: at the test of `running`, in a turn, or behind its loop.
pub data Phase : Type 0 where
  at_test in_turn over : Phase

-- `main` sleeps while `running`; it waits for the threads; it has returned.
pub data MainPhase : Type 0 where
  sleeping joining returned : MainPhase

-- `rx` is `none` after an access outside an array or to a null pointer. `shut` says that `main` has
-- shut the socket down, so that a `recv` on it no longer blocks.
pub record State (N : Nanorq) : Type 0 where
  pub iface : Interface
  pub running : Bool
  pub tx_phase : Phase
  pub tx : TxSession N
  pub watch : Watch
  pub events : List Event
  pub rx_phase : Phase
  pub statics : Statics
  pub frame : List ℕ
  pub rx : Option (RxSession N)
  pub main_phase : MainPhase
  pub shut : Bool

-- The transmitting thread, taken out of the state and put back. It only ever clears `running`.
abbrev pub thread_of : {N : Nanorq} → State N → Thread N
thread_of d = record {
  iface = d.iface;
  session = d.tx;
  running = d.running;
  frames = [];
  watch = d.watch;
  events = d.events;
}

abbrev pub with_thread : {N : Nanorq} → Phase → Thread N → State N → State N
with_thread phase t d = record d {
  iface = t.iface;
  running = d.running && t.running;
  tx_phase = phase;
  tx = t.session;
  watch = t.watch;
  events = t.events;
}

unfoldable pub tx_leave_state : {N : Nanorq} → State N → State N
unfolding close_all
tx_leave_state d = with_thread over (close_all (thread_of d)) d

-- A turn that fails leaves the loop.
unfoldable pub tx_turn_state : (N : Nanorq) → Context → TxScene N → Poll → State N → State N
unfolding watch_turn close_all
tx_turn_state N ctx scene poll d =
    let t = watch_turn N ctx scene poll (thread_of d) in
    if t.running then with_thread at_test t d else with_thread over (close_all t) d

abbrev pub with_call : {N : Nanorq} → Call → State N → State N
with_call call d = record d { iface = call.iface; statics = call.statics; frame = call.buffer }

unfoldable pub rx_leave_state : {N : Nanorq} → State N → RxSession N → State N
unfolding rx_session_reset
rx_leave_state d rx = record d { rx_phase = over; rx = some (rx_session_reset rx) }

-- What the thread makes of what it received.
unfoldable pub rx_received :
    (N : Nanorq) → Context → RxScene N → RxSession N → Call → Received → State N → State N
unfolding rx_frame rx_leave_state
rx_received N ctx scene rx call no_frame d = record (with_call call d) { rx_phase = at_test }
rx_received N ctx scene rx call failed d =
    rx_leave_state (record (with_call call d) { running = false }) rx
rx_received N ctx scene rx call (frame n) d = record (with_call call d) {
  rx_phase = at_test;
  rx = rx_frame N ctx scene rx call.buffer n;
}

unfoldable pub rx_turn_state :
    (N : Nanorq) → Context → RxScene N → List Recv → RxSession N → State N → State N
unfolding tcp_interface_recv_kiss rx_received
rx_turn_state N ctx scene rs rx d =
    let call = tcp_interface_recv_kiss d.iface d.statics d.frame rs in
    rx_received N ctx scene rx call call.ret d

abbrev pub has_socket : Interface → Bool
has_socket i = elim i.socket [ none ↦ false | some fd ↦ true ]

-- `main` goes on to join the threads, and shuts the socket down if there is one.
abbrev pub main_wake_state : {N : Nanorq} → State N → State N
main_wake_state d = record d { main_phase = joining; shut = d.shut || has_socket d.iface }

-- A step, on whatever the system answers; what is received are bytes. A turn of the receiving
-- thread is taken when `recv` answers.
pub data Step (N : Nanorq) (ctx : Context) (d : State N) : State N → Type 0 where
  signal : d.running ≡ true → Step N ctx d (record d { running = false })
  tx_enters :
      d.tx_phase ≡ at_test → d.running ≡ true → Step N ctx d (record d { tx_phase = in_turn })
  tx_leaves : d.tx_phase ≡ at_test → d.running ≡ false → Step N ctx d (tx_leave_state d)
  tx_turns :
      (scene : TxScene N) (poll : Poll)
      → d.tx_phase ≡ in_turn
      → Step N ctx d (tx_turn_state N ctx scene poll d)
  rx_enters :
      d.rx_phase ≡ at_test → d.running ≡ true → Step N ctx d (record d { rx_phase = in_turn })
  rx_leaves :
      (rx : RxSession N)
      → d.rx ≡ some rx
      → d.rx_phase ≡ at_test
      → d.running ≡ false
      → Step N ctx d (rx_leave_state d rx)
  rx_turns :
      (rx : RxSession N) (scene : RxScene N) (r : Recv) (rs : List Recv)
      → d.rx ≡ some rx
      → d.rx_phase ≡ in_turn
      → All IsByteChunk (r ∷ rs)
      → Step N ctx d (rx_turn_state N ctx scene (r ∷ rs) rx d)
  main_wakes : d.main_phase ≡ sleeping → d.running ≡ false → Step N ctx d (main_wake_state d)
  main_returns :
      d.main_phase ≡ joining
      → d.tx_phase ≡ over
      → d.rx_phase ≡ over
      → Step N ctx d (record d { main_phase = returned; iface = tcp_interface_disconnect d.iface })

-- A number of steps.
pub data Run (N : Nanorq) (ctx : Context) (d : State N) : ℕ → State N → Type 0 where
  here : Run N ctx d 0 d
  next : {n : ℕ} {e f : State N} → Run N ctx d n e → Step N ctx e f → Run N ctx d (suc n) f

-- `rx_session_t rx = {0}`
abbrev pub no_rx_session : (N : Nanorq) → RxSession N
no_rx_session N = record {
  active = false;
  completed_last = false;
  last_completed_oti_common = 0;
  last_completed_oti_scheme = 0;
  oti_common = 0;
  oti_scheme = 0;
  num_sbn = 0;
  out_path = [];
  myio = none;
  rq = none;
  block_decoded = [];
  block_symbols_seen = [];
}

-- The threads have begun and the watch is made. The frame's buffer is not initialised in the code; it
-- holds zeros here.
abbrev pub launched : (N : Nanorq) → Interface → Statics → Watch × (List Event) → State N
launched N iface statics made = record {
  iface = iface;
  running = true;
  tx_phase = at_test;
  tx = no_session N;
  watch = made.0;
  events = made.1;
  rx_phase = at_test;
  statics = statics;
  frame = replicate max_payload 0;
  rx = some (no_rx_session N);
  main_phase = sleeping;
  shut = false;
}

-- The statics of tcp_interface.c, the answers to the connection, and those of inotify.
pub record World : Type 0 where
  pub statics : Statics
  pub dial : Dial
  pub inotify : Inotify

pub data Launch (N : Nanorq) : Type 0 where
  exits_with : ℕ → Launch N
  runs : Context → State N → Launch N

-- A port that is not positive becomes the default one.
abbrev pub port_of : Option ℕ → ℕ
port_of none = 0
port_of (some port) = port

abbrev pub connected_or_not :
    {N : Nanorq} → Context → Interface × Bool → (Interface → State N) → Launch N
connected_or_not ctx (iface, true) go = runs ctx (go iface)
connected_or_not ctx (iface, false) go = exits_with 1

unfoldable pub launch : (N : Nanorq) → World → Startup → Launch N
unfolding tcp_interface_init tcp_interface_connect tx_watch_init
launch N w (exits status) = exits_with status
launch N w (starts ctx ip port) =
    let (iface, statics) = tcp_interface_init (some ip) (port_of port) w.statics in
    connected_or_not ctx (tcp_interface_connect iface w.dial)
      (λ linked. launched N linked statics (tx_watch_init w.inotify.init w.inotify.add))

unfoldable pub main : (N : Nanorq) → World → List Opt → Launch N
unfolding launch start_up
main N w os = launch N w (start_up default_settings os)
