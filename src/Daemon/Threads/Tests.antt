-- ===== src/Daemon/Threads/Tests.antt =====
-- The daemon's threads on concrete inputs: mode 1, a signal, and the way out.
use hermes_broadcast.Common.{◌≤◌, ◌≡◌, ◌⊎◌, refl, true, false, [], ◌∷◌, some}
use hermes_broadcast.Nanorq.Sample.{sample, sample-Laws}
use hermes_broadcast.Tcp.{Interface, Statics, tcp_interface_init, tcp_interface_connect}
use hermes_broadcast.Daemon.{Context}
use hermes_broadcast.Daemon.Setup.{start_up, check_mode}
use hermes_broadcast.Daemon.Transmit.{Scene as TxScene}
use hermes_broadcast.Daemon.Receive.{Scene as RxScene}
use hermes_broadcast.Daemon.Watch.{tx_watch_init, poll_error}
use hermes_broadcast.Daemon.Threads.{
  State, Run, here, next, signal, tx_enters, tx_turns, tx_leaves, main_wakes, in_turn, World, runs,
  main, launch, launched, returned, tx_turn_state, tx_leave_state, main_wake_state,
}
use hermes_broadcast.Daemon.Threads.Sound.{IsSound}
use hermes_broadcast.Daemon.Threads.Runs.{FitsRun, FitsStep, main-IsSound}
use hermes_broadcast.Daemon.Threads.Ends.{OwnStep, shutdown_ends}

abbrev mode_1 : Context
mode_1 = record {
  mode = 1;
  frame_size = 126;
  symbol_size = 114;
  verbose = false;
  tx_dir = 46 ∷ 47 ∷ 116 ∷ 120 ∷ [];
  rx_dir = 46 ∷ 47 ∷ 114 ∷ 120 ∷ [];
}

abbrev statics : Statics
statics = record {
  kiss = record { escape = false; in_frame = false; kiss_command = 254; frame_len = 0 };
  partial = [];
}

abbrev world : World
world = record {
  statics = statics;
  dial = record { fd = some 3; address_ok = true; connect_ok = true };
  inotify = record { init = some 5; add = some 1 };
}

abbrev link : Interface
link = record {
  socket = some 3;
  connected = true;
  shutdown = false;
  ip = 49 ∷ 50 ∷ 55 ∷ 46 ∷ 48 ∷ 46 ∷ 48 ∷ 46 ∷ 49 ∷ [];
  port = 8100;
}

abbrev begun : State sample
begun = launched sample link statics (tx_watch_init (some 5) (some 1))

abbrev scene : TxScene sample
scene = record {
  stat = λ p. some (record { regular = true; mtime = 9 });
  entries = some ((97 ∷ []) ∷ []);
  open_read = λ p. some p;
  calloc_ok = λ n. true;
  malloc_ok = true;
  sent = some 130;
}

abbrev rx_scene : RxScene sample
rx_scene = record {
  exists = λ p. false;
  stamp = [];
  open_write = λ p. some [];
  calloc_ok = λ n. true;
}

it_runs : main sample world [] ≡ runs mode_1 begun
unfolding main launch start_up check_mode tcp_interface_init tcp_interface_connect
it_runs = refl

-- A frame is sent.
abbrev sent : State sample
sent = tx_turn_state sample mode_1 scene poll_error (record begun { tx_phase = in_turn })

sends : Run sample mode_1 begun 2 sent
sends = next (next here (tx_enters refl refl)) (tx_turns scene poll_error refl)

abbrev stopped : State sample
stopped = record begun { running = false }

stopped-IsSound : IsSound stopped
unfolding FitsRun FitsStep
stopped-IsSound =
    (main-IsSound sample sample-Laws world [] mode_1 begun stopped 1 (next here (signal refl)) tt
      it_runs (tt, tt)).1

-- `main` wakes up, and the transmitting thread closes its watch.
abbrev leaving : State sample
leaving = tx_leave_state (main_wake_state stopped)

leaves : Run sample mode_1 stopped 2 leaving
leaves = next (next here (main_wakes refl refl)) (tx_leaves refl refl)

fits_leaves : FitsRun sample mode_1 stopped leaving 2 leaves
unfolding FitsRun FitsStep leaves
fits_leaves = ((tt, tt), tt)

shutdown_ends_example :
    (2 ≤ 6) × ((leaving.main_phase ≡ returned) ⊎ (OwnStep sample mode_1 leaving))
shutdown_ends_example =
    shutdown_ends sample mode_1 sample-Laws scene rx_scene stopped leaving 2 leaves stopped-IsSound
      refl fits_leaves
