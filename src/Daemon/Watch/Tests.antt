-- ===== src/Daemon/Watch/Tests.antt =====
-- The watch of the transmitting thread on concrete inputs.
use hermes_broadcast.Common.{
  ℕ, true, false, List, [], ◌∷◌, none, some, ◌≡◌, length, replicate, refl,
}
use hermes_broadcast.Nanorq.Sample.{sample, sample_oti}
use hermes_broadcast.Tcp.{Interface}
use hermes_broadcast.Daemon.{Context}
use hermes_broadcast.Daemon.Transmit.{TxSession, Scene}
use hermes_broadcast.Daemon.Watch.{
  Inotify, Poll, poll_error, readable, some_events, would_block, Thread, tx_loop, tx_thread_main,
}
use hermes_broadcast.Daemon.Watch.Lifetime.{IsLifetime, watch_closed}

abbrev mode_1 : Context
mode_1 = record {
  mode = 1;
  frame_size = 126;
  symbol_size = 114;
  verbose = false;
  tx_dir = 116 ∷ [];
  rx_dir = 114 ∷ [];
}

abbrev link : Interface
link = record { socket = some 3; connected = true; shutdown = false; ip = []; port = 8100 }

-- A directory with these entries, and a modem that takes a frame.
abbrev scene : List (List ℕ) → Scene sample
scene names = record {
  stat = λ p. some (record { regular = true; mtime = 9 });
  entries = some names;
  open_read = λ p. some p;
  calloc_ok = λ n. true;
  malloc_ok = true;
  sent = some 130;
}

abbrev inotify : Inotify
inotify = record { init = some 5; add = some 1 }

-- An event, an error of `poll`, another turn without a file, and one with a file.
abbrev turns : List (Scene sample × Poll)
turns =
    (scene [], readable (some_events would_block))
    ∷ (scene [], poll_error)
    ∷ (scene [], poll_error)
    ∷ (scene ((97 ∷ []) ∷ []), poll_error)
    ∷ []

watch_closed_example :
    ((tx_thread_main sample mode_1 inotify turns link).watch.watch_fd ≡ none)
    × IsLifetime (tx_thread_main sample mode_1 inotify turns link).events
watch_closed_example = watch_closed sample mode_1 inotify turns link

-- A session on a file of the time 9 that may still send one of its four frames.
abbrev sending : TxSession sample
sending = record {
  active = true;
  file_path = 97 ∷ [];
  mtime = 9;
  frames_limit = some 4;
  frames_sent = 3;
  next_sbn = 3;
  config_body = replicate 8 0;
  myio = some [];
  rq = some (sample_oti 200 114);
  esi = 2 ∷ 1 ∷ [];
  num_sbn = 2;
}

abbrev thread : Thread sample
thread = record {
  iface = link;
  session = sending;
  running = true;
  frames = [];
  watch = record { watch_fd = none; watch_wd = none };
  events = [];
}

one_frame : length (tx_loop sample mode_1 turns thread).frames ≡ 1
unfolding tx_loop
one_frame = refl
