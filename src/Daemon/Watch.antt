-- ===== src/Daemon/Watch.antt =====
-- daemon.c: the inotify watch on the directory of the transmitting thread, and the thread's loop with
-- it. What inotify, poll and read answer is an argument.
pub mod Lifetime
mod Tests
use hermes_broadcast.Common.{
  ℕ, Bool, true, false, not, ◌&&◌, List, [], ◌∷◌, ◌++◌, Option, none, some, if◌then◌else◌,
  replicate,
}
use hermes_broadcast.Nanorq.{Nanorq}
use hermes_broadcast.Tcp.{Interface}
use hermes_broadcast.Daemon.{Context, config_body_size}
use hermes_broadcast.Daemon.Directory.{find_first_regular_file}
use hermes_broadcast.Daemon.Transmit.{TxSession, Scene, SendFrame, tx_turn, tx_session_reset}

-- What the thread does to inotify.
pub data Event : Type 0 where
  opened : (fd : ℕ) → Event
  watched : (fd wd : ℕ) → Event
  unwatched : (fd wd : ℕ) → Event
  closed : (fd : ℕ) → Event

-- `watch_fd` and `watch_wd`, `none` where they are negative.
pub record Watch : Type 0 where
  pub watch_fd : Option ℕ
  pub watch_wd : Option ℕ

abbrev pub no_watch : Watch
no_watch = record { watch_fd = none; watch_wd = none }

-- What `inotify_init1` and `inotify_add_watch` return.
pub record Inotify : Type 0 where
  pub init : Option ℕ
  pub add : Option ℕ

-- The watch, and what was done. Where it fails the function returns -1, of which its caller only
-- makes a message.
unfoldable pub tx_watch_init : Option ℕ → (added : Option ℕ) → Watch × (List Event)
tx_watch_init none added = (no_watch, [])
tx_watch_init (some fd) none = (no_watch, opened fd ∷ closed fd ∷ [])
tx_watch_init (some fd) (some wd) =
    (record { watch_fd = some fd; watch_wd = some wd }, opened fd ∷ watched fd wd ∷ [])

abbrev pub closing : Option ℕ → Option ℕ → List Event
closing none wd = []
closing (some fd) none = closed fd ∷ []
closing (some fd) (some wd) = unwatched fd wd ∷ closed fd ∷ []

unfoldable pub tx_watch_close : Watch → Watch × (List Event)
tx_watch_close w = (no_watch, closing w.watch_fd w.watch_wd)

-- What the reads of the pending events answer, in order.
pub data Drain : Type 0 where
  some_events : Drain → Drain
  end_of_file would_block read_error : Drain

pub data Poll : Type 0 where
  poll_error timed_out other_event : Poll
  readable : Drain → Poll

-- -1, 0 or 1.
pub data Waited : Type 0 where
  broken quiet notified : Waited

unfoldable pub drain : Drain → Waited
drain (some_events d) = drain d
drain end_of_file = notified
drain would_block = notified
drain read_error = broken

unfoldable pub tx_watch_wait_event : Poll → Waited
unfolding drain
tx_watch_wait_event poll_error = broken
tx_watch_wait_event timed_out = quiet
tx_watch_wait_event other_event = quiet
tx_watch_wait_event (readable d) = drain d

-- After a wait that breaks, the thread goes on without its watch.
unfoldable pub after_wait : Waited → Watch → Watch × (List Event)
unfolding tx_watch_close
after_wait broken w = tx_watch_close w
after_wait quiet w = (w, [])
after_wait notified w = (w, [])

-- There is no file to send: the thread waits for the watch, if it has one.
unfoldable pub tx_wait : Watch → Option ℕ → Poll → Watch × (List Event)
unfolding tx_watch_wait_event after_wait
tx_wait w none poll = (w, [])
tx_wait w (some fd) poll = after_wait (tx_watch_wait_event poll) w

abbrev pub is_none : {A : Type 0} → Option A → Bool
is_none none = true
is_none (some x) = false

-- A turn comes to the wait when there is no session and no file.
unfoldable pub is_idle : (N : Nanorq) → Context → Scene N → TxSession N → Bool
unfolding find_first_regular_file
is_idle N ctx scene tx =
    not tx.active && is_none (find_first_regular_file scene.stat scene.entries ctx.tx_dir)

-- The thread: `running` is as it leaves it, `frames` has what it gave to the modem, the last first.
pub record Thread (N : Nanorq) : Type 0 where
  pub iface : Interface
  pub session : TxSession N
  pub running : Bool
  pub frames : List (List ℕ)
  pub watch : Watch
  pub events : List Event

abbrev pub handed : Option (List ℕ) → List (List ℕ) → List (List ℕ)
handed none frames = frames
handed (some frame) frames = frame ∷ frames

abbrev pub turned : {N : Nanorq} → SendFrame N → Watch × (List Event) → Thread N → Thread N
turned s waited t = record {
  iface = s.iface;
  session = s.session;
  running = s.ok;
  frames = handed s.frame t.frames;
  watch = waited.0;
  events = t.events ++ waited.1;
}

unfoldable pub watch_turn : (N : Nanorq) → Context → Scene N → Poll → Thread N → Thread N
unfolding tx_turn tx_wait is_idle
watch_turn N ctx scene poll t =
    turned (tx_turn N ctx scene t.iface t.session)
      (if is_idle N ctx scene t.session
        then tx_wait t.watch t.watch.watch_fd poll
        else (t.watch, []))
      t

-- The loop, for the turns in which no signal has cleared `running`.
unfoldable pub tx_loop : (N : Nanorq) → Context → List (Scene N × Poll) → Thread N → Thread N
unfolding watch_turn
tx_loop N ctx [] t = t
tx_loop N ctx ((scene, poll) ∷ turns) t =
    let next = watch_turn N ctx scene poll t in
    let rest = tx_loop N ctx turns next in if next.running then rest else next

-- `tx_session_t tx = {0}`
abbrev pub no_session : (N : Nanorq) → TxSession N
no_session N = record {
  active = false;
  file_path = [];
  mtime = 0;
  frames_limit = some 0;
  frames_sent = 0;
  next_sbn = 0;
  config_body = replicate config_body_size 0;
  myio = none;
  rq = none;
  esi = [];
  num_sbn = 0;
}

abbrev pub begin : (N : Nanorq) → Interface → Watch × (List Event) → Thread N
begin N iface made = record {
  iface = iface;
  session = no_session N;
  running = true;
  frames = [];
  watch = made.0;
  events = made.1;
}

unfoldable pub close_all : {N : Nanorq} → Thread N → Thread N
unfolding tx_watch_close tx_session_reset
close_all t =
    let (watch, events) = tx_watch_close t.watch in
    record t { session = tx_session_reset t.session; watch = watch; events = t.events ++ events }

unfoldable pub tx_thread_main :
    (N : Nanorq) → Context → Inotify → List (Scene N × Poll) → Interface → Thread N
unfolding tx_watch_init tx_loop close_all
tx_thread_main N ctx inotify turns iface =
    close_all (tx_loop N ctx turns (begin N iface (tx_watch_init inotify.init inotify.add)))
