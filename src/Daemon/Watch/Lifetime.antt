-- ===== src/Daemon/Watch/Lifetime.antt =====
-- daemon.c: the thread keeps no watch and closes none twice.
use hermes_broadcast.Common.{
  ℕ, subst, Bool, true, false, List, [], ◌∷◌, ◌++◌, Option, none, some, if◌then◌else◌, ◌≡◌, ◌⊎◌,
  inl, inr, refl, sym,
}
use mathlib.Core.List.{append-nil}
use hermes_broadcast.Nanorq.{Nanorq}
use hermes_broadcast.Tcp.{Interface}
use hermes_broadcast.Daemon.{Context}
use hermes_broadcast.Daemon.Transmit.{Scene}
use hermes_broadcast.Daemon.Watch.{
  Event, opened, watched, unwatched, closed, Watch, Inotify, Poll, Waited, broken, quiet, notified,
  tx_watch_init, tx_watch_close, tx_watch_wait_event, tx_wait, Thread, watch_turn, tx_loop, is_idle,
  after_wait, closing, begin, close_all, tx_thread_main,
}

-- Nothing was opened; or a descriptor was opened and closed again; or it had a watch in between,
-- which was removed before the descriptor was closed.
pub data IsLifetime : List Event → Type 0 where
  nothing : IsLifetime []
  unused : (fd : ℕ) → IsLifetime (opened fd ∷ closed fd ∷ [])
  used : (fd wd : ℕ) → IsLifetime (opened fd ∷ watched fd wd ∷ unwatched fd wd ∷ closed fd ∷ [])

-- What the thread has at a time: nothing that it would have to close, or its watch.
unfoldable pub Holds : Watch → List Event → Type 0
Holds w events =
    ((w.watch_fd ≡ none) × IsLifetime events)
    ⊎ ((fd : ℕ) × (wd : ℕ) × (w.watch_fd ≡ some fd)
        × (w.watch_wd ≡ some wd)
        × (events ≡ opened fd ∷ watched fd wd ∷ []))

unfoldable pub HoldsAfter : List Event → Watch × (List Event) → Type 0
HoldsAfter before r = Holds r.0 (before ++ r.1)

pub tx_watch_init-Holds : (fd wd : Option ℕ) → HoldsAfter [] (tx_watch_init fd wd)
unfolding tx_watch_init Holds HoldsAfter
tx_watch_init-Holds none wd = inl (refl, nothing)
tx_watch_init-Holds (some fd) none = inl (refl, unused fd)
tx_watch_init-Holds (some fd) (some wd) = inr (fd, wd, refl, refl, refl)

keeps : (w : Watch) (before : List Event) → Holds w before → HoldsAfter before (w, [])
unfolding HoldsAfter
keeps w before h = subst (Holds w) (sym (append-nil before)) h

-- Whatever the thread has, closing leaves nothing.
unfoldable pub IsClosed : List Event → Watch × (List Event) → Type 0
IsClosed before r = ((r.0).watch_fd ≡ none) × IsLifetime (before ++ r.1)

pub tx_watch_close-IsClosed :
    (w : Watch) (before : List Event) → Holds w before → IsClosed before (tx_watch_close w)
unfolding tx_watch_close Holds IsClosed
tx_watch_close-IsClosed w before (inl (off, life)) = (
  refl,
  subst (λ fd. IsLifetime (before ++ closing fd w.watch_wd)) (sym off)
      (subst IsLifetime (sym (append-nil before)) life),
)
tx_watch_close-IsClosed w before (inr (fd, wd, is_fd, is_wd, e)) =
    (refl, rw (is_fd, is_wd, e) (used fd wd))

after_wait-Holds :
    (r : Waited) (w : Watch) (before : List Event)
    → Holds w before
    → HoldsAfter before (after_wait r w)
unfolding Holds HoldsAfter IsClosed after_wait
after_wait-Holds broken w before h = inl (tx_watch_close-IsClosed w before h)
after_wait-Holds quiet w before h = keeps w before h
after_wait-Holds notified w before h = keeps w before h

tx_wait-Holds :
    (w : Watch) (fd : Option ℕ) (poll : Poll) (before : List Event)
    → Holds w before
    → HoldsAfter before (tx_wait w fd poll)
unfolding tx_wait
tx_wait-Holds w none poll before h = keeps w before h
tx_wait-Holds w (some fd) poll before h = after_wait-Holds (tx_watch_wait_event poll) w before h

either-Holds :
    (b : Bool) (w : Watch) (waited : Watch × (List Event)) (before : List Event)
    → HoldsAfter before waited
    → Holds w before
    → HoldsAfter before (if b then waited else (w, []))
either-Holds true w waited before h k = h
either-Holds false w waited before h k = keeps w before k

module _ (N : Nanorq) (ctx : Context) where
  unfoldable pub HoldsThread : Thread N → Type 0
  HoldsThread t = Holds t.watch t.events

  pub watch_turn-HoldsThread :
      (scene : Scene N) (poll : Poll) (t : Thread N)
      → HoldsThread t
      → HoldsThread (watch_turn N ctx scene poll t)
  unfolding watch_turn HoldsThread HoldsAfter
  watch_turn-HoldsThread scene poll t h =
      either-Holds (is_idle N ctx scene t.session) t.watch (tx_wait t.watch t.watch.watch_fd poll)
        t.events (tx_wait-Holds t.watch t.watch.watch_fd poll t.events h) h

  if-HoldsThread :
      (b : Bool) (x y : Thread N) → HoldsThread x → HoldsThread y → HoldsThread (if b then x else y)
  if-HoldsThread true x y h k = h
  if-HoldsThread false x y h k = k

  tx_loop-HoldsThread :
      (turns : List (Scene N × Poll)) (t : Thread N)
      → HoldsThread t
      → HoldsThread (tx_loop N ctx turns t)
  unfolding tx_loop
  tx_loop-HoldsThread [] t h = h
  tx_loop-HoldsThread ((scene, poll) ∷ turns) t h =
      let next = watch_turn N ctx scene poll t in
      let one = watch_turn-HoldsThread scene poll t h in
      if-HoldsThread next.running (tx_loop N ctx turns next) next
        (tx_loop-HoldsThread turns next one) one

  -- Whatever inotify, poll and read answer, in any number of turns: when the thread ends it has no
  -- watch, and the descriptor that it opened, if it did, was closed exactly once, after its watch
  -- was removed.
  pub watch_closed :
      (inotify : Inotify) (turns : List (Scene N × Poll)) (iface : Interface)
      → let t = tx_thread_main N ctx inotify turns iface in
        (t.watch.watch_fd ≡ none) × IsLifetime t.events
  unfolding tx_thread_main close_all HoldsThread HoldsAfter IsClosed
  watch_closed inotify turns iface =
      let start = begin N iface (tx_watch_init inotify.init inotify.add) in
      let t = tx_loop N ctx turns start in
      tx_watch_close-IsClosed t.watch t.events
        (tx_loop-HoldsThread turns start (tx_watch_init-Holds inotify.init inotify.add))
