-- ===== src/Daemon/Threads/Sound.antt =====
-- daemon.c: what holds of the two threads and of `main`, however their steps interleave.
use hermes_broadcast.Common.{
  Bool, true, false, ◌&&◌, none, if◌then◌else◌, ◌≡◌, inl, refl, sym, ap, subst, ◌∙◌,
}
use hermes_broadcast.Nanorq.{Nanorq}
use hermes_broadcast.Tcp.Bytes.{AreBytes}
use hermes_broadcast.Daemon.{Context}
use hermes_broadcast.Daemon.Transmit.{Scene as TxScene}
use hermes_broadcast.Daemon.Transmit.Budget as B
use hermes_broadcast.Daemon.Receive.Symbols.{Returns, reset-IsValid}
use hermes_broadcast.Daemon.Receive.Symbols as R
use hermes_broadcast.Daemon.Watch.{Poll, Thread, tx_watch_close, watch_turn, close_all}
use hermes_broadcast.Daemon.Watch.Lifetime.{
  IsLifetime, Holds, IsClosed, HoldsThread, tx_watch_close-IsClosed, watch_turn-HoldsThread,
}
use hermes_broadcast.Daemon.Threads.{
  at_test, over, returned, sleeping, joining, has_socket, State, thread_of, with_thread,
  tx_leave_state, tx_turn_state,
}

-- The transmitting thread: its session is well-formed, and it has a watch of its own or nothing to
-- close.
pub record IsTxSound {N : Nanorq} (d : State N) : Type 0 where
  pub session : B.IsValid d.tx
  pub watch : Holds d.watch d.events
  pub ended :
      d.tx_phase ≡ over → (d.running ≡ false) × (d.watch.watch_fd ≡ none) × IsLifetime d.events

-- The receiving thread: it has not left an array or used a null pointer, and its session is
-- well-formed.
pub record IsRxSound {N : Nanorq} (d : State N) : Type 0 where
  pub session : Returns R.IsValid d.rx
  pub bytes : AreBytes d.frame × AreBytes d.statics.partial
  pub ended : d.rx_phase ≡ over → d.running ≡ false

-- When `main` has returned both threads have ended, and the connection is closed. There is a socket
-- until `main` joins the threads, and then it is shut down.
pub record IsSound {N : Nanorq} (d : State N) : Type 0 where
  pub sender : IsTxSound d
  pub receiver : IsRxSound d
  pub ended :
      d.main_phase ≡ returned → (d.tx_phase ≡ over) × (d.rx_phase ≡ over) × (d.iface.socket ≡ none)
  pub socket : d.main_phase ≡ sleeping → has_socket d.iface ≡ true
  pub shut : d.main_phase ≡ joining → d.shut ≡ true

pub false_and : (a b : Bool) → a ≡ false → (a && b) ≡ false
false_and true b e = absurd cc
false_and false b e = refl

and_false : (a b : Bool) → b ≡ false → (a && b) ≡ false
and_false true b e = e
and_false false b e = refl

module _ (N : Nanorq) (ctx : Context) where
  close-IsTxSound :
      (t : Thread N) (d : State N)
      → HoldsThread N ctx t
      → (d.running && t.running) ≡ false
      → IsTxSound (with_thread over (close_all t) d)
  unfolding close_all tx_watch_close HoldsThread Holds IsClosed
  close-IsTxSound t d h off =
      let (gone, life) = tx_watch_close-IsClosed t.watch t.events h in
      record {
        session = B.tx_session_reset-IsValid t.session;
        watch = inl (gone, life);
        ended = λ e. (off, gone, life);
      }

  stay-IsTxSound :
      (t : Thread N) (d : State N)
      → HoldsThread N ctx t
      → B.IsValid t.session
      → IsTxSound (with_thread at_test t d)
  unfolding HoldsThread
  stay-IsTxSound t d h v = record { session = v; watch = h; ended = λ e. absurd cc }

  if-IsTxSound :
      (b : Bool) (x y : State N)
      → IsTxSound x
      → (b ≡ false → IsTxSound y)
      → IsTxSound (if b then x else y)
  if-IsTxSound true x y h k = h
  if-IsTxSound false x y h k = k refl

  thread-HoldsThread : (d : State N) → IsTxSound d → HoldsThread N ctx (thread_of d)
  unfolding HoldsThread
  thread-HoldsThread d v = v.watch

  watch_turn-IsValid :
      (scene : TxScene N) (poll : Poll) (d : State N)
      → IsTxSound d
      → B.IsValid (watch_turn N ctx scene poll (thread_of d)).session
  unfolding watch_turn
  watch_turn-IsValid scene poll d v = B.tx_turn-IsValid N ctx scene d.iface d.tx v.session

  pub tx_turn_state-IsTxSound :
      (scene : TxScene N) (poll : Poll) (d : State N)
      → IsTxSound d
      → IsTxSound (tx_turn_state N ctx scene poll d)
  unfolding tx_turn_state
  tx_turn_state-IsTxSound scene poll d v =
      let t = watch_turn N ctx scene poll (thread_of d) in
      let h = watch_turn-HoldsThread N ctx scene poll (thread_of d) (thread-HoldsThread d v) in
      if-IsTxSound t.running (with_thread at_test t d) (with_thread over (close_all t) d)
        (stay-IsTxSound t d h (watch_turn-IsValid scene poll d v))
        (λ e. close-IsTxSound t d h (and_false d.running t.running e))

  pub tx_leave_state-IsTxSound :
      (d : State N) → IsTxSound d → d.running ≡ false → IsTxSound (tx_leave_state d)
  unfolding tx_leave_state
  tx_leave_state-IsTxSound d v off =
      close-IsTxSound (thread_of d) d (thread-HoldsThread d v) (false_and d.running d.running off)

  -- What `main`, a signal and the other thread do leaves a thread as it was.
  pub other-IsTxSound :
      (d : State N) (e : State N)
      → IsTxSound d
      → e.tx ≡ d.tx
      → e.watch ≡ d.watch
      → e.events ≡ d.events
      → (e.tx_phase ≡ over → (d.tx_phase ≡ over) × (d.running ≡ false → e.running ≡ false))
      → IsTxSound e
  other-IsTxSound d e v same_tx same_watch same_events end = record {
    session = subst B.IsValid (sym same_tx) v.session;
    watch =
        subst (λ w. Holds w e.events) (sym same_watch)
          (subst (Holds d.watch) (sym same_events) v.watch);
    ended = λ p.
        let (was, off) = end p in
        let (stopped, gone, life) = v.ended was in
        (
          off stopped,
          ap (λ w. w.watch_fd) same_watch ∙ gone,
          subst IsLifetime (sym same_events) life,
        );
  }

  pub other-IsRxSound :
      (d : State N) (e : State N)
      → IsRxSound d
      → e.rx ≡ d.rx
      → e.frame ≡ d.frame
      → e.statics ≡ d.statics
      → (e.rx_phase ≡ over → (d.rx_phase ≡ over) × (d.running ≡ false → e.running ≡ false))
      → IsRxSound e
  other-IsRxSound d e v same_rx same_frame same_statics end = record {
    session = subst (Returns R.IsValid) (sym same_rx) v.session;
    bytes = (
      subst AreBytes (sym same_frame) v.bytes.0,
      subst (λ st. AreBytes st.partial) (sym same_statics) v.bytes.1,
    );
    ended = λ p. let (was, off) = end p in off (v.ended was);
  }
