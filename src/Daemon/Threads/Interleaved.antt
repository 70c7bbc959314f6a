-- ===== src/Daemon/Threads/Interleaved.antt =====
-- daemon.c: the steps of the two threads and of `main`, in whatever order they come.
use hermes_broadcast.Common.{
  ℕ, ap, none, some, [], ◌∷◌, ltb, Bool, true, false, List, if◌then◌else◌, ◌≡◌, ◌≢◌, refl, sym, ◌∙◌,
}
use hermes_broadcast.Nanorq.{Nanorq}
use hermes_broadcast.Kiss.{KissState}
use hermes_broadcast.Daemon.Transmit.Handed.{tx_turn_socket}
use hermes_broadcast.Tcp.{
  Interface, Statics, Recv, chunk, closed, would_block, error, Call, Received, frame, no_frame,
  failed, scan, receive, after_recv, is_down, tcp_interface_recv_kiss,
}
use hermes_broadcast.Daemon.{Context}
use hermes_broadcast.Daemon.Transmit.{Scene as TxScene}
use hermes_broadcast.Daemon.Receive.{RxSession, Scene as RxScene}
use hermes_broadcast.Daemon.Watch.{Poll, watch_turn, close_all}
use hermes_broadcast.Daemon.Threads.{
  at_test, over, State, thread_of, with_thread, tx_leave_state, tx_turn_state, rx_leave_state,
  rx_received, rx_turn_state, has_socket,
}
use hermes_broadcast.Daemon.Threads.Sound.{
  IsTxSound, IsRxSound, IsSound, false_and, other-IsTxSound, other-IsRxSound,
}

-- A step of the transmitting thread leaves the other one alone, and does not set `running`.
pub record IsTxStep {N : Nanorq} (d e : State N) : Type 0 where
  pub rx : e.rx ≡ d.rx
  pub frame : e.frame ≡ d.frame
  pub statics : e.statics ≡ d.statics
  pub rx_phase : e.rx_phase ≡ d.rx_phase
  pub main_phase : e.main_phase ≡ d.main_phase
  pub has : has_socket e.iface ≡ has_socket d.iface
  pub shut : e.shut ≡ d.shut
  pub running : d.running ≡ false → e.running ≡ false

pub record IsRxStep {N : Nanorq} (d e : State N) : Type 0 where
  pub tx : e.tx ≡ d.tx
  pub watch : e.watch ≡ d.watch
  pub events : e.events ≡ d.events
  pub tx_phase : e.tx_phase ≡ d.tx_phase
  pub main_phase : e.main_phase ≡ d.main_phase
  pub has : has_socket e.iface ≡ has_socket d.iface
  pub shut : e.shut ≡ d.shut
  pub running : d.running ≡ false → e.running ≡ false

receive_socket :
    (i : Interface) (s : KissState) (buf : List ℕ) (rs : List Recv)
    → has_socket (receive i s buf rs).iface ≡ has_socket i
unfolding receive
receive_socket i s buf [] = refl
receive_socket i s buf (would_block ∷ rs) = refl
receive_socket i s buf (closed ∷ rs) = refl
receive_socket i s buf (error ∷ rs) = refl
receive_socket i s buf (chunk bytes ∷ rs) = refl

recv_socket :
    (i : Interface) (st : Statics) (buf : List ℕ) (rs : List Recv)
    → has_socket (tcp_interface_recv_kiss i st buf rs).iface ≡ has_socket i
unfolding tcp_interface_recv_kiss
recv_socket i st buf rs =
    let d = scan st.kiss buf st.partial in
    if_socket i (is_down i)
      (record { iface = i; statics = st; buffer = buf; socket = rs; ret = failed })
      (if ltb 0 d.ret then after_recv i d rs else receive i d.state d.buffer rs) refl
      (if_socket i (ltb 0 d.ret) (after_recv i d rs) (receive i d.state d.buffer rs) refl
        (receive_socket i d.state d.buffer rs))
  where
    if_socket :
        (i : Interface) (b : Bool) (x y : Call)
        → has_socket x.iface ≡ has_socket i
        → has_socket y.iface ≡ has_socket i
        → has_socket (if b then x else y).iface ≡ has_socket i
    if_socket i true x y h k = h
    if_socket i false x y h k = k

module _ (N : Nanorq) (ctx : Context) where
  if-IsTxStep :
      (b : Bool) (d x y : State N) → IsTxStep d x → IsTxStep d y → IsTxStep d (if b then x else y)
  if-IsTxStep true d x y h k = h
  if-IsTxStep false d x y h k = k

  watch_turn_socket :
      (scene : TxScene N) (poll : Poll) (d : State N)
      → has_socket (watch_turn N ctx scene poll (thread_of d)).iface ≡ has_socket d.iface
  unfolding watch_turn
  watch_turn_socket scene poll d =
      ap (λ s. elim s [ none ↦ false | some fd ↦ true ]) (tx_turn_socket N ctx scene d.iface d.tx)

  pub tx_turn_state-IsTxStep :
      (scene : TxScene N) (poll : Poll) (d : State N)
      → IsTxStep d (tx_turn_state N ctx scene poll d)
  unfolding tx_turn_state
  tx_turn_state-IsTxStep scene poll d =
      let t = watch_turn N ctx scene poll (thread_of d) in
      if-IsTxStep t.running d (with_thread at_test t d) (with_thread over (close_all t) d)
        (record {
          rx = refl;
          frame = refl;
          statics = refl;
          rx_phase = refl;
          main_phase = refl;
          has = watch_turn_socket scene poll d;
          shut = refl;
          running = false_and d.running t.running;
        })
        (record {
          rx = refl;
          frame = refl;
          statics = refl;
          rx_phase = refl;
          main_phase = refl;
          has = watch_turn_socket scene poll d;
          shut = refl;
          running = false_and d.running (close_all t).running;
        })

  pub tx_leave_state-IsTxStep : (d : State N) → IsTxStep d (tx_leave_state d)
  unfolding tx_leave_state
  tx_leave_state-IsTxStep d = record {
    rx = refl;
    frame = refl;
    statics = refl;
    rx_phase = refl;
    main_phase = refl;
    has = refl;
    shut = refl;
    running = false_and d.running (close_all (thread_of d)).running;
  }

  pub rx_leave_state-IsRxStep : (d : State N) (rx : RxSession N) → IsRxStep d (rx_leave_state d rx)
  unfolding rx_leave_state
  rx_leave_state-IsRxStep d rx = record {
    tx = refl;
    watch = refl;
    events = refl;
    tx_phase = refl;
    main_phase = refl;
    has = refl;
    shut = refl;
    running = λ e. e;
  }

  pub rx_received-IsRxStep :
      (scene : RxScene N) (rx : RxSession N) (call : Call) (ret : Received) (d : State N)
      → has_socket call.iface ≡ has_socket d.iface
      → IsRxStep d (rx_received N ctx scene rx call ret d)
  unfolding rx_received rx_leave_state
  rx_received-IsRxStep scene rx call no_frame d h = record {
    tx = refl;
    watch = refl;
    events = refl;
    tx_phase = refl;
    main_phase = refl;
    has = h;
    shut = refl;
    running = λ e. e;
  }
  rx_received-IsRxStep scene rx call failed d h = record {
    tx = refl;
    watch = refl;
    events = refl;
    tx_phase = refl;
    main_phase = refl;
    has = h;
    shut = refl;
    running = λ e. refl;
  }
  rx_received-IsRxStep scene rx call (frame n) d h = record {
    tx = refl;
    watch = refl;
    events = refl;
    tx_phase = refl;
    main_phase = refl;
    has = h;
    shut = refl;
    running = λ e. e;
  }

  pub rx_turn_state-IsRxStep :
      (scene : RxScene N) (rs : List Recv) (rx : RxSession N) (d : State N)
      → IsRxStep d (rx_turn_state N ctx scene rs rx d)
  unfolding rx_turn_state
  rx_turn_state-IsRxStep scene rs rx d =
      let call = tcp_interface_recv_kiss d.iface d.statics d.frame rs in
      rx_received-IsRxStep scene rx call call.ret d (recv_socket d.iface d.statics d.frame rs)

  pub tx_step-IsSound :
      (d e : State N) → IsSound d → d.tx_phase ≢ over → IsTxStep d e → IsTxSound e → IsSound e
  tx_step-IsSound d e v on step sound = record {
    sender = sound;
    receiver =
        other-IsRxSound N ctx d e v.receiver step.rx step.frame step.statics
          (λ p. (sym step.rx_phase ∙ p, step.running));
    ended = λ p. absurd (on (v.ended (sym step.main_phase ∙ p)).0);
    socket = λ p. step.has ∙ v.socket (sym step.main_phase ∙ p);
    shut = λ p. step.shut ∙ v.shut (sym step.main_phase ∙ p);
  }

  pub rx_step-IsSound :
      (d e : State N) → IsSound d → d.rx_phase ≢ over → IsRxStep d e → IsRxSound e → IsSound e
  rx_step-IsSound d e v on step sound = record {
    sender =
        other-IsTxSound N ctx d e v.sender step.tx step.watch step.events
          (λ p. (sym step.tx_phase ∙ p, step.running));
    receiver = sound;
    ended = λ p. absurd (on (v.ended (sym step.main_phase ∙ p)).1);
    socket = λ p. step.has ∙ v.socket (sym step.main_phase ∙ p);
    shut = λ p. step.shut ∙ v.shut (sym step.main_phase ∙ p);
  }
