-- ===== src/Daemon/Threads/Runs.antt =====
-- daemon.c: the whole daemon, from its options on, with its threads in any order.
use hermes_broadcast.Common.{
  ◌||◌, ◌∷◌, ◌≤◌, ℕ, zero, suc, Bool, true, false, List, [], Option, none, some, replicate, All,
  ◌≡◌, refl, sym, subst, arith,
}
use hermes_broadcast.Nanorq.{Nanorq}
use hermes_broadcast.Nanorq.Laws.{Laws, announced}
use hermes_broadcast.Tcp.{
  Interface, Statics, Recv, Call, Received, frame, no_frame, failed, tcp_interface_disconnect,
  tcp_interface_recv_kiss,
}
use hermes_broadcast.Tcp.Bytes.{AreBytes, IsByteChunk, AreCallBytes, recv-AreCallBytes}
use hermes_broadcast.Daemon.{Context}
use hermes_broadcast.Daemon.Transmit.Budget as B
use hermes_broadcast.Daemon.Receive.{RxSession, Scene as RxScene}
use hermes_broadcast.Daemon.Receive.Symbols.{Returns, reset-IsValid}
use hermes_broadcast.Daemon.Receive.Symbols as R
use hermes_broadcast.Daemon.Receive.Session.{rx_frame-IsValid}
use hermes_broadcast.Daemon.Watch.{tx_watch_init}
use hermes_broadcast.Daemon.Watch.Lifetime.{HoldsAfter, tx_watch_init-Holds}
use hermes_broadcast.Daemon.Threads.{
  State, rx_leave_state, rx_received, rx_turn_state, Step, signal, tx_enters, tx_leaves, tx_turns,
  rx_enters, rx_leaves, rx_turns, main_wakes, main_returns, Run, here, next, no_rx_session,
  launched, has_socket,
}
use hermes_broadcast.Daemon.Threads.Sound.{
  IsRxSound, IsSound, tx_turn_state-IsTxSound, tx_leave_state-IsTxSound, other-IsTxSound,
  other-IsRxSound,
}
use hermes_broadcast.Daemon.Threads.Interleaved.{
  tx_step-IsSound, rx_step-IsSound, tx_turn_state-IsTxStep, tx_leave_state-IsTxStep,
  rx_leave_state-IsRxStep, rx_turn_state-IsRxStep,
}
use hermes_broadcast.Daemon.Setup.{
  Opt, Startup, exits, starts, IsReady, IsStartup, default_settings, start_up, start_up-IsStartup,
}
use hermes_broadcast.Daemon.Threads.{World, runs, connected_or_not, launch, main, port_of}
use hermes_broadcast.Header.{parse_tag_oti_common}
use hermes_broadcast.Tcp.{Dial, tcp_interface_init, tcp_interface_connect}
use hermes_broadcast.Daemon.Watch.{Watch, Event, no_session}

closed_socket : (i : Interface) → (tcp_interface_disconnect i).socket ≡ none
unfolding tcp_interface_disconnect
closed_socket i = refl

zeros-AreBytes : (n : ℕ) → AreBytes (replicate n 0)
zeros-AreBytes zero = tt
zeros-AreBytes (suc n) = (omega arith, zeros-AreBytes n)

or_true : (a b : Bool) → b ≡ true → (a || b) ≡ true
or_true true b e = refl
or_true false b e = e

-- The frame that a call returns announces symbols that fit its array behind the header.
pub FitsCall : Call → Type 0
FitsCall call = (n : ℕ) → call.ret ≡ frame n → announced (parse_tag_oti_common call.buffer) ≤ 744

module _ (N : Nanorq) (ctx : Context) where
  -- The frames that a step and a run receive.
  unfoldable pub FitsStep : (d e : State N) → Step N ctx d e → Type 0
  FitsStep d e (signal on) = Unit
  FitsStep d e (tx_enters at on) = Unit
  FitsStep d e (tx_leaves at off) = Unit
  FitsStep d e (tx_turns scene poll at) = Unit
  FitsStep d e (rx_enters at on) = Unit
  FitsStep d e (rx_leaves rx is_rx at off) = Unit
  FitsStep d e (rx_turns rx scene r rs is_rx at chunks) =
      FitsCall (tcp_interface_recv_kiss d.iface d.statics d.frame (r ∷ rs))
  FitsStep d e (main_wakes at off) = Unit
  FitsStep d e (main_returns at tx_over rx_over) = Unit

  unfoldable pub FitsRun : (d e : State N) (n : ℕ) → Run N ctx d n e → Type 0
  unfolding FitsStep
  FitsRun d e zero here = Unit
  FitsRun d e (suc n) (next {e = between} run step) =
      FitsRun d between n run × FitsStep between e step

  module _ (laws : Laws N) where
    rx_received-IsRxSound :
        (scene : RxScene N) (rx : RxSession N) (call : Call) (ret : Received) (d : State N)
        → d.rx ≡ some rx
        → R.IsValid rx
        → AreCallBytes call
        → ((n : ℕ) → ret ≡ frame n → announced (parse_tag_oti_common call.buffer) ≤ 744)
        → IsRxSound (rx_received N ctx scene rx call ret d)
    unfolding rx_received rx_leave_state AreCallBytes
    rx_received-IsRxSound scene rx call no_frame d e v bytes fits = record {
      session = subst (Returns R.IsValid) (sym e) v;
      bytes = bytes;
      ended = λ p. absurd cc;
    }
    rx_received-IsRxSound scene rx call failed d e v bytes fits = record {
      session = reset-IsValid N laws rx;
      bytes = bytes;
      ended = λ p. refl;
    }
    rx_received-IsRxSound scene rx call (frame n) d e v bytes fits = record {
      session = rx_frame-IsValid N ctx scene rx call.buffer n laws v bytes.0 (fits n refl);
      bytes = bytes;
      ended = λ p. absurd cc;
    }

    rx_turn_state-IsRxSound :
        (scene : RxScene N) (rs : List Recv) (rx : RxSession N) (d : State N)
        → IsRxSound d
        → d.rx ≡ some rx
        → All IsByteChunk rs
        → FitsCall (tcp_interface_recv_kiss d.iface d.statics d.frame rs)
        → IsRxSound (rx_turn_state N ctx scene rs rx d)
    unfolding rx_turn_state FitsCall
    rx_turn_state-IsRxSound scene rs rx d v e chunks fits =
        let call = tcp_interface_recv_kiss d.iface d.statics d.frame rs in
        rx_received-IsRxSound scene rx call call.ret d e (subst (Returns R.IsValid) e v.session)
          (recv-AreCallBytes d.iface d.statics d.frame rs v.bytes.0 v.bytes.1 chunks) fits

    rx_leave_state-IsRxSound :
        (rx : RxSession N) (d : State N)
        → IsRxSound d
        → d.running ≡ false
        → IsRxSound (rx_leave_state d rx)
    unfolding rx_leave_state
    rx_leave_state-IsRxSound rx d v off = record {
      session = reset-IsValid N laws rx;
      bytes = v.bytes;
      ended = λ p. off;
    }

    Step-IsSound :
        (d e : State N) → IsSound d → (step : Step N ctx d e) → FitsStep d e step → IsSound e
    unfolding FitsStep
    Step-IsSound d e v (signal on) fits = record {
      sender = other-IsTxSound N ctx d e v.sender refl refl refl (λ p. (p, λ q. refl));
      receiver = other-IsRxSound N ctx d e v.receiver refl refl refl (λ p. (p, λ q. refl));
      ended = v.ended;
      socket = v.socket;
      shut = v.shut;
    }
    Step-IsSound d e v (tx_enters at on) fits =
        tx_step-IsSound N ctx d e v (λ p. absurd cc)
          (record {
            rx = refl;
            frame = refl;
            statics = refl;
            rx_phase = refl;
            main_phase = refl;
            has = refl;
            shut = refl;
            running = λ p. p;
          })
          (record { session = v.sender.session; watch = v.sender.watch; ended = λ p. absurd cc })
    Step-IsSound d e v (tx_leaves at off) fits =
        tx_step-IsSound N ctx d e v (λ p. absurd cc) (tx_leave_state-IsTxStep N ctx d)
          (tx_leave_state-IsTxSound N ctx d v.sender off)
    Step-IsSound d e v (tx_turns scene poll at) fits =
        tx_step-IsSound N ctx d e v (λ p. absurd cc) (tx_turn_state-IsTxStep N ctx scene poll d)
          (tx_turn_state-IsTxSound N ctx scene poll d v.sender)
    Step-IsSound d e v (rx_enters at on) fits =
        rx_step-IsSound N ctx d e v (λ p. absurd cc)
          (record {
            tx = refl;
            watch = refl;
            events = refl;
            tx_phase = refl;
            main_phase = refl;
            has = refl;
            shut = refl;
            running = λ p. p;
          })
          (record {
            session = v.receiver.session;
            bytes = v.receiver.bytes;
            ended = λ p. absurd cc;
          })
    Step-IsSound d e v (rx_leaves rx is_rx at off) fits =
        rx_step-IsSound N ctx d e v (λ p. absurd cc) (rx_leave_state-IsRxStep N ctx d rx)
          (rx_leave_state-IsRxSound rx d v.receiver off)
    Step-IsSound d e v (rx_turns rx scene r rs is_rx at chunks) fits =
        rx_step-IsSound N ctx d e v (λ p. absurd cc)
          (rx_turn_state-IsRxStep N ctx scene (r ∷ rs) rx d)
          (rx_turn_state-IsRxSound scene (r ∷ rs) rx d v.receiver is_rx chunks fits)
    Step-IsSound d e v (main_wakes at off) fits = record {
      sender = other-IsTxSound N ctx d e v.sender refl refl refl (λ p. (p, λ q. q));
      receiver = other-IsRxSound N ctx d e v.receiver refl refl refl (λ p. (p, λ q. q));
      ended = λ p. absurd cc;
      socket = λ p. absurd cc;
      shut = λ p. or_true d.shut (has_socket d.iface) (v.socket at);
    }
    Step-IsSound d e v (main_returns at tx_over rx_over) fits = record {
      sender = other-IsTxSound N ctx d e v.sender refl refl refl (λ p. (p, λ q. q));
      receiver = other-IsRxSound N ctx d e v.receiver refl refl refl (λ p. (p, λ q. q));
      ended = λ p. (tx_over, rx_over, closed_socket d.iface);
      socket = λ p. absurd cc;
      shut = λ p. absurd cc;
    }

    pub Run-IsSound :
        (d e : State N) (n : ℕ)
        → IsSound d
        → (run : Run N ctx d n e) → FitsRun d e n run
        → IsSound e
    unfolding FitsRun
    Run-IsSound d e zero v here fits = v
    Run-IsSound d e (suc n) v (next {e = between} run step) (fits, last) =
        Step-IsSound between e (Run-IsSound d between n v run fits) step last

module _ (N : Nanorq) where
  no_session-IsValid : B.IsValid (no_session N)
  no_session-IsValid = record { budget = λ limit e. omega arith; config = refl }

  no_rx_session-IsValid : R.IsValid (no_rx_session N)
  no_rx_session-IsValid = record {
    decoded = refl;
    seen = refl;
    blocks = λ c e. absurd (ground arith);
    coder = λ e. absurd (ground arith);
    file = λ e. absurd (ground arith);
    symbol = λ c e. absurd (ground arith);
  }

  launched-IsSound :
      (iface : Interface) (statics : Statics) (made : Watch × (List Event))
      → AreBytes statics.partial
      → HoldsAfter [] made
      → has_socket iface ≡ true
      → IsSound (launched N iface statics made)
  unfolding HoldsAfter
  launched-IsSound iface statics made bytes h linked = record {
    sender = record { session = no_session-IsValid; watch = h; ended = λ e. absurd cc };
    receiver = record {
      session = no_rx_session-IsValid;
      bytes = (zeros-AreBytes 756, bytes);
      ended = λ e. absurd cc;
    };
    ended = λ e. absurd cc;
    socket = λ e. linked;
    shut = λ e. absurd cc;
  }

  connected_or_not_lem :
      (ctx ctx' : Context) (r : Interface × Bool) (go : Interface → State N) (d : State N)
      → IsReady ctx
      → (r.1 ≡ true → has_socket r.0 ≡ true)
      → ((iface : Interface) → has_socket iface ≡ true → IsSound (go iface))
      → connected_or_not ctx r go ≡ runs ctx' d
      → IsReady ctx' × IsSound d
  connected_or_not_lem ctx ctx' (iface, true) go d v linked h e =
      let same_ctx : ctx ≡ ctx' = cc in
      let same_state : go iface ≡ d = cc in
      (subst IsReady same_ctx v, subst IsSound same_state (h iface (linked refl)))
  connected_or_not_lem ctx ctx' (iface, false) go d v linked h e = absurd cc

  init_partial :
      (ip : Option (List ℕ)) (port : ℕ) (st : Statics)
      → (tcp_interface_init ip port st).1.partial ≡ st.partial
  unfolding tcp_interface_init
  init_partial ip port st = refl

  connect_socket :
      (ip : Option (List ℕ)) (port : ℕ) (st : Statics) (d : Dial)
      → (tcp_interface_connect (tcp_interface_init ip port st).0 d).1 ≡ true
      → has_socket (tcp_interface_connect (tcp_interface_init ip port st).0 d).0 ≡ true
  unfolding tcp_interface_init tcp_interface_connect
  connect_socket ip port st d e = ground arith

  launch_lem :
      (w : World) (s : Startup) (ctx : Context) (d : State N)
      → AreBytes w.statics.partial
      → IsStartup s
      → launch N w s ≡ runs ctx d
      → IsReady ctx × IsSound d
  unfolding launch
  launch_lem w (exits status) ctx d bytes v e = absurd cc
  launch_lem w (starts made ip port) ctx d bytes v e =
      let (iface, statics) = tcp_interface_init (some ip) (port_of port) w.statics in
      let watch = tx_watch_init w.inotify.init w.inotify.add in
      connected_or_not_lem made ctx (tcp_interface_connect iface w.dial)
        (λ linked. launched N linked statics watch) d v
        (connect_socket (some ip) (port_of port) w.statics w.dial)
        (λ linked has.
          launched-IsSound linked statics watch
            (subst AreBytes (sym (init_partial (some ip) (port_of port) w.statics)) bytes)
            (tx_watch_init-Holds w.inotify.init w.inotify.add) has)
        e

  pub main-IsSound :
      (laws : Laws N) (w : World) (os : List Opt) (ctx : Context) (d e : State N) (n : ℕ)
      (run : Run N ctx d n e)
      → AreBytes w.statics.partial
      → main N w os ≡ runs ctx d
      → FitsRun N ctx d e n run
      → IsReady ctx × IsSound e
  unfolding main
  main-IsSound laws w os ctx d e n run bytes started fits =
      let (ready, sound) =
        launch_lem w (start_up default_settings os) ctx d bytes
          (start_up-IsStartup default_settings os) started in
      (ready, Run-IsSound N ctx laws d e n sound run fits)
