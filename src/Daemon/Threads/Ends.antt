-- ===== src/Daemon/Threads/Ends.antt =====
-- daemon.c: the end of the daemon, once `running` is cleared.
use hermes_broadcast.Common.{
  ◌∷◌, ℕ, zero, suc, ◌+◌, ◌≤◌, ◌<◌, Bool, true, false, List, [], Option, none, some, if◌then◌else◌,
  ◌≡◌, ◌⊎◌, inl, inr, refl, ap, arith,
}
use hermes_broadcast.Nanorq.{Nanorq}
use hermes_broadcast.Nanorq.Laws.{Laws}
use hermes_broadcast.Tcp.{
  closed, Recv, Call, Received, frame, no_frame, failed, tcp_interface_recv_kiss,
  tcp_interface_disconnect,
}
use hermes_broadcast.Daemon.{Context}
use hermes_broadcast.Daemon.Transmit.{Scene as TxScene}
use hermes_broadcast.Daemon.Receive.{RxSession, Scene as RxScene}
use hermes_broadcast.Daemon.Receive.Symbols.{Returns}
use hermes_broadcast.Daemon.Receive.Symbols as R
use hermes_broadcast.Daemon.Watch.{Poll, timed_out, watch_turn, close_all}
use hermes_broadcast.Daemon.Threads.{
  main_wake_state, Phase, at_test, in_turn, over, MainPhase, sleeping, joining, returned, State,
  thread_of, with_thread, tx_leave_state, tx_turn_state, rx_leave_state, rx_received, rx_turn_state,
  Step, signal, tx_enters, tx_leaves, tx_turns, rx_enters, rx_leaves, rx_turns, main_wakes,
  main_returns, Run, here, next,
}
use hermes_broadcast.Daemon.Threads.Sound.{IsSound}
use hermes_broadcast.Daemon.Threads.Interleaved.{
  IsTxStep, IsRxStep, tx_turn_state-IsTxStep, tx_leave_state-IsTxStep, rx_leave_state-IsRxStep,
  rx_turn_state-IsRxStep,
}
use hermes_broadcast.Daemon.Threads.Runs.{Run-IsSound, FitsRun}

-- How far a thread and `main` are from their ends.
abbrev left : Phase → ℕ
left at_test = 1
left in_turn = 2
left over = 0

abbrev main_left : MainPhase → ℕ
main_left sleeping = 2
main_left joining = 1
main_left returned = 0

module _ (N : Nanorq) (ctx : Context) where
  rank : State N → ℕ
  rank d = left d.tx_phase + (left d.rx_phase + main_left d.main_phase)

  rank_most : (d : State N) → rank d ≤ 6
  unfolding rank
  rank_most d = omega (arith, left_most d.tx_phase, left_most d.rx_phase, main_most d.main_phase)
    where
      left_most : (p : Phase) → left p ≤ 2
      left_most at_test = omega arith
      left_most in_turn = omega arith
      left_most over = omega arith

      main_most : (p : MainPhase) → main_left p ≤ 2
      main_most sleeping = omega arith
      main_most joining = omega arith
      main_most returned = omega arith

  -- A step that goes down, with `running` cleared for good.
  GoesDown : State N → State N → Type 0
  GoesDown d e = (e.running ≡ false) × (rank e < rank d)

  tx_step-GoesDown :
      (d e : State N)
      → d.running ≡ false
      → IsTxStep d e
      → left e.tx_phase < left d.tx_phase
      → GoesDown d e
  unfolding GoesDown rank
  tx_step-GoesDown d e off step h =
      let same_rx : left e.rx_phase ≡ left d.rx_phase = ap left step.rx_phase in
      let same_main : main_left e.main_phase ≡ main_left d.main_phase =
        ap main_left step.main_phase in
      (step.running off, omega arith)

  rx_step-GoesDown :
      (d e : State N)
      → d.running ≡ false
      → IsRxStep d e
      → left e.rx_phase < left d.rx_phase
      → GoesDown d e
  unfolding GoesDown rank
  rx_step-GoesDown d e off step h =
      let same_tx : left e.tx_phase ≡ left d.tx_phase = ap left step.tx_phase in
      let same_main : main_left e.main_phase ≡ main_left d.main_phase =
        ap main_left step.main_phase in
      (step.running off, omega arith)

  left-tx_turn_state :
      (scene : TxScene N) (poll : Poll) (d : State N)
      → left (tx_turn_state N ctx scene poll d).tx_phase < 2
  unfolding tx_turn_state
  left-tx_turn_state scene poll d =
      if_left (watch_turn N ctx scene poll (thread_of d)).running
        (with_thread at_test (watch_turn N ctx scene poll (thread_of d)) d)
        (with_thread over (close_all (watch_turn N ctx scene poll (thread_of d))) d) (omega arith)
        (omega arith)
    where
      if_left :
          (b : Bool) (x y : State N)
          → left x.tx_phase < 2
          → left y.tx_phase < 2
          → left (if b then x else y).tx_phase < 2
      if_left true x y h k = h
      if_left false x y h k = k

  left-rx_received :
      (scene : RxScene N) (rx : RxSession N) (call : Call) (ret : Received) (d : State N)
      → left (rx_received N ctx scene rx call ret d).rx_phase < 2
  unfolding rx_received rx_leave_state
  left-rx_received scene rx call no_frame d = omega arith
  left-rx_received scene rx call failed d = omega arith
  left-rx_received scene rx call (frame n) d = omega arith

  left-rx_turn_state :
      (scene : RxScene N) (rs : List Recv) (rx : RxSession N) (d : State N)
      → left (rx_turn_state N ctx scene rs rx d).rx_phase < 2
  unfolding rx_turn_state
  left-rx_turn_state scene rs rx d =
      let call = tcp_interface_recv_kiss d.iface d.statics d.frame rs in
      left-rx_received scene rx call call.ret d

  at_left : (p q : Phase) → p ≡ q → left p ≡ left q
  at_left p q e = ap left e

  Step-GoesDown : (d e : State N) → d.running ≡ false → Step N ctx d e → GoesDown d e
  unfolding GoesDown rank tx_leave_state rx_leave_state
  Step-GoesDown d e off (signal on) = absurd (ground arith)
  Step-GoesDown d e off (tx_enters at on) = absurd (ground arith)
  Step-GoesDown d e off (rx_enters at on) = absurd (ground arith)
  Step-GoesDown d e off (tx_leaves at stopped) =
      tx_step-GoesDown d e off (tx_leave_state-IsTxStep N ctx d)
        (omega (arith, at_left d.tx_phase at_test at))
  Step-GoesDown d e off (tx_turns scene poll at) =
      tx_step-GoesDown d e off (tx_turn_state-IsTxStep N ctx scene poll d)
        (omega (arith, at_left d.tx_phase in_turn at, left-tx_turn_state scene poll d))
  Step-GoesDown d e off (rx_leaves rx is_rx at stopped) =
      rx_step-GoesDown d e off (rx_leave_state-IsRxStep N ctx d rx)
        (omega (arith, at_left d.rx_phase at_test at))
  Step-GoesDown d e off (rx_turns rx scene r rs is_rx at chunks) =
      rx_step-GoesDown d e off (rx_turn_state-IsRxStep N ctx scene (r ∷ rs) rx d)
        (omega (arith, at_left d.rx_phase in_turn at, left-rx_turn_state scene (r ∷ rs) rx d))
  Step-GoesDown d e off (main_wakes at stopped) =
      let was : main_left d.main_phase ≡ 2 = ap main_left at in (off, omega arith)
  Step-GoesDown d e off (main_returns at tx_over rx_over) =
      let was : main_left d.main_phase ≡ 1 = ap main_left at in (off, omega arith)

  Run-GoesDown :
      (d e : State N) (n : ℕ)
      → d.running ≡ false
      → Run N ctx d n e
      → (e.running ≡ false) × (n + rank e ≤ rank d)
  unfolding GoesDown
  Run-GoesDown d e zero off here = (off, omega arith)
  Run-GoesDown d e (suc n) off (next {e = between} run step) =
      let (still, down) = Run-GoesDown d between n off run in
      let (last, lower) = Step-GoesDown between e still step in (last, omega arith)

  -- A step that the daemon takes without the modem and without a signal.
  pub IsOwn : (d f : State N) → Step N ctx d f → Type 0
  IsOwn d f (signal on) = ⊥
  IsOwn d f (tx_enters at on) = Unit
  IsOwn d f (tx_leaves at off) = Unit
  IsOwn d f (tx_turns scene poll at) = Unit
  IsOwn d f (rx_enters at on) = Unit
  IsOwn d f (rx_leaves rx is_rx at off) = Unit
  IsOwn d f (rx_turns rx scene r rs is_rx at chunks) = (d.shut ≡ true) × (r ≡ closed)
  IsOwn d f (main_wakes at off) = Unit
  IsOwn d f (main_returns at tx_over rx_over) = Unit

  pub OwnStep : State N → Type 0
  OwnStep d = (f : State N) × (step : Step N ctx d f) × IsOwn d f step

  module _ (scene : TxScene N) (rx_scene : RxScene N) (d : State N) (off : d.running ≡ false) where
    rx_goes_on :
        (phase : Phase) (rx : Option (RxSession N))
        → d.main_phase ≡ joining
        → d.tx_phase ≡ over
        → d.rx_phase ≡ phase
        → d.rx ≡ rx
        → d.shut ≡ true
        → Returns R.IsValid rx
        → OwnStep d
    unfolding OwnStep IsOwn
    rx_goes_on phase none m t at e down v = absurd v
    rx_goes_on at_test (some rx) m t at e down v = (rx_leave_state d rx, rx_leaves rx e at off, tt)
    rx_goes_on in_turn (some rx) m t at e down v = (
      rx_turn_state N ctx rx_scene (closed ∷ []) rx d,
      rx_turns rx rx_scene closed [] e at (tt, tt),
      (down, refl),
    )
    rx_goes_on over (some rx) m t at e down v = (
      record d { main_phase = returned; iface = tcp_interface_disconnect d.iface },
      main_returns m t at,
      tt,
    )

    tx_goes_on :
        (phase : Phase)
        → d.main_phase ≡ joining
        → d.tx_phase ≡ phase
        → d.shut ≡ true
        → Returns R.IsValid d.rx
        → OwnStep d
    unfolding OwnStep IsOwn
    tx_goes_on at_test m at down v = (tx_leave_state d, tx_leaves at off, tt)
    tx_goes_on in_turn m at down v =
        (tx_turn_state N ctx scene timed_out d, tx_turns scene timed_out at, tt)
    tx_goes_on over m at down v = rx_goes_on d.rx_phase d.rx m at refl refl down v

    goes_on :
        (phase : MainPhase)
        → d.main_phase ≡ phase
        → IsSound d
        → (d.main_phase ≡ returned) ⊎ OwnStep d
    unfolding OwnStep IsOwn
    goes_on sleeping at v = inr (main_wake_state d, main_wakes at off, tt)
    goes_on joining at v = inr (tx_goes_on d.tx_phase at refl (v.shut at) v.receiver.session)
    goes_on returned at v = inl at

  -- With a RaptorQ library that keeps its laws: once `running` is cleared in a sound state,
  -- whatever the system answers to frames that announce symbols fitting their array, at most six
  -- steps are left, in whatever order they come; and until `main` has returned there is a step that
  -- the daemon takes by itself, without waiting for the modem: a blocked `recv` is ended by the
  -- shutdown of its socket.
  pub shutdown_ends :
      (laws : Laws N) (scene : TxScene N) (rx_scene : RxScene N) (d e : State N) (n : ℕ)
      (run : Run N ctx d n e)
      → IsSound d
      → d.running ≡ false
      → FitsRun N ctx d e n run
      → (n ≤ 6) × ((e.main_phase ≡ returned) ⊎ (OwnStep e))
  shutdown_ends laws scene rx_scene d e n run v off fits =
      let (still, down) = Run-GoesDown d e n off run in
      let sound = Run-IsSound N ctx laws d e n v run fits in
      (omega (arith, rank_most d), goes_on scene rx_scene e still e.main_phase refl sound)
