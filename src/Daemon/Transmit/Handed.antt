-- ===== src/Daemon/Transmit/Handed.antt =====
-- daemon.c: how many frames the transmitting thread hands to the modem, and the socket that it keeps.
use hermes_broadcast.Common.{
  ℕ, ◌==◌, ◌+◌, ◌≤◌, Bool, true, false, List, Option, none, some, if◌then◌else◌, length, ◌≡◌, refl,
  Bool-cases, inl, inr, arith,
}
use hermes_broadcast.Nanorq.{Nanorq}
use hermes_broadcast.Tcp.{Interface, tcp_interface_send_kiss}
use hermes_broadcast.Daemon.{Context}
use hermes_broadcast.Daemon.Directory.{Stat, find_first_regular_file}
use hermes_broadcast.Daemon.Transmit.{
  TxSession, Scene, SendFrame, text, is_spent, waits, tx_send_one_frame, tx_session_open, tx_turn,
  tx_turn_send, tx_turn_found, tx_turn_stat,
}
use hermes_broadcast.Daemon.Watch.{Poll, Thread, handed}

module _ (N : Nanorq) (ctx : Context) (scene : Scene N) (iface : Interface) where
  send_socket :
      (tx : TxSession N) → (tx_send_one_frame N ctx scene iface tx).iface.socket ≡ iface.socket
  unfolding tx_send_one_frame tcp_interface_send_kiss
  send_socket tx = ground arith

  if_socket :
      (b : Bool) (x y : SendFrame N)
      → x.iface.socket ≡ iface.socket
      → y.iface.socket ≡ iface.socket
      → (if b then x else y).iface.socket ≡ iface.socket
  if_socket true x y h k = h
  if_socket false x y h k = k

  turn_send_socket :
      (tx : TxSession N) → (tx_turn_send N ctx scene iface tx).iface.socket ≡ iface.socket
  unfolding tx_turn_send
  turn_send_socket tx =
      if_socket (is_spent tx) (waits iface tx) (tx_send_one_frame N ctx scene iface tx) refl
        (send_socket tx)

  turn_found_socket :
      (tx : TxSession N) (found : Option ((List ℕ) × ℕ))
      → (tx_turn_found N ctx scene iface tx found).iface.socket ≡ iface.socket
  unfolding tx_turn_found
  turn_found_socket tx none = refl
  turn_found_socket tx (some (path, mtime)) =
      let r = tx_session_open N ctx scene tx (text path) mtime in
      if_socket r.0 (tx_turn_send N ctx scene iface r.1) (waits iface r.1) (turn_send_socket r.1)
        refl

  turn_stat_socket :
      (tx : TxSession N) (found : Option Stat)
      → (tx_turn_stat N ctx scene iface tx found).iface.socket ≡ iface.socket
  unfolding tx_turn_stat
  turn_stat_socket tx none = refl
  turn_stat_socket tx (some st) = elim (Bool-cases (st.mtime == tx.mtime)) [
    | inl same ↦ rw same (turn_send_socket tx)
    | inr changed ↦ rw changed refl
  ]

  -- A turn leaves the socket as it is.
  pub tx_turn_socket :
      (tx : TxSession N) → (tx_turn N ctx scene iface tx).iface.socket ≡ iface.socket
  unfolding tx_turn
  tx_turn_socket tx =
      if_socket tx.active (tx_turn_stat N ctx scene iface tx (scene.stat tx.file_path))
        (tx_turn_found N ctx scene iface tx
          (find_first_regular_file scene.stat scene.entries ctx.tx_dir))
        (turn_stat_socket tx (scene.stat tx.file_path))
        (turn_found_socket tx (find_first_regular_file scene.stat scene.entries ctx.tx_dir))

  -- What a turn of a session with a limit leaves, and the frames that are handed over.
  record IsCounted (limit : ℕ) (frames : List (List ℕ)) (tx : TxSession N) (s : SendFrame N)
      : Type 0 where
    active : s.session.active ≡ tx.active
    path : s.session.file_path ≡ tx.file_path
    mtime : s.session.mtime ≡ tx.mtime
    budget : s.session.frames_limit ≡ tx.frames_limit
    counted :
        s.ok ≡ true
        → (length (handed s.frame frames) + tx.frames_sent ≤ length frames + s.session.frames_sent)
          × (s.session.frames_sent ≤ limit)
    stopped : s.ok ≡ false → length (handed s.frame frames) + tx.frames_sent ≤ length frames + limit

-- The file of a session is as it was when the session began.
abbrev pub IsUnchanged : {N : Nanorq} → (path : List ℕ) → (mtime : ℕ) → Scene N × Poll → Type 0
IsUnchanged path mtime turn = (st : Stat) × (turn.0.stat path ≡ some st) × (st.mtime ≡ mtime)

module _ (N : Nanorq) (ctx : Context) where
  CountedTurn : ℕ → Thread N → Thread N → Type 0
  CountedTurn limit t next =
      (next.session.active ≡ t.session.active)
      × (next.session.file_path ≡ t.session.file_path)
      × (next.session.mtime ≡ t.session.mtime)
      × (next.session.frames_limit ≡ t.session.frames_limit)
      × (next.running ≡ true
          → (length next.frames + t.session.frames_sent
              ≤ length t.frames + next.session.frames_sent)
            × (next.session.frames_sent ≤ limit))
      × (next.running ≡ false
          → length next.frames + t.session.frames_sent ≤ length t.frames + limit)
