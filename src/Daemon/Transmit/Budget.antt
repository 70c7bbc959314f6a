-- ===== src/Daemon/Transmit/Budget.antt =====
-- daemon.c: the budget of frames in the transmitting thread, and the reload of a changed file.
use hermes_broadcast.Common.{
  ℕ, suc, ◌≤◌, ◌<◌, Bool, true, false, List, [], Option, none, some, ltb, ◌==◌, if◌then◌else◌,
  length, ◌≡◌, ◌≢◌, refl, sym, ap, ◌∙◌, Bool-cases, inl, inr, arith,
}
use hermes_broadcast.Nanorq.{Nanorq, oti_common_reduced, oti_scheme_specific_align1}
use hermes_broadcast.Tcp.{Interface}
use hermes_broadcast.Daemon.{Context, max_esi}
use hermes_broadcast.Daemon.Directory.{Stat, find_first_regular_file}
use hermes_broadcast.Daemon.Transmit.{
  TxSession, Scene, SendFrame, PathArg, text, own_path, is_spent, deref, tx_send_one_frame,
  loaded_session, tx_session_reset, tx_session_open, open_file, open_coder, tx_turn, tx_turn_send,
  tx_turn_found, tx_turn_stat,
}

-- A session has sent no more frames than its file's name allows, and its configuration has the
-- eight bytes of the array.
pub record IsValid {N : Nanorq} (tx : TxSession N) : Type 0 where
  pub budget : (limit : ℕ) → tx.frames_limit ≡ some limit → tx.frames_sent ≤ limit
  pub config : length tx.config_body ≡ 8

loaded_session_lem :
    (N : Nanorq) (path : List ℕ) (mtime : ℕ) (io : N.Io) (c : N.Coder)
    → let tx = loaded_session N path mtime io c in
      (tx.active ≡ true) × (tx.frames_sent ≡ 0) × (length tx.config_body ≡ 8)
unfolding loaded_session oti_common_reduced oti_scheme_specific_align1
loaded_session_lem N path mtime io c = (refl, refl, refl)

reset_config : {N : Nanorq} (tx : TxSession N) → length (tx_session_reset tx).config_body ≡ 8
unfolding tx_session_reset
reset_config tx = refl

reset_budget :
    {N : Nanorq} (tx : TxSession N) (limit : ℕ) → (tx_session_reset tx).frames_sent ≤ limit
unfolding tx_session_reset
reset_budget tx limit = omega arith

pub tx_session_reset-IsValid : {N : Nanorq} (tx : TxSession N) → IsValid (tx_session_reset tx)
tx_session_reset-IsValid tx = record {
  budget = λ limit e. reset_budget tx limit;
  config = reset_config tx;
}

-- A session that starts has sent nothing; it is active exactly when the file was opened.
abbrev IsFresh : {N : Nanorq} → Bool × TxSession N → Type 0
IsFresh r = ((r.1).active ≡ r.0) × ((r.1).frames_sent ≡ 0) × (length (r.1).config_body ≡ 8)

module _ (N : Nanorq) (ctx : Context) (scene : Scene N) (tx0 : TxSession N) where
  open_coder-IsFresh :
      (path : List ℕ) (mtime : ℕ) (io : N.Io) (c : Option N.Coder)
      → IsFresh (false, tx0)
      → IsFresh (open_coder N scene tx0 path mtime io c)
  unfolding open_coder
  open_coder-IsFresh path mtime io none v = v
  open_coder-IsFresh path mtime io (some c) v =
      elim (Bool-cases (scene.calloc_ok (N.blocks (N.set_max_esi c max_esi)))) [
        | inl got ↦ rw got (loaded_session_lem N path mtime io (N.set_max_esi c max_esi))
        | inr out ↦ rw out v
      ]

  open_file-IsFresh :
      (path : List ℕ) (mtime : ℕ) (io : Option N.Io)
      → IsFresh (false, tx0)
      → IsFresh (open_file N ctx scene tx0 path mtime io)
  unfolding open_file
  open_file-IsFresh path mtime none v = v
  open_file-IsFresh path mtime (some io) v = elim (Bool-cases (ltb 16777215 (N.io_size io))) [
    | inl big ↦ rw big v
    | inr fits ↦
        rw fits
          (open_coder-IsFresh path mtime io (N.encoder_new (N.io_size io) ctx.symbol_size 1) v)
  ]

opens-IsFresh :
    (N : Nanorq) (ctx : Context) (scene : Scene N) (tx : TxSession N) (path : PathArg) (mtime : ℕ)
    → IsFresh (tx_session_open N ctx scene tx path mtime)
unfolding tx_session_open tx_session_reset
opens-IsFresh N ctx scene tx path mtime =
    let p = deref path (tx_session_reset tx) in
    open_file-IsFresh N ctx scene (tx_session_reset tx) p mtime (scene.open_read p)
      (refl, refl, refl)

if-IsValid :
    {N : Nanorq} (b : Bool) (x y : SendFrame N)
    → IsValid x.session
    → IsValid y.session
    → IsValid (if b then x else y).session
if-IsValid true x y v w = v
if-IsValid false x y v w = w

module _ (N : Nanorq) (ctx : Context) (scene : Scene N) (iface : Interface) where
  -- A call sends one frame at most and counts it if the modem took it.
  sends_one :
      (tx : TxSession N)
      → let s = tx_send_one_frame N ctx scene iface tx in
        (s.session.frames_limit ≡ tx.frames_limit)
        × (s.session.frames_sent ≤ suc tx.frames_sent)
        × (s.session.config_body ≡ tx.config_body)
  unfolding tx_send_one_frame
  sends_one tx = ground arith

  fresh-IsValid : (tx : TxSession N) → tx.frames_sent ≡ 0 → length tx.config_body ≡ 8 → IsValid tx
  fresh-IsValid tx e l = record { budget = λ limit h. omega arith; config = l }

  left_over :
      (tx : TxSession N) (limit : ℕ)
      → is_spent tx ≡ false
      → tx.frames_limit ≡ some limit
      → tx.frames_sent < limit
  left_over tx limit h e = ground arith

  tx_turn_send-IsValid :
      (tx : TxSession N) → IsValid tx → IsValid (tx_turn_send N ctx scene iface tx).session
  unfolding tx_turn_send
  tx_turn_send-IsValid tx v =
      let (same, sent, config) = sends_one tx in
      elim (Bool-cases (is_spent tx)) [
        | inl spent ↦ rw spent v
        | inr left ↦ rw left (record {
          budget = λ limit e. omega (arith, left_over tx limit left (sym same ∙ e));
          config = ap length config ∙ v.config;
        })
      ]

  tx_turn_found-IsValid :
      (tx : TxSession N) (found : Option ((List ℕ) × ℕ))
      → IsValid tx
      → IsValid (tx_turn_found N ctx scene iface tx found).session
  unfolding tx_turn_found
  tx_turn_found-IsValid tx none v = v
  tx_turn_found-IsValid tx (some (path, mtime)) v =
      let (active, sent, config) = opens-IsFresh N ctx scene tx (text path) mtime in
      let r = tx_session_open N ctx scene tx (text path) mtime in
      let fresh = fresh-IsValid r.1 sent config in
      elim (Bool-cases r.0) [ inl e ↦ rw e (tx_turn_send-IsValid r.1 fresh) | inr e ↦ rw e fresh ]

  tx_turn_stat-IsValid :
      (tx : TxSession N) (found : Option Stat)
      → IsValid tx
      → IsValid (tx_turn_stat N ctx scene iface tx found).session
  unfolding tx_turn_stat
  tx_turn_stat-IsValid tx none v = tx_session_reset-IsValid tx
  tx_turn_stat-IsValid tx (some st) v =
      let (active, sent, config) = opens-IsFresh N ctx scene tx own_path st.mtime in
      elim (Bool-cases (st.mtime == tx.mtime)) [
        | inl same ↦ rw same (tx_turn_send-IsValid tx v)
        | inr changed ↦
            rw changed
              (fresh-IsValid (tx_session_open N ctx scene tx own_path st.mtime).1 sent config)
      ]

  -- From a well-formed session no turn of the loop, on any answers of the system and the modem, takes
  -- a session beyond the number of frames that its file's name asks for, and its configuration keeps
  -- its eight bytes.
  pub tx_turn-IsValid :
      (tx : TxSession N) → IsValid tx → IsValid (tx_turn N ctx scene iface tx).session
  unfolding tx_turn
  tx_turn-IsValid tx v =
      if-IsValid tx.active (tx_turn_stat N ctx scene iface tx (scene.stat tx.file_path))
        (tx_turn_found N ctx scene iface tx
          (find_first_regular_file scene.stat scene.entries ctx.tx_dir))
        (tx_turn_stat-IsValid tx (scene.stat tx.file_path) v)
        (tx_turn_found-IsValid tx (find_first_regular_file scene.stat scene.entries ctx.tx_dir) v)

  -- A changed file is not reloaded: the session's own path is cleared before it is opened, so that,
  -- where no file has the empty path, the turn leaves a session that is not active, whatever the
  -- directory holds.
  pub reload_fails :
      (tx : TxSession N) (st : Stat)
      → tx.active ≡ true
      → scene.stat tx.file_path ≡ some st
      → st.mtime ≢ tx.mtime
      → scene.open_read [] ≡ none
      → let s = tx_turn N ctx scene iface tx in
        (s.session.active ≡ false) × (s.session.file_path ≡ []) × (s.frame ≡ none) × (s.ok ≡ true)
  unfolding tx_turn tx_turn_stat tx_session_open open_file tx_session_reset deref
  reload_fails tx st on found changed no_file = ground arith
