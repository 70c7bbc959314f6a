-- ===== src/Daemon/Setup.antt =====
-- daemon.c, `main`: the options, the mode and the sizes that the threads are given.
use hermes_broadcast.Common.{
  ℕ, zero, suc, ◌+◌, ◌-◌, ◌≤◌, ◌<◌, Bool, true, false, List, [], ◌∷◌, Option, none, some, ltb, leb,
  if◌then◌else◌, get_or, take, ◌≡◌, ◌≢◌, Bool-cases, inl, inr, arith,
}
use hermes_broadcast.Modes.{hermes_mode_max, hermes_frame_size, hermes_size}
use hermes_broadcast.Tcp.{default_modem_ip, default_modem_port}
use hermes_broadcast.Daemon.{Context, config_body_size, tag_body_size}

-- What `getopt_long` yields. `atoi` of a mode or a port is `none` where it is negative.
pub data Opt : Type 0 where
  set_mode : Option ℕ → Opt
  set_tx_dir : List ℕ → Opt
  set_rx_dir : List ℕ → Opt
  set_ip : List ℕ → Opt
  set_port : Option ℕ → Opt
  set_verbose : Opt
  help : Opt
  unknown : Opt

-- The variables of `main`.
pub record Settings : Type 0 where
  pub mode : Option ℕ
  pub tx_dir : List ℕ
  pub rx_dir : List ℕ
  pub ip : List ℕ
  pub port : Option ℕ
  pub verbose : Bool

-- "./tx" and "./rx"
abbrev pub default_settings : Settings
default_settings = record {
  mode = some 1;
  tx_dir = 46 ∷ 47 ∷ 116 ∷ 120 ∷ [];
  rx_dir = 46 ∷ 47 ∷ 114 ∷ 120 ∷ [];
  ip = default_modem_ip;
  port = some default_modem_port;
  verbose = false;
}

-- How `main` goes on: it exits with a status, or starts the threads.
pub data Startup : Type 0 where
  exits : ℕ → Startup
  starts : Context → (ip : List ℕ) → (port : Option ℕ) → Startup

abbrev pub frame_size_of : ℕ → ℕ
frame_size_of mode = get_or hermes_frame_size mode 0

unfoldable pub check_mode : Settings → Option ℕ → Startup
check_mode s none = exits 1
check_mode s (some mode) =
    if ltb hermes_mode_max mode
    then exits 1
    else (if leb (frame_size_of mode) (hermes_size + config_body_size + tag_body_size)
        then exits 1
        else starts
            (record {
              mode = mode;
              frame_size = frame_size_of mode;
              symbol_size = frame_size_of mode - hermes_size - config_body_size - tag_body_size;
              verbose = s.verbose;
              tx_dir = s.tx_dir;
              rx_dir = s.rx_dir;
            })
            s.ip s.port)

-- The loop over the options. `strncpy` leaves room for the end of the string.
unfoldable pub start_up : Settings → List Opt → Startup
unfolding check_mode
start_up s [] = check_mode s s.mode
start_up s (set_mode m ∷ os) = start_up (record s { mode = m }) os
start_up s (set_tx_dir d ∷ os) = start_up (record s { tx_dir = take 4095 d }) os
start_up s (set_rx_dir d ∷ os) = start_up (record s { rx_dir = take 4095 d }) os
start_up s (set_ip i ∷ os) = start_up (record s { ip = take 63 i }) os
start_up s (set_port p ∷ os) = start_up (record s { port = p }) os
start_up s (set_verbose ∷ os) = start_up (record s { verbose = true }) os
start_up s (help ∷ os) = exits 0
start_up s (unknown ∷ os) = exits 1

-- A context whose frames have room for the header and a symbol.
pub record IsReady (ctx : Context) : Type 0 where
  pub sizes : ctx.symbol_size + 12 ≡ ctx.frame_size
  pub symbol : 0 < ctx.symbol_size
  pub frame : ctx.frame_size ≤ 510
  pub not_datac14 : ctx.mode ≢ 5
  pub mode_lt : ctx.mode < 7

mode_sizes :
    (mode : ℕ) → mode ≤ 6 → 12 < frame_size_of mode → (frame_size_of mode ≤ 510) × (mode ≢ 5)
mode_sizes zero h k = (omega arith, omega arith)
mode_sizes (suc zero) h k = (omega arith, omega arith)
mode_sizes (suc (suc zero)) h k = (omega arith, omega arith)
mode_sizes (suc (suc (suc zero))) h k = (omega arith, omega arith)
mode_sizes (suc (suc (suc (suc zero)))) h k = (omega arith, omega arith)
mode_sizes (suc (suc (suc (suc (suc zero))))) h k = absurd (omega arith)
mode_sizes (suc (suc (suc (suc (suc (suc zero)))))) h k = (omega arith, omega arith)
mode_sizes (suc (suc (suc (suc (suc (suc (suc m))))))) h k = absurd (omega arith)

-- How the threads start: with sizes that fit each other.
abbrev pub IsStartup : Startup → Type 0
IsStartup (exits n) = n ≤ 1
IsStartup (starts ctx ip port) = IsReady ctx

check_mode-IsStartup : (s : Settings) (mode : Option ℕ) → IsStartup (check_mode s mode)
unfolding check_mode
check_mode-IsStartup s none = omega arith
check_mode-IsStartup s (some mode) = elim (Bool-cases (ltb 6 mode)) [
  | inl over ↦ rw over (omega arith)
  | inr within ↦ elim (Bool-cases (leb (frame_size_of mode) 12)) [
    | inl small ↦ rw (within, small) (omega arith)
    | inr fits ↦
        let room : 12 < frame_size_of mode = ground arith in
        let (most, other) = mode_sizes mode (ground arith) room in
        rw (within, fits)
          (record {
            sizes = omega arith;
            symbol = omega arith;
            frame = most;
            not_datac14 = other;
            mode_lt = ground arith;
          })
  ]
]

-- Whatever the options, the daemon exits or starts its threads with a mode whose frame holds the
-- header and at least one byte of a symbol: no size wraps around, and the 3-byte mode is refused.
pub start_up-IsStartup : (s : Settings) (os : List Opt) → IsStartup (start_up s os)
unfolding start_up
start_up-IsStartup s [] = check_mode-IsStartup s s.mode
start_up-IsStartup s (set_mode m ∷ os) = start_up-IsStartup (record s { mode = m }) os
start_up-IsStartup s (set_tx_dir d ∷ os) = start_up-IsStartup (record s { tx_dir = take 4095 d }) os
start_up-IsStartup s (set_rx_dir d ∷ os) = start_up-IsStartup (record s { rx_dir = take 4095 d }) os
start_up-IsStartup s (set_ip i ∷ os) = start_up-IsStartup (record s { ip = take 63 i }) os
start_up-IsStartup s (set_port p ∷ os) = start_up-IsStartup (record s { port = p }) os
start_up-IsStartup s (set_verbose ∷ os) = start_up-IsStartup (record s { verbose = true }) os
start_up-IsStartup s (help ∷ os) = omega arith
start_up-IsStartup s (unknown ∷ os) = omega arith
