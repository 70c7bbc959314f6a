-- ===== src/Daemon.antt =====
-- daemon.c: the broadcast daemon, part by part; what its threads share.
pub mod Filename
pub mod Directory
pub mod Transmit
pub mod Receive
pub mod Watch
pub mod Threads
pub mod Setup
pub mod Air
mod Tests
use hermes_broadcast.Common.{ℕ, Bool, List}

abbrev pub config_body_size : ℕ
config_body_size = 8

abbrev pub tag_body_size : ℕ
tag_body_size = 3

abbrev pub max_esi : ℕ
max_esi = 65535

-- `daemon_ctx_t`, without the connection, which the functions take apart.
pub record Context : Type 0 where
  pub mode : ℕ
  pub frame_size : ℕ
  pub symbol_size : ℕ
  pub verbose : Bool
  pub tx_dir : List ℕ
  pub rx_dir : List ℕ
