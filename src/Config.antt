-- ===== src/Config.antt =====
-- include/config.h: the compile-time switches, one field for each macro, and their defaults.
use low_latency_logger.Prelude.{ℕ, Bool, true}

pub record Config : Type 0 where
  pub max_message_size : ℕ
  pub enable_thread_id : Bool
  pub enable_source_location : Bool
  pub enable_stderr_diagnostics : Bool
  pub backend_spin_count : ℕ

abbrev pub default_config : Config
default_config = record {
  max_message_size = 1024;
  enable_thread_id = true;
  enable_source_location = true;
  enable_stderr_diagnostics = true;
  backend_spin_count = 1000;
}
