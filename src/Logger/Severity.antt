-- ===== src/Logger/Severity.antt =====
-- include/logger.h: the convenience methods, one for each level, without and with a source
-- location.
use low_latency_logger.Prelude.{ℕ, Option}
use low_latency_logger.Prelude.Text.{Text, ℤ}
use low_latency_logger.Config.{Config}
use low_latency_logger.Level.{Level}
use low_latency_logger.Logger.{Logger, LogResult, Surroundings, log, log_at}

module _ (capacity : ℕ) (cfg : Config) (env : Surroundings) where
  unfoldable pub trace : Option Text → Logger → LogResult × Logger
  trace message l = log capacity cfg env Level.trace message l

  unfoldable pub debug : Option Text → Logger → LogResult × Logger
  debug message l = log capacity cfg env Level.debug message l

  unfoldable pub info : Option Text → Logger → LogResult × Logger
  info message l = log capacity cfg env Level.info message l

  unfoldable pub warn : Option Text → Logger → LogResult × Logger
  warn message l = log capacity cfg env Level.warn message l

  unfoldable pub error : Option Text → Logger → LogResult × Logger
  error message l = log capacity cfg env Level.error message l

  unfoldable pub fatal : Option Text → Logger → LogResult × Logger
  fatal message l = log capacity cfg env Level.fatal message l

  unfoldable pub trace_at :
      Option Text → Option Text → ℤ → Option Text → Logger → LogResult × Logger
  trace_at message file line function l =
      log_at capacity cfg env Level.trace message file line function l

  unfoldable pub debug_at :
      Option Text → Option Text → ℤ → Option Text → Logger → LogResult × Logger
  debug_at message file line function l =
      log_at capacity cfg env Level.debug message file line function l

  unfoldable pub info_at : Option Text → Option Text → ℤ → Option Text → Logger → LogResult × Logger
  info_at message file line function l =
      log_at capacity cfg env Level.info message file line function l

  unfoldable pub warn_at : Option Text → Option Text → ℤ → Option Text → Logger → LogResult × Logger
  warn_at message file line function l =
      log_at capacity cfg env Level.warn message file line function l

  unfoldable pub error_at :
      Option Text → Option Text → ℤ → Option Text → Logger → LogResult × Logger
  error_at message file line function l =
      log_at capacity cfg env Level.error message file line function l

  unfoldable pub fatal_at :
      Option Text → Option Text → ℤ → Option Text → Logger → LogResult × Logger
  fatal_at message file line function l =
      log_at capacity cfg env Level.fatal message file line function l
