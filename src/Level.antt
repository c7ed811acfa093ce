-- ===== src/Level.antt =====
-- include/level.h: the severity levels, their names and their order.
pub mod Laws
use low_latency_logger.Prelude.{ℕ, Bool, leb}
use low_latency_logger.Prelude.Text.{Text, text}

-- `enum class Level : uint8_t`. A cast may give it any byte: `other n` is one with no name.
pub data Level : Type 0 where
  trace debug info warn error fatal : Level
  other : ℕ → Level

unfoldable pub level_to_string : Level → Text
level_to_string Level.trace = text "TRACE"
level_to_string Level.debug = text "DEBUG"
level_to_string Level.info = text "INFO"
level_to_string Level.warn = text "WARN"
level_to_string Level.error = text "ERROR"
level_to_string Level.fatal = text "FATAL"
level_to_string (Level.other n) = text "UNKNOWN"

unfoldable pub level_to_char : Level → ℕ
level_to_char Level.trace = b'T'
level_to_char Level.debug = b'D'
level_to_char Level.info = b'I'
level_to_char Level.warn = b'W'
level_to_char Level.error = b'E'
level_to_char Level.fatal = b'F'
level_to_char (Level.other n) = b'?'

unfoldable pub level_to_int : Level → ℕ
level_to_int Level.trace = 0
level_to_int Level.debug = 1
level_to_int Level.info = 2
level_to_int Level.warn = 3
level_to_int Level.error = 4
level_to_int Level.fatal = 5
level_to_int (Level.other n) = n

-- `should_log level min_level`
unfoldable pub should_log : Level → Level → Bool
unfolding level_to_int
should_log level min_level = leb (level_to_int min_level) (level_to_int level)

abbrev pub k_level_count : ℕ
k_level_count = 6
