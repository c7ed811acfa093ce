-- ===== src/Record.antt =====
-- include/record.h: `LogRecord`, a fixed-size entry, and the operations that fill it.
-- A `const char *` is `none` for a null pointer and the text before the terminator otherwise. The
-- fields that a switch of include/config.h removes keep their place here and are not written.
pub mod Message
pub mod Keeps
use low_latency_logger.Prelude.{
  ℕ, ◌-◌, Option, none, some, List, [], ◌∷◌, length, take, leb, ltb, ◌==◌, if◌then◌else◌,
}
use low_latency_logger.Prelude.Text.{Text, ℤ}
use low_latency_logger.Config.{Config}
use low_latency_logger.Level.{Level}
use low_latency_logger.Libc.{overwrite, terminate, snprintf}

pub record LogRecord : Type 0 where
  pub level : Level
  pub timestamp : ℕ
  pub message_length : ℕ
  pub thread_id : ℕ
  pub file : Option Text
  pub function : Option Text
  pub line : ℤ
  pub message : Text

-- `message[0] = '\0'; message_length = 0`, the way out of every setter on bad input.
abbrev pub clear_message : LogRecord → LogRecord
clear_message r = record r { message = terminate 0 r.message; message_length = 0 }

-- `memcpy`, terminator and length, after the truncation to `LOGGER_MAX_MESSAGE_SIZE - 1`.
abbrev pub copy_message : ℕ → Text → LogRecord → LogRecord
copy_message len msg r = record r {
  message = terminate len (overwrite 0 (take len msg) r.message);
  message_length = len;
}

abbrev pub truncate : Config → ℕ → ℕ
truncate cfg len = if leb cfg.max_message_size len then cfg.max_message_size - 1 else len

-- `SetMessage(msg)`
unfoldable pub set_message : Config → Option Text → LogRecord → ℕ × LogRecord
set_message cfg none r = (0, clear_message r)
set_message cfg (some msg) r = let len = truncate cfg (length msg) in (len, copy_message len msg r)

-- `SetMessage(msg, len)`; `msg` is the memory from the pointer on, which may hold zero bytes.
unfoldable pub set_message_n : Config → Option Text → ℕ → LogRecord → ℕ × LogRecord
set_message_n cfg none len r = (0, clear_message r)
set_message_n cfg (some msg) len r =
    let n = truncate cfg len in if len == 0 then (0, clear_message r) else (n, copy_message n msg r)

-- What `FormatMessage` makes of the result of `snprintf` and the buffer after it.
store_result : Config → LogRecord → Option ℕ × Text → ℕ × LogRecord
store_result cfg r (none, buffer) = (0, clear_message (record r { message = buffer }))
store_result cfg r (some n, buffer) =
    let len = if ltb n cfg.max_message_size then n else cfg.max_message_size - 1 in
    (len, record r { message = buffer; message_length = len })

-- `FormatMessage(fmt, args…)`: `none` for a null `fmt`, else what the format and its arguments
-- render to, which is `none` on an encoding error.
unfoldable pub format_message : Config → Option (Option Text) → LogRecord → ℕ × LogRecord
unfolding store_result
format_message cfg none r = (0, clear_message r)
format_message cfg (some rendered) r =
    store_result cfg r (snprintf r.message 0 cfg.max_message_size rendered)

-- `SetSourceLocation`
unfoldable pub set_source_location : Option Text → ℤ → Option Text → LogRecord → LogRecord
set_source_location file_name line_number func_name r = record r {
  file = file_name;
  line = line_number;
  function = func_name;
}
