-- ===== src/Record/Keeps.antt =====
-- What `FormatMessage` leaves alone in a record.
use low_latency_logger.Prelude.{ℕ, Option, none, some, ◌≡◌, refl}
use low_latency_logger.Prelude.Text.{Text}
use low_latency_logger.Config.{Config}
use low_latency_logger.Libc.{snprintf}
use low_latency_logger.Record.{LogRecord, store_result, format_message}

-- What a setter of the message leaves alone.
pub record Keeps (r r' : LogRecord) : Type 0 where
  pub level : r'.level ≡ r.level
  pub timestamp : r'.timestamp ≡ r.timestamp
  pub thread_id : r'.thread_id ≡ r.thread_id
  pub file : r'.file ≡ r.file
  pub function : r'.function ≡ r.function
  pub line : r'.line ≡ r.line

store_result-Keeps :
    (cfg : Config) (r : LogRecord) (result : Option ℕ) (buffer : Text)
    → Keeps r (store_result cfg r (result, buffer)).1
unfolding store_result
store_result-Keeps cfg r none buffer = record {
  level = refl;
  timestamp = refl;
  thread_id = refl;
  file = refl;
  function = refl;
  line = refl;
}
store_result-Keeps cfg r (some n) buffer = record {
  level = refl;
  timestamp = refl;
  thread_id = refl;
  file = refl;
  function = refl;
  line = refl;
}

pub format_message-Keeps :
    (cfg : Config) (fmt : Option (Option Text)) (r : LogRecord)
    → Keeps r (format_message cfg fmt r).1
unfolding format_message
format_message-Keeps cfg none r = record {
  level = refl;
  timestamp = refl;
  thread_id = refl;
  file = refl;
  function = refl;
  line = refl;
}
format_message-Keeps cfg (some rendered) r =
    let (result, buffer) = snprintf r.message 0 cfg.max_message_size rendered in
    store_result-Keeps cfg r result buffer
