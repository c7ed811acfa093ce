-- ===== src/System.antt =====
-- include/logger.h with include/consumer.h: a producer that calls `Log` and `LogFormat` while the
-- thread of the consumer runs on the same ring buffer.
pub mod Entries
pub mod File
pub mod ReadBack
pub mod Served
pub mod Prompt
pub mod PromptRead
use low_latency_logger.Prelude.{ℕ, Option, none, some, List, [], ◌∷◌, map, if◌then◌else◌}
use low_latency_logger.Prelude.Text.{Text, ℤ}
use low_latency_logger.Config.{Config}
use low_latency_logger.Level.{Level}
use low_latency_logger.Record.{LogRecord, set_message, format_message, set_source_location}
use low_latency_logger.Logger.{
  Logger, LogResult, Surroundings, prepare_record, place_if_known, log_at, log_format_at,
}
use low_latency_logger.Consumer.{Event, pushes, stops}

-- A call of the producer, with a message that is not null, and with what it reads of its
-- surroundings.
pub data LogCall : Type 0 where
  logs :
      (env : Surroundings) (level : Level) (message : Text) (file : Option Text) (line : ℤ)
      (function : Option Text)
      → LogCall
  formats :
      (env : Surroundings) (level : Level) (file : Option Text) (line : ℤ) (function : Option Text)
      (fmt : Option (Option Text))
      → LogCall

-- What happens between two accesses of the consumer: calls of the producer, and `Stop`.
pub data Act : Type 0 where
  calls : LogCall → Act
  stop : Act

module _ (capacity : ℕ) (cfg : Config) where
  unfoldable pub perform : LogCall → Logger → LogResult × Logger
  perform (logs env level message file line function) l =
      log_at capacity cfg env level (some message) file line function l
  perform (formats env level file line function fmt) l =
      log_format_at capacity cfg env level file line function fmt l

  -- The record that a call builds on its stack, before `PushRecord`.
  unfoldable pub record_of : LogCall → LogRecord
  record_of (logs env level message file line function) =
      let filled =
        (set_message cfg (some message)
          (prepare_record capacity cfg env env.uninitialised level).1).1 in
      if cfg.enable_source_location then place_if_known file line function filled else filled
  record_of (formats env level file line function fmt) =
      let r = (prepare_record capacity cfg env env.uninitialised level).1 in
      let placed =
        if cfg.enable_source_location then set_source_location file line function r else r in
      (format_message cfg fmt placed).1

  abbrev pub event_of : Act → Event
  event_of (calls call) = pushes (record_of call)
  event_of stop = stops

  abbrev pub events_of : List (List Act) → List (List Event)
  events_of schedule = map (map event_of) schedule
