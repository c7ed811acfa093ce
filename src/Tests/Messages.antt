-- ===== src/Tests/Messages.antt =====
-- Messages that fit and messages that are cut, as records, as log entries and as lines.
use low_latency_logger.Prelude.{
  Option, none, some, [], ◌∷◌, ◌++◌, ◌≡◌, ◌↔◌, refl, length, replicate, arith,
}
use low_latency_logger.Prelude.Text.{Text, text, pos, decimal, signed_decimal}
use low_latency_logger.Config.{Config, default_config}
use low_latency_logger.Level.{Level, level_to_string}
use low_latency_logger.Libc.{overwrite, snprintf}
use low_latency_logger.Record.{LogRecord, set_message, format_message}
use low_latency_logger.Record.Message.{
  HoldsMessage, stored, rendered_text, truncated, set_message-HoldsMessage,
  format_message-HoldsMessage,
}
use low_latency_logger.RingBuffer.{init}
use low_latency_logger.RingBuffer.Queue.{init-Holds}
use low_latency_logger.Formatter.{
  format_record, print_line, appendf, append_location, put_byte, put_message,
}
use low_latency_logger.Formatter.Line.{full_line, location_text}
use low_latency_logger.Formatter.Format.{IsPrinted, format_record-IsPrinted}
use low_latency_logger.Logger.{LogResult, Logger, Surroundings, log_at, log_format_at}
use low_latency_logger.Logger.Formatted.{log_format_at-Logged}
use low_latency_logger.Logger.Effect.{Logged, log_at-Logged, log_at-error}
use low_latency_logger.Tests.{four-IsCapacity}

-- Messages of at most seven bytes.
abbrev pub small : Config
small = record default_config { max_message_size = 8; backend_spin_count = 2 }

abbrev hello : Text
hello = text "hello, world"

abbrev pub blank : LogRecord
blank = record {
  level = Level.trace;
  timestamp = 0;
  message_length = 0;
  thread_id = 0;
  file = none;
  function = none;
  line = pos 0;
  message = replicate 8 1;
}

abbrev pub filled : LogRecord
filled = record blank {
  level = Level.warn;
  timestamp = 12;
  message_length = 5;
  thread_id = 3;
  file = some (text "a.c");
  function = some (text "f");
  line = pos 42;
  message = text "hello" ++ replicate 3 0;
}

abbrev pub env : Surroundings
env = record { tsc = 12; thread_hash = 3; uninitialised = blank }

abbrev pub idle_logger : Logger
idle_logger = record { ring = init; dropped_count = 0; stderr = [] }

set_message_cuts :
    set_message small (some hello) blank
    ≡ (7, record blank { message_length = 7; message = text "hello, " ++ 0 ∷ [] })
unfolding set_message overwrite
set_message_cuts = refl

format_record_whole :
    (format_record small (λ t. t) filled (some (replicate 64 1)) 64).0
    ≡ length (text "[12] [WARN] [tid=3] a.c:42 f hello\n")
unfolding format_record print_line appendf append_location put_byte put_message snprintf overwrite
    decimal signed_decimal level_to_string
format_record_whole = refl

-- A line that does not fit loses its newline.
format_record_cut :
    format_record small (λ t. t) filled (some (replicate 34 1)) 34
    ≡ (33, some (text "[12] [WARN] [tid=3] a.c:42 f hell" ++ 0 ∷ []))
unfolding format_record print_line appendf append_location put_byte put_message snprintf overwrite
    decimal signed_decimal level_to_string
format_record_cut = refl

set_message-HoldsMessage_example :
    let (n, r') = set_message small (some hello) blank in
    HoldsMessage small (stored small (some hello)) n r'
set_message-HoldsMessage_example =
    set_message-HoldsMessage small (omega arith) blank refl (some hello)

format_message-HoldsMessage_example :
    let (n, r') = format_message small (some (some hello)) blank in
    HoldsMessage small (stored small (rendered_text (some (some hello)))) n r'
format_message-HoldsMessage_example =
    format_message-HoldsMessage small (omega arith) blank refl (some (some hello))

format_record-IsPrinted_example :
    IsPrinted 16
      (full_line small (λ t. t) filled)
      (replicate 20 1)
      (format_record small (λ t. t) filled (some (replicate 20 1)) 16)
format_record-IsPrinted_example =
    format_record-IsPrinted small (λ t. t) filled 16 (replicate 20 1) (omega arith) (omega arith)
      (unfold signed_decimal decimal in (omega arith)) (omega arith)

log_at-Logged_example :
    Logged 4 small env Level.error
      (truncated small hello)
      (location_text (some (text "a.c")) (pos 42) (some (text "f")))
      idle_logger
      []
      (log_at 4 small env Level.error
        (some hello)
        (some (text "a.c"))
        (pos 42)
        (some (text "f"))
        idle_logger)
log_at-Logged_example =
    log_at-Logged four-IsCapacity small (omega arith) env refl (init-Holds 4 four-IsCapacity)
      Level.error hello (some (text "a.c")) (pos 42) (some (text "f"))

log_format_at-Logged_example :
    Logged 4 small env Level.info
      (stored small (rendered_text (some (some hello))))
      (location_text (some (text "a.c")) (pos 42) (some (text "f")))
      idle_logger
      []
      (log_format_at 4 small env Level.info
        (some (text "a.c"))
        (pos 42)
        (some (text "f"))
        (some (some hello))
        idle_logger)
log_format_at-Logged_example =
    log_format_at-Logged four-IsCapacity small (omega arith) env refl (init-Holds 4 four-IsCapacity)
      Level.info (some (text "a.c")) (pos 42) (some (text "f")) (some (some hello))

abbrev null_message : Option Text
null_message = none

log_at-error_example :
    (((log_at 4 small env Level.info none none (pos 0) none idle_logger).0 ≡ LogResult.error)
      ↔ (null_message ≡ none))
    × ((log_at 4 small env Level.info none none (pos 0) none idle_logger).1 ≡ idle_logger)
log_at-error_example = log_at-error 4 small env Level.info none none (pos 0) none idle_logger
