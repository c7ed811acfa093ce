-- ===== src/Formatter/Line.antt =====
-- The line that a record stands for, with no regard to any buffer.
use low_latency_logger.Prelude.{
  ℕ, ◌^◌, ◌≤◌, ◌<◌, Option, some, [], ◌∷◌, ◌++◌, length, length-append, if◌then◌else◌, arith,
}
use low_latency_logger.Prelude.Text.{Text, text, decimal, length-decimal, ℤ}
use low_latency_logger.Config.{Config}
use low_latency_logger.Level.{Level, level_to_string}
use low_latency_logger.Record.{LogRecord}
use low_latency_logger.Record.Message.{message_text}
use low_latency_logger.Formatter.{stamp, thread, location}

-- The source location is printed only if both pointers are set.
abbrev pub location_text : Option Text → ℤ → Option Text → Text
location_text (some file) line (some function) = location file line function
location_text _ line _ = []

abbrev pub place : LogRecord → Text
place r = location_text r.file r.line r.function

-- `[time] [LEVEL] [tid=n] file:line function message` and a newline.
abbrev pub full_line : Config → (ℕ → ℕ) → LogRecord → Text
full_line cfg tsc_to_nanoseconds r =
    stamp (tsc_to_nanoseconds r.timestamp) r
    ++ ((if cfg.enable_thread_id then thread r else [])
        ++ ((if cfg.enable_source_location then place r else [])
            ++ (b' ' ∷ [] ++ (message_text r ++ 10 ∷ []))))

length-level : (l : Level) → length (level_to_string l) ≤ 7
unfolding level_to_string
length-level l = ground arith

-- The pieces other than the location are short, whatever the record holds.
pub length-stamp : (ns : ℕ) (r : LogRecord) → length (stamp ns r) < 2 ^ 31
length-stamp ns r = omega (
  arith,
  length-append {0} (text "[")
      (decimal ns ++ (text "] [" ++ (level_to_string r.level ++ text "]"))),
  length-append {0} (decimal ns) (text "] [" ++ (level_to_string r.level ++ text "]")),
  length-append {0} (text "] [") (level_to_string r.level ++ text "]"),
  length-append {0} (level_to_string r.level) (text "]"),
  length-decimal ns,
  length-level r.level,
)

pub length-thread : (r : LogRecord) → length (thread r) < 2 ^ 31
length-thread r = omega (
  arith,
  length-append {0} (text " [tid=") (decimal r.thread_id ++ text "]"),
  length-append {0} (decimal r.thread_id) (text "]"),
  length-decimal r.thread_id,
)
