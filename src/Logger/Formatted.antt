-- ===== src/Logger/Formatted.antt =====
-- What a call of `LogFormat` does, in the terms of Effect.
use low_latency_logger.Prelude.{
  ℕ, ◌<◌, Option, List, [], ◌≡◌, refl, ◌∙◌, if◌then◌else◌, if-elim, arith,
}
use low_latency_logger.Prelude.Text.{Text, ℤ}
use low_latency_logger.Config.{Config}
use low_latency_logger.Level.{Level}
use low_latency_logger.Record.{LogRecord, format_message, set_source_location}
use low_latency_logger.Record.Message.{IsSized, stored, rendered_text, format_message-HoldsMessage}
use low_latency_logger.Record.Keeps.{Keeps, format_message-Keeps}
use low_latency_logger.Formatter.Line.{location_text, place}
use low_latency_logger.RingBuffer.Capacity.{IsCapacity}
use low_latency_logger.RingBuffer.Queue.{Holds}
use low_latency_logger.Logger.Entry.{
  IsEntry, Prepared, prepare_record-Prepared, prepare_record-succeeds,
}
use low_latency_logger.Logger.Effect.{Logged, push_record-Logged}
use low_latency_logger.Logger.{Logger, Surroundings, log_format_at}

place-Keeps : {r r' : LogRecord} → Keeps r r' → place r' ≡ place r
place-Keeps {r} {r'} k = rw (k.file, k.line, k.function)

module _ (cfg : Config) (env : Surroundings) where
  pub formatted-IsEntry :
      (positive : 0 < cfg.max_message_size) (level : Level) (from : Text)
      (fmt : Option (Option Text)) (r : LogRecord)
      → Prepared cfg env level from r
      → IsEntry cfg env level (stored cfg (rendered_text fmt)) from (format_message cfg fmt r).1
  formatted-IsEntry positive level from fmt r p =
      let m = format_message-HoldsMessage cfg positive r p.sized fmt in
      let k = format_message-Keeps cfg fmt r in
      record {
        has_level = k.level ∙ p.has_level;
        stamped = k.timestamp ∙ p.stamped;
        threaded = λ on. k.thread_id ∙ p.threaded on;
        located = λ on. place-Keeps k ∙ p.located on;
        sized = m.sized;
        content = m.content;
        counted = m.returned ∙ m.counted;
        fits = omega (arith, m.returned, m.inside);
      }

  pub placed-Prepared :
      (level : Level) (file : Option Text) (line : ℤ) (function : Option Text) (r : LogRecord)
      → Prepared cfg env level [] r
      → Prepared cfg env level
          (location_text file line function)
          (if cfg.enable_source_location then set_source_location file line function r else r)
  unfolding set_source_location
  placed-Prepared level file line function r p =
      if-elim (Prepared cfg env level (location_text file line function)) cfg.enable_source_location
        _ _
        (λ on. record {
          has_level = p.has_level;
          stamped = p.stamped;
          threaded = p.threaded;
          located = λ e. refl;
          sized = p.sized;
        })
        (λ off. record {
          has_level = p.has_level;
          stamped = p.stamped;
          threaded = p.threaded;
          located = λ on. cc;
          sized = p.sized;
        })

module _ {c : ℕ} (v : IsCapacity c) (cfg : Config) (positive : 0 < cfg.max_message_size)
    (env : Surroundings) (garbage : IsSized cfg env.uninitialised) {l : Logger} {q : List LogRecord}
    (h : Holds c l.ring q) where
  -- With a message size that is not zero, a fresh record whose buffer has that size, and a ring
  -- of a valid capacity that holds a queue: `LogFormat` with a source location makes an entry of
  -- its level, of the first `LOGGER_MAX_MESSAGE_SIZE-1` bytes of the text that the format
  -- renders to, or of no text for a null format, an encoding error or a text whose length is no
  -- `int`, of the time stamp, and of the thread and the location if they are compiled in, the
  -- location only if both pointers are set; it pushes the entry to the queue that the ring
  -- holds, and its answer says whether there was room.
  pub log_format_at-Logged :
      (level : Level) (file : Option Text) (line : ℤ) (function : Option Text)
      (fmt : Option (Option Text))
      → Logged c cfg env level
          (stored cfg (rendered_text fmt))
          (location_text file line function)
          l
          q
          (log_format_at c cfg env level file line function fmt l)
  unfolding log_format_at
  log_format_at-Logged level file line function fmt =
      rw (prepare_record-succeeds c cfg env env.uninitialised level) (
        push_record-Logged v cfg positive env garbage h level (stored cfg (rendered_text fmt))
          (location_text file line function) _
          (formatted-IsEntry cfg env positive level (location_text file line function) fmt _ (
            placed-Prepared cfg env level file line function _
              (prepare_record-Prepared c cfg env level garbage))))
