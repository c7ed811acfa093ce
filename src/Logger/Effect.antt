-- ===== src/Logger/Effect.antt =====
-- What a call of `Log` does: to the ring, and to the record that it makes of the message.
use low_latency_logger.Prelude.{
  ℕ, ◌<◌, true, Option, none, some, List, [], ◌≡◌, refl, if-elim, if◌then◌else◌, ap, ◌∙◌, ◌↔◌,
  arith,
}
use low_latency_logger.Prelude.Text.{Text, ℤ, pos}
use low_latency_logger.Config.{Config}
use low_latency_logger.Level.{Level}
use low_latency_logger.Record.{LogRecord, set_message}
use low_latency_logger.Record.Message.{IsSized, truncated}
use low_latency_logger.Formatter.Line.{location_text}
use low_latency_logger.RingBuffer.{try_push}
use low_latency_logger.RingBuffer.Capacity.{IsCapacity}
use low_latency_logger.RingBuffer.Queue.{Holds, push}
use low_latency_logger.RingBuffer.Push.{try_push-refines}
use low_latency_logger.Logger.Entry.{
  IsEntry, prepare_record-Prepared, filled-IsEntry, place_if_known-IsEntry, prepare_record-succeeds,
  IsEntry-from,
}
use low_latency_logger.Logger.{
  Logger, LogResult, success, buffer_full, Surroundings, note_drop, push_record, prepare_record,
  log_impl, log_at,
}

-- What a call returned and left, from a logger whose ring held `q`: its answer is that of a push of
-- the entry to the bounded queue, and its ring holds the queue after that push.
pub record Logged (capacity : ℕ) (cfg : Config) (env : Surroundings) (level : Level)
    (t where_from : Text) (l : Logger) (q : List LogRecord) (out : LogResult × Logger)
    : Type 0 where
  pub entry : LogRecord
  pub is_entry : IsEntry cfg env level t where_from entry
  pub answer : out.0 ≡ (if (push capacity entry q).0 then success else buffer_full)
  pub holds : Holds capacity out.1.ring (push capacity entry q).1

push_record-answer :
    (c : ℕ) (cfg : Config) (r : LogRecord) (l : Logger)
    → (push_record c cfg r l).0 ≡ (if (try_push c r l.ring).0 then success else buffer_full)
unfolding push_record
push_record-answer c cfg r l = ground arith

-- Reporting a drop leaves the ring alone.
push_record-Holds :
    (c : ℕ) (cfg : Config) (r : LogRecord) (l : Logger) {q : List LogRecord}
    → Holds c (try_push c r l.ring).1 q
    → Holds c (push_record c cfg r l).1.ring q
unfolding push_record note_drop
push_record-Holds c cfg r l h = ground arith

module _ {c : ℕ} (v : IsCapacity c) (cfg : Config) (positive : 0 < cfg.max_message_size)
    (env : Surroundings) (garbage : IsSized cfg env.uninitialised) {l : Logger} {q : List LogRecord}
    (h : Holds c l.ring q) where
  pub push_record-Logged :
      (level : Level) (t from : Text) (r : LogRecord)
      → IsEntry cfg env level t from r
      → Logged c cfg env level t from l q (push_record c cfg r l)
  push_record-Logged level t from r e =
      let (same, after) = try_push-refines v h r in
      record {
        entry = r;
        is_entry = e;
        answer = push_record-answer c cfg r l ∙ ap (λ b. if b then success else buffer_full) same;
        holds = push_record-Holds c cfg r l after;
      }

  log_impl-Logged :
      (level : Level) (msg : Text) (file : Option Text) (line : ℤ) (function : Option Text)
      (from : Text)
      → (cfg.enable_source_location ≡ true → location_text file line function ≡ from)
      → Logged c cfg env level
          (truncated cfg msg)
          from
          l
          q
          (log_impl c cfg env level (some msg) file line function l)
  unfolding log_impl
  log_impl-Logged level msg file line function from same =
      rw (prepare_record-succeeds c cfg env env.uninitialised level) (
        push_record-Logged level (truncated cfg msg) from _ (
          if-elim (IsEntry cfg env level (truncated cfg msg) from) cfg.enable_source_location _ _
            (λ on.
              IsEntry-from c cfg env same
                (place_if_known-IsEntry c cfg env level _ file line function _ filled))
            (λ off. IsEntry-from c cfg env (λ on. cc) filled)))
    where
      filled :
          IsEntry cfg env level
            (truncated cfg msg)
            []
            (set_message cfg (some msg) (prepare_record c cfg env env.uninitialised level).1).1
      filled =
          filled-IsEntry c cfg env positive level [] (some msg) _
            (prepare_record-Prepared c cfg env level garbage)

  -- With a message size that is not zero, a fresh record whose buffer has that size, and a ring of
  -- a valid capacity that holds a queue: `Log` with a source location, for a message that is not
  -- null, makes an entry of its level, of the first `LOGGER_MAX_MESSAGE_SIZE-1` bytes of the
  -- message, of the time stamp, and of the thread and the location if they are compiled in, the
  -- location only if both pointers are set; it pushes the entry to the queue that the ring holds,
  -- and its answer says whether there was room.
  pub log_at-Logged :
      (level : Level) (msg : Text) (file : Option Text) (line : ℤ) (function : Option Text)
      → Logged c cfg env level
          (truncated cfg msg)
          (location_text file line function)
          l
          q
          (log_at c cfg env level (some msg) file line function l)
  unfolding log_at
  log_at-Logged level msg file line function =
      if-elim (Logged c cfg env level (truncated cfg msg) (location_text file line function) l q)
        cfg.enable_source_location _ _
        (λ on. log_impl-Logged level msg file line function _ (λ e. refl))
        (λ off. log_impl-Logged level msg none (pos 0) none _ (λ on. cc))

-- `Log` with a source location reports an error exactly for a null message, and for a null message
-- it leaves the ring, the counter and stderr as they were.
pub log_at-error :
    (c : ℕ) (cfg : Config) (env : Surroundings) (level : Level) (message : Option Text)
    (file : Option Text) (line : ℤ) (function : Option Text) (l : Logger)
    → (((log_at c cfg env level message file line function l).0 ≡ LogResult.error)
        ↔ (message ≡ none))
      × ((log_at c cfg env level none file line function l).1 ≡ l)
unfolding log_at log_impl push_record
log_at-error c cfg env level none file line function l = (ground arith, ground arith)
log_at-error c cfg env level (some message) file line function l =
    (ground (arith, prepare_record-succeeds c cfg env env.uninitialised level), ground arith)
