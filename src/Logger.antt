-- ===== src/Logger.antt =====
-- include/logger.h: the producer's side, from a call of `Log` to the ring buffer.
-- What a call reads of its surroundings is an argument: the time stamp counter, the hash of the
-- thread's id, and the uninitialised record on the stack.
pub mod Severity
pub mod Entry
pub mod Effect
pub mod Formatted
pub mod Drops
pub mod Shared
use low_latency_logger.Prelude.{
  ℕ, ◌+◌, ◌%◌, ◌^◌, Bool, true, false, ◌||◌, Option, none, some, List, [], ◌∷◌, ◌++◌, ◌==◌,
  if◌then◌else◌,
}
use low_latency_logger.Prelude.Text.{Text, ℤ, pos, text, decimal}
use low_latency_logger.Config.{Config}
use low_latency_logger.Level.{Level}
use low_latency_logger.Record.{LogRecord, set_message, format_message, set_source_location}
use low_latency_logger.RingBuffer.{SpscRingBuffer, try_push, size, is_full}

pub data LogResult : Type 0 where
  success buffer_full error : LogResult

-- The producer's state: the ring, and the static counter of dropped records with what was printed
-- on stderr about it.
pub record Logger : Type 0 where
  pub ring : SpscRingBuffer LogRecord
  pub dropped_count : ℕ
  pub stderr : List Text

pub record Surroundings : Type 0 where
  pub tsc : ℕ
  pub thread_hash : ℕ
  pub uninitialised : LogRecord

-- `[LOGGER] Warning: Log buffer full, dropped %zu log(s)`
abbrev pub drop_warning : ℕ → Text
drop_warning dropped =
    text "[LOGGER] Warning: Log buffer full, dropped " ++ (decimal dropped ++ text " log(s)\n")

-- The diagnostics of `PushRecord` on a full buffer.
unfoldable pub note_drop : Logger → Logger
note_drop l =
    let dropped = (l.dropped_count + 1) % 2 ^ 64 in
    record l {
      dropped_count = dropped;
      stderr =
          if dropped == 1 || dropped % 1000 == 0
          then l.stderr ++ drop_warning dropped ∷ []
          else l.stderr;
    }

-- `if (file && function) record.SetSourceLocation(…)`
unfoldable pub place_if_known : Option Text → ℤ → Option Text → LogRecord → LogRecord
place_if_known (some file) line (some function) r =
    set_source_location (some file) line (some function) r
place_if_known _ line _ r = r

module _ (capacity : ℕ) (cfg : Config) where
  unfoldable pub push_record : LogRecord → Logger → LogResult × Logger
  push_record r l =
      let (done, ring) = try_push capacity r l.ring in
      if done then (success, record l { ring = ring }) else (
        buffer_full,
        (if cfg.enable_stderr_diagnostics
            then note_drop (record l { ring = ring })
            else record l { ring = ring }),
      )

  -- Always true; the callers test it all the same.
  unfoldable pub prepare_record : Surroundings → LogRecord → Level → Bool × LogRecord
  prepare_record env r level =
      let stamped = record r { level = level; timestamp = env.tsc } in
      let placed =
        if cfg.enable_source_location
        then record stamped { file = none; function = none; line = pos 0 }
        else stamped in
      (
        true,
        (if cfg.enable_thread_id then record placed { thread_id = env.thread_hash } else placed),
      )

  -- `LogImpl`; a null message is an error.
  unfoldable pub log_impl :
      Surroundings
      → Level
      → Option Text
      → Option Text
      → ℤ
      → Option Text
      → Logger
      → LogResult × Logger
  log_impl env level none file line function l = (error, l)
  log_impl env level (some message) file line function l =
      let (prepared, r) = prepare_record env env.uninitialised level in
      let filled = (set_message cfg (some message) r).1 in
      let placed =
        if cfg.enable_source_location then place_if_known file line function filled else filled in
      if prepared then push_record placed l else (error, l)

  -- `Log(level, message)` and `Log(level, message, file, line, function)`.
  unfoldable pub log : Surroundings → Level → Option Text → Logger → LogResult × Logger
  unfolding log_impl
  log env level message l = log_impl env level message none (pos 0) none l

  unfoldable pub log_at :
      Surroundings
      → Level
      → Option Text
      → Option Text
      → ℤ
      → Option Text
      → Logger
      → LogResult × Logger
  unfolding log_impl
  log_at env level message file line function l =
      if cfg.enable_source_location
      then log_impl env level message file line function l
      else log_impl env level message none (pos 0) none l

  -- `LogFormat`, without and with a source location; see `format_message` for `fmt`.
  unfoldable pub log_format :
      Surroundings → Level → Option (Option Text) → Logger → LogResult × Logger
  log_format env level fmt l =
      let (prepared, r) = prepare_record env env.uninitialised level in
      let filled = (format_message cfg fmt r).1 in
      if prepared then push_record filled l else (error, l)

  unfoldable pub log_format_at :
      Surroundings
      → Level
      → Option Text
      → ℤ
      → Option Text
      → Option (Option Text)
      → Logger
      → LogResult × Logger
  log_format_at env level file line function fmt l =
      let (prepared, r) = prepare_record env env.uninitialised level in
      let placed =
        if cfg.enable_source_location then set_source_location file line function r else r in
      let filled = (format_message cfg fmt placed).1 in
      if prepared then push_record filled l else (error, l)

  -- `PendingCount` and `IsBufferFull`.
  unfoldable pub pending_count : Logger → ℕ
  pending_count l = size l.ring

  unfoldable pub is_buffer_full : Logger → Bool
  is_buffer_full l = is_full capacity l.ring
