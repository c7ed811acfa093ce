-- ===== src/Sink.antt =====
-- src/sink.cpp: the three sinks. The streams of the C library are a parameter, `Stdio`.
pub mod Delivery
pub mod Life
pub mod Console
use low_latency_logger.Prelude.{
  ℕ, Bool, true, false, ◌||◌, not, Option, none, some, List, [], length, take, ◌==◌, if◌then◌else◌,
}
use low_latency_logger.Prelude.Text.{Text, text}
use low_latency_logger.Config.{Config}
use low_latency_logger.ErrorCode.{ErrorCode, report_error}

-- What is used of a `FILE *`: `fopen` with its path and mode, which may fail; `fwrite` of bytes,
-- which returns how many it took; `fflush` and `fclose`, with `true` for a result of 0.
pub record Stdio (F : Type 0) : Type 0 where
  pub fopen : Text → Text → Option F
  pub fwrite : Text → F → ℕ × F
  pub fflush : F → Bool × F
  pub fclose : F → Bool × F

-- A sink on a file, with what was printed on stderr.
pub record FileSink (F : Type 0) : Type 0 where
  pub file : Option F
  pub stderr : List Text

-- `ConsoleSink::Stream`
pub data Stream : Type 0 where
  stdout_stream stderr_stream : Stream

module _ {F : Type 0} (cfg : Config) (io : Stdio F) where
  -- `path ? std::fopen(path, mode) : nullptr`
  open_path : Option Text → Text → Option F
  open_path none mode = none
  open_path (some path) mode = io.fopen path mode

  -- A path that cannot be opened is reported; a null path is not.
  report_open : Option Text → Option F → List Text → List Text
  report_open (some path) none stderr =
      report_error cfg ErrorCode.file_open_failed (some (text "FileSink open failed")) stderr
  report_open _ _ stderr = stderr

  unfoldable pub open_file : Option Text → Text → List Text → FileSink F
  unfolding open_path report_open
  open_file path mode stderr =
      let file = open_path path mode in
      record { file = file; stderr = report_open path file stderr }

  -- The destructor, which ignores what `fclose` returns; the handle is not used afterwards.
  unfoldable pub close_file : FileSink F → FileSink F
  close_file s = record s { file = elim s.file [ none ↦ none | some f ↦ some (io.fclose f).1 ] }

  -- `FileSink::Write` with the two pointers at hand.
  write_bytes : FileSink F → Option F → Option Text → ℕ → FileSink F
  write_bytes s none bytes len = s
  write_bytes s (some f) none len = s
  write_bytes s (some f) (some bytes) len =
      let (n, f') = io.fwrite (take len bytes) f in
      if len == 0 then s else record {
        file = some f';
        stderr =
            if n == len
            then s.stderr
            else report_error cfg ErrorCode.write_failed (some (text "FileSink write failed"))
                s.stderr;
      }

  -- `FileSink::Write(data, len)` of the first `len` of the bytes.
  unfoldable pub write_file : Option Text → ℕ → FileSink F → FileSink F
  unfolding write_bytes
  write_file bytes len s = write_bytes s s.file bytes len

  flush_stream : FileSink F → Option F → FileSink F
  flush_stream s none = s
  flush_stream s (some f) =
      let (done, f') = io.fflush f in
      record {
        file = some f';
        stderr =
            if done
            then s.stderr
            else report_error cfg ErrorCode.flush_failed (some (text "FileSink flush failed"))
                s.stderr;
      }

  unfoldable pub flush_file : FileSink F → FileSink F
  unfolding flush_stream
  flush_file s = flush_stream s s.file

module _ {F : Type 0} (io : Stdio F) where
  -- `ConsoleSink`: the stream that the constructor picks, and its two methods, which report
  -- nothing.
  unfoldable pub pick_stream : F → F → Stream → F
  pick_stream out err Stream.stdout_stream = out
  pick_stream out err Stream.stderr_stream = err

  unfoldable pub write_console : Option Text → ℕ → F → F
  write_console none len f = f
  write_console (some bytes) len f =
      let written = (io.fwrite (take len bytes) f).1 in if len == 0 then f else written

  unfoldable pub flush_console : F → F
  flush_console f = (io.fflush f).1

-- `NullSink`
unfoldable pub write_null : {S : Type 0} → Option Text → ℕ → S → S
write_null bytes len s = s

unfoldable pub flush_null : {S : Type 0} → S → S
flush_null s = s
