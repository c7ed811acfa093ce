-- ===== src/Tests/Whole.antt =====
-- A producer that logs twice while the consumer runs, down to the bytes of a file.
use low_latency_logger.Prelude.{
  ℕ, true, none, some, List, [], ◌∷◌, ◌++◌, ◌≡◌, refl, ap, map, length, take, replicate, All, arith,
}
use mathlib.Core.List.{Sublist}
use low_latency_logger.Prelude.Text.{Text, text, pos, decimal, signed_decimal}
use low_latency_logger.Level.{Level, level_to_string}
use low_latency_logger.Record.{LogRecord, set_message, format_message, set_source_location}
use low_latency_logger.RingBuffer.{try_push, try_pop}
use low_latency_logger.RingBuffer.Queue.{Holds}
use low_latency_logger.Formatter.{
  format_record, print_line, appendf, append_location, put_byte, put_message,
}
use low_latency_logger.Formatter.Read.{read_line, read_log}
use low_latency_logger.Formatter.RoundTrip.{heading, format_record-read_line}
use low_latency_logger.Libc.{snprintf, overwrite}
use low_latency_logger.Logger.{prepare_record, place_if_known}
use low_latency_logger.Consumer.{
  World, finished, happen, happen_all, tick, emit, flush_sink, pop_and_write, spin, turn, loop,
}
use low_latency_logger.Sink.{Stdio, FileSink, write_file, flush_file}
use low_latency_logger.Sink.Delivery.{IsStdio, replay}
use low_latency_logger.System.{LogCall, logs, formats, Act, calls, stop, record_of}
use low_latency_logger.System.Entries.{IsCallable}
use low_latency_logger.System.ReadBack.{IsLegible, call_heading, file_read_back}
use low_latency_logger.System.File.{ActOk, calls_in, sink_calls, run_with}
use low_latency_logger.Tests.{four-IsCapacity}
use low_latency_logger.Tests.Messages.{small, filled, env}

abbrev pub hello : LogCall
hello = logs env Level.info (text "hello") (some (text "a.c")) (pos 42) (some (text "f"))

abbrev unplaced : LogCall
unplaced = formats env Level.warn none (pos 0) none (some (some (text "x=1")))

abbrev schedule : List (List Act)
schedule = (calls hello ∷ []) ∷ [] ∷ (calls unplaced ∷ []) ∷ [] ∷ (stop ∷ []) ∷ []

abbrev garbage : Text
garbage = replicate 264 7

-- A disk that takes everything.
abbrev pub memory : Stdio Text
memory = record {
  fopen = λ path mode. some [];
  fwrite = λ t f. (length t, f ++ take (length t) t);
  fflush = λ f. (true, f);
  fclose = λ f. (true, f);
}

pub memory-IsStdio : IsStdio memory (λ f. f) (λ f. f)
memory-IsStdio = record {
  at_most = λ t f. omega arith;
  appends = λ t f. refl;
  keeps = λ f. refl;
  flushes = λ f e. refl;
  closes = λ f e. refl;
  settles = λ f e. refl;
  opens = λ path mode f e. refl;
}

abbrev opened : FileSink Text
opened = record { file = some []; stderr = [] }

pub hello-IsCallable : IsCallable small hello
unfolding signed_decimal
hello-IsCallable = record { sized = refl; short = omega arith }

unplaced-IsCallable : IsCallable small unplaced
unplaced-IsCallable = record { sized = refl; short = omega arith }

-- The two lines in the file.
run-file :
    replay small memory (sink_calls (run_with small (λ t. t) 4 garbage schedule)) opened ≡ record {
      file = some (text "[12] [INFO] [tid=3] a.c:42 f hello\n[12] [WARN] [tid=3] x=1\n");
      stderr = [];
    }
unfolding replay write_file flush_file loop turn spin pop_and_write flush_sink emit tick happen_all
    happen try_push try_pop record_of set_message format_message set_source_location prepare_record
    place_if_known format_record print_line appendf append_location put_byte put_message decimal
    signed_decimal level_to_string snprintf overwrite
run-file = refl

schedule-ok : All (All (ActOk small)) schedule
schedule-ok = ((hello-IsCallable, tt), (tt, ((unplaced-IsCallable, tt), (tt, ((tt, tt), tt)))))

pub hello-IsLegible : IsLegible small (λ t. t) hello
unfolding decimal signed_decimal level_to_string
hello-IsLegible = record {
  callable = hello-IsCallable;
  time_fits = omega arith;
  thread_fits = λ on. omega arith;
  fits = omega arith;
  one_place = ground arith;
  one_message = ground arith;
}

unplaced-IsLegible : IsLegible small (λ t. t) unplaced
unfolding decimal signed_decimal level_to_string
unplaced-IsLegible = record {
  callable = unplaced-IsCallable;
  time_fits = omega arith;
  thread_fits = λ on. omega arith;
  fits = omega arith;
  one_place = ground arith;
  one_message = ground arith;
}

file_read_back_example :
    (last : World) × (waiting : List LogRecord) × (f' : Text) × (run_with small
        (λ t. t)
        4
        garbage
        schedule
      ≡ finished last)
    × Holds 4 last.ring waiting
    × ((replay small memory (sink_calls (run_with small (λ t. t) 4 garbage schedule)) opened).file
        ≡ some f')
    × Sublist
        (read_log true f' ++ map (λ r. some (heading small (λ t. t) r)) waiting)
        (map (λ call. some (call_heading small (λ t. t) call)) (calls_in schedule))
file_read_back_example =
    file_read_back small (λ t. t) 4 (omega arith) four-IsCapacity memory memory-IsStdio refl garbage
      schedule [] opened refl
      ((hello-IsLegible, tt), (tt, ((unplaced-IsLegible, tt), (tt, ((tt, tt), tt))))) refl refl refl
      (omega (arith, ap (λ s. length s.stderr) run-file))

format_record-read_line_example :
    (n : ℕ) × (out : Text) × (format_record small (λ t. t) filled (some (replicate 64 1)) 64
      ≡ (n, some out))
    × (read_line true (take n out) ≡ some (heading small (λ t. t) filled))
unfolding decimal signed_decimal level_to_string
format_record-read_line_example =
    format_record-read_line small (λ t. t) filled 64 (replicate 64 1) (omega arith) (omega arith)
      (omega arith) (omega arith) (λ on. omega arith) (omega arith)
