-- ===== src/Tests/Parts.antt =====
-- The life cycle of the consumer, a file on a disk with little room, the encoder, and the clock.
use low_latency_logger.Prelude.{
  sym, subst, ap, append_assoc, append-nil, ◌⊎◌, ℕ, ◌-◌, ◌/◌, ◌<◌, min, true, false, none, some,
  List, [], ◌∷◌, ◌++◌, ◌≡◌, ◌==◌, refl, length, take, replicate, arith,
}
use low_latency_logger.Prelude.Text.{Text, text, joined}
use low_latency_logger.Config.{default_config}
use low_latency_logger.Consumer.{SinkCall, write, flush}
use low_latency_logger.Consumer.Trace.{written}
use low_latency_logger.Lifecycle.{
  created, exchange, start, stop, join_thread, destroy, assign_thread,
}
use low_latency_logger.Lifecycle.Calls.{
  Call, starts, stops, run, running_after, starts_anew, IsSound,
}
use low_latency_logger.Lifecycle.Owner.{
  create_logger, use_logger, is_logger_running, destroy_logger, owner_lem,
}
use low_latency_logger.Lifecycle.Race.{
  Starting, StartReach, begin, later, exchanges, assigns, exchange_step, assign_step, overtaken,
  overtaken_lem,
}
use low_latency_logger.ErrorCode.{report_error, error_to_string}
use low_latency_logger.Sink.{
  open_file, close_file, write_console, flush_console, Stdio, FileSink, write_file, flush_file,
}
use low_latency_logger.Sink.Life.{lifetime, lifetime_lem, flushed_lem}
use low_latency_logger.Sink.Console.{replay_console, replay_console_lem}
use low_latency_logger.Sink.Delivery.{IsStdio, replay}
use low_latency_logger.Encoder.{encode_text_record, encode_text_record_lem}
use low_latency_logger.Formatter.{format_record}
use low_latency_logger.Clock.{
  Doubles, Readings, convert, tsc_to_nanoseconds, calibrate, calibrated, converted, spin_until,
  ticks_per_ns,
}
use low_latency_logger.Clock.Calibration.{IsFirstLate, measured, tsc_to_nanoseconds_lem}
use low_latency_logger.Tests.Messages.{small, filled}

abbrev calls : List Call
calls = starts ∷ starts ∷ stops ∷ starts ∷ []

created-IsSound : IsSound created
created-IsSound = record { handle = refl; alive = refl }

run-calls : run calls created ≡ record created { is_running = true; joinable = true; threads = 2 }
unfolding run start exchange assign_thread stop join_thread
run-calls = refl

-- Two threads call `Start`; the second one finds the flag set before the first has its thread.
abbrev two_starts : Starting
two_starts = assign_step (exchange_step (exchange_step (record { life = created; assigning = 0 })))

two_starts-Reach : StartReach two_starts
unfolding exchange_step exchange
two_starts-Reach = later (later (later begin exchanges) exchanges) (assigns (omega arith))

overtaken_lem_example :
    ((exchange false created).0 ≡ true)
    × ((exchange true (exchange false created).1).0 ≡ true)
    × ((overtaken created).is_running ≡ false)
    × ((start (overtaken created)).terminated ≡ true)
    × ((destroy (overtaken created)).terminated ≡ true)
overtaken_lem_example = overtaken_lem created refl refl

-- A disk with room for so many bytes more, what it holds, and what a stream still keeps back.
record Disk : Type 0 where
  room : ℕ
  bytes : Text
  kept_back : Text

abbrev disk_io : Stdio Disk
disk_io = record {
  fopen = λ path mode. some (record { room = 12; bytes = []; kept_back = [] });
  fwrite = λ t d. (
    min d.room (length t),
    record d {
      room = d.room - length t;
      kept_back = d.kept_back ++ take (min d.room (length t)) t;
    },
  );
  fflush = λ d. (true, record d { bytes = d.bytes ++ d.kept_back; kept_back = [] });
  fclose = λ d. (true, record d { bytes = d.bytes ++ d.kept_back; kept_back = [] });
}

-- Nothing is kept back when a file is opened.
opened-stored : (d : Disk) → disk_io.fopen [] [] ≡ some d → d.bytes ≡ d.bytes ++ d.kept_back
opened-stored d e =
    subst (λ x. x.bytes ≡ x.bytes ++ x.kept_back) (ap (λ o. elim o [ none ↦ d | some x ↦ x ]) e)
      refl

disk_io-IsStdio : IsStdio disk_io (λ d. d.bytes ++ d.kept_back) (λ d. d.bytes)
disk_io-IsStdio = record {
  at_most = λ t d. omega arith;
  appends = λ t d. sym (append_assoc d.bytes d.kept_back (take (min d.room (length t)) t));
  keeps = λ d. append-nil (d.bytes ++ d.kept_back);
  flushes = λ d e. refl;
  closes = λ d e. refl;
  settles = λ d e. refl;
  opens = λ path mode d e. opened-stored d e;
}

-- The same disk when it is taken away before the streams are closed: what they keep back is lost.
abbrev lost_io : Stdio Disk
lost_io = record disk_io { fclose = λ d. (false, record d { kept_back = [] }) }

lost_io-IsStdio : IsStdio lost_io (λ d. d.bytes ++ d.kept_back) (λ d. d.bytes)
lost_io-IsStdio = record {
  at_most = disk_io-IsStdio.at_most;
  appends = disk_io-IsStdio.appends;
  keeps = disk_io-IsStdio.keeps;
  flushes = disk_io-IsStdio.flushes;
  closes = λ d e. cc;
  settles = λ d e. e;
  opens = disk_io-IsStdio.opens;
}

abbrev opened : FileSink Disk
opened = record { file = some (record { room = 12; bytes = []; kept_back = [] }); stderr = [] }

abbrev sink_calls : List SinkCall
sink_calls = write (text "one\n") ∷ flush ∷ write (text "two\n") ∷ flush ∷ []

replay-full :
    length (replay default_config disk_io (write (text "thirteen byte") ∷ []) opened).stderr ≡ 1
unfolding replay write_file report_error error_to_string
replay-full = refl

encode_text_record_lem_example :
    encode_text_record small (λ t. t) filled (some (replicate 34 1)) 34
    ≡ format_record small (λ t. t) filled (some (replicate 34 1)) 34
encode_text_record_lem_example =
    encode_text_record_lem small (λ t. t) filled (some (replicate 34 1)) 34

-- Whole numbers in the place of doubles.
abbrev whole : Doubles ℕ
whole = record {
  of_integer = λ n. n;
  divide = λ x y. x / y;
  to_uint64 = λ x. x;
  at_most_zero = λ x. x == 0;
  zero_double = 0;
  one_double = 1;
}

abbrev readings : Readings
readings = record { t0 = 5; c0 = 100; times = 7 ∷ 1000006 ∷ []; c1 = 3000103 }

first_call : tsc_to_nanoseconds whole none readings 60 ≡ some (20, 3)
unfolding tsc_to_nanoseconds calibrate calibrated converted convert spin_until ticks_per_ns
first_call = refl

tsc_to_nanoseconds_lem_example :
    (t1 : ℕ) × (calibration : ℕ) × IsFirstLate 5 (7 ∷ 1000006 ∷ []) t1
    × ((((measured whole 5 100 3000103 t1 == 0) ≡ false)
          × (calibration ≡ measured whole 5 100 3000103 t1))
        ⊎ (((measured whole 5 100 3000103 t1 == 0) ≡ true) × (calibration ≡ 1)))
    × (tsc_to_nanoseconds whole none readings 60 ≡ some (60 / calibration, calibration))
    × (tsc_to_nanoseconds whole (some calibration) readings 90
        ≡ some (90 / calibration, calibration))
tsc_to_nanoseconds_lem_example =
    tsc_to_nanoseconds_lem whole refl 5 100 3000103 1000006 (7 ∷ []) [] 60 90 readings (omega arith)

owner_lem_example :
    let used = use_logger calls create_logger in
    let last = destroy_logger used in
    (is_logger_running used ≡ running_after calls false)
    × (last.terminated ≡ false)
    × (last.joinable ≡ false)
    × (last.is_running ≡ false)
    × (last.threads ≡ starts_anew calls false)
owner_lem_example = owner_lem calls

-- A text that was not flushed is lost, and nobody is told.
lost-unreported :
    lifetime default_config lost_io (some (text "app.log")) (text "ab") (write (text "one\n") ∷ [])
    ≡ record { file = some (record { room = 8; bytes = []; kept_back = [] }); stderr = [] }
unfolding replay open_file close_file write_file flush_file
lost-unreported = refl

lifetime_lem_example :
    (d : Disk) × (last : Disk) × (lost_io.fopen (text "app.log") (text "ab") ≡ some d)
    × ((lifetime default_config lost_io (some (text "app.log")) (text "ab") sink_calls).file
        ≡ some (lost_io.fclose last).1)
    × (last.bytes ++ last.kept_back ≡ d.bytes ++ joined (written sink_calls))
    × (((lost_io.fclose last).1.bytes ≡ d.bytes ++ joined (written sink_calls))
        ⊎ ((lost_io.fclose last).0 ≡ false))
unfolding replay open_file close_file write_file flush_file
lifetime_lem_example =
    lifetime_lem default_config lost_io lost_io-IsStdio refl (text "app.log") (text "ab") sink_calls
      (omega arith)

flushed_lem_example :
    let calls = write (text "one\n") ∷ flush ∷ write (text "two\n") ∷ [] in
    (d : Disk) × (d' : Disk) × (lost_io.fopen (text "app.log") (text "ab") ≡ some d)
    × ((lifetime default_config lost_io
          (some (text "app.log"))
          (text "ab")
          (calls ++ flush ∷ [])).file
        ≡ some d')
    × (d'.bytes ≡ d.bytes ++ joined (written calls))
unfolding replay open_file close_file write_file flush_file
flushed_lem_example =
    flushed_lem default_config lost_io lost_io-IsStdio refl (text "app.log") (text "ab")
      (write (text "one\n") ∷ flush ∷ write (text "two\n") ∷ []) (omega arith)

-- A terminal with room for six bytes shows the second text in part, and nobody is told.
abbrev narrow : Disk
narrow = record { room = 6; bytes = []; kept_back = [] }

narrow-cuts : (replay_console disk_io sink_calls narrow).bytes ≡ text "one\ntw"
unfolding replay_console write_console flush_console
narrow-cuts = refl

replay_console_lem_example :
    let as_file : FileSink Disk =
      replay default_config disk_io sink_calls (record { file = some narrow; stderr = [] }) in
    let after : Disk = replay_console disk_io sink_calls narrow in
    (as_file.file ≡ some after)
    × ((after.bytes ++ after.kept_back ≡ [] ++ joined (written sink_calls))
        ⊎ (0 < length as_file.stderr))
replay_console_lem_example =
    replay_console_lem disk_io disk_io-IsStdio default_config refl sink_calls narrow
