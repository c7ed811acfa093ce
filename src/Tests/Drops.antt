-- ===== src/Tests/Drops.antt =====
-- A burst of five records into a ring that holds three.
use low_latency_logger.Prelude.{
  ◌+◌, ◌-◌, ◌/◌, ◌%◌, ◌^◌, min, length, Bool, true, false, List, [], ◌∷◌, ◌++◌, ◌≡◌, refl, take,
  replicate, arith,
}
use low_latency_logger.Config.{default_config}
use low_latency_logger.Record.{LogRecord}
use low_latency_logger.RingBuffer.{init, try_push}
use low_latency_logger.RingBuffer.Capacity.{IsCapacity}
use low_latency_logger.RingBuffer.Push.{try_push-room}
use low_latency_logger.RingBuffer.Queue.{Holds, init-Holds}
use low_latency_logger.Logger.{drop_warning, note_drop, push_record}
use low_latency_logger.Logger.Drops.{burst, burst_lem}
use low_latency_logger.Logger.Shared.{Loggers, push_records, push_records_lem}
use low_latency_logger.Tests.{four-IsCapacity}
use low_latency_logger.Tests.Messages.{blank, idle_logger}

abbrev five_records : List LogRecord
five_records = replicate 5 blank

five_records-warns_once :
    (burst 4 default_config five_records idle_logger).stderr ≡ drop_warning 1 ∷ []
unfolding burst push_record try_push note_drop
five_records-warns_once = refl

burst_lem_example :
    Holds 4 (burst 4 default_config five_records idle_logger).ring ([] ++ take 3 five_records)
    × ((burst 4 default_config five_records idle_logger).dropped_count ≡ (0 + (5 - 3)) % 2 ^ 64)
burst_lem_example =
    burst_lem four-IsCapacity default_config refl five_records idle_logger []
      (init-Holds 4 four-IsCapacity) (omega arith)

-- Two loggers with room for one record each, which is taken.
two-IsCapacity : IsCapacity 2
two-IsCapacity = record { more_than_one = omega arith; power_of_two = refl; fits = omega arith }

abbrev full_pair : Loggers
full_pair = record {
  first = (try_push 2 blank init).1;
  second = (try_push 2 blank init).1;
  dropped_count = 0;
  stderr = [];
}

full-Holds : Holds 2 (try_push 2 blank init).1 (blank ∷ [])
full-Holds = (try_push-room two-IsCapacity (init-Holds 2 two-IsCapacity) blank (omega arith)).1

abbrev both_drop : List (Bool × LogRecord)
both_drop = (true, blank) ∷ (false, blank) ∷ []

-- The first drop of the second logger is not reported.
both_drop-warns_once :
    (push_records 2 default_config both_drop full_pair).stderr ≡ drop_warning 1 ∷ []
unfolding push_records push_record try_push note_drop
both_drop-warns_once = refl

push_records_lem_example :
    let after = push_records 2 default_config both_drop full_pair in
    (after.first ≡ full_pair.first)
    × (after.second ≡ full_pair.second)
    × (after.dropped_count ≡ 2)
    × (length after.stderr ≡ 0 + min 2 1 + 2 / 1000)
push_records_lem_example =
    push_records_lem two-IsCapacity default_config refl both_drop full_pair (blank ∷ [])
      (blank ∷ []) full-Holds full-Holds refl refl refl (omega arith)
