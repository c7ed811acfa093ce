-- ===== src/Tests/Backend.antt =====
-- A run of the consumer's thread beside the producer's: a record is pushed, the loop pops it,
-- `Stop` comes, and the loop winds down.
use low_latency_logger.Prelude.{
  ℕ, zero, suc, ◌+◌, ◌≤◌, true, false, ◌≡◌, refl, ap, map, some, List, [], ◌∷◌, ◌++◌, ◌-◌, take,
  length, arith,
}
use low_latency_logger.Record.{LogRecord}
use low_latency_logger.Spsc.{produce, produce_at, consume, consume_at}
use low_latency_logger.Prelude.Text.{Text, text, decimal, signed_decimal, joined}
use low_latency_logger.Level.{level_to_string}
use low_latency_logger.Formatter.{
  format_record, print_line, appendf, append_location, put_byte, put_message,
}
use low_latency_logger.Libc.{snprintf, overwrite}
use low_latency_logger.Sink.{open_file, close_file, write_file, flush_file}
use low_latency_logger.Sink.Delivery.{replay}
use low_latency_logger.Sink.Life.{lifetime}
use low_latency_logger.Backend.Invariant.{in_hand}
use low_latency_logger.Backend.File.{kept_on_file}
use low_latency_logger.Tests.Whole.{memory, memory-IsStdio}
use low_latency_logger.Consumer.{Setup}
use low_latency_logger.Backend.{
  Pc, Machine, launched, started_again, loop_at, pop_step, loop_step, produce_step, Step, Reach,
}
use low_latency_logger.Backend.Account.{IsAccounted, accounted}
use low_latency_logger.Backend.Latency.{Attends, attended}
use low_latency_logger.Backend.Stopping.{WindsDown, winds_down}
use low_latency_logger.Pipeline.{text_setup}
use low_latency_logger.Pipeline.Delivery.{IsPrintable, cut_line, text_setup-IsSetup}
use low_latency_logger.Tests.{four-IsCapacity}
use low_latency_logger.Tests.Messages.{small, filled}
use low_latency_logger.Tests.Delivered.{garbage, filled-IsPrintable}

abbrev pub four : Setup
four = text_setup small (λ t. t) 4

abbrev Reachable : Machine → Type 0
Reachable = Reach four (IsPrintable small) garbage

abbrev push_step : Machine → Machine
push_step = produce_step four filled 0

abbrev pushed_one : Machine
pushed_one = push_step (push_step (push_step (push_step (launched garbage))))

pushed_one-Reachable : Reachable pushed_one
unfolding produce produce_at
pushed_one-Reachable =
    Reach.later
      (Reach.later
        (Reach.later
          (Reach.later Reach.begin
            (Step.produces filled 0 filled-IsPrintable (omega arith) (omega arith)))
          (Step.produces filled 0 filled-IsPrintable (omega arith) (omega arith)))
        (Step.produces filled 0 filled-IsPrintable (omega arith) (omega arith)))
      (Step.produces filled 0 filled-IsPrintable (omega arith) (omega arith))

abbrev tested : Machine
tested = loop_step four 1 true pushed_one

abbrev loaded : Machine
loaded = loop_step four 1 true tested

abbrev going : Machine
going = loop_step four 1 true loaded

going-Reachable : Reachable going
unfolding produce produce_at loop_step loop_at pop_step consume consume_at
going-Reachable =
    Reach.later
      (Reach.later
        (Reach.later pushed_one-Reachable (Step.loops 1 true (omega arith) (omega arith) (λ e. cc)))
        (Step.loops 1 true (omega arith) (omega arith) (λ e. cc)))
      (Step.loops 1 true (omega arith) (omega arith) (λ e. cc))

accounted_example : IsAccounted four (cut_line small (λ t. t)) going
accounted_example =
    accounted (text_setup-IsSetup small (λ t. t) four-IsCapacity) garbage refl going-Reachable

abbrev told : Machine
told = record going { stopped = true }

abbrev down : ℕ → Machine
down zero = told
down (suc n) = loop_step four 1 false (down n)

told-Reachable : Reachable told
told-Reachable = Reach.later going-Reachable Step.stops

down_eight : WindsDown four (IsPrintable small) told 8 (down 8)
unfolding produce produce_at loop_step loop_at pop_step consume consume_at
down_eight =
    WindsDown.loops 1
      (WindsDown.loops 1
        (WindsDown.loops 1
          (WindsDown.loops 1
            (WindsDown.loops 1
              (WindsDown.loops 1
                (WindsDown.loops 1 (WindsDown.loops 1 (WindsDown.rests) (omega arith) (omega arith))
                  (omega arith) (omega arith))
                (omega arith) (omega arith))
              (omega arith) (omega arith))
            (omega arith) (omega arith))
          (omega arith) (omega arith))
        (omega arith) (omega arith))
      (omega arith) (omega arith)

winds_down_example :
    ((down 8).pc ≡ Pc.done)
    × (length (down 8).emitted ≤ length told.emitted + 1)
    × IsAccounted four (cut_line small (λ t. t)) (down 8)
winds_down_example =
    winds_down (text_setup-IsSetup small (λ t. t) four-IsCapacity) garbage refl told-Reachable refl
      down_eight (omega arith)

-- The same without the `Stop`: the loop goes on.
abbrev attending : ℕ → Machine
attending zero = going
attending (suc n) = loop_step four (attending n).ring.write_index.stores true (attending n)

attending-Attends : (n : ℕ) → Attends four (IsPrintable small) going n (attending n)
attending-Attends zero = Attends.rests
attending-Attends (suc n) = Attends.loops (attending-Attends n)

attended_example : take (length going.ring.pushed) (attending 18).emitted ≡ going.ring.pushed
unfolding produce produce_at loop_step loop_at pop_step consume consume_at
attended_example =
    attended (text_setup-IsSetup small (λ t. t) four-IsCapacity) garbage refl going-Reachable refl
      (attending-Attends 18) (omega arith)

attending-emits : (attending 18).emitted ≡ filled ∷ []
unfolding produce produce_at loop_step loop_at pop_step consume consume_at
attending-emits = refl

-- The record is on the file.
written_one-Reachable : Reachable (attending 4)
unfolding produce produce_at loop_step loop_at pop_step consume consume_at
written_one-Reachable =
    Reach.later
      (Reach.later
        (Reach.later
          (Reach.later (going-Reachable) (Step.loops 1 true (omega arith) (omega arith) (λ e. cc)))
          (Step.loops 1 true (omega arith) (omega arith) (λ e. cc)))
        (Step.loops 1 true (omega arith) (omega arith) (λ e. cc)))
      (Step.loops 1 true (omega arith) (omega arith) (λ e. cc))

written_one-file :
    lifetime small memory (some (text "app.log")) (text "ab") (attending 4).calls
    ≡ record { file = some (cut_line small (λ t. t) filled); stderr = [] }
unfolding produce produce_at loop_step loop_at pop_step consume consume_at replay open_file
    close_file write_file flush_file format_record print_line appendf append_location put_byte
    put_message decimal signed_decimal level_to_string snprintf overwrite
written_one-file = refl

kept_on_file_example :
    (f : Text) × (f' : Text) × (waiting : List LogRecord) × (memory.fopen
        (text "app.log")
        (text "ab")
      ≡ some f)
    × ((lifetime small memory (some (text "app.log")) (text "ab") (attending 4).calls).file
        ≡ some f')
    × (f' ≡ f ++ joined (map (cut_line small (λ t. t)) (attending 4).emitted))
    × (((attending 4).emitted ++ in_hand (attending 4).pc) ++ waiting ≡ (attending 4).ring.pushed)
    × (length waiting ≤ 4 - 1)
kept_on_file_example =
    kept_on_file small (λ t. t) four-IsCapacity memory memory-IsStdio (λ f. refl) refl garbage
      (text "app.log") (text "ab") refl written_one-Reachable
      (omega (arith, ap (λ s. length s.stderr) written_one-file))

-- A `Stop` after these steps loses nothing.
abbrev ending : ℕ → Machine
ending zero = record (attending 18) { stopped = true }
ending (suc n) = loop_step four 1 false (ending n)

ending_eight : WindsDown four (IsPrintable small) (ending 0) 8 (ending 8)
unfolding produce produce_at loop_step loop_at pop_step consume consume_at
ending_eight =
    WindsDown.loops 1
      (WindsDown.loops 1
        (WindsDown.loops 1
          (WindsDown.loops 1
            (WindsDown.loops 1
              (WindsDown.loops 1
                (WindsDown.loops 1 (WindsDown.loops 1 (WindsDown.rests) (omega arith) (omega arith))
                  (omega arith) (omega arith))
                (omega arith) (omega arith))
              (omega arith) (omega arith))
            (omega arith) (omega arith))
          (omega arith) (omega arith))
        (omega arith) (omega arith))
      (omega arith) (omega arith)

-- A `Stop` before the first test leaves the record in the ring; a later `Start` finds it there.
abbrev left_behind : Machine
left_behind = loop_step four 0 false (loop_step four 0 false (record pushed_one { stopped = true }))

abbrev resumed : ℕ → Machine
resumed zero = started_again garbage left_behind
resumed (suc n) = loop_step four (resumed n).ring.write_index.stores true (resumed n)

left_behind-resumed :
    (left_behind.pc ≡ Pc.done) × (left_behind.emitted ≡ []) × ((resumed 18).emitted ≡ filled ∷ [])
unfolding produce produce_at loop_step loop_at pop_step consume consume_at
left_behind-resumed = (refl, refl, refl)
