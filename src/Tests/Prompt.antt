-- ===== src/Tests/Prompt.antt =====
-- A call of `Log` beside the consumer's thread: its line is on the file eighteen steps of the loop
-- later.
use low_latency_logger.Prelude.{
  ℕ, zero, suc, true, some, List, [], ◌++◌, ◌≡◌, refl, ap, map, length, arith,
}
use low_latency_logger.Prelude.Text.{Text, text, decimal, signed_decimal}
use low_latency_logger.Level.{level_to_string}
use low_latency_logger.Record.{set_message, set_source_location}
use low_latency_logger.Spsc.{produce, produce_at, consume, consume_at}
use low_latency_logger.Formatter.{
  format_record, print_line, appendf, append_location, put_byte, put_message,
}
use low_latency_logger.Libc.{snprintf, overwrite}
use low_latency_logger.Logger.{prepare_record, place_if_known}
use low_latency_logger.Sink.{open_file, close_file, write_file, flush_file}
use low_latency_logger.Sink.Delivery.{replay}
use low_latency_logger.Sink.Life.{lifetime}
use low_latency_logger.Backend.{
  Machine, launched, loop_at, pop_step, loop_step, produce_step, Step, Reach,
}
use low_latency_logger.Backend.Latency.{Attends}
use low_latency_logger.System.{LogCall, record_of}
use low_latency_logger.System.Served.{IsRecordOf}
use low_latency_logger.Tests.{four-IsCapacity}
use low_latency_logger.Tests.Messages.{small}
use low_latency_logger.Tests.Delivered.{garbage}
use low_latency_logger.Formatter.Read.{read_log}
use low_latency_logger.System.ReadBack.{IsLegible, call_heading}
use low_latency_logger.System.PromptRead.{read_promptly}
use low_latency_logger.Tests.Whole.{hello-IsLegible, hello, memory, memory-IsStdio}
use low_latency_logger.Tests.Backend.{four}

abbrev push_step : Machine → Machine
push_step = produce_step four (record_of 4 small hello) 0

abbrev called : Machine
called = push_step (push_step (push_step (push_step (launched garbage))))

hello-IsRecordOf :
    {Kind : LogCall → Type 0} → Kind hello → IsRecordOf 4 small Kind (record_of 4 small hello)
hello-IsRecordOf ok = record { call = hello; kind = ok; same = refl }

called-Reach :
    {Kind : LogCall → Type 0} → Kind hello → Reach four (IsRecordOf 4 small Kind) garbage called
unfolding produce produce_at
called-Reach {Kind} ok =
    Reach.later
      (Reach.later
        (Reach.later
          (Reach.later (Reach.begin)
            (Step.produces _ 0 (hello-IsRecordOf ok) (omega arith) (omega arith)))
          (Step.produces _ 0 (hello-IsRecordOf ok) (omega arith) (omega arith)))
        (Step.produces _ 0 (hello-IsRecordOf ok) (omega arith) (omega arith)))
      (Step.produces _ 0 (hello-IsRecordOf ok) (omega arith) (omega arith))

abbrev served : ℕ → Machine
served zero = called
served (suc n) = loop_step four (served n).ring.write_index.stores true (served n)

served-Attends :
    (Kind : LogCall → Type 0) (n : ℕ) → Attends four (IsRecordOf 4 small Kind) called n (served n)
served-Attends Kind zero = Attends.rests
served-Attends Kind (suc n) = Attends.loops (served-Attends Kind n)

opened_empty : (f : Text) → memory.fopen (text "app.log") (text "ab") ≡ some f → f ≡ []
opened_empty f e = cc

served-file :
    lifetime small memory (some (text "app.log")) (text "ab") (served 18).calls
    ≡ record { file = some (text "[12] [INFO] [tid=3] a.c:42 f hello\n"); stderr = [] }
unfolding produce produce_at loop_step loop_at pop_step consume consume_at replay open_file
    close_file write_file flush_file record_of set_message set_source_location prepare_record
    place_if_known format_record print_line appendf append_location put_byte put_message decimal
    signed_decimal level_to_string snprintf overwrite
served-file = refl

read_promptly_example :
    (before : List LogCall) × (since : List LogCall) × (f' : Text) × (map (record_of 4 small) before
      ≡ called.ring.pushed)
    × ((lifetime small memory (some (text "app.log")) (text "ab") (served 18).calls).file ≡ some f')
    × (read_log true f' ≡ map (λ call. some (call_heading small (λ t. t) call)) (before ++ since))
unfolding produce produce_at
read_promptly_example =
    read_promptly small (λ t. t) 4 (omega arith) four-IsCapacity memory memory-IsStdio (λ f. refl)
      refl garbage (text "app.log") (text "ab") refl (called-Reach hello-IsLegible) refl
      (served-Attends (IsLegible small (λ t. t)) 18) (omega arith) opened_empty
      (omega (arith, ap (λ s. length s.stderr) served-file))
