-- ===== src/Tests/Frontend.antt =====
-- Calls on a ring of four slots: one is answered `Success`, one has a null message, and the loop
-- writes the first; and a burst of four, the last of which finds the ring full.
use low_latency_logger.Prelude.{
  min, ◌/◌, ◌+◌, ℕ, zero, suc, ◌≤◌, true, none, some, List, [], ◌∷◌, ◌++◌, ◌≡◌, refl, ap, map,
  length, take, arith,
}
use low_latency_logger.Prelude.Text.{Text, text, pos, decimal, signed_decimal, joined}
use low_latency_logger.Level.{Level, level_to_string}
use low_latency_logger.Record.{set_message, set_source_location}
use low_latency_logger.Spsc.{produce, produce_at, consume, consume_at}
use low_latency_logger.Formatter.{
  format_record, print_line, appendf, append_location, put_byte, put_message,
}
use low_latency_logger.Libc.{snprintf, overwrite}
use low_latency_logger.Logger.{
  LogResult, success, buffer_full, prepare_record, place_if_known, note_drop, log_at, log_impl,
  drop_warning,
}
use low_latency_logger.Sink.{open_file, close_file, write_file, flush_file}
use low_latency_logger.Sink.Delivery.{replay}
use low_latency_logger.Sink.Life.{lifetime}
use low_latency_logger.Backend.{loop_at, pop_step, loop_step}
use low_latency_logger.System.{LogCall, record_of}
use low_latency_logger.System.Entries.{IsCallable}
use low_latency_logger.System.File.{printed_line}
use low_latency_logger.Frontend.{
  messages, nulls, Front, opened, after_push, call_step, null_step, Step, Reach,
}
use low_latency_logger.Frontend.Returns.{accepted}
use low_latency_logger.Frontend.Account.{IsAnswered, answered, drops_counted}
use low_latency_logger.Frontend.Serving.{Serves}
use low_latency_logger.Frontend.File.{success_on_file}
use low_latency_logger.Tests.{four-IsCapacity}
use low_latency_logger.Tests.Messages.{small, env}
use low_latency_logger.Tests.Delivered.{garbage}
use low_latency_logger.Tests.Whole.{hello, hello-IsCallable, memory, memory-IsStdio}
use low_latency_logger.Tests.Backend.{four}

abbrev step : Front → Front
step = call_step small (λ t. t) 4 hello 0

-- The four steps of a call for which there is room.
abbrev call_once : Front → Front
call_once f = step (step (step (step f)))

abbrev pub asked : Front
asked = null_step small (λ t. t) 4 env Level.warn none (pos 0) none (call_once (opened garbage))

asked-answers :
    asked.answers
    ≡ (messages hello, success) ∷ (nulls env Level.warn none (pos 0) none, LogResult.error) ∷ []
unfolding call_step null_step after_push produce produce_at log_at log_impl
asked-answers = refl

asked-Reach : Reach small (λ t. t) 4 (IsCallable small) garbage asked
unfolding call_step null_step after_push produce produce_at log_at log_impl
asked-Reach =
    Reach.later
      (Reach.later
        (Reach.later
          (Reach.later
            (Reach.later (Reach.begin)
              (Step.calls hello 0 hello-IsCallable (omega arith) (omega arith)))
            (Step.calls hello 0 hello-IsCallable (omega arith) (omega arith)))
          (Step.calls hello 0 hello-IsCallable (omega arith) (omega arith)))
        (Step.calls hello 0 hello-IsCallable (omega arith) (omega arith)))
      (Step.null_calls env Level.warn none (pos 0) none refl)

answered_example : IsAnswered small (λ t. t) 4 asked
answered_example = answered small (λ t. t) 4 (omega arith) four-IsCapacity garbage refl asked-Reach

-- The fourth call finds three records in the ring, and its drop is reported.
abbrev overflowing : Front
overflowing = step (step (call_once (call_once (call_once (opened garbage)))))

overflowing-answers :
    (overflowing.answers
      ≡ (messages hello, success)
        ∷ (messages hello, success)
        ∷ (messages hello, success)
        ∷ (messages hello, buffer_full)
        ∷ [])
    × (overflowing.dropped_count ≡ 1)
    × (overflowing.stderr ≡ drop_warning 1 ∷ [])
unfolding call_step null_step after_push produce produce_at note_drop
overflowing-answers = (refl, refl, refl)

-- A step of the producer that has seen nothing of the consumer.
step-Reach :
    {f : Front}
    → Reach small (λ t. t) 4 (IsCallable small) garbage f
    → f.machine.ring.seen_read ≡ 0
    → Reach small (λ t. t) 4 (IsCallable small) garbage (step f)
step-Reach {f} reach e =
    Reach.later reach (Step.calls hello 0 hello-IsCallable (omega (arith, e)) (omega arith))

overflowing-Reach : Reach small (λ t. t) 4 (IsCallable small) garbage overflowing
unfolding call_step after_push produce produce_at note_drop
overflowing-Reach =
    let one = step-Reach (step-Reach (step-Reach (step-Reach (Reach.begin) refl) refl) refl) refl in
    let two = step-Reach (step-Reach (step-Reach (step-Reach (one) refl) refl) refl) refl in
    let three = step-Reach (step-Reach (step-Reach (step-Reach (two) refl) refl) refl) refl in
    step-Reach (step-Reach (three) refl) refl

drops_counted_example :
    (overflowing.dropped_count ≡ 1) × (length overflowing.stderr ≡ min 1 1 + 1 / 1000)
unfolding call_step after_push produce produce_at note_drop
drops_counted_example =
    drops_counted small (λ t. t) 4 (IsCallable small) garbage overflowing-Reach refl (omega arith)

abbrev pub tended : ℕ → Front
tended zero = asked
tended (suc n) = record (tended n) {
  machine = loop_step four (tended n).machine.ring.write_index.stores true (tended n).machine;
}

pub tended-Serves : (n : ℕ) → Serves small (λ t. t) 4 (IsCallable small) true asked n (tended n)
tended-Serves zero = Serves.rests
tended-Serves (suc n) = Serves.loops (tended-Serves n)

tended-file :
    lifetime small memory (some (text "app.log")) (text "ab") (tended 18).machine.calls
    ≡ record { file = some (text "[12] [INFO] [tid=3] a.c:42 f hello\n"); stderr = [] }
unfolding call_step null_step after_push log_at log_impl produce produce_at loop_step loop_at
    pop_step consume consume_at replay open_file close_file write_file flush_file record_of
    set_message set_source_location prepare_record place_if_known format_record print_line appendf
    append_location put_byte put_message decimal signed_decimal level_to_string snprintf overwrite
tended-file = refl

success_on_file_example :
    (more : List LogCall) × (k : ℕ) × (file : Text) × (file' : Text) × (accepted (tended 18).answers
      ≡ accepted asked.answers ++ more)
    × (length (accepted asked.answers) ≤ k)
    × (memory.fopen (text "app.log") (text "ab") ≡ some file)
    × ((lifetime small memory (some (text "app.log")) (text "ab") (tended 18).machine.calls).file
        ≡ some file')
    × (file'
        ≡ file
          ++ joined (map (printed_line small (λ t. t)) (take k (accepted (tended 18).answers))))
unfolding call_step null_step after_push produce produce_at log_at log_impl
success_on_file_example =
    success_on_file small (λ t. t) 4 (omega arith) four-IsCapacity memory memory-IsStdio (λ f. refl)
      refl garbage (text "app.log") (text "ab") refl asked-Reach refl (tended-Serves 18)
      (omega arith) (omega (arith, ap (λ s. length s.stderr) tended-file))
