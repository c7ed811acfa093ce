-- ===== src/Tests/Runtime.antt =====
-- An owner who starts a logger, makes two calls, gives the loop eighteen steps, and destroys it.
use low_latency_logger.Prelude.{
  ℕ, zero, suc, ◌≤◌, false, none, some, List, [], ◌++◌, ◌≡◌, refl, ap, map, length, take, arith,
}
use low_latency_logger.Prelude.Text.{Text, text, pos, joined, decimal, signed_decimal}
use low_latency_logger.Level.{Level, level_to_string}
use low_latency_logger.Spsc.{produce, produce_at, consume, consume_at}
use low_latency_logger.Logger.{prepare_record, place_if_known, log_at, log_impl}
use low_latency_logger.Formatter.{
  format_record, print_line, appendf, append_location, put_byte, put_message,
}
use low_latency_logger.Libc.{snprintf, overwrite}
use low_latency_logger.Sink.{open_file, close_file, write_file, flush_file}
use low_latency_logger.Sink.Delivery.{replay}
use low_latency_logger.Record.{set_message, set_source_location}
use low_latency_logger.Sink.Life.{lifetime}
use low_latency_logger.Lifecycle.{exchange, assign_thread, join_thread}
use low_latency_logger.Backend.{loop_at, pop_step, loop_step}
use low_latency_logger.System.{LogCall, record_of}
use low_latency_logger.System.Entries.{IsCallable}
use low_latency_logger.System.File.{printed_line}
use low_latency_logger.Frontend.{Front, after_push, call_step, null_step}
use low_latency_logger.Frontend
use low_latency_logger.Frontend.Returns.{accepted}
use low_latency_logger.Frontend.Serving.{Serves}
use low_latency_logger.Runtime.{
  loop_turn, Runtime, built, start_exchange, start_thread, stop_exchange, stop_join, after_stop,
  destroy_rest, ending_logger, Place, Step, Reach,
}
use low_latency_logger.Runtime.Safety.{Relies, owned, untouched}
use low_latency_logger.Runtime.Ending.{destroyed_on_file}
use low_latency_logger.Tests.{four-IsCapacity}
use low_latency_logger.Tests.Messages.{small, env}
use low_latency_logger.Tests.Delivered.{garbage}
use low_latency_logger.Tests.Whole.{hello, hello-IsCallable, memory, memory-IsStdio}
use low_latency_logger.Tests.Backend.{four}
use low_latency_logger.Tests.Frontend.{asked, tended, tended-Serves}

abbrev started : Runtime
started = start_thread garbage (start_exchange (built garbage))

abbrev running : Runtime
running = record started { front = asked }

resting-differs : ¬ (Place.resting ≡ Place.gone)
resting-differs = λ e. cc

running-Reach : Reach small (λ t. t) 4 (IsCallable small) garbage running
unfolding start_exchange start_thread exchange assign_thread call_step null_step after_push produce
    produce_at log_at log_impl
running-Reach =
    let s0 =
      Reach.later (Reach.later (Reach.begin) (Step.starts refl)) (Step.assigns garbage refl refl) in
    let s1 =
      Reach.later s0
        (Step.calls hello 0 resting-differs hello-IsCallable (omega arith) (omega arith)) in
    let s2 =
      Reach.later s1
        (Step.calls hello 0 resting-differs hello-IsCallable (omega arith) (omega arith)) in
    let s3 =
      Reach.later s2
        (Step.calls hello 0 resting-differs hello-IsCallable (omega arith) (omega arith)) in
    let s4 =
      Reach.later s3
        (Step.calls hello 0 resting-differs hello-IsCallable (omega arith) (omega arith)) in
    Reach.later s4 (Step.null_calls env Level.warn none (pos 0) none resting-differs refl)

owned_example :
    Frontend.Reach small (λ t. t) 4 (IsCallable small) garbage running.front
    × (running.life.terminated ≡ false)
    × Relies running.place running
owned_example = owned small (λ t. t) 4 (IsCallable small) garbage running-Reach

abbrev told : Runtime
told = stop_exchange ending_logger (record running { front = tended 18 })

-- The loop after the destructor has cleared the flag.
abbrev closed : ℕ → Front
closed zero = told.front
closed (suc n) = record (closed n) {
  machine = loop_step four (closed n).machine.ring.write_index.stores false (closed n).machine;
}

closed-Serves : (n : ℕ) → Serves small (λ t. t) 4 (IsCallable small) false told.front n (closed n)
closed-Serves zero = Serves.rests
closed-Serves (suc n) = Serves.loops (closed-Serves n)

closed-file :
    lifetime small memory (some (text "app.log")) (text "ab") (closed 8).machine.calls
    ≡ record { file = some (text "[12] [INFO] [tid=3] a.c:42 f hello\n"); stderr = [] }
unfolding start_exchange start_thread stop_exchange exchange assign_thread call_step null_step
    after_push log_at log_impl produce produce_at loop_step loop_at pop_step consume consume_at
    replay open_file close_file write_file flush_file record_of set_message set_source_location
    prepare_record place_if_known format_record print_line appendf append_location put_byte
    put_message decimal signed_decimal level_to_string snprintf overwrite
closed-file = refl

-- The owner's last state.
closed-place :
    let last = destroy_rest (record told { front = closed 8 }) in
    (last.place ≡ Place.gone) × (last.life.terminated ≡ false) × (last.life.joinable ≡ false)
unfolding destroy_rest stop_join after_stop join_thread start_exchange start_thread stop_exchange
    exchange assign_thread call_step null_step after_push log_at log_impl produce produce_at
closed-place = (refl, refl, refl)

destroyed_on_file_example :
    let last = destroy_rest (record told { front = closed 8 }) in
    Reach small (λ t. t) 4 (IsCallable small) garbage last
    × (last.place ≡ Place.gone)
    × (last.front ≡ closed 8)
    × ((more : List LogCall) × (k : ℕ) × (file : Text) × (file' : Text) × (accepted
            (closed 8).answers
          ≡ accepted asked.answers ++ more)
        × (length (accepted asked.answers) ≤ k)
        × (memory.fopen (text "app.log") (text "ab") ≡ some file)
        × ((lifetime small memory (some (text "app.log")) (text "ab") (closed 8).machine.calls).file
            ≡ some file')
        × (file'
            ≡ file
              ++ joined (map (printed_line small (λ t. t)) (take k (accepted (closed 8).answers)))))
unfolding start_exchange start_thread exchange assign_thread call_step null_step after_push produce
    produce_at log_at log_impl
destroyed_on_file_example =
    destroyed_on_file small (λ t. t) 4 (omega arith) four-IsCapacity memory memory-IsStdio refl
      garbage (text "app.log") (text "ab") refl running-Reach refl refl (tended-Serves 18)
      (omega arith) (closed-Serves 8) (omega arith)
      (omega (arith, ap (λ s. length s.stderr) closed-file))

abbrev last : Runtime
last = destroy_rest (record told { front = closed 8 })

last-Reach : Reach small (λ t. t) 4 (IsCallable small) garbage last
unfolding start_exchange start_thread exchange assign_thread call_step null_step after_push produce
    produce_at log_at log_impl
last-Reach =
    (destroyed_on_file small (λ t. t) 4 (omega arith) four-IsCapacity memory memory-IsStdio refl
      garbage (text "app.log") (text "ab") refl running-Reach refl refl (tended-Serves 18)
      (omega arith) (closed-Serves 8) (omega arith)
      (omega (arith, ap (λ s. length s.stderr) closed-file))).0

-- The thread that has ended, once more.
abbrev later : Runtime
later = loop_turn small (λ t. t) 4 1 false last

last-Step : Step small (λ t. t) 4 (IsCallable small) last later
unfolding destroy_rest stop_join after_stop join_thread start_exchange start_thread stop_exchange
    exchange assign_thread call_step null_step after_push log_at log_impl produce produce_at
    loop_step loop_at pop_step consume consume_at
last-Step = Step.loops 1 false (omega arith) (omega arith) (omega arith) (λ e. refl)

untouched_example : later ≡ last
unfolding destroy_rest stop_join after_stop join_thread start_exchange start_thread stop_exchange
    exchange assign_thread call_step null_step after_push log_at log_impl produce produce_at
untouched_example = untouched small (λ t. t) 4 (IsCallable small) garbage last-Reach refl last-Step
