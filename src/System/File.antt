-- ===== src/System/File.antt =====
-- The whole way of a message: from the calls of a producer to the bytes of a log file.
use low_latency_logger.Prelude.{
  ℕ, ◌+◌, ◌-◌, ◌≤◌, ◌<◌, true, some, List, [], ◌∷◌, ◌++◌, ◌≡◌, refl, sym, ap, ap₂, ◌∙◌, length,
  take, map, map-append, All,
}
use mathlib.Core.List.{Sublist, Sublistᴰ}
use mathlib.Core.Logic.{∥∥₁_map}
use low_latency_logger.Prelude.Text.{Text, joined}
use low_latency_logger.Config.{Config}
use low_latency_logger.Record.{LogRecord}
use low_latency_logger.RingBuffer.Capacity.{IsCapacity}
use low_latency_logger.RingBuffer.Queue.{Holds}
use low_latency_logger.Consumer.{SinkCall, World, Outcome, finished, loop}
use low_latency_logger.Consumer.Trace.{EventOk, stop_ahead, pushed_by, pushed_in, written}
use low_latency_logger.Pipeline.{k_scratch_size, text_setup, started}
use low_latency_logger.Pipeline.Delivery.{IsPrintable, cut_line, delivery}
use low_latency_logger.Sink.{Stdio, FileSink}
use low_latency_logger.Sink.Delivery.{IsStdio, replay, replay_ended}
use low_latency_logger.System.{LogCall, Act, calls, stop, event_of, events_of}
use low_latency_logger.System.Entries.{IsCallable, call_line, record_of-IsPrintable, record_of-line}

-- The calls of a schedule, in order.
abbrev pub calls_by : List Act → List LogCall
calls_by [] = []
calls_by (calls call ∷ acts) = call ∷ calls_by acts
calls_by (stop ∷ acts) = calls_by acts

abbrev pub calls_in : List (List Act) → List LogCall
calls_in [] = []
calls_in (batch ∷ later) = calls_by batch ++ calls_in later

abbrev pub ActOk : Config → Act → Type 0
ActOk cfg (calls call) = IsCallable cfg call
ActOk cfg stop = Unit

-- The calls that the loop made of its sink.
abbrev pub sink_calls : Outcome → List SinkCall
sink_calls (finished last) = last.calls
sink_calls _ = []

map-Sublistᴰ :
    {A B : Type 0} (f : A → B) {xs ys : List A} → Sublistᴰ xs ys → Sublistᴰ (map f xs) (map f ys)
map-Sublistᴰ f Sublistᴰ.slnil = Sublistᴰ.slnil
map-Sublistᴰ f (Sublistᴰ.cons s) = Sublistᴰ.cons (map-Sublistᴰ f s)
map-Sublistᴰ f (Sublistᴰ.cons-cons e s) = Sublistᴰ.cons-cons (ap f e) (map-Sublistᴰ f s)

pub map-Sublist :
    {A B : Type 0} (f : A → B) {xs ys : List A} → Sublist xs ys → Sublist (map f xs) (map f ys)
map-Sublist f {xs} {ys} s = ∥∥₁_map {B = Sublistᴰ (map f xs) (map f ys)} s (map-Sublistᴰ f)

-- The line of a call, cut to the scratch buffer of the consumer.
abbrev pub printed_line : Config → (ℕ → ℕ) → LogCall → Text
printed_line cfg ns call = take (k_scratch_size cfg - 1) (call_line cfg ns call)

module _ (cfg : Config) (ns : ℕ → ℕ) (c : ℕ) where
  -- The loop, run on a schedule by which the calls happen.
  abbrev pub run_with : Text → List (List Act) → Outcome
  run_with scratch schedule =
      loop (text_setup cfg ns c) (length (events_of c cfg schedule) + 1)
        (started scratch (events_of c cfg schedule))

  module _ (positive : 0 < cfg.max_message_size) where
    ActOk-EventOk :
        (acts : List Act)
        → All (ActOk cfg) acts
        → All (EventOk (IsPrintable cfg)) (map (event_of c cfg) acts)
    ActOk-EventOk [] ok = ok
    ActOk-EventOk (calls call ∷ acts) (ok, later) =
        (record_of-IsPrintable c cfg positive call ok, ActOk-EventOk acts later)
    ActOk-EventOk (stop ∷ acts) (ok, later) = (tt, ActOk-EventOk acts later)

    events_of-ok :
        (schedule : List (List Act))
        → All (All (ActOk cfg)) schedule
        → All (All (EventOk (IsPrintable cfg))) (events_of c cfg schedule)
    events_of-ok [] ok = ok
    events_of-ok (acts ∷ schedule) (ok, later) =
        (ActOk-EventOk acts ok, events_of-ok schedule later)

    -- The lines of the records pushed are those of the calls.
    lines-pushed_by :
        (acts : List Act)
        → All (ActOk cfg) acts
        → map (cut_line cfg ns) (pushed_by (map (event_of c cfg) acts))
          ≡ map (printed_line cfg ns) (calls_by acts)
    lines-pushed_by [] ok = refl
    lines-pushed_by (calls call ∷ acts) (ok, later) =
        ap₂ (λ x xs. take (k_scratch_size cfg - 1) x ∷ xs)
          (record_of-line c cfg positive ns call ok) (lines-pushed_by acts later)
    lines-pushed_by (stop ∷ acts) (ok, later) = lines-pushed_by acts later

    lines-pushed_in :
        (schedule : List (List Act))
        → All (All (ActOk cfg)) schedule
        → map (cut_line cfg ns) (pushed_in (events_of c cfg schedule))
          ≡ map (printed_line cfg ns) (calls_in schedule)
    lines-pushed_in [] ok = refl
    lines-pushed_in (acts ∷ schedule) (ok, later) =
        map-append (cut_line cfg ns) (pushed_by (map (event_of c cfg) acts))
          (pushed_in (events_of c cfg schedule))
        ∙ ap₂ (λ x y. x ++ y) (lines-pushed_by acts ok) (lines-pushed_in schedule later)
        ∙ sym (map-append (printed_line cfg ns) (calls_by acts) (calls_in schedule))

    module _ (v : IsCapacity c) {F : Type 0} (io : Stdio F) {contents stored : F → Text}
        (std : IsStdio io contents stored) (on : cfg.enable_stderr_diagnostics ≡ true) where
      -- For a valid capacity, a message size that is not zero, diagnostics compiled in, and streams
      -- that do what the C standard says: a producer makes calls of `Log` and `LogFormat`, each
      -- with a message that is not null, a fresh record whose buffer has its size and a location
      -- shorter than 2^31 bytes, while the loop runs on a ring that was empty, and a `Stop` is
      -- among what happens; the consumer writes to a `FileSink` whose file was opened. If the sink
      -- prints nothing on stderr, then the loop returns, the file is still open, and has stored
      -- exactly some lines, one after the other; these lines, followed by those of the records that
      -- wait in the ring, are the lines of some of the calls, in the order of the calls: time
      -- stamp, level, thread, location and message of the call, cut to the scratch buffer.
      pub file_delivery :
          (scratch : Text) (schedule : List (List Act)) (f : F) (s : FileSink F)
          → length scratch ≡ k_scratch_size cfg
          → All (All (ActOk cfg)) schedule
          → stop_ahead (events_of c cfg schedule) ≡ true
          → s.file ≡ some f
          → length (replay cfg io (sink_calls (run_with scratch schedule)) s).stderr
            ≤ length s.stderr
          → (last : World) × (waiting : List LogRecord) × (printed : List Text) × (f' : F)
            × (run_with scratch schedule ≡ finished last)
            × Holds c last.ring waiting
            × ((replay cfg io (sink_calls (run_with scratch schedule)) s).file ≡ some f')
            × (stored f' ≡ contents f ++ joined printed)
            × Sublist
                (printed ++ map (cut_line cfg ns) waiting)
                (map (printed_line cfg ns) (calls_in schedule))
      file_delivery scratch schedule f s sized ok stops opened quiet =
          let (last, before, waiting, returns, lines, conserved, offered, holds, flushed) =
            delivery cfg ns v scratch (events_of c cfg schedule) sized (events_of-ok schedule ok)
              stops in
          let (f', kept, grown) =
            replay_ended cfg io std on (sink_calls (run_with scratch schedule)) before f s
              (ap sink_calls returns ∙ flushed) opened quiet in
          (
            last,
            waiting,
            map (cut_line cfg ns) last.emitted,
            f',
            returns,
            holds,
            kept,
            grown
                ∙ ap (λ ts. contents f ++ joined ts)
                    (ap (λ o. written (sink_calls o)) returns ∙ lines),
            rw
                (
                  ← map-append (cut_line cfg ns) last.emitted waiting,
                  conserved,
                  ← lines-pushed_in schedule ok,
                )
                (map-Sublist (cut_line cfg ns) offered),
          )
