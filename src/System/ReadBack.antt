-- ===== src/System/ReadBack.antt =====
-- What a reader of the log file learns about the calls.
use low_latency_logger.Prelude.{
  ℕ, ◌+◌, ◌-◌, ◌^◌, ◌≤◌, ◌<◌, true, none, some, List, [], ◌∷◌, ◌++◌, ◌≡◌, refl, sym, ap, ap₂, ◌∙◌,
  length, map, map-append, All, All-append_left, if◌then◌else◌, arith,
}
use mathlib.Core.List.{Sublist}
use low_latency_logger.Prelude.Text.{Text, joined}
use low_latency_logger.Config.{Config}
use low_latency_logger.Level.{level_to_string}
use low_latency_logger.Record.{LogRecord}
use low_latency_logger.RingBuffer.Capacity.{IsCapacity}
use low_latency_logger.RingBuffer.Queue.{Holds}
use low_latency_logger.Formatter.Read.{Heading, read_log}
use low_latency_logger.Formatter.Unbroken.{IsUnbroken}
use low_latency_logger.Formatter.RoundTrip.{IsReadable, heading, read_log-joined}
use low_latency_logger.Consumer.{World, finished}
use low_latency_logger.Consumer.Trace.{EventOk, IsSetup, stop_ahead, pushed_by, pushed_in, written}
use low_latency_logger.Pipeline.{k_scratch_size, text_setup, started}
use low_latency_logger.Consumer.Shutdown.{loop-Ended}
use low_latency_logger.Pipeline.Delivery.{IsPrintable, cut_line, text_setup-IsSetup, started-Inv}
use low_latency_logger.Sink.{Stdio, FileSink}
use low_latency_logger.Sink.Delivery.{IsStdio, replay, replay_ended}
use low_latency_logger.System.{LogCall, Act, calls, stop, record_of, event_of, events_of}
use low_latency_logger.System.Entries.{
  only_if, IsCallable, env_of, level_of, location_of, text_of, call_line, record_of-IsPrintable,
  record_of-line, record_of-IsEntry,
}
use low_latency_logger.System.File.{calls_by, calls_in, sink_calls, map-Sublist, run_with}

-- What the line of a call says.
abbrev pub call_heading : Config → (ℕ → ℕ) → LogCall → Heading
call_heading cfg ns call = record {
  time = ns (env_of call).tsc;
  level = level_to_string (level_of call);
  thread = if cfg.enable_thread_id then some (env_of call).thread_hash else none;
  rest =
      (if cfg.enable_source_location then location_of call else [])
      ++ (b' ' ∷ [] ++ (text_of cfg call ++ 10 ∷ []));
}

-- A call whose line can be found and read again: it fits the scratch buffer, and neither the
-- location nor the message breaks it.
pub record IsLegible (cfg : Config) (ns : ℕ → ℕ) (call : LogCall) : Type 0 where
  pub callable : IsCallable cfg call
  pub time_fits : ns (env_of call).tsc < 2 ^ 64
  pub thread_fits : cfg.enable_thread_id ≡ true → (env_of call).thread_hash < 2 ^ 64
  pub fits : length (call_line cfg ns call) ≤ k_scratch_size cfg - 1
  pub one_place : IsUnbroken (if cfg.enable_source_location then location_of call else [])
  pub one_message : IsUnbroken (text_of cfg call)

abbrev pub ActLegible : Config → (ℕ → ℕ) → Act → Type 0
ActLegible cfg ns (calls call) = IsLegible cfg ns call
ActLegible cfg ns stop = Unit

module _ (cfg : Config) (ns : ℕ → ℕ) (c : ℕ) (positive : 0 < cfg.max_message_size) where
  abbrev Good : LogRecord → Type 0
  Good r = IsPrintable cfg r × IsReadable cfg ns (k_scratch_size cfg - 1) r

  pub record_of-IsReadable :
      (call : LogCall)
      → IsLegible cfg ns call
      → IsReadable cfg ns (k_scratch_size cfg - 1) (record_of c cfg call)
  record_of-IsReadable call ok =
      let e = record_of-IsEntry c cfg positive call ok.callable in
      record {
        time_fits = rw e.stamped ok.time_fits;
        thread_fits = λ on. rw (e.threaded on) (ok.thread_fits on);
        fits =
            omega (arith, ap length (record_of-line c cfg positive ns call ok.callable), ok.fits);
        one_place = rw (only_if cfg.enable_source_location [] e.located) ok.one_place;
        one_message = rw e.content ok.one_message;
      }

  pub heading-record_of :
      (call : LogCall)
      → IsCallable cfg call
      → heading cfg ns (record_of c cfg call) ≡ call_heading cfg ns call
  heading-record_of call ok =
      let e = record_of-IsEntry c cfg positive call ok in
      rw
        (
          e.has_level,
          e.stamped,
          e.content,
          only_if cfg.enable_source_location [] e.located,
          only_if cfg.enable_thread_id none (λ on. ap some (e.threaded on)),
        )
        refl

  ActLegible-EventOk :
      (acts : List Act)
      → All (ActLegible cfg ns) acts
      → All (EventOk Good) (map (event_of c cfg) acts)
  ActLegible-EventOk [] ok = ok
  ActLegible-EventOk (calls call ∷ acts) (ok, later) = (
    (record_of-IsPrintable c cfg positive call ok.callable, record_of-IsReadable call ok),
    ActLegible-EventOk acts later,
  )
  ActLegible-EventOk (stop ∷ acts) (ok, later) = (tt, ActLegible-EventOk acts later)

  events_of-Good :
      (schedule : List (List Act))
      → All (All (ActLegible cfg ns)) schedule
      → All (All (EventOk Good)) (events_of c cfg schedule)
  events_of-Good [] ok = ok
  events_of-Good (acts ∷ schedule) (ok, later) =
      (ActLegible-EventOk acts ok, events_of-Good schedule later)

  -- The records pushed say what the calls say.
  headings-pushed_by :
      (acts : List Act)
      → All (ActLegible cfg ns) acts
      → map (λ r. some (heading cfg ns r)) (pushed_by (map (event_of c cfg) acts))
        ≡ map (λ call. some (call_heading cfg ns call)) (calls_by acts)
  headings-pushed_by [] ok = refl
  headings-pushed_by (calls call ∷ acts) (ok, later) =
      ap₂ (λ h hs. some h ∷ hs) (heading-record_of call ok.callable) (headings-pushed_by acts later)
  headings-pushed_by (stop ∷ acts) (ok, later) = headings-pushed_by acts later

  headings-pushed_in :
      (schedule : List (List Act))
      → All (All (ActLegible cfg ns)) schedule
      → map (λ r. some (heading cfg ns r)) (pushed_in (events_of c cfg schedule))
        ≡ map (λ call. some (call_heading cfg ns call)) (calls_in schedule)
  headings-pushed_in [] ok = refl
  headings-pushed_in (acts ∷ schedule) (ok, later) =
      map-append (λ r. some (heading cfg ns r)) (pushed_by (map (event_of c cfg) acts))
        (pushed_in (events_of c cfg schedule))
      ∙ ap₂ (λ x y. x ++ y) (headings-pushed_by acts ok) (headings-pushed_in schedule later)
      ∙ sym
          (map-append (λ call. some (call_heading cfg ns call)) (calls_by acts) (calls_in schedule))

  readable :
      (rs : List LogRecord) → All Good rs → All (IsReadable cfg ns (k_scratch_size cfg - 1)) rs
  readable [] ok = ok
  readable (r ∷ rs) (good, ok) = (good.1, readable rs ok)

  module _ (v : IsCapacity c) where
    Good-IsSetup : IsSetup (text_setup cfg ns c) Good (cut_line cfg ns)
    Good-IsSetup =
        let s = text_setup-IsSetup cfg ns v in
        record {
          capacity_ok = v;
          formats = λ r scratch good sized. s.formats r scratch good.0 sized;
        }

    -- For a valid capacity, a message size that is not zero, diagnostics compiled in, and streams
    -- that do what the C standard says: a producer makes calls of `Log` and `LogFormat` while the
    -- loop runs on a ring that was empty, and a `Stop` is among what happens; the consumer writes
    -- to a `FileSink` whose file was opened and is empty. Each call has a message that is not null,
    -- a fresh record whose buffer has its size, a location shorter than 2^31 bytes, a time and,
    -- where it is compiled in, a thread of 64 bits, no newline in its message and, where it is
    -- compiled in, in its location, and a line that fits the scratch buffer. If the sink prints
    -- nothing on stderr, then the loop returns and the file is still open; a reader that takes what
    -- is stored in it apart at the newlines and reads each line finds in each the time, level,
    -- thread, location and message of a call, and these, followed by those of the records that wait
    -- in the ring, are those of some of the calls, in the order of the calls.
    pub file_read_back :
        {F : Type 0} (io : Stdio F) {contents stored : F → Text} (std : IsStdio io contents stored)
        (on : cfg.enable_stderr_diagnostics ≡ true) (scratch : Text) (schedule : List (List Act))
        (f : F) (s : FileSink F)
        → length scratch ≡ k_scratch_size cfg
        → All (All (ActLegible cfg ns)) schedule
        → stop_ahead (events_of c cfg schedule) ≡ true
        → s.file ≡ some f
        → contents f ≡ []
        → length (replay cfg io (sink_calls (run_with cfg ns c scratch schedule)) s).stderr
          ≤ length s.stderr
        → (last : World) × (waiting : List LogRecord) × (f' : F) × (run_with cfg ns c scratch
              schedule
            ≡ finished last)
          × Holds c last.ring waiting
          × ((replay cfg io (sink_calls (run_with cfg ns c scratch schedule)) s).file ≡ some f')
          × Sublist
              (read_log cfg.enable_thread_id (stored f')
                ++ map (λ r. some (heading cfg ns r)) waiting)
              (map (λ call. some (call_heading cfg ns call)) (calls_in schedule))
    file_read_back io {stored = stored} std on scratch schedule f s sized ok stops opened fresh
          quiet =
        let e =
          loop-Ended Good-IsSetup (length (events_of c cfg schedule) + 1)
            (started scratch (events_of c cfg schedule))
            (started-Inv cfg ns v scratch (events_of c cfg schedule) sized
              (events_of-Good schedule ok))
            stops (omega arith) in
        let (f', kept, grown) =
          replay_ended cfg io std on (sink_calls (run_with cfg ns c scratch schedule)) e.before f s
            (ap sink_calls e.returns ∙ e.flushed) opened quiet in
        let bytes : stored f' ≡ joined (map (cut_line cfg ns) e.last.emitted) =
          grown
          ∙ ap (λ t. t ++ joined (written (sink_calls (run_with cfg ns c scratch schedule)))) fresh
          ∙ ap (λ o. joined (written (sink_calls o))) e.returns
          ∙ ap joined e.account.lines in
        let all_good =
          All-append_left Good e.last.emitted e.account.waiting
            (rw e.account.conserved e.account.accepted_ok) in
        (
          e.last,
          e.account.waiting,
          f',
          e.returns,
          e.account.holds,
          kept,
          rw
              (
                bytes,
                read_log-joined cfg ns (k_scratch_size cfg - 1) e.last.emitted
                    (readable e.last.emitted all_good),
                ← map-append (λ r. some (heading cfg ns r)) e.last.emitted e.account.waiting,
                e.account.conserved,
                ← headings-pushed_in schedule ok,
              )
              (map-Sublist (λ r. some (heading cfg ns r)) e.offered),
        )
