-- ===== src/System/PromptRead.antt =====
-- What a reader of the log file learns about the calls, with the two threads one access at a time.
use low_latency_logger.Prelude.{
  ℕ, ◌+◌, ◌-◌, ◌*◌, ◌≤◌, ◌<◌, true, false, some, List, [], ◌∷◌, ◌++◌, ◌≡◌, refl, sym, ap, ap₂, ◌∙◌,
  length, map, All,
}
use low_latency_logger.Prelude.Text.{Text, joined}
use low_latency_logger.Config.{Config}
use low_latency_logger.RingBuffer.Capacity.{IsCapacity}
use low_latency_logger.Pipeline.{k_scratch_size, text_setup}
use low_latency_logger.Pipeline.Delivery.{cut_line}
use low_latency_logger.Sink.{Stdio}
use low_latency_logger.Sink.Delivery.{IsStdio}
use low_latency_logger.Sink.Life.{lifetime, lifetime-stored}
use low_latency_logger.Backend.{Machine, Reach}
use low_latency_logger.Backend.Invariant.{leaving}
use low_latency_logger.Backend.Latency.{Attends}
use low_latency_logger.System.{LogCall, record_of}
use low_latency_logger.Formatter.Read.{read_log}
use low_latency_logger.Formatter.RoundTrip.{IsReadable, heading, read_log-joined}
use low_latency_logger.System.ReadBack.{
  IsLegible, call_heading, record_of-IsReadable, heading-record_of,
}
use low_latency_logger.System.Served.{IsRecordOf, Attends-Served}

module _ (cfg : Config) (ns : ℕ → ℕ) (c : ℕ) (positive : 0 < cfg.max_message_size)
    (v : IsCapacity c) where
  records-IsReadable :
      (calls : List LogCall)
      → All (IsLegible cfg ns) calls
      → All (IsReadable cfg ns (k_scratch_size cfg - 1)) (map (record_of c cfg) calls)
  records-IsReadable [] ok = ok
  records-IsReadable (call ∷ calls) (ok, later) =
      (record_of-IsReadable cfg ns c positive call ok, records-IsReadable calls later)

  headings-record_of :
      (calls : List LogCall)
      → All (IsLegible cfg ns) calls
      → map (λ r. some (heading cfg ns r)) (map (record_of c cfg) calls)
        ≡ map (λ call. some (call_heading cfg ns call)) calls
  headings-record_of [] ok = refl
  headings-record_of (call ∷ calls) (ok, later) =
      ap₂ (λ h hs. some h ∷ hs) (heading-record_of cfg ns c positive call ok.callable)
        (headings-record_of calls later)

  module _ {F : Type 0} (io : Stdio F) {contents stored : F → Text}
      (std : IsStdio io contents stored) (closes : (f : F) → (io.fclose f).0 ≡ true)
      (on : cfg.enable_stderr_diagnostics ≡ true) where
    -- For a valid capacity, a message size that is not zero, diagnostics compiled in, streams that
    -- do what the C standard says and whose `fclose` succeeds, and a scratch buffer of the right
    -- size: take any machine that an interleaving of `Stop`, `Start`, the loop with the text
    -- formatter, and a producer can reach, where the producer pushes records of calls of `Log` and
    -- `LogFormat`; let the loop not be leaving. Each call has a message that is not null, a fresh
    -- record whose buffer has its size, a location shorter than 2^31 bytes, a time and, where it is
    -- compiled in, a thread of 64 bits, no newline in its message and, where it is compiled in, in
    -- its location, and a line that fits the scratch buffer. Once the loop has taken seven steps
    -- for each record pushed and not yet written and eleven more, with loads that return the newest
    -- values and find `is_running_` set, whatever the producer does in between: if a `FileSink` is
    -- constructed on a path whose file is empty, carries out the calls made so far and is
    -- destroyed, and prints nothing on stderr, then a reader that takes the file apart at the
    -- newlines and reads each line gets the time, level, thread, location and message of all the
    -- calls whose records were pushed up to the start, in order, and then those of some later
    -- calls.
    pub read_promptly :
        (scratch path mode : Text)
        → length scratch ≡ k_scratch_size cfg
        → {w u : Machine} {n : ℕ}
        → Reach (text_setup cfg ns c) (IsRecordOf c cfg (IsLegible cfg ns)) scratch w
        → leaving w.pc ≡ false
        → Attends (text_setup cfg ns c) (IsRecordOf c cfg (IsLegible cfg ns)) w n u
        → 7 * (length w.ring.pushed - length w.emitted) + 11 ≤ n
        → ((f : F) → io.fopen path mode ≡ some f → stored f ≡ [])
        → length (lifetime cfg io (some path) mode u.calls).stderr ≤ 0
        → (before : List LogCall) × (since : List LogCall) × (f' : F) × (map
              (record_of c cfg)
              before
            ≡ w.ring.pushed)
          × ((lifetime cfg io (some path) mode u.calls).file ≡ some f')
          × (read_log cfg.enable_thread_id (stored f')
              ≡ map (λ call. some (call_heading cfg ns call)) (before ++ since))
    read_promptly scratch path mode sized reach staying run enough fresh quiet =
        let s =
          Attends-Served cfg ns c positive v (λ call k. k.callable) scratch sized reach staying run
            enough in
        let (f, f', opened, kept, grown) = lifetime-stored cfg io std on closes path mode _ quiet in
        let calls = s.before ++ s.since in
        let bytes : stored f' ≡ joined (map (cut_line cfg ns) (map (record_of c cfg) calls)) =
          grown
          ∙ ap₂ (λ t ts. t ++ joined ts) (fresh f opened)
              (s.lines ∙ ap (map (cut_line cfg ns)) (sym s.emitted)) in
        (
          s.before,
          s.since,
          f',
          s.pushed,
          kept,
          ap (read_log cfg.enable_thread_id) bytes
              ∙ read_log-joined cfg ns (k_scratch_size cfg - 1) (map (record_of c cfg) calls)
                  (records-IsReadable calls s.kinds)
              ∙ headings-record_of calls s.kinds,
        )
