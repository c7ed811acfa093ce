-- ===== src/System/Prompt.antt =====
-- include/logger.h with include/consumer.h, one access of shared memory at a time: calls of `Log`
-- and `LogFormat` whose records the producer pushes while the consumer's thread runs, and the bytes
-- of a log file.
use low_latency_logger.Prelude.{
  ℕ, ◌+◌, ◌-◌, ◌*◌, ◌≤◌, ◌<◌, true, false, some, List, [], ◌∷◌, ◌++◌, ◌≡◌, refl, sym, ap, ap₂, ◌∙◌,
  length, take, map, All,
}
use low_latency_logger.Prelude.Text.{Text, joined}
use low_latency_logger.Config.{Config}
use low_latency_logger.RingBuffer.Capacity.{IsCapacity}
use low_latency_logger.Pipeline.{k_scratch_size, text_setup}
use low_latency_logger.Pipeline.Delivery.{cut_line}
use low_latency_logger.Sink.{Stdio}
use low_latency_logger.Sink.Delivery.{IsStdio}
use low_latency_logger.Sink.Life.{lifetime, lifetime-stored}
use low_latency_logger.Backend.{Machine, Reach}
use low_latency_logger.Backend.Invariant.{leaving}
use low_latency_logger.Backend.Latency.{Attends}
use low_latency_logger.System.{LogCall, record_of}
use low_latency_logger.System.Entries.{IsCallable, record_of-line}
use low_latency_logger.System.File.{printed_line}
use low_latency_logger.System.Served.{IsRecordOf, Attends-Served}

module _ (cfg : Config) (ns : ℕ → ℕ) (c : ℕ) (positive : 0 < cfg.max_message_size)
    (v : IsCapacity c) where
  pub lines-record_of :
      (calls : List LogCall)
      → All (IsCallable cfg) calls
      → map (cut_line cfg ns) (map (record_of c cfg) calls) ≡ map (printed_line cfg ns) calls
  lines-record_of [] ok = refl
  lines-record_of (call ∷ calls) (ok, later) =
      ap₂ (λ x xs. take (k_scratch_size cfg - 1) x ∷ xs) (record_of-line c cfg positive ns call ok)
        (lines-record_of calls later)

  module _ {F : Type 0} (io : Stdio F) {contents stored : F → Text}
      (std : IsStdio io contents stored) (closes : (f : F) → (io.fclose f).0 ≡ true)
      (on : cfg.enable_stderr_diagnostics ≡ true) where
    -- For a valid capacity, a message size that is not zero, diagnostics compiled in, streams that
    -- do what the C standard says and whose `fclose` succeeds, and a scratch buffer of the right
    -- size: take any machine that an interleaving of `Stop`, `Start`, the loop with the text
    -- formatter, and a producer can reach, where the producer pushes records of calls of `Log` and
    -- `LogFormat`, each call with a message that is not null, a fresh record whose buffer has its
    -- size and a location shorter than 2^31 bytes; let the loop not be leaving. Once the loop has
    -- taken seven steps for each record pushed and not yet written and eleven more, with loads that
    -- return the newest values and find `is_running_` set, whatever the producer does in between:
    -- if a `FileSink` is constructed on a path, carries out the calls made so far and is destroyed,
    -- and prints nothing on stderr, then the file has got, behind what it held, the lines of all
    -- the calls whose records were pushed up to the start, in order, and then those of some later
    -- calls: time stamp, level, thread, location and message of the call, cut to the scratch
    -- buffer.
    pub promptly_on_file :
        (scratch path mode : Text)
        → length scratch ≡ k_scratch_size cfg
        → {w u : Machine} {n : ℕ}
        → Reach (text_setup cfg ns c) (IsRecordOf c cfg (IsCallable cfg)) scratch w
        → leaving w.pc ≡ false
        → Attends (text_setup cfg ns c) (IsRecordOf c cfg (IsCallable cfg)) w n u
        → 7 * (length w.ring.pushed - length w.emitted) + 11 ≤ n
        → length (lifetime cfg io (some path) mode u.calls).stderr ≤ 0
        → (before : List LogCall) × (since : List LogCall) × (f : F) × (f' : F) × (map
              (record_of c cfg)
              before
            ≡ w.ring.pushed)
          × (io.fopen path mode ≡ some f)
          × ((lifetime cfg io (some path) mode u.calls).file ≡ some f')
          × (stored f' ≡ stored f ++ joined (map (printed_line cfg ns) (before ++ since)))
    promptly_on_file scratch path mode sized reach staying run enough quiet =
        let s =
          Attends-Served cfg ns c positive v (λ call k. k) scratch sized reach staying run enough in
        let (f, f', opened, kept, grown) = lifetime-stored cfg io std on closes path mode _ quiet in
        (
          s.before,
          s.since,
          f,
          f',
          s.pushed,
          opened,
          kept,
          grown
              ∙ ap (λ ts. stored f ++ joined ts)
                  (s.lines
                    ∙ ap (map (cut_line cfg ns)) (sym s.emitted)
                    ∙ lines-record_of (s.before ++ s.since) s.kinds),
        )
