-- ===== src/Backend/File.antt =====
-- The consumer's thread beside the producer's, with the text formatter and a `FileSink`.
use low_latency_logger.Prelude.{ℕ, ◌-◌, ◌≤◌, true, some, List, ◌++◌, ◌≡◌, ap, ◌∙◌, length, map}
use low_latency_logger.Prelude.Text.{Text, joined}
use low_latency_logger.Config.{Config}
use low_latency_logger.Record.{LogRecord}
use low_latency_logger.RingBuffer.Capacity.{IsCapacity}
use low_latency_logger.Pipeline.{k_scratch_size, text_setup}
use low_latency_logger.Pipeline.Delivery.{IsPrintable, cut_line, text_setup-IsSetup}
use low_latency_logger.Sink.{Stdio}
use low_latency_logger.Sink.Delivery.{IsStdio}
use low_latency_logger.Sink.Life.{lifetime, lifetime-stored}
use low_latency_logger.Backend.{Machine, Reach}
use low_latency_logger.Backend.Invariant.{in_hand}
use low_latency_logger.Backend.Account.{accounted}

module _ (cfg : Config) (ns : ℕ → ℕ) {c : ℕ} (v : IsCapacity c) {F : Type 0} (io : Stdio F)
    {contents stored : F → Text} (std : IsStdio io contents stored)
    (closes : (f : F) → (io.fclose f).0 ≡ true) (on : cfg.enable_stderr_diagnostics ≡ true) where
  -- For a valid capacity, diagnostics compiled in, streams that do what the C standard says and
  -- whose `fclose` succeeds, and a scratch buffer of the right size: take any machine that an
  -- interleaving of a producer of printable records, the loop with the text formatter, `Stop` and
  -- `Start` can reach. If a `FileSink` is constructed on a path, carries out the calls made so far
  -- and is destroyed, and prints nothing on stderr, then the file has got, behind what it held,
  -- exactly the lines of the records emitted, each cut to the scratch buffer; these records, the
  -- one in the loop's hand, and at most `Capacity-1` that wait in the ring are the records pushed,
  -- in order.
  pub kept_on_file :
      (scratch path mode : Text)
      → length scratch ≡ k_scratch_size cfg
      → {w : Machine} → Reach (text_setup cfg ns c) (IsPrintable cfg) scratch w
      → length (lifetime cfg io (some path) mode w.calls).stderr ≤ 0
      → (f : F) × (f' : F) × (waiting : List LogRecord) × (io.fopen path mode ≡ some f)
        × ((lifetime cfg io (some path) mode w.calls).file ≡ some f')
        × (stored f' ≡ stored f ++ joined (map (cut_line cfg ns) w.emitted))
        × ((w.emitted ++ in_hand w.pc) ++ waiting ≡ w.ring.pushed)
        × (length waiting ≤ c - 1)
  kept_on_file scratch path mode sized {w} reach quiet =
      let a = accounted (text_setup-IsSetup cfg ns v) scratch sized reach in
      let (f, f', opened, kept, grown) =
        lifetime-stored cfg io std on closes path mode w.calls quiet in
      (
        f,
        f',
        a.waiting,
        opened,
        kept,
        grown ∙ ap (λ ts. stored f ++ joined ts) a.lines,
        a.whole,
        a.room,
      )
