-- ===== src/Frontend/Account.antt =====
-- include/logger.h: what the answers of the calls say about the records.
use low_latency_logger.Prelude.{
  ℕ, ◌+◌, ◌-◌, ◌/◌, ◌^◌, ◌≤◌, ◌<◌, min, true, List, ◌++◌, ◌≡◌, refl, ap, ◌∙◌, length, map, arith,
  All,
}
use low_latency_logger.Prelude.Text.{Text}
use low_latency_logger.Config.{Config}
use low_latency_logger.Record.{LogRecord}
use low_latency_logger.RingBuffer.Capacity.{IsCapacity}
use low_latency_logger.Logger.Drops.{drop_times_lem}
use low_latency_logger.Consumer.Trace.{written}
use low_latency_logger.Pipeline.{k_scratch_size}
use low_latency_logger.Pipeline.Delivery.{cut_line}
use low_latency_logger.Backend.Invariant.{in_hand}
use low_latency_logger.Backend.Account.{accounted}
use low_latency_logger.System.{LogCall, record_of}
use low_latency_logger.System.Entries.{IsCallable}
use low_latency_logger.System.Served.{calls-IsSetup}
use low_latency_logger.Frontend.{Front, Reach}
use low_latency_logger.Frontend.Returns.{accepted, dropped, Fits}
use low_latency_logger.Frontend.Invariant.{fresh, Reach-Inv}

-- The answers of the calls tell what became of their records.
pub record IsAnswered (cfg : Config) (ns : ℕ → ℕ) (c : ℕ) (f : Front) : Type 0 where
  pub waiting : List LogRecord
  pub whole :
      (f.machine.emitted ++ in_hand f.machine.pc) ++ waiting
      ≡ map (record_of c cfg) (accepted f.answers)
  pub room : length waiting ≤ c - 1
  pub lines : written f.machine.calls ≡ map (cut_line cfg ns) f.machine.emitted
  pub fits : All Fits f.answers

-- For a valid capacity, a message size above zero and a scratch buffer of the right size: in every
-- history of a producer whose calls have messages of which the source says what they print, or null
-- ones, of the loop and of a thread that calls `Stop` and `Start`, the records of the calls
-- answered `Success`, in order, are those written, then the one in the loop's hand, then at most
-- `Capacity - 1` that wait; the texts written are the lines of the records written; and a call is
-- answered `Error` exactly if its message is null.
pub answered :
    (cfg : Config) (ns : ℕ → ℕ) (c : ℕ)
    → 0 < cfg.max_message_size
    → IsCapacity c
    → (scratch : Text) → length scratch ≡ k_scratch_size cfg
    → {f : Front} → Reach cfg ns c (IsCallable cfg) scratch f
    → IsAnswered cfg ns c f
answered cfg ns c positive v scratch sized {f} reach =
    let i = Reach-Inv cfg ns c (IsCallable cfg) reach in
    let a = accounted (calls-IsSetup cfg ns c positive v (λ call k. k)) scratch sized i.reached in
    record {
      waiting = a.waiting;
      whole = a.whole ∙ i.agreed;
      room = a.room;
      lines = a.lines;
      fits = i.fits;
    }

-- In every history of a producer's calls, of the loop and of a thread that calls `Stop` and
-- `Start`, whatever the messages are, with the diagnostics on and fewer than 2^64 calls answered
-- `BufferFull`: the counter of drops is the number of calls answered `BufferFull`, and stderr has
-- one warning for the first and one for each thousandth of them.
pub drops_counted :
    (cfg : Config) (ns : ℕ → ℕ) (c : ℕ) (Ok : LogCall → Type 0) (scratch : Text) {f : Front}
    → Reach cfg ns c Ok scratch f
    → cfg.enable_stderr_diagnostics ≡ true
    → dropped f.answers < 2 ^ 64
    → (f.dropped_count ≡ dropped f.answers)
      × (length f.stderr ≡ min (dropped f.answers) 1 + dropped f.answers / 1000)
drops_counted cfg ns c Ok scratch {f} reach on small =
    let (count, lines) = (Reach-Inv cfg ns c Ok reach).counted on in
    let (n, warned) = drop_times_lem (dropped f.answers) fresh refl small in
    (count ∙ n, ap length lines ∙ warned ∙ omega arith)
