-- ===== src/Pipeline/Delivery.antt =====
-- What becomes of the records pushed while a `Consumer` with a `TextFormatter` runs.
use low_latency_logger.Prelude.{
  ℕ, ◌+◌, ◌-◌, ◌^◌, ◌≤◌, ◌<◌, true, List, [], ◌∷◌, ◌++◌, ◌≡◌, if◌then◌else◌, refl, ◌∙◌, length,
  take, map, All, arith,
}
use mathlib.Core.List.{Sublist}
use low_latency_logger.Prelude.Text.{Text}
use low_latency_logger.Config.{Config}
use low_latency_logger.Record.{LogRecord}
use low_latency_logger.RingBuffer.Capacity.{IsCapacity}
use low_latency_logger.RingBuffer.Queue.{Holds, init-Holds}
use low_latency_logger.Formatter.Line.{full_line, place}
use low_latency_logger.Formatter.Format.{format_record-IsPrinted}
use low_latency_logger.Consumer.{Event, SinkCall, flush, World, finished, loop}
use low_latency_logger.Consumer.Trace.{IsSetup, Inv, EventOk, stop_ahead, pushed_in, written}
use low_latency_logger.Consumer.Shutdown.{loop-Ended}
use low_latency_logger.Pipeline.{k_scratch_size, text_setup, started}

-- A record that a setter has filled, and whose location, where it is compiled in, is no longer than
-- an `int` counts.
pub record IsPrintable (cfg : Config) (r : LogRecord) : Type 0 where
  pub in_message : r.message_length ≤ length r.message
  pub short : length (if cfg.enable_source_location then place r else []) < 2 ^ 31

-- The line of a record, cut to the scratch buffer.
abbrev pub cut_line : Config → (ℕ → ℕ) → LogRecord → Text
cut_line cfg ns r = take (k_scratch_size cfg - 1) (full_line cfg ns r)

module _ (cfg : Config) (ns : ℕ → ℕ) {c : ℕ} (v : IsCapacity c) where
  pub text_setup-IsSetup : IsSetup (text_setup cfg ns c) (IsPrintable cfg) (cut_line cfg ns)
  text_setup-IsSetup = record {
    capacity_ok = v;
    formats = λ r scratch ok sized.
        let p =
          format_record-IsPrinted cfg ns r (k_scratch_size cfg) scratch (omega arith)
            (omega (arith, sized)) ok.short ok.in_message in
        rw p.returns (p.content, p.size ∙ sized);
  }

  pub started-Inv :
      {Ok : LogRecord → Type 0} {line : LogRecord → Text} (scratch : Text)
      (schedule : List (List Event))
      → length scratch ≡ k_scratch_size cfg
      → All (All (EventOk Ok)) schedule
      → Inv (text_setup cfg ns c) Ok line (started scratch schedule)
  started-Inv scratch schedule sized ok = record {
    waiting = [];
    holds = init-Holds c v;
    conserved = refl;
    lines = refl;
    sized = sized;
    accepted_ok = cc;
    coming_ok = ok;
  }

  -- For a valid capacity: from an empty ring, with a `Stop` in the schedule, and with only records
  -- pushed whose message length is within the buffer and whose location, where it is compiled in,
  -- is shorter than 2^31 bytes, the loop with the text formatter returns. What the sink was given
  -- to write is then the lines of the first records accepted, in order and each cut to the scratch
  -- buffer, and the others wait in the ring; the records accepted are some of those pushed, in the
  -- order pushed; the last call of the sink is a flush.
  pub delivery :
      (scratch : Text) (schedule : List (List Event))
      → length scratch ≡ k_scratch_size cfg
      → All (All (EventOk (IsPrintable cfg))) schedule
      → stop_ahead schedule ≡ true
      → (last : World) × (before : List SinkCall) × (waiting : List LogRecord) × (loop
            (text_setup cfg ns c)
            (length schedule + 1)
            (started scratch schedule)
          ≡ finished last)
        × (written last.calls ≡ map (cut_line cfg ns) last.emitted)
        × (last.emitted ++ waiting ≡ last.accepted)
        × Sublist last.accepted (pushed_in schedule)
        × Holds c last.ring waiting
        × (last.calls ≡ before ++ flush ∷ [])
  delivery scratch schedule sized ok stops =
      let e =
        loop-Ended text_setup-IsSetup (length schedule + 1) (started scratch schedule)
          (started-Inv scratch schedule sized ok) stops (omega arith) in
      (
        e.last, e.before, e.account.waiting, e.returns, e.account.lines, e.account.conserved,
        e.offered, e.account.holds, e.flushed,
      )
