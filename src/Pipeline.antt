-- ===== src/Pipeline.antt =====
-- The parts put together: a `Consumer` whose formatter is the `TextFormatter` of src/formatter.cpp,
-- with the scratch buffer of include/consumer.h. `Config` sets the sizes of both.
pub mod Delivery
use low_latency_logger.Prelude.{ℕ, ◌+◌, Option, none, some, true, List, []}
use low_latency_logger.Prelude.Text.{Text}
use low_latency_logger.Config.{Config}
use low_latency_logger.Record.{LogRecord}
use low_latency_logger.RingBuffer.{init}
use low_latency_logger.Formatter.{format_record}
use low_latency_logger.Consumer.{Event, Setup, World, k_formatting_overhead}

-- The buffer after a call that was given one.
abbrev pub buffer_or : Text → Option Text → Text
buffer_or otherwise none = otherwise
buffer_or otherwise (some buffer) = buffer

-- `kScratchSize`
abbrev pub k_scratch_size : Config → ℕ
k_scratch_size cfg = cfg.max_message_size + k_formatting_overhead

-- `formatter_.FormatRecord(record, scratch, kScratchSize)`
abbrev pub text_setup : Config → (ℕ → ℕ) → ℕ → Setup
text_setup cfg tsc_to_nanoseconds capacity = record {
  capacity = capacity;
  spin_count = cfg.backend_spin_count;
  scratch_size = k_scratch_size cfg;
  format = λ r scratch size.
      let (n, out) = format_record cfg tsc_to_nanoseconds r (some scratch) size in
      (n, buffer_or scratch out);
}

-- The thread has just been started on an empty ring, with a schedule ahead of it, and with whatever
-- the scratch buffer on its stack holds.
abbrev pub started : Text → List (List Event) → World
started scratch schedule = record {
  ring = init;
  is_running = true;
  scratch = scratch;
  calls = [];
  schedule = schedule;
  accepted = [];
  emitted = [];
}
