-- ===== src/Consumer.antt =====
-- include/consumer.h: the loop of the background thread, against an environment that acts between
-- its accesses of shared state. Before each load of `is_running_` and each `TryPop` one batch of
-- the schedule happens: pushes by the producer, or a `Stop`. The calls of the virtual methods of
-- `Sink` are recorded in order; see Sink for what they do. `Start` and `Stop` are in Lifecycle.
pub mod Trace
pub mod Account
pub mod Conserve
pub mod Shutdown
pub mod Drain
use low_latency_logger.Prelude.{
  ℕ, zero, suc, ◌+◌, Bool, true, false, not, List, [], ◌∷◌, ◌++◌, take, if◌then◌else◌,
}
use low_latency_logger.Prelude.Text.{Text}
use low_latency_logger.RingBuffer.{SpscRingBuffer, Popped, empty, item, fault, try_push, try_pop}
use low_latency_logger.Record.{LogRecord}

-- `kFormattingOverhead`; the scratch buffer has `LOGGER_MAX_MESSAGE_SIZE` bytes more.
abbrev pub k_formatting_overhead : ℕ
k_formatting_overhead = 256

-- What the environment does between two accesses of the consumer.
pub data Event : Type 0 where
  pushes : LogRecord → Event
  stops : Event

pub data SinkCall : Type 0 where
  write : Text → SinkCall
  flush : SinkCall

-- The state that the loop works on, and what is still to happen. `accepted` and `emitted` record
-- the run: the records whose push succeeded, and those that were formatted and written.
pub record World : Type 0 where
  pub ring : SpscRingBuffer LogRecord
  pub is_running : Bool
  pub scratch : Text
  pub calls : List SinkCall
  pub schedule : List (List Event)
  pub accepted : List LogRecord
  pub emitted : List LogRecord

-- How a spin, and the whole loop, can end. `crash` is a fault of `TryPop`.
pub data Spin : Type 0 where
  stopped found idle crashed : Spin

pub data Outcome : Type 0 where
  finished : World → Outcome
  crash : Outcome
  out_of_fuel : Outcome

-- `Capacity`, `LOGGER_BACKEND_SPIN_COUNT`, the size of the scratch buffer, and `FormatRecord` of
-- the formatter, which fills the buffer and returns a length.
pub record Setup : Type 0 where
  pub capacity : ℕ
  pub spin_count : ℕ
  pub scratch_size : ℕ
  pub format : LogRecord → Text → ℕ → ℕ × Text

module _ (S : Setup) where
  unfoldable pub happen : Event → World → World
  happen (pushes r) w =
      let (done, ring) = try_push S.capacity r w.ring in
      record w { ring = ring; accepted = if done then w.accepted ++ r ∷ [] else w.accepted }
  happen stops w = record w { is_running = false }

  unfoldable pub happen_all : List Event → World → World
  unfolding happen
  happen_all [] w = w
  happen_all (e ∷ es) w = happen_all es (happen e w)

  -- Time passes up to the next access.
  tick_by : List (List Event) → World → World
  tick_by [] w = w
  tick_by (batch ∷ later) w = happen_all batch (record w { schedule = later })

  unfoldable pub tick : World → World
  unfolding tick_by happen_all
  tick w = tick_by w.schedule w

  -- `FormatRecord` into the scratch buffer, then `Write` of as many bytes as it returned.
  unfoldable pub emit : LogRecord → World → World
  emit r w =
      let (len, scratch) = S.format r w.scratch S.scratch_size in
      record w {
        scratch = scratch;
        calls = w.calls ++ write (take len scratch) ∷ [];
        emitted = w.emitted ++ r ∷ [];
      }

  unfoldable pub flush_sink : World → World
  flush_sink w = record w { calls = w.calls ++ flush ∷ [] }

  -- `ring_buffer_.TryPop(record)`, and the write that follows a success. The code writes after the
  -- spin loop; nothing shared is touched in between.
  pop_result : World → Popped LogRecord × SpscRingBuffer LogRecord → Spin × World
  pop_result w (empty, ring) = (idle, record w { ring = ring })
  pop_result w (item r, ring) = (found, emit r (record w { ring = ring }))
  pop_result w (fault, ring) = (crashed, record w { ring = ring })

  unfoldable pub pop_and_write : World → Spin × World
  unfolding pop_result
  pop_and_write w = let now = tick w in pop_result now (try_pop S.capacity now.ring)

  -- The spin: look at the stop signal, then at the buffer, `n` more times.
  unfoldable pub spin : ℕ → World → Spin × World
  spin zero w = (idle, w)
  spin (suc n) w =
      let now = tick w in
      let polled = pop_and_write now in
      let again = spin n polled.1 in
      if not now.is_running then (stopped, now) else elim polled.0 [ idle ↦ again | _ ↦ polled ]

  -- One turn of the loop after its test passed: `true` goes on, `false` is `goto shutdown`.
  turn_spun : Spin × World → Spin × World
  turn_spun (idle, w) = (idle, tick w)
  turn_spun (s, w) = (s, w)

  unfoldable pub turn : World → Spin × World
  unfolding turn_spun
  turn w =
      let first = pop_and_write w in
      elim first.0 [ idle ↦ turn_spun (spin S.spin_count (flush_sink first.1)) | _ ↦ first ]

  unfoldable pub loop : ℕ → World → Outcome
  loop zero w = out_of_fuel
  loop (suc fuel) w =
      let now = tick w in
      let next = turn now in
      let again = loop fuel next.1 in
      if not now.is_running
      then finished (flush_sink now)
      else elim next.0 [ stopped ↦ finished (flush_sink next.1) | crashed ↦ crash | _ ↦ again ]
