-- ===== src/Backend.antt =====
-- include/consumer.h on internal/ring_buffer.h: the thread of the consumer beside that of the
-- producer, one access of shared memory at a time. `TryPop` is that of Spsc, so an acquire load of
-- an index may return an old value; so may a load of `is_running_`, which may still return `true`
-- after a `Stop`. Consumer runs the same loop with each `TryPop` in one piece.
pub mod Pops
pub mod Invariant
pub mod Account
pub mod Rank
pub mod Stopping
pub mod Wait
pub mod Progress
pub mod Latency
pub mod Graceful
pub mod File
use low_latency_logger.Prelude.{
  ℕ, zero, suc, ◌≤◌, Bool, true, false, Option, none, some, List, [], ◌∷◌, ◌++◌, ◌≡◌, length, take,
  if◌then◌else◌,
}
use low_latency_logger.Prelude.Text.{Text}
use low_latency_logger.Record.{LogRecord}
use low_latency_logger.Spsc.{Consumer, State, start, produce, consume}
use low_latency_logger.Consumer.{Setup, SinkCall, write, flush}

-- Where the thread stands in `Loop`, with the locals that are live there. A number counts the tries
-- of the spin that are left.
pub data Pc : Type 0 where
  testing : Pc
  popping : Pc
  writing : (record_popped : LogRecord) → Pc
  flushing : Pc
  spinning : (left : ℕ) → Pc
  retrying : (left : ℕ) → Pc
  dozing : Pc
  closing : Pc
  done : Pc

-- The ring with both threads on it, whether `Stop` has cleared `is_running_`, and what the loop
-- works on. `emitted` records the run.
pub record Machine : Type 0 where
  pub ring : State LogRecord
  pub stopped : Bool
  pub pc : Pc
  pub scratch : Text
  pub calls : List SinkCall
  pub emitted : List LogRecord

-- The thread has just been started on an empty ring.
abbrev pub launched : Text → Machine
launched scratch = record {
  ring = start;
  stopped = false;
  pc = Pc.testing;
  scratch = scratch;
  calls = [];
  emitted = [];
}

-- What a step of `TryPop`, from one place to another, returns: nothing yet, `false`, or `true` with
-- the element.
abbrev pub pop_returns : {A : Type 0} → Consumer A → Consumer A → Option (Option A)
pop_returns (Consumer.releasing a r) after = some (some a)
pop_returns (Consumer.have_write w) Consumer.idle = some none
pop_returns before after = none

-- Where the loop goes on after a step of `TryPop`.
abbrev pub after_pop : Pc → Pc → Option (Option LogRecord) → Pc
after_pop inside on_empty none = inside
after_pop inside on_empty (some none) = on_empty
after_pop inside on_empty (some (some r)) = Pc.writing r

-- `Start` after a `Stop` that has joined the thread: a new thread, with its own scratch buffer, on
-- the same ring.
abbrev pub started_again : Text → Machine → Machine
started_again scratch w = record w { stopped = false; pc = Pc.testing; scratch = scratch }

module _ (S : Setup) where
  -- A step of `TryPop`, and what the loop makes of its result.
  unfoldable pub pop_step : ℕ → Pc → Pc → Machine → Machine
  pop_step m inside on_empty w =
      let ring = consume S.capacity m w.ring in
      record w {
        ring = ring;
        pc = after_pop inside on_empty (pop_returns w.ring.consumer ring.consumer);
      }

  -- One step of the loop. The load of `is_running_` at `dozing` decides only whether to sleep. A
  -- load of `is_running_` returns `on`, and one of the write index store `m`.
  unfoldable pub loop_at : ℕ → Bool → Machine → Pc → Machine
  unfolding pop_step
  loop_at m on w Pc.testing = record w { pc = if on then Pc.popping else Pc.closing }
  loop_at m on w Pc.popping = pop_step m Pc.popping Pc.flushing w
  loop_at m on w (Pc.writing r) =
      let (len, scratch) = S.format r w.scratch S.scratch_size in
      record w {
        pc = Pc.testing;
        scratch = scratch;
        calls = w.calls ++ write (take len scratch) ∷ [];
        emitted = w.emitted ++ r ∷ [];
      }
  loop_at m on w Pc.flushing = record w {
    pc = Pc.spinning S.spin_count;
    calls = w.calls ++ flush ∷ [];
  }
  loop_at m on w (Pc.spinning zero) = record w { pc = Pc.dozing }
  loop_at m on w (Pc.spinning (suc left)) = record w {
    pc = if on then Pc.retrying left else Pc.closing;
  }
  loop_at m on w (Pc.retrying left) = pop_step m (Pc.retrying left) (Pc.spinning left) w
  loop_at m on w Pc.dozing = record w { pc = Pc.testing }
  loop_at m on w Pc.closing = record w { pc = Pc.done; calls = w.calls ++ flush ∷ [] }
  loop_at m on w Pc.done = w

  unfoldable pub loop_step : ℕ → Bool → Machine → Machine
  unfolding loop_at
  loop_step m on w = loop_at m on w w.pc

  -- A step of the producer.
  abbrev pub produce_step : LogRecord → ℕ → Machine → Machine
  produce_step x m w = record w { ring = produce S.capacity x m w.ring }

  -- Any interleaving of a producer that pushes records which are `Ok`, the loop, and a thread that
  -- calls `Stop`, and `Start` once `Stop` has joined the loop.
  pub data Step (Ok : LogRecord → Type 0) (w : Machine) : Machine → Type 0 where
    produces :
        (x : LogRecord) (m : ℕ)
        → Ok x
        → w.ring.seen_read ≤ m
        → m ≤ w.ring.read_index.stores
        → Step Ok w (produce_step x m w)
    stops : Step Ok w (record w { stopped = true })
    starts :
        (scratch : Text)
        → length scratch ≡ S.scratch_size
        → w.pc ≡ Pc.done
        → Step Ok w (started_again scratch w)
    loops :
        (m : ℕ) (on : Bool)
        → w.ring.seen_write ≤ m
        → m ≤ w.ring.write_index.stores
        → (on ≡ false → w.stopped ≡ true)
        → Step Ok w (loop_step m on w)

  pub data Reach (Ok : LogRecord → Type 0) (scratch : Text) : Machine → Type 0 where
    begin : Reach Ok scratch (launched scratch)
    later : {w w' : Machine} → Reach Ok scratch w → Step Ok w w' → Reach Ok scratch w'
