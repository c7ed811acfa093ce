-- ===== src/Frontend.antt =====
-- include/logger.h on internal/ring_buffer.h and include/consumer.h: the calls of a producer, one
-- access of shared memory at a time, with what each of them answers. Logger has each call in one
-- piece, and Backend what runs beside it.
pub mod Returns
pub mod Invariant
pub mod Account
pub mod Serving
pub mod File
use low_latency_logger.Prelude.{
  ℕ, ◌≤◌, Bool, true, false, Option, none, some, List, [], ◌∷◌, ◌++◌, ◌≡◌, if◌then◌else◌,
}
use low_latency_logger.Prelude.Text.{Text, ℤ}
use low_latency_logger.Config.{Config}
use low_latency_logger.Level.{Level}
use low_latency_logger.Record.{LogRecord}
use low_latency_logger.Spsc.{Producer}
use low_latency_logger.Spsc.Sequential.{buffer_of}
use low_latency_logger.Logger.{
  Logger, LogResult, success, buffer_full, Surroundings, note_drop, log_at,
}
use low_latency_logger.Pipeline.{text_setup}
use low_latency_logger.Backend.{Machine, launched, produce_step}
use low_latency_logger.Backend
use low_latency_logger.System.{LogCall, record_of}

-- A call of `Log` or `LogFormat` with a message, or one of `Log` with a null pointer for it.
pub data Request : Type 0 where
  messages : LogCall → Request
  nulls :
      (env : Surroundings) (level : Level) (file : Option Text) (line : ℤ) (function : Option Text)
      → Request

-- The machine, the call whose `TryPush` is under way, the counter of drops and stderr of the
-- process, and, as a record of the run, the calls answered.
pub record Front : Type 0 where
  pub machine : Machine
  pub current : Option LogCall
  pub dropped_count : ℕ
  pub stderr : List Text
  pub answers : List (Request × LogResult)

abbrev pub opened : Text → Front
opened scratch = record {
  machine = launched scratch;
  current = none;
  dropped_count = 0;
  stderr = [];
  answers = [];
}

-- The logger as its methods in one piece see it.
abbrev pub logger_of : Front → Logger
logger_of f = record {
  ring = buffer_of f.machine.ring;
  dropped_count = f.dropped_count;
  stderr = f.stderr;
}

-- What a step of `TryPush`, from one place to another, returns: nothing yet, or whether there was
-- room.
abbrev pub push_returns : {A : Type 0} → Producer A → Producer A → Option Bool
push_returns (Producer.publishing x w) after = some true
push_returns (Producer.have_write x w) Producer.idle = some false
push_returns before after = none

-- The call that a step of the producer is of: the one under way, or else the next one.
abbrev pub call_of : Option LogCall → LogCall → LogCall
call_of none next = next
call_of (some call) next = call

module _ (cfg : Config) (ns : ℕ → ℕ) (c : ℕ) where
  -- `PushRecord` after `TryPush`: its diagnostics and its answer.
  unfoldable pub after_push : Option Bool → LogCall → Front → Front
  after_push none call f = record f { current = some call }
  after_push (some true) call f = record f {
    current = none;
    answers = f.answers ++ (messages call, success) ∷ [];
  }
  after_push (some false) call f =
      let l = if cfg.enable_stderr_diagnostics then note_drop (logger_of f) else logger_of f in
      record f {
        current = none;
        dropped_count = l.dropped_count;
        stderr = l.stderr;
        answers = f.answers ++ (messages call, buffer_full) ∷ [];
      }

  -- A step of the producer, whose load of the read index returns store `m`.
  unfoldable pub call_step : LogCall → ℕ → Front → Front
  unfolding after_push
  call_step next m f =
      let call = call_of f.current next in
      let machine = produce_step (text_setup cfg ns c) (record_of c cfg call) m f.machine in
      after_push (push_returns f.machine.ring.producer machine.ring.producer) call
        (record f { machine = machine })

  -- A call with a null message touches no shared memory.
  unfoldable pub null_step : Surroundings → Level → Option Text → ℤ → Option Text → Front → Front
  null_step env level file line function f =
      let (answer, l) = log_at c cfg env level none file line function (logger_of f) in
      record f {
        dropped_count = l.dropped_count;
        stderr = l.stderr;
        answers = f.answers ++ (nulls env level file line function, answer) ∷ [];
      }

  -- Any interleaving of a producer that makes calls which are `Ok`, the loop, and a thread that
  -- calls `Stop` and `Start`.
  pub data Step (Ok : LogCall → Type 0) (f : Front) : Front → Type 0 where
    calls :
        (next : LogCall) (m : ℕ)
        → Ok next
        → f.machine.ring.seen_read ≤ m
        → m ≤ f.machine.ring.read_index.stores
        → Step Ok f (call_step next m f)
    null_calls :
        (env : Surroundings) (level : Level) (file : Option Text) (line : ℤ)
        (function : Option Text)
        → f.current ≡ none
        → Step Ok f (null_step env level file line function f)
    backs :
        {w : Machine}
        → Backend.Step (text_setup cfg ns c) (λ r. ⊥) f.machine w
        → Step Ok f (record f { machine = w })

  pub data Reach (Ok : LogCall → Type 0) (scratch : Text) : Front → Type 0 where
    begin : Reach Ok scratch (opened scratch)
    later : {f g : Front} → Reach Ok scratch f → Step Ok f g → Reach Ok scratch g
