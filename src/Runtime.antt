-- ===== src/Runtime.antt =====
-- include/consumer.h with include/logger.h: the thread that owns a logger, which calls `Start` and
-- `Stop` and destroys it, beside the producer and the thread of the consumer that it starts and
-- joins. `Start` is split at its exchange and `Stop` at its exchange and its `join`.
pub mod Handle
pub mod Invariant
pub mod Safety
pub mod Ending
use low_latency_logger.Prelude.{
  ℕ, ◌≤◌, ◌<◌, ◌==◌, Bool, true, false, Option, none, some, ◌≡◌, length, ◌||◌, if◌then◌else◌,
}
use low_latency_logger.Prelude.Text.{Text, ℤ}
use low_latency_logger.Config.{Config}
use low_latency_logger.Level.{Level}
use low_latency_logger.Logger.{Surroundings}
use low_latency_logger.Pipeline.{k_scratch_size, text_setup}
use low_latency_logger.Lifecycle.{Lifecycle, created, exchange, assign_thread, join_thread}
use low_latency_logger.Backend.{Pc, loop_step, started_again}
use low_latency_logger.System.{LogCall}
use low_latency_logger.Frontend.{Front, opened, call_step, null_step}

-- What a `Stop` is for: a call of its own, the destructor of the logger, or that of its consumer.
pub data Errand : Type 0 where
  calling : Errand
  ending_logger : Errand
  ending_consumer : Errand

-- Where the owner stands.
pub data Place : Type 0 where
  resting : Place
  assigning : Place
  stopping : Errand → Place
  joining : Errand → Place
  gone : Place

pub record Runtime : Type 0 where
  pub front : Front
  pub life : Lifecycle
  pub place : Place

-- The logger is constructed. The scratch buffer is that of the first thread, of which no step
-- happens before it is started.
abbrev pub built : Text → Runtime
built scratch = record { front = opened scratch; life = created; place = Place.resting }

-- What comes after a `Stop`. The destructor of the logger goes on with that of its consumer, which
-- stops again and then destroys the handle; that of a joinable `std::thread` terminates the
-- program.
unfoldable pub after_stop : Errand → Runtime → Runtime
after_stop calling r = record r { place = Place.resting }
after_stop ending_logger r = record r { place = Place.stopping ending_consumer }
after_stop ending_consumer r = record r {
  place = Place.gone;
  life = record r.life { terminated = r.life.terminated || r.life.joinable };
}

-- The exchange of `Start`.
unfoldable pub start_exchange : Runtime → Runtime
start_exchange r =
    let (done, life) = exchange false r.life in
    record r { life = life; place = if done then Place.assigning else Place.resting }

-- A new thread, which runs the loop from its beginning.
unfoldable pub start_thread : Text → Runtime → Runtime
start_thread scratch r =
    let machine =
      if r.life.threads == 0 then r.front.machine else started_again scratch r.front.machine in
    record {
      front = record r.front { machine = machine };
      life = assign_thread r.life;
      place = Place.resting;
    }

-- The exchange of `Stop`.
unfoldable pub stop_exchange : Errand → Runtime → Runtime
unfolding after_stop
stop_exchange errand r =
    let (done, life) = exchange true r.life in
    if done
    then record {
      front = record r.front { machine = record r.front.machine { stopped = true } };
      life = life;
      place = Place.joining errand;
    }
    else after_stop errand (record r { life = life })

-- The rest of `Stop`.
unfoldable pub stop_join : Errand → Runtime → Runtime
unfolding after_stop
stop_join errand r = after_stop errand (record r { life = join_thread r.life })

-- The rest of the destructor of the logger, once the loop has returned: its `join`, and the
-- destructor of the consumer.
unfoldable pub destroy_rest : Runtime → Runtime
unfolding stop_exchange stop_join
destroy_rest r = stop_exchange ending_consumer (stop_join ending_logger r)

module _ (cfg : Config) (ns : ℕ → ℕ) (c : ℕ) where
  -- A step of the loop.
  abbrev pub loop_turn : ℕ → Bool → Runtime → Runtime
  loop_turn m on r = record r {
    front = record r.front { machine = loop_step (text_setup cfg ns c) m on r.front.machine };
  }

  -- Any interleaving of a producer, which makes calls that are `Ok` while there is a logger, of the
  -- threads that the owner starts, and of the owner, for whom a `join` of a joinable handle returns
  -- once the loop has.
  pub data Step (Ok : LogCall → Type 0) (r : Runtime) : Runtime → Type 0 where
    calls :
        (next : LogCall) (m : ℕ)
        → ¬ (r.place ≡ Place.gone)
        → Ok next
        → r.front.machine.ring.seen_read ≤ m
        → m ≤ r.front.machine.ring.read_index.stores
        → Step Ok r (record r { front = call_step cfg ns c next m r.front })
    null_calls :
        (env : Surroundings) (level : Level) (file : Option Text) (line : ℤ)
        (function : Option Text)
        → ¬ (r.place ≡ Place.gone)
        → r.front.current ≡ none
        → Step Ok r (record r { front = null_step cfg ns c env level file line function r.front })
    loops :
        (m : ℕ) (on : Bool)
        → 0 < r.life.threads
        → r.front.machine.ring.seen_write ≤ m
        → m ≤ r.front.machine.ring.write_index.stores
        → (on ≡ false → r.life.is_running ≡ false)
        → Step Ok r (loop_turn m on r)
    starts : r.place ≡ Place.resting → Step Ok r (start_exchange r)
    assigns :
        (scratch : Text)
        → r.place ≡ Place.assigning
        → length scratch ≡ k_scratch_size cfg
        → Step Ok r (start_thread scratch r)
    stops : r.place ≡ Place.resting → Step Ok r (stop_exchange calling r)
    destroys : r.place ≡ Place.resting → Step Ok r (stop_exchange ending_logger r)
    destroys_consumer :
        r.place ≡ Place.stopping ending_consumer → Step Ok r (stop_exchange ending_consumer r)
    joins :
        (errand : Errand)
        → r.place ≡ Place.joining errand
        → (r.life.joinable ≡ true → r.front.machine.pc ≡ Pc.done)
        → Step Ok r (stop_join errand r)

  pub data Reach (Ok : LogCall → Type 0) (scratch : Text) : Runtime → Type 0 where
    begin : Reach Ok scratch (built scratch)
    later : {r s : Runtime} → Reach Ok scratch r → Step Ok r s → Reach Ok scratch s
