-- ===== src/Lifecycle.antt =====
-- include/consumer.h: `Start`, `Stop`, `IsRunning` and the destructor, which include/logger.h
-- forwards. Each is split at its compare-and-swap, so that calls of several threads can be
-- interleaved. What the thread does is in Consumer; a `join` waits for its loop, which ends once
-- `is_running_` is false.
pub mod Calls
pub mod Owner
pub mod Race
use low_latency_logger.Prelude.{ℕ, ◌+◌, Bool, true, false, ◌||◌, if◌then◌else◌}

-- `is_running_`, whether `thread_` is joinable, the number of threads started, and whether
-- `std::terminate` was called.
pub record Lifecycle : Type 0 where
  pub is_running : Bool
  pub joinable : Bool
  pub threads : ℕ
  pub terminated : Bool

-- The constructor.
abbrev pub created : Lifecycle
created = record { is_running = false; joinable = false; threads = 0; terminated = false }

-- `is_running_.compare_exchange_strong(expected, desired)` with `desired` the negation of
-- `expected`: whether it succeeded, and the state after it.
unfoldable pub exchange : Bool → Lifecycle → Bool × Lifecycle
exchange true s = (s.is_running, record s { is_running = false })
exchange false s = ((if s.is_running then false else true), record s { is_running = true })

-- `thread_ = std::thread(…)`; an assignment to a joinable `std::thread` terminates the program.
unfoldable pub assign_thread : Lifecycle → Lifecycle
assign_thread s = record s {
  joinable = true;
  threads = s.threads + 1;
  terminated = s.terminated || s.joinable;
}

-- `if (thread_.joinable()) thread_.join()`
unfoldable pub join_thread : Lifecycle → Lifecycle
join_thread s = if s.joinable then record s { joinable = false } else s

unfoldable pub start : Lifecycle → Lifecycle
start s = let (done, s') = exchange false s in if done then assign_thread s' else s'

unfoldable pub stop : Lifecycle → Lifecycle
stop s = let (done, s') = exchange true s in if done then join_thread s' else s'

-- The destructor: `Stop`, then the members; that of a joinable `std::thread` terminates the
-- program.
unfoldable pub destroy : Lifecycle → Lifecycle
destroy s = let s' = stop s in record s' { terminated = s'.terminated || s'.joinable }
