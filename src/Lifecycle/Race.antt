-- ===== src/Lifecycle/Race.antt =====
-- Calls of `Start` and `Stop` on several threads.
use low_latency_logger.Prelude.{ℕ, ◌+◌, ◌-◌, ◌≤◌, ◌<◌, true, false, ◌≡◌, ◌==◌, if◌then◌else◌, arith}
use low_latency_logger.Lifecycle.{
  Lifecycle, created, exchange, assign_thread, join_thread, start, stop, destroy,
}

-- The shared state, and the number of calls of `Start` that have won their exchange and have not
-- yet assigned the thread.
pub record Starting : Type 0 where
  pub life : Lifecycle
  pub assigning : ℕ

unfoldable pub exchange_step : Starting → Starting
exchange_step s =
    let (done, life) = exchange false s.life in
    record { life = life; assigning = if done then s.assigning + 1 else s.assigning }

unfoldable pub assign_step : Starting → Starting
assign_step s = record { life = assign_thread s.life; assigning = s.assigning - 1 }

-- Any number of threads call `Start`, and none calls `Stop`.
pub data StartStep (s : Starting) : Starting → Type 0 where
  exchanges : StartStep s (exchange_step s)
  assigns : 0 < s.assigning → StartStep s (assign_step s)

pub data StartReach : Starting → Type 0 where
  begin : StartReach (record { life = created; assigning = 0 })
  later : {s t : Starting} → StartReach s → StartStep s t → StartReach t

-- What holds while no one stops: at most one thread, and its handle is set once it is assigned.
record IsOnce (s : Starting) : Type 0 where
  alive : s.life.terminated ≡ false
  counted : s.life.threads + s.assigning ≡ (if s.life.is_running then 1 else 0)
  handle : s.life.joinable ≡ (s.life.threads == 1)

exchange-IsOnce : (s : Starting) → IsOnce s → IsOnce (exchange_step s)
unfolding exchange_step exchange
exchange-IsOnce s i = ground (arith, i.alive, i.counted, i.handle)

assign-IsOnce : (s : Starting) → IsOnce s → 0 < s.assigning → IsOnce (assign_step s)
unfolding assign_step assign_thread
assign-IsOnce s i h = ground (arith, i.alive, i.counted, i.handle)

reach-IsOnce : {s : Starting} → StartReach s → IsOnce s
reach-IsOnce begin = ground arith
reach-IsOnce (later {s} r exchanges) = exchange-IsOnce s (reach-IsOnce r)
reach-IsOnce (later {s} r (assigns h)) = assign-IsOnce s (reach-IsOnce r) h

-- However the calls of `Start` of any number of threads interleave, at most one thread is started,
-- and the program is not terminated.
pub start_once : {s : Starting} → StartReach s → (s.life.threads ≤ 1) × (s.life.terminated ≡ false)
start_once r = let i = reach-IsOnce r in (ground (arith, i.counted), i.alive)

-- One thread is in `Start` and has won its exchange; another calls `Stop`, wins its exchange and
-- finds no thread to join; then the first assigns the thread.
unfoldable pub overtaken : Lifecycle → Lifecycle
overtaken s = assign_thread (join_thread (exchange true (exchange false s).1).1)

-- If a `Stop` overtakes a `Start` in this way, on a consumer that does not run and has no thread,
-- then `IsRunning` is false but the handle stays joinable; the next `Start` terminates the
-- program, and so does the destructor.
pub overtaken_lem :
    (s : Lifecycle)
    → s.is_running ≡ false
    → s.joinable ≡ false
    → ((exchange false s).0 ≡ true)
      × ((exchange true (exchange false s).1).0 ≡ true)
      × ((overtaken s).is_running ≡ false)
      × ((start (overtaken s)).terminated ≡ true)
      × ((destroy (overtaken s)).terminated ≡ true)
unfolding overtaken exchange join_thread assign_thread start stop destroy
overtaken_lem s off free = ground (arith, off, free)
