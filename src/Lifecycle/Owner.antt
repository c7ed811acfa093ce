-- ===== src/Lifecycle/Owner.antt =====
-- include/logger.h: the constructor, `Start`, `Stop`, `IsRunning` and the destructor of `Logger`,
-- which owns the ring buffer and the consumer.
use low_latency_logger.Prelude.{Bool, false, List, [], ◌∷◌, ◌≡◌, refl, arith}
use low_latency_logger.Lifecycle.{Lifecycle, created, exchange, join_thread, start, stop, destroy}
use low_latency_logger.Lifecycle.Calls.{
  Call, starts, stops, run, running_after, starts_anew, IsSound, run-IsSound,
}

-- `Consumer::IsRunning`
unfoldable pub is_running : Lifecycle → Bool
is_running s = s.is_running

-- The members: an empty ring, and a consumer that is not started.
abbrev pub create_logger : Lifecycle
create_logger = created

unfoldable pub start_logger : Lifecycle → Lifecycle
unfolding start
start_logger s = start s

unfoldable pub stop_logger : Lifecycle → Lifecycle
unfolding stop
stop_logger s = stop s

unfoldable pub is_logger_running : Lifecycle → Bool
unfolding is_running
is_logger_running s = is_running s

-- `Stop`, then the destructor of the consumer; that of the ring buffer does not concern the thread.
unfoldable pub destroy_logger : Lifecycle → Lifecycle
unfolding stop_logger destroy
destroy_logger s = destroy (stop_logger s)

-- Calls of the methods of a logger.
unfoldable pub use_logger : List Call → Lifecycle → Lifecycle
unfolding start_logger stop_logger
use_logger [] s = s
use_logger (starts ∷ calls) s = use_logger calls (start_logger s)
use_logger (stops ∷ calls) s = use_logger calls (stop_logger s)

use_logger-run : (calls : List Call) (s : Lifecycle) → use_logger calls s ≡ run calls s
unfolding use_logger start_logger stop_logger run
use_logger-run [] s = refl
use_logger-run (starts ∷ calls) s = use_logger-run calls (start s)
use_logger-run (stops ∷ calls) s = use_logger-run calls (stop s)

destroyed :
    (s : Lifecycle)
    → IsSound s
    → let last = destroy_logger s in
      (last.terminated ≡ false)
      × (last.joinable ≡ false)
      × (last.is_running ≡ false)
      × (last.threads ≡ s.threads)
unfolding destroy_logger stop_logger destroy stop exchange join_thread
destroyed s i = ground (arith, i.handle, i.alive)

-- For a logger that is created, used by one thread after the other and then destroyed, whatever
-- calls of `Start` and `Stop` there were: `IsRunning` tells whether the last of them was a
-- `Start`; the destructor, which stops twice, never terminates the program, joins the thread and
-- clears the flag; and a thread was started once for each `Start` that found the logger stopped.
pub owner_lem :
    (calls : List Call)
    → let used = use_logger calls create_logger in
      let last = destroy_logger used in
      (is_logger_running used ≡ running_after calls false)
      × (last.terminated ≡ false)
      × (last.joinable ≡ false)
      × (last.is_running ≡ false)
      × (last.threads ≡ starts_anew calls false)
unfolding is_logger_running is_running
owner_lem calls =
    let (sound, running, count) =
      run-IsSound calls created (record { handle = refl; alive = refl }) in
    let (alive, joined, off, same) = destroyed (run calls created) sound in
    rw (use_logger-run calls created) (running, alive, joined, off, omega (arith, same, count))
