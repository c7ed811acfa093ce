-- ===== src/Lifecycle/Calls.antt =====
-- Calls of `Start` and `Stop` one after the other.
use low_latency_logger.Prelude.{
  ℕ, ◌+◌, Bool, true, false, List, [], ◌∷◌, ◌≡◌, refl, ap, ◌∙◌, if◌then◌else◌, arith,
}
use low_latency_logger.Lifecycle.{
  Lifecycle, exchange, assign_thread, join_thread, start, stop, destroy,
}

pub data Call : Type 0 where
  starts stops : Call

unfoldable pub run : List Call → Lifecycle → Lifecycle
run [] s = s
run (starts ∷ calls) s = run calls (start s)
run (stops ∷ calls) s = run calls (stop s)

-- What the calls ask for: whether the thread is to run in the end, and how often it is started
-- anew.
abbrev pub running_after : List Call → Bool → Bool
running_after [] on = on
running_after (starts ∷ calls) on = running_after calls true
running_after (stops ∷ calls) on = running_after calls false

abbrev pub starts_anew : List Call → Bool → ℕ
starts_anew [] on = 0
starts_anew (starts ∷ calls) on = (if on then 0 else 1) + starts_anew calls true
starts_anew (stops ∷ calls) on = starts_anew calls false

-- The thread handle is joinable exactly while the consumer runs, and nothing went wrong.
pub record IsSound (s : Lifecycle) : Type 0 where
  pub handle : s.joinable ≡ s.is_running
  pub alive : s.terminated ≡ false

start-IsSound :
    (s : Lifecycle)
    → IsSound s
    → IsSound (start s)
      × ((start s).is_running ≡ true)
      × ((start s).threads ≡ s.threads + (if s.is_running then 0 else 1))
unfolding start exchange assign_thread
start-IsSound s i = ground (arith, i.handle, i.alive)

stop-IsSound :
    (s : Lifecycle)
    → IsSound s
    → IsSound (stop s) × ((stop s).is_running ≡ false) × ((stop s).threads ≡ s.threads)
unfolding stop exchange join_thread
stop-IsSound s i = ground (arith, i.handle, i.alive)

-- From a sound state, calls of `Start` and `Stop` in any order, repeated ones included, leave a
-- sound state in which the consumer runs exactly if the last call was a `Start`, and start a
-- thread once for each `Start` that finds it stopped.
pub run-IsSound :
    (calls : List Call) (s : Lifecycle)
    → IsSound s
    → IsSound (run calls s)
      × ((run calls s).is_running ≡ running_after calls s.is_running)
      × ((run calls s).threads ≡ s.threads + starts_anew calls s.is_running)
unfolding run
run-IsSound [] s i = (i, refl, omega arith)
run-IsSound (starts ∷ calls) s i =
    let (sound, on, count) = start-IsSound s i in
    let (last, running, threads) = run-IsSound calls (start s) sound in
    (
      last,
      running ∙ ap (running_after calls) on,
      omega (arith, threads ∙ ap (λ b. (start s).threads + starts_anew calls b) on, count),
    )
run-IsSound (stops ∷ calls) s i =
    let (sound, off, count) = stop-IsSound s i in
    let (last, running, threads) = run-IsSound calls (stop s) sound in
    (
      last,
      running ∙ ap (running_after calls) off,
      omega (arith, threads ∙ ap (λ b. (stop s).threads + starts_anew calls b) off, count),
    )

-- The destructor of a sound consumer never terminates the program, and joins the thread.
pub destroy-IsSound :
    (s : Lifecycle) → IsSound s → ((destroy s).terminated ≡ false) × ((destroy s).joinable ≡ false)
unfolding destroy stop exchange join_thread
destroy-IsSound s i = ground (arith, i.handle, i.alive)
