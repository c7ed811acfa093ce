-- ===== src/Runtime/Safety.antt =====
-- include/consumer.h with include/logger.h: what the owner of a logger may rely on.
use low_latency_logger.Prelude.{
  ℕ, Bool, true, false, ◌≡◌, refl, sym, ap, ◌∙◌, subst, Bool-cases, inl, inr, dec_lt, arith, ◌⊎◌,
}
use low_latency_logger.Prelude.Text.{Text}
use low_latency_logger.Config.{Config}
use low_latency_logger.Consumer.{Setup}
use low_latency_logger.Pipeline.{text_setup}
use low_latency_logger.Backend.{Pc, Machine, loop_at, loop_step}
use low_latency_logger.System.{LogCall}
use low_latency_logger.Frontend
use low_latency_logger.Runtime.{Place, Runtime, Step, Reach}
use low_latency_logger.Runtime.Handle.{Stands}
use low_latency_logger.Runtime.Invariant.{standing, Inv, Reach-Inv}

-- No thread runs the loop.
abbrev pub Idle : Runtime → Type 0
Idle r = (r.life.threads ≡ 0) ⊎ (r.front.machine.pc ≡ Pc.done)

-- What the owner may rely on at a place.
abbrev pub Relies : Place → Runtime → Type 0
Relies Place.resting r =
    (r.life.joinable ≡ r.life.is_running) × ((r.life.is_running ≡ true) ⊎ Idle r)
Relies Place.assigning r = (r.life.joinable ≡ false) × Idle r
Relies (Place.stopping errand) r =
    (r.life.joinable ≡ r.life.is_running) × ((r.life.is_running ≡ true) ⊎ Idle r)
Relies (Place.joining errand) r = (r.life.is_running ≡ false) × (r.life.joinable ≡ true)
Relies Place.gone r = (r.life.is_running ≡ false) × (r.life.joinable ≡ false) × Idle r

loop_step-rests :
    (S : Setup) (m : ℕ) (on : Bool) (w : Machine) → w.pc ≡ Pc.done → loop_step S m on w ≡ w
unfolding loop_step loop_at
loop_step-rests S m on w e = subst (λ p. loop_at S m on w p ≡ w) (sym e) refl

module _ (cfg : Config) (ns : ℕ → ℕ) (c : ℕ) (Ok : LogCall → Type 0) (scratch : Text) where
  free-Idle : (r : Runtime) → Inv cfg ns c Ok scratch r → r.life.joinable ≡ false → Idle r
  free-Idle r i free = elim (dec_lt 0 r.life.threads) [
    | yes started ↦ inr (i.tied.ended free started)
    | no never ↦ inl (omega arith)
  ]

  at_rest :
      (r : Runtime)
      → Inv cfg ns c Ok scratch r
      → r.life.joinable ≡ r.life.is_running
      → (r.life.is_running ≡ true) ⊎ Idle r
  at_rest r i same = elim (Bool-cases r.life.is_running) [
    | inl on ↦ inl on
    | inr off ↦ inr (free-Idle r i (same ∙ off))
  ]

  Stands-Relies :
      (p : Place) (r : Runtime) → Inv cfg ns c Ok scratch r → Stands p r.life → Relies p r
  Stands-Relies Place.resting r i same = (same, at_rest r i same)
  Stands-Relies Place.assigning r i (on, free) = (free, free-Idle r i free)
  Stands-Relies (Place.stopping errand) r i same = (same, at_rest r i same)
  Stands-Relies (Place.joining errand) r i standing = standing
  Stands-Relies Place.gone r i (off, free) = (off, free, free-Idle r i free)

  -- In every interleaving of one thread that calls `Start` and `Stop` and at last the destructor of
  -- a logger, with the threads that it starts and with a producer whose calls have messages of
  -- which the records are `Ok`, or null ones: what the producer and the loops do is a run of one
  -- producer and one loop on the ring; the program is not terminated; between its calls, and before
  -- the destructor of the consumer stops, the handle is joinable exactly while the flag is set, and
  -- if the flag is not set, then no thread runs the loop; where it assigns the handle, that is not
  -- joinable, and no thread runs the loop; where it joins, the flag is not set and the handle is
  -- joinable; and after the destructor, the flag is not set, the handle is not joinable, and no
  -- thread runs the loop.
  pub owned :
      {r : Runtime}
      → Reach cfg ns c Ok scratch r
      → Frontend.Reach cfg ns c Ok scratch r.front × (r.life.terminated ≡ false) × Relies r.place r
  owned {r} reach =
      let i = Reach-Inv cfg ns c Ok scratch reach in
      (i.reached, i.tied.alive, Stands-Relies r.place r i i.stands)

  -- In any interleaving of one thread that owns a logger, with the threads that it starts and a
  -- producer, once the destructor has returned, each step that can still happen leaves the ring,
  -- the flag, the handle and the calls of the sink as they are.
  pub untouched :
      {r s : Runtime}
      → Reach cfg ns c Ok scratch r
      → r.place ≡ Place.gone
      → Step cfg ns c Ok r s
      → s ≡ r
  untouched reach e (Step.calls next m here ok lo hi) = absurd (here e)
  untouched reach e (Step.null_calls env level file line function here idle) = absurd (here e)
  untouched {r} reach e (Step.loops m on started lo hi off) =
      let i = Reach-Inv cfg ns c Ok scratch reach in
      let (stopped, free) = standing cfg ns c Ok scratch r i e in
      ap (λ w. record r { front = record r.front { machine = w } })
        (loop_step-rests (text_setup cfg ns c) m on r.front.machine (i.tied.ended free started))
  untouched reach e (Step.starts here) = cc
  untouched reach e (Step.assigns next here sized) = cc
  untouched reach e (Step.stops here) = cc
  untouched reach e (Step.destroys here) = cc
  untouched reach e (Step.destroys_consumer here) = cc
  untouched reach e (Step.joins errand here ended) = cc
