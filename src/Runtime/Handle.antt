-- ===== src/Runtime/Handle.antt =====
-- include/consumer.h with include/logger.h: what the exchanges, the join and the loop do to the
-- flag and the handle.
use low_latency_logger.Prelude.{
  ℕ, ◌<◌, Bool, true, false, ◌≡◌, refl, sym, ◌∙◌, ◌==◌, arith, Bool-cases, inl, inr,
}
use low_latency_logger.Prelude.Text.{Text}
use low_latency_logger.Consumer.{Setup}
use low_latency_logger.Lifecycle.{Lifecycle, exchange, assign_thread, join_thread}
use low_latency_logger.Backend.{Pc, Machine, loop_at, loop_step}
use low_latency_logger.Backend.Rank.{loop_step-stopped}
use low_latency_logger.Runtime.{
  Errand, calling, ending_logger, ending_consumer, Place, Runtime, after_stop, start_exchange,
  start_thread, stop_exchange, stop_join,
}

-- What the flag and the handle are at a place of the owner.
abbrev pub Stands : Place → Lifecycle → Type 0
Stands Place.resting l = l.joinable ≡ l.is_running
Stands Place.assigning l = (l.is_running ≡ true) × (l.joinable ≡ false)
Stands (Place.stopping errand) l = l.joinable ≡ l.is_running
Stands (Place.joining errand) l = (l.is_running ≡ false) × (l.joinable ≡ true)
Stands Place.gone l = (l.is_running ≡ false) × (l.joinable ≡ false)

-- What the machine is, for a flag and a handle.
pub record Tied (w : Machine) (l : Lifecycle) : Type 0 where
  pub alive : l.terminated ≡ false
  pub owned : l.joinable ≡ true → 0 < l.threads
  pub ended : l.joinable ≡ false → 0 < l.threads → w.pc ≡ Pc.done
  pub told : l.is_running ≡ false → 0 < l.threads → w.stopped ≡ true
  pub unused : l.threads ≡ 0 → w.stopped ≡ false
  pub working : l.joinable ≡ true → l.is_running ≡ true → w.stopped ≡ false

pub after_stop-Stands :
    (errand : Errand) (r : Runtime)
    → r.life.is_running ≡ false
    → r.life.joinable ≡ false
    → Tied r.front.machine r.life
    → let s = after_stop errand r in
      Stands s.place s.life × Tied s.front.machine s.life × (s.front ≡ r.front)
unfolding after_stop
after_stop-Stands calling r off free t = (free ∙ sym off, t, refl)
after_stop-Stands ending_logger r off free t = (free ∙ sym off, t, refl)
after_stop-Stands ending_consumer r off free t = (
  (off, free),
  record {
    alive = ground (arith, t.alive, free);
    owned = t.owned;
    ended = t.ended;
    told = t.told;
    unused = t.unused;
    working = t.working;
  },
  refl,
)

pub start_exchange-Stands :
    (r : Runtime)
    → Stands Place.resting r.life
    → Tied r.front.machine r.life
    → let s = start_exchange r in
      Stands s.place s.life × Tied s.front.machine s.life × (s.front ≡ r.front)
unfolding start_exchange exchange
start_exchange-Stands r stands t = elim (Bool-cases r.life.is_running) [
  | inl on ↦ rw on (
    stands ∙ on,
    record {
      alive = t.alive;
      owned = t.owned;
      ended = t.ended;
      told = λ e. cc;
      unused = t.unused;
      working = λ held e. t.working held on;
    },
    refl,
  )
  | inr off ↦ rw off (
    (refl, stands ∙ off),
    record {
      alive = t.alive;
      owned = t.owned;
      ended = t.ended;
      told = λ e. cc;
      unused = t.unused;
      working = λ held e. cc;
    },
    refl,
  )
]

pub stop_exchange-Stands :
    (errand : Errand) (r : Runtime)
    → r.life.joinable ≡ r.life.is_running
    → Tied r.front.machine r.life
    → let s = stop_exchange errand r in Stands s.place s.life × Tied s.front.machine s.life
unfolding stop_exchange exchange
stop_exchange-Stands errand r stands t = elim (Bool-cases r.life.is_running) [
  | inl on ↦ rw on (
    (refl, stands ∙ on),
    record {
      alive = t.alive;
      owned = t.owned;
      ended = t.ended;
      told = λ e h. refl;
      unused = λ e. absurd (omega (arith, t.owned (stands ∙ on)));
      working = λ held e. cc;
    },
  )
  | inr off ↦ rw off (
      let (stands', tied, same) =
        after_stop-Stands errand (record r { life = record r.life { is_running = false } }) refl
          (stands ∙ off)
          (record {
            alive = t.alive;
            owned = t.owned;
            ended = t.ended;
            told = λ e. t.told off;
            unused = t.unused;
            working = λ held e. cc;
          }) in
      (stands', tied))
]

pub stop_join-Stands :
    (errand : Errand) (r : Runtime)
    → Stands (Place.joining errand) r.life
    → Tied r.front.machine r.life
    → (r.life.joinable ≡ true → r.front.machine.pc ≡ Pc.done)
    → let s = stop_join errand r in
      Stands s.place s.life × Tied s.front.machine s.life × (s.front ≡ r.front)
unfolding stop_join join_thread
stop_join-Stands errand r (off, held) t ended = rw held (
    after_stop-Stands errand (record r { life = record r.life { joinable = false } }) off refl
      (record {
        alive = t.alive;
        owned = λ e. cc;
        ended = λ e h. ended held;
        told = t.told;
        unused = t.unused;
        working = λ e. cc;
      }))

pub start_thread-Stands :
    (scratch : Text) (r : Runtime)
    → Stands Place.assigning r.life
    → Tied r.front.machine r.life
    → let s = start_thread scratch r in Stands s.place s.life × Tied s.front.machine s.life
unfolding start_thread assign_thread
start_thread-Stands scratch r (on, free) t =
    let started_fresh : (start_thread scratch r).front.machine.stopped ≡ false =
      elim (Bool-cases (r.life.threads == 0)) [
        | inl first ↦ rw first (t.unused (ground (arith, first)))
        | inr again ↦ rw again refl
      ] in
    (
      sym on,
      record {
        alive = ground (arith, t.alive, free);
        owned = λ e. omega arith;
        ended = λ e. cc;
        told = λ e. cc;
        unused = λ e. absurd (omega arith);
        working = λ e h. started_fresh;
      },
    )

module _ (S : Setup) where
  -- A step of a loop that has ended does nothing.
  loop_step-done :
      (m : ℕ) (on : Bool) (w : Machine) → w.pc ≡ Pc.done → (loop_step S m on w).pc ≡ Pc.done
  unfolding loop_step loop_at
  loop_step-done m on w e = rw e refl

  pub loop_step-Tied :
      (m : ℕ) (on : Bool) (w : Machine) (l : Lifecycle) → Tied w l → Tied (loop_step S m on w) l
  loop_step-Tied m on w l t = record {
    alive = t.alive;
    owned = t.owned;
    ended = λ e h. loop_step-done m on w (t.ended e h);
    unused = λ e. loop_step-stopped S m on w ∙ t.unused e;
    working = λ held e. loop_step-stopped S m on w ∙ t.working held e;
    told = λ e h. loop_step-stopped S m on w ∙ t.told e h;
  }
