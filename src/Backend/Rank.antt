-- ===== src/Backend/Rank.antt =====
-- How far the loop is from its end, and what it may still write, once it finds the flag cleared.
use low_latency_logger.Prelude.{
  Bool, ℕ, zero, suc, ◌+◌, ◌-◌, ◌≤◌, bit_and, false, Option, none, some, [], ◌∷◌, ◌≡◌, ◌≢◌, refl,
  length, length-append, ◌==◌, Bool-cases, inl, inr, arith,
}
use low_latency_logger.Record.{LogRecord}
use low_latency_logger.RingBuffer.{k_mask}
use low_latency_logger.Spsc.{Consumer, consume, consume_at, latest}
use low_latency_logger.Consumer.{Setup}
use low_latency_logger.Backend.{Pc, Machine, pop_returns, after_pop, pop_step, loop_at, loop_step}

-- The steps that are left inside `TryPop`, plus those that the loop takes after it.
abbrev pub pop_rank : {A : Type 0} → Consumer A → ℕ
pop_rank Consumer.idle = 8
pop_rank (Consumer.have_write w) = 7
pop_rank (Consumer.moving r) = 6
pop_rank (Consumer.destroying a r) = 5
pop_rank (Consumer.releasing a r) = 4
pop_rank Consumer.faulted = 5

-- A bound on the loop's steps up to its end, once every load of `is_running_` returns `false`.
abbrev pub rank : {A : Type 0} → Pc → Consumer A → ℕ
rank Pc.testing c = 2
rank Pc.popping c = pop_rank c
rank (Pc.writing r) c = 3
rank Pc.flushing c = 5
rank (Pc.spinning left) c = 4
rank (Pc.retrying left) c = pop_rank c
rank Pc.dozing c = 3
rank Pc.closing c = 1
rank Pc.done c = 0

pop_rank-le : {A : Type 0} (c : Consumer A) → pop_rank c ≤ 8
pop_rank-le Consumer.idle = omega arith
pop_rank-le (Consumer.have_write w) = omega arith
pop_rank-le (Consumer.moving r) = omega arith
pop_rank-le (Consumer.destroying a r) = omega arith
pop_rank-le (Consumer.releasing a r) = omega arith
pop_rank-le Consumer.faulted = omega arith

pub rank-le : {A : Type 0} (pc : Pc) (c : Consumer A) → rank pc c ≤ 8
rank-le Pc.testing c = omega arith
rank-le Pc.popping c = pop_rank-le c
rank-le (Pc.writing r) c = omega arith
rank-le Pc.flushing c = omega arith
rank-le (Pc.spinning left) c = omega arith
rank-le (Pc.retrying left) c = pop_rank-le c
rank-le Pc.dozing c = omega arith
rank-le Pc.closing c = omega arith
rank-le Pc.done c = omega arith

-- The records that the loop may still write.
abbrev pub allowance : Pc → ℕ
allowance Pc.popping = 1
allowance (Pc.writing r) = 1
allowance (Pc.retrying left) = 1
allowance _ = 0

pub allowance-le : (pc : Pc) → allowance pc ≤ 1
allowance-le Pc.testing = omega arith
allowance-le Pc.popping = omega arith
allowance-le (Pc.writing r) = omega arith
allowance-le Pc.flushing = omega arith
allowance-le (Pc.spinning left) = omega arith
allowance-le (Pc.retrying left) = omega arith
allowance-le Pc.dozing = omega arith
allowance-le Pc.closing = omega arith
allowance-le Pc.done = omega arith

pop_rank-positive : {A : Type 0} (c : Consumer A) → 1 ≤ pop_rank c
pop_rank-positive Consumer.idle = omega arith
pop_rank-positive (Consumer.have_write w) = omega arith
pop_rank-positive (Consumer.moving r) = omega arith
pop_rank-positive (Consumer.destroying a r) = omega arith
pop_rank-positive (Consumer.releasing a r) = omega arith
pop_rank-positive Consumer.faulted = omega arith

pub rank-zero : {A : Type 0} (pc : Pc) (c : Consumer A) → rank pc c ≤ 0 → pc ≡ Pc.done
rank-zero Pc.testing c h = absurd (omega (arith, h))
rank-zero Pc.popping c h = absurd (omega (arith, h, pop_rank-positive c))
rank-zero (Pc.writing r) c h = absurd (omega (arith, h))
rank-zero Pc.flushing c h = absurd (omega (arith, h))
rank-zero (Pc.spinning left) c h = absurd (omega (arith, h))
rank-zero (Pc.retrying left) c h = absurd (omega (arith, h, pop_rank-positive c))
rank-zero Pc.dozing c h = absurd (omega (arith, h))
rank-zero Pc.closing c h = absurd (omega (arith, h))
rank-zero Pc.done c h = refl

module _ (S : Setup) where
  pop_step-rank :
      (m : ℕ) (inside on_empty : Pc) (w : Machine)
      → w.ring.consumer ≢ Consumer.faulted
      → ((c : Consumer LogRecord) → rank inside c ≡ pop_rank c)
      → ((c : Consumer LogRecord) → rank on_empty c ≤ 5)
      → let w' = pop_step S m inside on_empty w in
        1 + rank w'.pc w'.ring.consumer ≤ pop_rank w.ring.consumer
  unfolding pop_step consume consume_at
  pop_step-rank m inside on_empty w sound within out = go w.ring.consumer refl
    where
      taken :
          (r : ℕ) (o : Option LogRecord)
          → 1 + rank inside (elim o [ none ↦ Consumer.faulted | some a ↦ Consumer.destroying a r ])
            ≤ 6
      taken r none = omega (arith, within Consumer.faulted)
      taken r (some a) = omega (arith, within (Consumer.destroying a r))

      go :
          (c : Consumer LogRecord)
          → w.ring.consumer ≡ c
          → let s = consume_at S.capacity m w.ring c in
            1 + rank (after_pop inside on_empty (pop_returns c s.consumer)) s.consumer ≤ pop_rank c
      go Consumer.idle e =
          omega (arith, within (Consumer.have_write (w.ring.write_index.value_at m)))
      go (Consumer.have_write x) e = elim (Bool-cases (latest w.ring.read_index == x)) [
        | inl same ↦ rw same (omega (arith, out Consumer.idle))
        | inr differ ↦
            rw differ (omega (arith, within (Consumer.moving (latest w.ring.read_index))))
      ]
      go (Consumer.moving r) e = taken r (w.ring.storage (bit_and r (k_mask S.capacity)))
      go (Consumer.destroying a r) e = omega (arith, within (Consumer.releasing a r))
      go (Consumer.releasing a r) e = omega arith
      go Consumer.faulted e = absurd (sound e)

  pub loop_step-rank :
      (m : ℕ) (w : Machine)
      → w.ring.consumer ≢ Consumer.faulted
      → let w' = loop_step S m false w in
        rank w'.pc w'.ring.consumer ≤ rank w.pc w.ring.consumer - 1
  unfolding loop_step loop_at
  loop_step-rank m w sound = go w.pc refl
    where
      go :
          (pc : Pc)
          → w.pc ≡ pc
          → let w' = loop_at S m false w pc in
            rank w'.pc w'.ring.consumer ≤ rank pc w.ring.consumer - 1
      go Pc.testing e = omega arith
      go Pc.popping e =
          omega
            (arith, pop_step-rank m Pc.popping Pc.flushing w sound (λ c. refl) (λ c. omega arith))
      go (Pc.writing r) e = omega arith
      go Pc.flushing e = omega arith
      go (Pc.spinning zero) e = omega arith
      go (Pc.spinning (suc left)) e = omega arith
      go (Pc.retrying left) e = omega (
        arith,
        pop_step-rank m (Pc.retrying left) (Pc.spinning left) w sound (λ c. refl)
            (λ c. omega arith),
      )
      go Pc.dozing e = omega arith
      go Pc.closing e = omega arith
      go Pc.done e = rw e (omega arith)

  after_pop-allowance :
      (inside on_empty : Pc) (o : Option (Option LogRecord))
      → allowance inside ≡ 1
      → allowance on_empty ≡ 0
      → allowance (after_pop inside on_empty o) ≤ 1
  after_pop-allowance inside on_empty none a b = omega (arith, a)
  after_pop-allowance inside on_empty (some none) a b = omega (arith, b)
  after_pop-allowance inside on_empty (some (some r)) a b = omega arith

  pub loop_step-allowance :
      (m : ℕ) (w : Machine)
      → let w' = loop_step S m false w in
        length w'.emitted + allowance w'.pc ≤ length w.emitted + allowance w.pc
  unfolding loop_step loop_at pop_step
  loop_step-allowance m w = go w.pc refl
    where
      popped :
          (inside on_empty : Pc)
          → allowance inside ≡ 1
          → allowance on_empty ≡ 0
          → length w.emitted + allowance (pop_step S m inside on_empty w).pc ≤ length w.emitted + 1
      popped inside on_empty a b = omega (
        arith,
        after_pop-allowance inside on_empty
            (pop_returns w.ring.consumer (consume S.capacity m w.ring).consumer) a b,
      )

      go :
          (pc : Pc)
          → w.pc ≡ pc
          → let w' = loop_at S m false w pc in
            length w'.emitted + allowance w'.pc ≤ length w.emitted + allowance pc
      go Pc.testing e = omega arith
      go Pc.popping e = popped Pc.popping Pc.flushing refl refl
      go (Pc.writing r) e = omega (arith, length-append w.emitted (r ∷ []))
      go Pc.flushing e = omega arith
      go (Pc.spinning zero) e = omega arith
      go (Pc.spinning (suc left)) e = omega arith
      go (Pc.retrying left) e = popped (Pc.retrying left) (Pc.spinning left) refl refl
      go Pc.dozing e = omega arith
      go Pc.closing e = omega arith
      go Pc.done e = rw e (omega arith)

  pub loop_step-stopped :
      (m : ℕ) (on : Bool) (w : Machine) → (loop_step S m on w).stopped ≡ w.stopped
  unfolding loop_step loop_at pop_step
  loop_step-stopped m on w = go w.pc
    where
      go : (pc : Pc) → (loop_at S m on w pc).stopped ≡ w.stopped
      go Pc.testing = refl
      go Pc.popping = refl
      go (Pc.writing r) = refl
      go Pc.flushing = refl
      go (Pc.spinning zero) = refl
      go (Pc.spinning (suc left)) = refl
      go (Pc.retrying left) = refl
      go Pc.dozing = refl
      go Pc.closing = refl
      go Pc.done = refl
