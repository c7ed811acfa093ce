-- ===== src/Backend/Progress.antt =====
-- How far the loop is from the line of the last of a number of records.
use low_latency_logger.Prelude.{
  ℕ, zero, suc, ◌+◌, ◌-◌, ◌*◌, ◌≤◌, ◌<◌, Bool, true, false, Option, none, some, [], ◌∷◌, ◌++◌, ◌≡◌,
  refl, sym, ap, ◌∙◌, length, length-append, append-nil, arith,
}
use low_latency_logger.Record.{LogRecord}
use low_latency_logger.RingBuffer.Capacity.{IsCapacity}
use low_latency_logger.Spsc.{Consumer, State, consume, consume_at, latest}
use low_latency_logger.Spsc.Invariant
use low_latency_logger.Spsc
use low_latency_logger.Consumer.{Setup}
use low_latency_logger.Backend.{Pc, Machine, pop_returns, after_pop, pop_step, loop_at, loop_step}
use low_latency_logger.Backend.Pops.{consume-Pops}
use low_latency_logger.Backend.Invariant.{in_hand, in_pop, leaving}
use low_latency_logger.Backend.Wait.{pop_wait, wait, wait_of, pop_step-wait, wait-spinning}

-- A bound on the loop's steps up to the line of the last of `total` records.
abbrev pub ahead : ℕ → Machine → ℕ
ahead total w = 7 * (total - length w.emitted) + wait_of w

module _ (S : Setup) where
  -- Nothing waits in the loop's hand, so what is emitted is what is popped.
  popped_of :
      (w : Machine) (inv : Spsc.Invariant.Inv S.capacity w.ring)
      → w.emitted ++ in_hand w.pc ≡ w.ring.popped
      → in_hand w.pc ≡ []
      → w.ring.read_index.stores ≡ length w.emitted
  popped_of w inv handed empty =
      inv.pops
      ∙ ap length (sym handed)
      ∙ ap (λ l. length (w.emitted ++ l)) empty
      ∙ ap length (append-nil w.emitted)

  pub loop_step-ahead :
      (total : ℕ) (w : Machine)
      → IsCapacity S.capacity
      → Spsc.Invariant.Inv S.capacity w.ring
      → w.emitted ++ in_hand w.pc ≡ w.ring.popped
      → (in_pop w.pc ≡ false → w.ring.consumer ≡ Consumer.idle)
      → leaving w.pc ≡ false
      → total ≤ w.ring.write_index.stores
      → length w.emitted < total
      → 1 + ahead total (loop_step S w.ring.write_index.stores true w) ≤ ahead total w
  unfolding loop_step loop_at pop_step
  loop_step-ahead total w capacity_ok inv handed resting staying pushed short = go w.pc refl
    where
      popping :
          (inside on_empty : Pc)
          → w.pc ≡ inside
          → in_hand inside ≡ []
          → ((n : ℕ) → wait inside n ≡ n)
          → ((n : ℕ) → wait on_empty n ≤ 10)
          → 1 + ahead total (pop_step S w.ring.write_index.stores inside on_empty w) ≤ ahead total w
      popping inside on_empty e empty within out =
          let step =
            pop_step-wait S capacity_ok inside on_empty w inv
              (omega (arith, popped_of w inv handed (ap in_hand e ∙ empty), pushed, short)) within
              out in
          rw e (
            omega (
              arith,
              step,
              within (pop_wait w.ring.read_index.stores w.ring.seen_write w.ring.consumer),
            ))

      go :
          (pc : Pc)
          → w.pc ≡ pc
          → 1 + ahead total (loop_at S w.ring.write_index.stores true w pc) ≤ ahead total w
      go Pc.testing e = rw (e, resting (ap in_pop e)) (omega arith)
      go Pc.popping e = popping Pc.popping Pc.flushing e refl (λ n. refl) (λ n. omega arith)
      go (Pc.writing r) e = rw e (omega (arith, short, length-append w.emitted (r ∷ [])))
      go Pc.flushing e = rw e (
          omega (
            arith,
            wait-spinning S.spin_count
                (pop_wait w.ring.read_index.stores w.ring.seen_write w.ring.consumer),
          ))
      go (Pc.spinning zero) e = rw e (omega arith)
      go (Pc.spinning (suc left)) e = rw (e, resting (ap in_pop e)) (omega arith)
      go (Pc.retrying left) e =
          popping (Pc.retrying left) (Pc.spinning left) e refl (λ n. refl)
            (λ n. omega (arith, wait-spinning left n))
      go Pc.dozing e = rw e (omega arith)
      go Pc.closing e = absurd (ground (arith, ap leaving e, staying))
      go Pc.done e = absurd (ground (arith, ap leaving e, staying))

  -- A loop that finds the flag set does not leave.
  pub loop_step-stays :
      (m : ℕ) (w : Machine)
      → leaving w.pc ≡ false
      → (leaving (loop_step S m true w).pc ≡ false)
        × (length w.emitted ≤ length (loop_step S m true w).emitted)
  unfolding loop_step loop_at pop_step
  loop_step-stays m w staying = go w.pc refl
    where
      popping :
          (inside on_empty : Pc) (o : Option (Option LogRecord))
          → leaving inside ≡ false
          → leaving on_empty ≡ false
          → leaving (after_pop inside on_empty o) ≡ false
      popping inside on_empty none a b = a
      popping inside on_empty (some none) a b = b
      popping inside on_empty (some (some r)) a b = refl

      after : Option (Option LogRecord)
      after = pop_returns w.ring.consumer (consume S.capacity m w.ring).consumer

      go :
          (pc : Pc)
          → w.pc ≡ pc
          → (leaving (loop_at S m true w pc).pc ≡ false)
            × (length w.emitted ≤ length (loop_at S m true w pc).emitted)
      go Pc.testing e = (refl, omega arith)
      go Pc.popping e = (popping Pc.popping Pc.flushing after refl refl, omega arith)
      go (Pc.writing r) e = (refl, omega (arith, length-append w.emitted (r ∷ [])))
      go Pc.flushing e = (refl, omega arith)
      go (Pc.spinning zero) e = (refl, omega arith)
      go (Pc.spinning (suc left)) e = (refl, omega arith)
      go (Pc.retrying left) e =
          (popping (Pc.retrying left) (Pc.spinning left) after refl refl, omega arith)
      go Pc.dozing e = (refl, omega arith)
      go Pc.closing e = absurd (ground (arith, ap leaving e, staying))
      go Pc.done e = absurd (ground (arith, ap leaving e, staying))

  -- The loop leaves the producer's side alone.
  pub loop_step-keeps :
      (m : ℕ) (on : Bool) (w : Machine)
      → let w' = loop_step S m on w in
        (w'.ring.pushed ≡ w.ring.pushed) × (w'.ring.producer ≡ w.ring.producer)
  unfolding loop_step loop_at pop_step
  loop_step-keeps m on w = go w.pc
    where
      popped :
          let ring = consume S.capacity m w.ring in
          (ring.pushed ≡ w.ring.pushed) × (ring.producer ≡ w.ring.producer)
      popped = let p = consume-Pops S.capacity m w.ring in (p.pushed, p.producer)

      go :
          (pc : Pc)
          → let w' = loop_at S m on w pc in
            (w'.ring.pushed ≡ w.ring.pushed) × (w'.ring.producer ≡ w.ring.producer)
      go Pc.testing = (refl, refl)
      go Pc.popping = popped
      go (Pc.writing r) = (refl, refl)
      go Pc.flushing = (refl, refl)
      go (Pc.spinning zero) = (refl, refl)
      go (Pc.spinning (suc left)) = (refl, refl)
      go (Pc.retrying left) = popped
      go Pc.dozing = (refl, refl)
      go Pc.closing = (refl, refl)
      go Pc.done = (refl, refl)
