-- ===== src/Backend/Wait.antt =====
-- How far the loop is from its next line, when it finds the flag set and the newest write index.
use low_latency_logger.Prelude.{
  ℕ, zero, suc, ◌+◌, ◌≤◌, ◌<◌, bit_and, true, false, Option, none, some, ◌≡◌, refl, ◌==◌,
  Bool-cases, ltb, inl, inr, arith, if◌then◌else◌,
}
use low_latency_logger.Record.{LogRecord}
use low_latency_logger.RingBuffer.{k_mask}
use low_latency_logger.RingBuffer.Capacity.{IsCapacity}
use low_latency_logger.Spsc.{Consumer, State, consume, consume_at, latest}
use low_latency_logger.Spsc.Invariant
use low_latency_logger.Spsc.Consume.{at_pc}
use low_latency_logger.Spsc
use low_latency_logger.Consumer.{Setup}
use low_latency_logger.Backend.{Pc, Machine, pop_returns, after_pop, pop_step}

-- `k` elements are popped, and `seen` is the newest store of the write index that the pop has seen.
abbrev pub pop_wait : {A : Type 0} → ℕ → ℕ → Consumer A → ℕ
pop_wait k seen Consumer.idle = 6
pop_wait k seen (Consumer.have_write w) = if ltb k seen then 5 else 11
pop_wait k seen (Consumer.moving r) = 4
pop_wait k seen (Consumer.destroying a r) = 3
pop_wait k seen (Consumer.releasing a r) = 2
pop_wait k seen Consumer.faulted = 3

-- A bound on the loop's steps up to its next line, while a record waits; `pop` is that of the pop.
abbrev pub wait : Pc → ℕ → ℕ
wait Pc.testing pop = 7
wait Pc.popping pop = pop
wait (Pc.writing r) pop = 1
wait Pc.flushing pop = 10
wait (Pc.spinning zero) pop = 9
wait (Pc.spinning (suc left)) pop = 7
wait (Pc.retrying left) pop = pop
wait Pc.dozing pop = 8
wait Pc.closing pop = 0
wait Pc.done pop = 0

abbrev pub wait_of : Machine → ℕ
wait_of w = wait w.pc (pop_wait w.ring.read_index.stores w.ring.seen_write w.ring.consumer)

pub wait-spinning : (left n : ℕ) → wait (Pc.spinning left) n ≤ 9
wait-spinning zero n = omega arith
wait-spinning (suc left) n = omega arith

module _ (S : Setup) (capacity_ok : IsCapacity S.capacity) where
  pub pop_step-wait :
      (inside on_empty : Pc) (w : Machine)
      → Spsc.Invariant.Inv S.capacity w.ring
      → w.ring.read_index.stores < w.ring.write_index.stores
      → ((n : ℕ) → wait inside n ≡ n)
      → ((n : ℕ) → wait on_empty n ≤ 10)
      → 1 + wait_of (pop_step S w.ring.write_index.stores inside on_empty w)
        ≤ pop_wait w.ring.read_index.stores w.ring.seen_write w.ring.consumer
  unfolding pop_step consume consume_at
  pop_step-wait inside on_empty w inv waits within out = go w.ring.consumer refl
    where
      taken :
          (r k seen : ℕ) (o : Option LogRecord)
          → 1
              + wait inside (
                  pop_wait k seen
                    (elim o [ none ↦ Consumer.faulted | some a ↦ Consumer.destroying a r ]))
            ≤ 4
      taken r k seen none = omega (arith, within 3)
      taken r k seen (some a) = omega (arith, within 3)

      -- The index in hand was the same as the read index when it was loaded, so this load was too
      -- old.
      stale :
          (x : ℕ)
          → w.ring.consumer ≡ Consumer.have_write x
          → (latest w.ring.read_index == x) ≡ true
          → ltb w.ring.read_index.stores w.ring.seen_write ≡ false
      stale x e same =
          let at = at_pc capacity_ok inv (Consumer.have_write x) e in
          let own = inv.read_counts w.ring.read_index.stores (omega arith) in
          ground (
            arith, at, own, same, inv.behind, inv.write_seen, inv.room, inv.read_seen,
            capacity_ok.fits,
          )

      go :
          (c : Consumer LogRecord)
          → w.ring.consumer ≡ c
          → let s = consume_at S.capacity w.ring.write_index.stores w.ring c in
            1
              + wait
                  (after_pop inside on_empty (pop_returns c s.consumer))
                  (pop_wait s.read_index.stores s.seen_write s.consumer)
            ≤ pop_wait w.ring.read_index.stores w.ring.seen_write c
      go Consumer.idle e = ground (arith, within 5, waits)
      go (Consumer.have_write x) e = elim (Bool-cases (latest w.ring.read_index == x)) [
        | inl same ↦ rw (same, stale x e same) (omega (arith, out 6))
        | inr differ ↦ rw differ (ground (arith, within 4))
      ]
      go (Consumer.moving r) e =
          taken r w.ring.read_index.stores w.ring.seen_write
            (w.ring.storage (bit_and r (k_mask S.capacity)))
      go (Consumer.destroying a r) e = omega (arith, within 2)
      go (Consumer.releasing a r) e = omega arith
      go Consumer.faulted e = absurd (at_pc capacity_ok inv Consumer.faulted e)

pop_wait-le : {A : Type 0} (k seen : ℕ) (c : Consumer A) → pop_wait k seen c ≤ 11
pop_wait-le k seen Consumer.idle = omega arith
pop_wait-le k seen (Consumer.have_write w) = ground arith
pop_wait-le k seen (Consumer.moving r) = omega arith
pop_wait-le k seen (Consumer.destroying a r) = omega arith
pop_wait-le k seen (Consumer.releasing a r) = omega arith
pop_wait-le k seen Consumer.faulted = omega arith

wait-le : (pc : Pc) (n : ℕ) → n ≤ 11 → wait pc n ≤ 11
wait-le Pc.testing n h = omega arith
wait-le Pc.popping n h = h
wait-le (Pc.writing r) n h = omega arith
wait-le Pc.flushing n h = omega arith
wait-le (Pc.spinning zero) n h = omega arith
wait-le (Pc.spinning (suc left)) n h = omega arith
wait-le (Pc.retrying left) n h = h
wait-le Pc.dozing n h = omega arith
wait-le Pc.closing n h = omega arith
wait-le Pc.done n h = omega arith

pub wait_of-le : (w : Machine) → wait_of w ≤ 11
wait_of-le w =
    wait-le w.pc _ (pop_wait-le w.ring.read_index.stores w.ring.seen_write w.ring.consumer)
