-- ===== src/Spsc/Safety.antt =====
-- What holds in every state that an interleaving of one producer and one consumer can reach.
use low_latency_logger.Prelude.{
  ℕ, ◌+◌, ◌-◌, ◌%◌, ◌≤◌, ◌<◌, bit_and, List, ◌++◌, ◌≡◌, ◌≢◌, ◌⊎◌, inl, inr, sym, ap, ◌∙◌, none,
  length, drop, take-append-drop, length-drop, get_elem?-none, arith, append-nil,
}
use low_latency_logger.Spsc.{
  Producer, Consumer, State, Step, produces, consumes, Reach, begin, later,
}
use low_latency_logger.Spsc.Invariant.{Inv, start-Inv, emptied-le}
use low_latency_logger.Spsc.Produce.{produce-Inv}
use low_latency_logger.Spsc.Produce
use low_latency_logger.Spsc.Consume.{consume-Inv}
use low_latency_logger.Spsc.Consume
use low_latency_logger.RingBuffer.{k_mask}
use low_latency_logger.RingBuffer.Capacity.{IsCapacity}
use low_latency_logger.Prelude.Modular.{window-injective}

module _ {A : Type 0} {c : ℕ} (v : IsCapacity c) where
  Step-Inv : {s t : State A} → Step c s t → Inv c s → Inv c t
  Step-Inv (produces x m lo hi) inv = produce-Inv v inv x m lo hi
  Step-Inv (consumes m lo hi) inv = consume-Inv v inv m lo hi

  pub Reach-Inv : {s : State A} → Reach c s → Inv c s
  Reach-Inv begin = start-Inv c v
  Reach-Inv (later r st) = Step-Inv st (Reach-Inv r)

  -- For a capacity that passes the static assertions: in every reachable state the elements
  -- popped, followed by at most `Capacity-1` elements that wait in the buffer, are the elements
  -- pushed: nothing is lost, duplicated or reordered.
  pub fifo :
      {s : State A}
      → Reach c s
      → (waiting : List A) × (s.popped ++ waiting ≡ s.pushed) × (length waiting ≤ c - 1)
  fifo {s} reach =
      let inv = Reach-Inv reach in
      (
        drop s.read_index.stores s.pushed,
        ap (λ t. t ++ drop s.read_index.stores s.pushed) inv.order
            ∙ take-append-drop s.read_index.stores s.pushed,
        omega
            (arith, length-drop s.read_index.stores s.pushed, inv.pushes, inv.room, inv.read_seen),
      )

  -- For a capacity that passes the static assertions: no reachable `TryPop` moves from a slot in
  -- which no object lives.
  pub never_faults : {s : State A} → Reach c s → s.consumer ≢ Consumer.faulted
  never_faults {s} reach e = Consume.at_pc v (Reach-Inv reach) Consumer.faulted e

  holding :
      {s : State A} (inv : Inv c s) (r : ℕ)
      → (s.consumer ≡ Consumer.moving r) ⊎ ((a : A) × (s.consumer ≡ Consumer.destroying a r))
      → (bit_and r (k_mask c) ≡ s.read_index.stores % c) × (s.read_index.stores < s.seen_write)
  holding inv r (inl e) =
      let at = Consume.at_pc v inv (Consumer.moving r) e in (Consume.mask_at v inv r at.0, at.1)
  holding inv r (inr (a, e)) =
      let at = Consume.at_pc v inv (Consumer.destroying a r) e in
      (Consume.mask_at v inv r at.0, at.1)

  elsewhere :
      {s : State A} (inv : Inv c s)
      → s.write_index.stores < s.seen_read + (c - 1)
      → (r : ℕ)
      → (bit_and r (k_mask c) ≡ s.read_index.stores % c) × (s.read_index.stores < s.seen_write)
      → s.write_index.stores % c ≢ bit_and r (k_mask c)
  elsewhere {s} inv free r (slot, behind) same =
      let one = window-injective c s.read_index.stores s.read_index.stores s.write_index.stores in
      absurd (
        omega (
          arith,
          one (omega arith) (omega (arith, v.more_than_one)) (omega (arith, inv.write_seen))
              (omega (arith, inv.read_seen)) (sym (same ∙ slot)),
          inv.write_seen,
        ))

  -- For a capacity that passes the static assertions: in a reachable state in which the producer
  -- is about to construct an element, the slot is raw memory, and the producer has seen the store
  -- by which the consumer gave it up, if it was ever used.
  pub raw_slot :
      {s : State A}
      → Reach c s
      → (x : A) (w : ℕ) → s.producer ≡ Producer.constructing x w
      → (s.storage (bit_and w (k_mask c)) ≡ none) × (s.write_index.stores < s.seen_read + c)
  raw_slot {s} reach x w e =
      let inv = Reach-Inv reach in
      let at = Produce.at_pc v inv (Producer.constructing x w) e in
      let slot = Produce.mask_at v inv w at.0 in
      let below =
        emptied-le s.read_index.stores s.seen_write s.pushed s.consumer inv.behind
          inv.consumer_at in
      (
        rw slot (
            inv.cells s.write_index.stores (omega (arith, inv.write_seen))
              (omega (arith, at.1, inv.read_seen, v.more_than_one))
            ∙ rw (e, append-nil)
                (get_elem?-none s.pushed s.write_index.stores (omega (arith, inv.pushes)))),
        omega (arith, at.1),
      )

  -- For a capacity that passes the static assertions: in a reachable state in which the producer
  -- is about to construct an element and the consumer is about to move from or to destroy one,
  -- they work on different slots.
  pub race_free :
      {s : State A}
      → Reach c s
      → (x : A) (w : ℕ) → s.producer ≡ Producer.constructing x w
      → (r : ℕ)
      → (s.consumer ≡ Consumer.moving r) ⊎ ((a : A) × (s.consumer ≡ Consumer.destroying a r))
      → bit_and w (k_mask c) ≢ bit_and r (k_mask c)
  race_free {s} reach x w e r who same =
      let inv = Reach-Inv reach in
      let at = Produce.at_pc v inv (Producer.constructing x w) e in
      elsewhere inv at.1 r (holding inv r who) (sym (Produce.mask_at v inv w at.0) ∙ same)
