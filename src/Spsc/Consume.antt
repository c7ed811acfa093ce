-- ===== src/Spsc/Consume.antt =====
-- Each step of `TryPop` keeps the invariant, and none reads a slot without an object.
use low_latency_logger.Prelude.{
  ℕ, ◌+◌, ◌%◌, ◌^◌, ◌≤◌, ◌<◌, [], ◌∷◌, ◌++◌, ◌≡◌, refl, ap, ◌∙◌, some, none, length, get_elem?,
  arith, append-nil, bit_and, update, if◌then◌else◌, ◌==◌, Bool-cases, inl, inr, length-append,
  get_elem?-none, get_elem?-append_left, get_elem?-some, take-suc, dec_lt,
}
use native.Mathlib.Nat.{add-mod_right}
use low_latency_logger.Spsc.{Producer, Consumer, State, store, consume, consume_at, latest}
use low_latency_logger.Spsc.Invariant.{Inv, ProducerAt, ConsumerAt, pending, emptied}
use low_latency_logger.Spsc.Produce.{store-Counts}
use low_latency_logger.RingBuffer.{next_index, k_mask}
use low_latency_logger.RingBuffer.Capacity.{IsCapacity, mask-index}
use low_latency_logger.Prelude.Modular.{window-injective}

module _ {A : Type 0} {c : ℕ} (v : IsCapacity c) {s : State A} (inv : Inv c s) where
  pub at_pc :
      (p : Consumer A) → s.consumer ≡ p → ConsumerAt s.read_index.stores s.seen_write s.pushed p
  at_pc p e = rw e at inv.consumer_at

  pub mask_at :
      (r : ℕ) → r ≡ s.read_index.stores % 2 ^ 64 → bit_and r (k_mask c) ≡ s.read_index.stores % c
  mask_at r e = ap (λ i. bit_and i (k_mask c)) e ∙ mask-index v s.read_index.stores

  -- A step that touches no memory: only the program counter and the view change.
  moves-Inv :
      (p q : Consumer A) (seen : ℕ)
      → s.consumer ≡ p
      → emptied p ≡ 0
      → emptied q ≡ 0
      → s.seen_write ≤ seen
      → seen ≤ s.write_index.stores
      → ConsumerAt s.read_index.stores seen s.pushed q
      → Inv c (record s { consumer = q; seen_write = seen })
  moves-Inv p q seen e was now lo hi at = record {
    pushes = inv.pushes;
    pops = inv.pops;
    write_counts = inv.write_counts;
    read_counts = inv.read_counts;
    read_seen = inv.read_seen;
    write_seen = hi;
    behind = omega (arith, inv.behind);
    room = inv.room;
    producer_at = inv.producer_at;
    consumer_at = at;
    order = inv.order;
    cells = λ i l h. inv.cells i (rw (e, was) (rw now at l)) (rw (e, was) (rw now at h));
  }

  -- The producer never runs a full turn ahead.
  within : length (s.pushed ++ pending s.producer) < s.read_index.stores + c
  within = ahead s.producer inv.producer_at
    where
      ahead :
          (p : Producer A)
          → ProducerAt c s.write_index.stores s.seen_read p
          → length (s.pushed ++ pending p) < s.read_index.stores + c
      ahead Producer.idle at =
          ground (arith, append-nil s.pushed, inv.pushes, inv.room, inv.read_seen, v.more_than_one)
      ahead (Producer.have_write x w) at =
          ground (arith, append-nil s.pushed, inv.pushes, inv.room, inv.read_seen, v.more_than_one)
      ahead (Producer.constructing x w) at =
          ground (arith, append-nil s.pushed, inv.pushes, inv.room, inv.read_seen, v.more_than_one)
      ahead (Producer.publishing x w) at =
          omega
            (arith, length-append {0} s.pushed (x ∷ []), inv.pushes, inv.read_seen, v.more_than_one)

  -- The oldest element of the queue lives in the slot that a move reads.
  oldest :
      s.read_index.stores < s.seen_write
      → emptied s.consumer ≡ 0
      → (a : A) × (s.storage (s.read_index.stores % c) ≡ some a)
        × (get_elem? s.pushed s.read_index.stores ≡ some a)
  oldest lt none_emptied =
      let (a, e) =
        get_elem?-some s.pushed s.read_index.stores (omega (arith, inv.write_seen, inv.pushes)) in
      (
        a,
        inv.cells s.read_index.stores (omega arith) (omega (arith, v.more_than_one))
            ∙ get_elem?-append_left s.pushed (pending s.producer) s.read_index.stores
                (omega (arith, inv.write_seen, inv.pushes))
            ∙ e,
        e,
      )

  check-Inv :
      (w : ℕ)
      → s.consumer ≡ Consumer.have_write w
      → Inv c (record s {
        consumer =
            if latest s.read_index == w
            then Consumer.idle
            else Consumer.moving (latest s.read_index);
      })
  check-Inv w e =
      let at = at_pc (Consumer.have_write w) e in
      let own = inv.read_counts s.read_index.stores (omega arith) in
      elim (Bool-cases (latest s.read_index == w)) [
        | inl same ↦
            rw same
              (moves-Inv _ Consumer.idle s.seen_write e refl refl (omega arith) inv.write_seen tt)
        | inr differ ↦ rw differ (
            moves-Inv _ (Consumer.moving (latest s.read_index)) s.seen_write e refl refl
              (omega arith) inv.write_seen (own, ground (arith, inv.behind)))
      ]

  move-Inv :
      (r : ℕ)
      → s.consumer ≡ Consumer.moving r
      → Inv c (record s {
        consumer = elim (s.storage (bit_and r (k_mask c))) [
          | none ↦ Consumer.faulted
          | some a ↦ Consumer.destroying a r
        ];
      })
  move-Inv r e =
      let at = at_pc (Consumer.moving r) e in
      let (a, cell, front) = oldest at.1 (rw e refl) in
      rw (mask_at r at.0, cell)
        (moves-Inv (Consumer.moving r) (Consumer.destroying a r) s.seen_write e refl refl
          (omega arith) inv.write_seen (at.0, at.1, front))

  destroyed-cells :
      (i : ℕ)
      → s.read_index.stores + 1 ≤ i
      → i < s.read_index.stores + 1 + c
      → emptied s.consumer ≡ 0
      → update s.storage (s.read_index.stores % c) none (i % c)
        ≡ get_elem? (s.pushed ++ pending s.producer) i
  destroyed-cells i lo hi none_emptied = elim (dec_lt i (s.read_index.stores + c)) [
    | yes inside ↦
        ground (arith, inv.cells i, window-injective c s.read_index.stores i s.read_index.stores)
    | no last ↦
        let all : i ≡ s.read_index.stores + c = omega arith in
        rw all (
          ground (
            arith,
            add-mod_right s.read_index.stores c,
            within,
            get_elem?-none (s.pushed ++ pending s.producer) (s.read_index.stores + c),
          ))
  ]

  destroy-Inv :
      (a : A) (r : ℕ)
      → s.consumer ≡ Consumer.destroying a r
      → Inv c (record s {
        consumer = Consumer.releasing a r;
        storage = update s.storage (bit_and r (k_mask c)) none;
      })
  destroy-Inv a r e =
      let at = at_pc (Consumer.destroying a r) e in
      record {
        pushes = inv.pushes;
        pops = inv.pops;
        write_counts = inv.write_counts;
        read_counts = inv.read_counts;
        read_seen = inv.read_seen;
        write_seen = inv.write_seen;
        behind = inv.behind;
        room = inv.room;
        producer_at = inv.producer_at;
        consumer_at = at;
        order = inv.order;
        cells = λ i l h. rw (mask_at r at.0) (destroyed-cells i l h (rw e refl));
      }

  release-Inv :
      (a : A) (r : ℕ)
      → s.consumer ≡ Consumer.releasing a r
      → Inv c (record s {
        consumer = Consumer.idle;
        read_index = store (next_index r) s.read_index;
        popped = s.popped ++ a ∷ [];
      })
  release-Inv a r e =
      let at = at_pc (Consumer.releasing a r) e in
      record {
        pushes = inv.pushes;
        pops = omega (arith, length-append {0} s.popped (a ∷ []), inv.pops);
        write_counts = inv.write_counts;
        read_counts = store-Counts s.read_index r inv.read_counts at.0;
        read_seen = omega (arith, inv.read_seen);
        write_seen = inv.write_seen;
        behind = omega (arith);
        room = inv.room;
        producer_at = inv.producer_at;
        consumer_at = tt;
        order = ap (λ t. t ++ a ∷ []) inv.order ∙ take-suc s.read_index.stores s.pushed a at.2;
        cells = λ i l h. inv.cells i (rw e (omega arith)) (rw e (omega arith));
      }

  -- Whatever store of the write index the acquire load returns, a step of the consumer keeps the
  -- invariant.
  pub consume-Inv : (m : ℕ) → s.seen_write ≤ m → m ≤ s.write_index.stores → Inv c (consume c m s)
  unfolding consume consume_at
  consume-Inv m lo hi = go s.consumer refl
    where
      go : (p : Consumer A) → s.consumer ≡ p → Inv c (consume_at c m s p)
      go Consumer.idle e =
          moves-Inv Consumer.idle (Consumer.have_write (s.write_index.value_at m)) m e refl refl lo
            hi (inv.write_counts m hi)
      go (Consumer.have_write w) e = check-Inv w e
      go (Consumer.moving r) e = move-Inv r e
      go (Consumer.destroying a r) e = destroy-Inv a r e
      go (Consumer.releasing a r) e = release-Inv a r e
      go Consumer.faulted e = inv
