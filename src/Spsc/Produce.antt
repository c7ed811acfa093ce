-- ===== src/Spsc/Produce.antt =====
-- Each step of `TryPush` keeps the invariant.
use low_latency_logger.Prelude.{
  ℕ, ◌+◌, ◌-◌, ◌%◌, ◌^◌, ◌≤◌, ◌<◌, [], ◌∷◌, ◌++◌, ◌≡◌, refl, sym, ap, ◌∙◌, some, get_elem?, arith,
  append-nil, leb, bit_and, update, if◌then◌else◌, Bool-cases, inl, inr, length-append,
  take-append_left, get_elem?-append,
}
use low_latency_logger.Spsc.{Atomic, Producer, State, store, produce, produce_at, latest}
use low_latency_logger.Spsc.Invariant.{
  Inv, Counts, ProducerAt, pending, emptied, emptied-le, ConsumerAt-append,
}
use low_latency_logger.RingBuffer.{next_index, distance, k_mask}
use low_latency_logger.RingBuffer.Capacity.{IsCapacity, mask-index}
use low_latency_logger.Prelude.Modular.{window-injective}

-- A store of the next index keeps the count.
pub store-Counts :
    (a : Atomic) (v : ℕ) → Counts a → v ≡ a.stores % 2 ^ 64 → Counts (store (next_index v) a)
store-Counts a v h e m le = ground (arith, h m)

module _ {A : Type 0} {c : ℕ} (v : IsCapacity c) {s : State A} (inv : Inv c s) where
  pub at_pc : (p : Producer A) → s.producer ≡ p → ProducerAt c s.write_index.stores s.seen_read p
  at_pc p e = rw e at inv.producer_at

  pub mask_at :
      (w : ℕ) → w ≡ s.write_index.stores % 2 ^ 64 → bit_and w (k_mask c) ≡ s.write_index.stores % c
  mask_at w e = ap (λ i. bit_and i (k_mask c)) e ∙ mask-index v s.write_index.stores

  -- The slot of the new element is in the window, and no other place of the window shares it.
  constructed-cells :
      (x : A)
      → s.write_index.stores < s.seen_read + (c - 1)
      → (i : ℕ) → s.read_index.stores + emptied s.consumer ≤ i
      → i < s.read_index.stores + emptied s.consumer + c
      → s.storage (i % c) ≡ get_elem? s.pushed i
      → update s.storage (s.write_index.stores % c) (some x) (i % c)
        ≡ get_elem? (s.pushed ++ x ∷ []) i
  constructed-cells x free i lo hi old = ground (
    arith,
    get_elem?-append s.pushed x i,
    inv.pushes,
    inv.read_seen,
    inv.write_seen,
    emptied-le s.read_index.stores s.seen_write s.pushed s.consumer inv.behind inv.consumer_at,
    window-injective c (s.read_index.stores + emptied s.consumer) i s.write_index.stores,
  )

  load_own-Inv :
      (x : A)
      → s.producer ≡ Producer.idle
      → Inv c (record s { producer = Producer.have_write x (latest s.write_index) })
  load_own-Inv x e = record {
    pushes = inv.pushes;
    pops = inv.pops;
    write_counts = inv.write_counts;
    read_counts = inv.read_counts;
    read_seen = inv.read_seen;
    write_seen = inv.write_seen;
    behind = inv.behind;
    room = inv.room;
    producer_at = inv.write_counts _ (omega arith);
    consumer_at = inv.consumer_at;
    order = inv.order;
    cells = λ i lo hi. rw e at (inv.cells i lo hi);
  }

  check-Inv :
      (x : A) (w m : ℕ)
      → s.producer ≡ Producer.have_write x w
      → s.seen_read ≤ m
      → m ≤ s.read_index.stores
      → Inv c (record s {
        producer =
            if leb (c - 1) (distance w (s.read_index.value_at m))
            then Producer.idle
            else Producer.constructing x w;
        seen_read = m;
      })
  check-Inv x w m e lo hi =
      let at = at_pc (Producer.have_write x w) e in
      let exact : distance w (s.read_index.value_at m) ≡ s.write_index.stores - m =
        omega (arith, inv.read_counts m hi, inv.room, inv.behind, inv.write_seen, v.fits) in
      elim (Bool-cases (leb (c - 1) (s.write_index.stores - m))) [
        | inl full ↦ rw (exact, full) (stays Producer.idle tt refl)
        | inr free ↦ rw (exact, free) (stays (Producer.constructing x w) (at, ground arith) refl)
      ]
    where
      stays :
          (p : Producer A)
          → ProducerAt c s.write_index.stores m p
          → pending p ≡ []
          → Inv c (record s { producer = p; seen_read = m })
      stays p at none_pending = record {
        pushes = inv.pushes;
        pops = inv.pops;
        write_counts = inv.write_counts;
        read_counts = inv.read_counts;
        read_seen = hi;
        write_seen = inv.write_seen;
        behind = inv.behind;
        room = omega (arith, inv.room);
        producer_at = at;
        consumer_at = inv.consumer_at;
        order = inv.order;
        cells = λ i l h. rw none_pending (rw e at (inv.cells i l h));
      }

  construct-Inv :
      (x : A) (w : ℕ)
      → s.producer ≡ Producer.constructing x w
      → Inv c (record s {
        producer = Producer.publishing x w;
        storage = update s.storage (bit_and w (k_mask c)) (some x);
      })
  construct-Inv x w e =
      let at = at_pc (Producer.constructing x w) e in
      record {
        pushes = inv.pushes;
        pops = inv.pops;
        write_counts = inv.write_counts;
        read_counts = inv.read_counts;
        read_seen = inv.read_seen;
        write_seen = inv.write_seen;
        behind = inv.behind;
        room = inv.room;
        producer_at = at;
        consumer_at = inv.consumer_at;
        order = inv.order;
        cells = λ i lo hi.
            rw (mask_at w at.0)
              (constructed-cells x at.1 i lo hi (rw append-nil at ((rw e at (inv.cells i lo hi)))));
      }

  publish-Inv :
      (x : A) (w : ℕ)
      → s.producer ≡ Producer.publishing x w
      → Inv c (record s {
        producer = Producer.idle;
        write_index = store (next_index w) s.write_index;
        pushed = s.pushed ++ x ∷ [];
      })
  publish-Inv x w e =
      let (at, room) = at_pc (Producer.publishing x w) e in
      record {
        pushes = omega (arith, length-append {0} s.pushed (x ∷ []), inv.pushes);
        pops = inv.pops;
        write_counts = store-Counts s.write_index w inv.write_counts at;
        read_counts = inv.read_counts;
        read_seen = inv.read_seen;
        write_seen = omega (arith, inv.write_seen);
        behind = inv.behind;
        room = omega (arith);
        producer_at = tt;
        consumer_at =
            ConsumerAt-append s.read_index.stores s.seen_write s.pushed x s.consumer
              (omega (arith, inv.write_seen, inv.pushes)) inv.consumer_at;
        order =
            inv.order
            ∙ sym (
                take-append_left s.read_index.stores s.pushed (x ∷ [])
                  (omega (arith, inv.behind, inv.write_seen, inv.pushes)));
        cells = λ i lo hi. rw append-nil (rw e at (inv.cells i lo hi));
      }

  -- Whatever store of the read index the acquire load returns, a step of the producer keeps the
  -- invariant.
  pub produce-Inv :
      (x : A) (m : ℕ) → s.seen_read ≤ m → m ≤ s.read_index.stores → Inv c (produce c x m s)
  unfolding produce produce_at
  produce-Inv x m lo hi = go s.producer refl
    where
      go : (p : Producer A) → s.producer ≡ p → Inv c (produce_at c x m s p)
      go Producer.idle e = load_own-Inv x e
      go (Producer.have_write y w) e = check-Inv y w m e lo hi
      go (Producer.constructing y w) e = construct-Inv y w e
      go (Producer.publishing y w) e = publish-Inv y w e
