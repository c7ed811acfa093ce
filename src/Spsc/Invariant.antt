-- ===== src/Spsc/Invariant.antt =====
-- What every interleaving of one producer and one consumer keeps true.
use low_latency_logger.Prelude.{
  ℕ, ◌+◌, ◌-◌, ◌%◌, ◌^◌, ◌≤◌, ◌<◌, List, [], ◌∷◌, ◌++◌, ◌≡◌, refl, some, length, get_elem?,
  get_elem?-append, take, arith,
}
use low_latency_logger.Spsc.{Atomic, Producer, Consumer, State, start}
use low_latency_logger.RingBuffer.Capacity.{IsCapacity}

-- Store number `m` of an index holds `m` modulo 2^64.
abbrev pub Counts : Atomic → Type 0
Counts a = (m : ℕ) → m ≤ a.stores → a.value_at m ≡ m % 2 ^ 64

module _ {A : Type 0} where
  -- An element that is constructed in its slot and not yet published.
  abbrev pub pending : Producer A → List A
  pending (Producer.publishing x _) = x ∷ []
  pending _ = []

  -- One if the object of the pop under way is destroyed already.
  abbrev pub emptied : Consumer A → ℕ
  emptied (Consumer.releasing _ _) = 1
  emptied _ = 0

  -- What the locals of the producer say: `n` elements are published, and the newest store of the
  -- read index that it has seen is `seen`.
  abbrev pub ProducerAt : ℕ → ℕ → ℕ → Producer A → Type 0
  ProducerAt c n seen Producer.idle = Unit
  ProducerAt c n seen (Producer.have_write x w) = w ≡ n % 2 ^ 64
  ProducerAt c n seen (Producer.constructing x w) = (w ≡ n % 2 ^ 64) × (n < seen + (c - 1))
  ProducerAt c n seen (Producer.publishing x w) = (w ≡ n % 2 ^ 64) × (n < seen + (c - 1))

  -- What the locals of the consumer say: `k` elements are popped of `xs`, and the newest store of
  -- the write index that it has seen is `seen`.
  abbrev pub ConsumerAt : ℕ → ℕ → List A → Consumer A → Type 0
  ConsumerAt k seen xs Consumer.idle = Unit
  ConsumerAt k seen xs (Consumer.have_write w) = w ≡ seen % 2 ^ 64
  ConsumerAt k seen xs (Consumer.moving r) = (r ≡ k % 2 ^ 64) × (k < seen)
  ConsumerAt k seen xs (Consumer.destroying a r) =
      (r ≡ k % 2 ^ 64) × (k < seen) × (get_elem? xs k ≡ some a)
  ConsumerAt k seen xs (Consumer.releasing a r) =
      (r ≡ k % 2 ^ 64) × (k < seen) × (get_elem? xs k ≡ some a)
  ConsumerAt k seen xs Consumer.faulted = ⊥

  -- The slots from the oldest object on hold the elements pushed and not popped, in order, and
  -- the rest of the storage is raw.
  abbrev pub Cells : ℕ → State A → Type 0
  Cells c s =
      (i : ℕ)
      → s.read_index.stores + emptied s.consumer ≤ i
      → i < s.read_index.stores + emptied s.consumer + c
      → s.storage (i % c) ≡ get_elem? (s.pushed ++ pending s.producer) i

  pub record Inv (c : ℕ) (s : State A) : Type 0 where
    pub pushes : s.write_index.stores ≡ length s.pushed
    pub pops : s.read_index.stores ≡ length s.popped
    pub write_counts : Counts s.write_index
    pub read_counts : Counts s.read_index
    pub read_seen : s.seen_read ≤ s.read_index.stores
    pub write_seen : s.seen_write ≤ s.write_index.stores
    pub behind : s.read_index.stores ≤ s.seen_write
    pub room : s.write_index.stores ≤ s.seen_read + (c - 1)
    pub producer_at : ProducerAt c s.write_index.stores s.seen_read s.producer
    pub consumer_at : ConsumerAt s.read_index.stores s.seen_write s.pushed s.consumer
    pub order : s.popped ≡ take s.read_index.stores s.pushed
    pub cells : Cells c s

  pub start-Inv : (c : ℕ) → IsCapacity c → Inv c (start {A = A})
  start-Inv c v = record {
    pushes = refl;
    pops = refl;
    write_counts = λ m h. omega arith;
    read_counts = λ m h. omega arith;
    read_seen = omega arith;
    write_seen = omega arith;
    behind = omega arith;
    room = omega arith;
    producer_at = tt;
    consumer_at = tt;
    order = refl;
    cells = λ i lo hi. refl;
  }

  pub emptied-le :
      (k seen : ℕ) (xs : List A) (p : Consumer A)
      → k ≤ seen
      → ConsumerAt k seen xs p
      → k + emptied p ≤ seen
  emptied-le k seen xs Consumer.idle h at = omega arith
  emptied-le k seen xs (Consumer.have_write w) h at = omega arith
  emptied-le k seen xs (Consumer.moving r) h at = omega arith
  emptied-le k seen xs (Consumer.destroying a r) h at = omega arith
  emptied-le k seen xs (Consumer.releasing a r) h at = omega arith
  emptied-le k seen xs Consumer.faulted h at = absurd at

  -- The element under the consumer's hand stays where it is when more are pushed.
  pub ConsumerAt-append :
      (k seen : ℕ) (xs : List A) (x : A) (p : Consumer A)
      → seen ≤ length xs
      → ConsumerAt k seen xs p
      → ConsumerAt k seen (xs ++ x ∷ []) p
  ConsumerAt-append k seen xs x Consumer.idle h at = tt
  ConsumerAt-append k seen xs x (Consumer.have_write w) h at = at
  ConsumerAt-append k seen xs x (Consumer.moving r) h at = at
  ConsumerAt-append k seen xs x (Consumer.destroying a r) h at =
      (at.0, at.1, ground (arith, at.1, at.2, get_elem?-append xs x k))
  ConsumerAt-append k seen xs x (Consumer.releasing a r) h at =
      (at.0, at.1, ground (arith, at.1, at.2, get_elem?-append xs x k))
  ConsumerAt-append k seen xs x Consumer.faulted h at = at
