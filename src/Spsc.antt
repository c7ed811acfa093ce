-- ===== src/Spsc.antt =====
-- internal/ring_buffer.h: `TryPush` and `TryPop` on two threads, one atomic access at a time.
-- An atomic is its modification order: how many stores were made, and the value of each. An
-- acquire load of the other thread's index may return any value from the last one this thread has
-- seen on, not only the newest; a thread's relaxed load of its own index returns its own last
-- store. A step is one access of shared memory with the local computation that follows it.
pub mod Invariant
pub mod Produce
pub mod Consume
pub mod Safety
pub mod Refine
pub mod History
pub mod WaitFree
pub mod Sequential
use low_latency_logger.Prelude.{
  ℕ, ◌+◌, ◌-◌, ◌≤◌, bit_and, Option, none, some, List, [], ◌∷◌, ◌++◌, ◌==◌, leb, if◌then◌else◌,
  update,
}
use low_latency_logger.RingBuffer.{next_index, distance, k_mask}

-- A `std::atomic<size_t>` with one writer; the initial value counts as store 0.
pub record Atomic : Type 0 where
  pub stores : ℕ
  pub value_at : ℕ → ℕ

abbrev pub latest : Atomic → ℕ
latest a = a.value_at a.stores

abbrev pub store : ℕ → Atomic → Atomic
store v a = record { stores = a.stores + 1; value_at = update a.value_at (a.stores + 1) v }

-- Where the producer stands in `TryPush(x)`, with the locals that are live there.
pub data Producer (A : Type 0) : Type 0 where
  idle : Producer A
  have_write : (element : A) (write_idx : ℕ) → Producer A
  constructing : (element : A) (write_idx : ℕ) → Producer A
  publishing : (element : A) (write_idx : ℕ) → Producer A

-- Where the consumer stands in `TryPop`; `faulted` is a move from a slot with no object in it.
pub data Consumer (A : Type 0) : Type 0 where
  idle : Consumer A
  have_write : (write_idx : ℕ) → Consumer A
  moving : (read_idx : ℕ) → Consumer A
  destroying : (out : A) (read_idx : ℕ) → Consumer A
  releasing : (out : A) (read_idx : ℕ) → Consumer A
  faulted : Consumer A

-- The shared memory, the two threads, the newest store of the other's index that each has seen,
-- and, as a record of the run, the elements whose push was published and whose pop was completed.
pub record State (A : Type 0) : Type 0 where
  pub write_index : Atomic
  pub read_index : Atomic
  pub storage : ℕ → Option A
  pub producer : Producer A
  pub consumer : Consumer A
  pub seen_read : ℕ
  pub seen_write : ℕ
  pub pushed : List A
  pub popped : List A

abbrev pub zero_atomic : Atomic
zero_atomic = record { stores = 0; value_at = λ _. 0 }

module _ {A : Type 0} where
  abbrev pub start : State A
  start = record {
    write_index = zero_atomic;
    read_index = zero_atomic;
    storage = λ _. none;
    producer = Producer.idle;
    consumer = Consumer.idle;
    seen_read = 0;
    seen_write = 0;
    pushed = [];
    popped = [];
  }

  -- One step of the producer. From `idle` it calls `TryPush(x)` and loads its own index; its load
  -- of the read index returns store `m`.
  unfoldable pub produce_at : ℕ → A → ℕ → State A → Producer A → State A
  produce_at c x m s Producer.idle = record s {
    producer = Producer.have_write x (latest s.write_index);
  }
  produce_at c x m s (Producer.have_write element w) = record s {
    producer =
        if leb (c - 1) (distance w (s.read_index.value_at m))
        then Producer.idle
        else Producer.constructing element w;
    seen_read = m;
  }
  produce_at c x m s (Producer.constructing element w) = record s {
    producer = Producer.publishing element w;
    storage = update s.storage (bit_and w (k_mask c)) (some element);
  }
  produce_at c x m s (Producer.publishing element w) = record s {
    producer = Producer.idle;
    write_index = store (next_index w) s.write_index;
    pushed = s.pushed ++ element ∷ [];
  }

  unfoldable pub produce : ℕ → A → ℕ → State A → State A
  unfolding produce_at
  produce c x m s = produce_at c x m s s.producer

  -- One step of the consumer. From `idle` it calls `TryPop` and its load of the write index returns
  -- store `m`.
  unfoldable pub consume_at : ℕ → ℕ → State A → Consumer A → State A
  consume_at c m s Consumer.idle = record s {
    consumer = Consumer.have_write (s.write_index.value_at m);
    seen_write = m;
  }
  consume_at c m s (Consumer.have_write w) = record s {
    consumer =
        if latest s.read_index == w then Consumer.idle else Consumer.moving (latest s.read_index);
  }
  consume_at c m s (Consumer.moving r) = record s {
    consumer = elim (s.storage (bit_and r (k_mask c))) [
      | none ↦ Consumer.faulted
      | some a ↦ Consumer.destroying a r
    ];
  }
  consume_at c m s (Consumer.destroying a r) = record s {
    consumer = Consumer.releasing a r;
    storage = update s.storage (bit_and r (k_mask c)) none;
  }
  consume_at c m s (Consumer.releasing a r) = record s {
    consumer = Consumer.idle;
    read_index = store (next_index r) s.read_index;
    popped = s.popped ++ a ∷ [];
  }
  consume_at c m s Consumer.faulted = s

  unfoldable pub consume : ℕ → ℕ → State A → State A
  unfolding consume_at
  consume c m s = consume_at c m s s.consumer

-- Any interleaving: at each step either thread moves. `x` is what the producer pushes next, and `m`
-- the store that an acquire load returns, between the last one seen and the newest.
pub data Step {A : Type 0} (c : ℕ) (s : State A) : State A → Type 0 where
  produces :
      (x : A) (m : ℕ) → s.seen_read ≤ m → m ≤ s.read_index.stores → Step c s (produce c x m s)
  consumes : (m : ℕ) → s.seen_write ≤ m → m ≤ s.write_index.stores → Step c s (consume c m s)

pub data Reach {A : Type 0} (c : ℕ) : State A → Type 0 where
  begin : Reach c start
  later : {s t : State A} → Reach c s → Step c s t → Reach c t
