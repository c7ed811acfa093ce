-- ===== src/RingBuffer/Queue.antt =====
-- What the ring buffer promises: a first-in first-out queue of at most `Capacity - 1` elements
-- that refuses a push when it is full, and the relation between a ring and the queue it holds.
use low_latency_logger.Prelude.{
  ℕ, ◌+◌, ◌-◌, ◌%◌, ◌^◌, ◌<◌, Bool, true, false, List, [], ◌∷◌, ◌++◌, ◌≡◌, refl, leb, length,
  get_elem?, if◌then◌else◌, arith,
}
use low_latency_logger.RingBuffer.{SpscRingBuffer, Popped, item, init}
use low_latency_logger.RingBuffer.Capacity.{IsCapacity}

module _ {A : Type 0} where
  unfoldable pub push : ℕ → A → List A → Bool × List A
  push capacity x q = if leb (capacity - 1) (length q) then (false, q) else (true, q ++ x ∷ [])

  unfoldable pub pop : List A → Popped A × List A
  pop [] = (Popped.empty, [])
  pop (x ∷ q) = (item x, q)

-- The ring `r` holds the queue `q`: the `j`-th element is in the slot `j` places after the read
-- index, and every other slot of the storage is raw.
pub record Holds {A : Type 0} (capacity : ℕ) (r : SpscRingBuffer A) (q : List A) : Type 0 where
  pub read_fits : r.read_index < 2 ^ 64
  pub write_at : r.write_index ≡ (r.read_index + length q) % 2 ^ 64
  pub room : length q < capacity
  pub cells : (j : ℕ) → j < capacity → r.storage ((r.read_index + j) % capacity) ≡ get_elem? q j

pub init-Holds : {A : Type 0} (c : ℕ) → IsCapacity c → Holds c (init {A = A}) []
init-Holds c v = record {
  read_fits = omega arith;
  write_at = omega arith;
  room = omega (arith, v);
  cells = λ j h. refl;
}
