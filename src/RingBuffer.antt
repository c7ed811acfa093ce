-- ===== src/RingBuffer.antt =====
-- internal/ring_buffer.h: `SpscRingBuffer<T, Capacity>`, as one thread at a time sees it.
-- The indices are the values of the two atomics, kept modulo 2^64 as `size_t` does. A slot is
-- `none` while it is raw memory and `some a` while an object of type `T` lives in it.
-- The interleaved producer and consumer are in Spsc.
pub mod Capacity
pub mod Slots
pub mod Queue
pub mod Push
pub mod Pop
pub mod Run
pub mod Observe
use low_latency_logger.Prelude.{
  ℕ, ◌+◌, ◌-◌, ◌%◌, ◌^◌, bit_and, Bool, true, false, Option, none, some, ◌==◌, leb, if◌then◌else◌,
  update,
}

pub record SpscRingBuffer (A : Type 0) : Type 0 where
  pub write_index : ℕ
  pub read_index : ℕ
  pub storage : ℕ → Option A

-- What `TryPop` reports: `empty` is its `false`, `item a` its `true` with `a` in `out_element`,
-- and `fault` a move from a slot in which no object lives, which C++ leaves undefined.
pub data Popped (A : Type 0) : Type 0 where
  empty : Popped A
  item : A → Popped A
  fault : Popped A

-- `size_t` addition of one and `size_t` subtraction.
abbrev pub next_index : ℕ → ℕ
next_index i = (i + 1) % 2 ^ 64

abbrev pub distance : ℕ → ℕ → ℕ
distance w r = (w + 2 ^ 64 - r) % 2 ^ 64

-- `kMask`; the capacity is at least 2, so the subtraction does not wrap.
abbrev pub k_mask : ℕ → ℕ
k_mask capacity = capacity - 1

module _ {A : Type 0} where
  -- The constructor: both indices 0, the storage raw.
  abbrev pub init : SpscRingBuffer A
  init = record { write_index = 0; read_index = 0; storage = λ _. none }

  -- `TryPush(const T &)`.
  unfoldable pub try_push : ℕ → A → SpscRingBuffer A → Bool × SpscRingBuffer A
  try_push capacity element r =
      if leb (capacity - 1) (distance r.write_index r.read_index) then (false, r) else (
        true,
        record r {
          storage = update r.storage (bit_and r.write_index (k_mask capacity)) (some element);
          write_index = next_index r.write_index;
        },
      )

  -- `TryPush(T &&)`. `moved` is what the move constructor of `T` leaves in its source; the second
  -- result is the caller's element after the call.
  unfoldable pub try_push_move : ℕ → (A → A) → A → SpscRingBuffer A → Bool × A × SpscRingBuffer A
  try_push_move capacity moved element r =
      if leb (capacity - 1) (distance r.write_index r.read_index) then (false, element, r) else (
        true,
        moved element,
        record r {
          storage = update r.storage (bit_and r.write_index (k_mask capacity)) (some element);
          write_index = next_index r.write_index;
        },
      )

  -- `TryPop`: move out of the slot, destroy the object, publish.
  unfoldable pub try_pop : ℕ → SpscRingBuffer A → Popped A × SpscRingBuffer A
  try_pop capacity r =
      let offset = bit_and r.read_index (k_mask capacity) in
      if r.read_index == r.write_index then (empty, r) else elim (r.storage offset) [
        | none ↦ (fault, r)
        | some a ↦ (
          item a,
          record r { storage = update r.storage offset none; read_index = next_index r.read_index },
        )
      ]

  -- `Size` loads the two indices one after the other: `before` is the ring at the load of the
  -- write index, and `after` the ring at the load of the read index.
  unfoldable pub size_between : SpscRingBuffer A → SpscRingBuffer A → ℕ
  size_between before after = distance before.write_index after.read_index

  unfoldable pub full_between : ℕ → SpscRingBuffer A → SpscRingBuffer A → Bool
  unfolding size_between
  full_between capacity before after = leb (capacity - 1) (size_between before after)

  -- `Size`, `Empty` and `Full` with no other thread at work between the loads.
  unfoldable pub size : SpscRingBuffer A → ℕ
  unfolding size_between
  size r = size_between r r

  unfoldable pub is_empty : SpscRingBuffer A → Bool
  unfolding size
  is_empty r = size r == 0

  unfoldable pub is_full : ℕ → SpscRingBuffer A → Bool
  unfolding full_between
  is_full capacity r = full_between capacity r r
