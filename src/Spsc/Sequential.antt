-- ===== src/Spsc/Sequential.antt =====
-- internal/ring_buffer.h: a call that runs from its start to its end, access by access, while the
-- other thread rests between two calls, is the call in one piece of RingBuffer, and one call of its
-- queue.
use low_latency_logger.Prelude.{
  ℕ, ◌-◌, bit_and, Bool, true, false, Option, none, some, List, ◌≡◌, ◌⊎◌, refl, sym, subst, ap, ◌∙◌,
  update, ◌==◌, leb, Bool-cases, inl, inr, arith,
}
use low_latency_logger.RingBuffer.{
  SpscRingBuffer, Popped, empty, item, fault, try_push, try_pop, k_mask, distance, next_index,
}
use low_latency_logger.RingBuffer.Capacity.{IsCapacity}
use low_latency_logger.RingBuffer.Queue.{Holds}
use low_latency_logger.RingBuffer.Queue
use low_latency_logger.RingBuffer.Push.{try_push-refines}
use low_latency_logger.RingBuffer.Pop.{try_pop-refines}
use low_latency_logger.Spsc.{
  Atomic, Producer, Consumer, State, latest, store, produce, produce_at, consume, consume_at,
}

-- The buffer without its history and without the threads.
abbrev pub buffer_of : {A : Type 0} → State A → SpscRingBuffer A
buffer_of s = record {
  write_index = latest s.write_index;
  read_index = latest s.read_index;
  storage = s.storage;
}

Option-cases : {A : Type 0} (o : Option A) → (o ≡ none) ⊎ ((a : A) × (o ≡ some a))
Option-cases none = inl refl
Option-cases (some a) = inr (a, refl)

latest-store : (v : ℕ) (a : Atomic) → latest (store v a) ≡ v
latest-store v a = ground arith

module _ {A : Type 0} where
  -- The rest of `TryPush` after its test.
  abbrev finish_push : ℕ → A → State A → Producer A → Bool × State A
  finish_push c x s Producer.idle = (false, s)
  finish_push c x s _ = (true, produce c x s.read_index.stores (produce c x s.read_index.stores s))

  -- All steps of a `TryPush`, whose load of the read index gets the newest store.
  abbrev pub push_alone : ℕ → A → State A → Bool × State A
  push_alone c x s =
      let tested = produce c x s.read_index.stores (produce c x s.read_index.stores s) in
      finish_push c x tested tested.producer

  abbrev finish_pop : ℕ → State A → Consumer A → Popped A × State A
  finish_pop c s (Consumer.destroying a r) =
      (item a, consume c s.write_index.stores (consume c s.write_index.stores s))
  finish_pop c s _ = (fault, s)

  abbrev try_move : ℕ → State A → Consumer A → Popped A × State A
  try_move c s Consumer.idle = (empty, s)
  try_move c s _ = let moved = consume c s.write_index.stores s in finish_pop c moved moved.consumer

  abbrev pub pop_alone : ℕ → State A → Popped A × State A
  pop_alone c s =
      let tested = consume c s.write_index.stores (consume c s.write_index.stores s) in
      try_move c tested tested.consumer

  push_alone-try_push :
      (c : ℕ) (x : A) (s : State A)
      → s.producer ≡ Producer.idle
      → let (done, after) = push_alone c x s in
        (after.producer ≡ Producer.idle) × ((done, buffer_of after) ≡ try_push c x (buffer_of s))
  unfolding produce produce_at try_push
  push_alone-try_push c x s e =
      elim (Bool-cases (leb (c - 1) (distance (latest s.write_index) (latest s.read_index)))) [
        | inl full ↦ rw (e, full) (refl, refl)
        | inr room ↦
            rw (e, room)
              (
                refl,
                ap
                    (λ i. (
                      true,
                      record (buffer_of s) {
                        write_index = i;
                        storage =
                            update s.storage (bit_and (latest s.write_index) (k_mask c)) (some x);
                      },
                    ))
                    (latest-store (next_index (latest s.write_index)) s.write_index),
              )
      ]

  -- The state in which the consumer is about to move the element out of its slot.
  abbrev at_move : State A → State A
  at_move s = record s {
    consumer = Consumer.moving (latest s.read_index);
    seen_write = s.write_index.stores;
  }

  to_move :
      (c : ℕ) (s : State A)
      → s.consumer ≡ Consumer.idle
      → (latest s.read_index == latest s.write_index) ≡ false
      → consume c s.write_index.stores (consume c s.write_index.stores s) ≡ at_move s
  unfolding consume consume_at
  to_move c s e differ = rw (e, differ) refl

  from_raw :
      (c : ℕ) (s : State A)
      → s.storage (bit_and (latest s.read_index) (k_mask c)) ≡ none
      → consume c s.write_index.stores (at_move s)
        ≡ record (at_move s) { consumer = Consumer.faulted }
  unfolding consume consume_at
  from_raw c s raw = rw raw refl

  from_filled :
      (c : ℕ) (s : State A) (a : A)
      → s.storage (bit_and (latest s.read_index) (k_mask c)) ≡ some a
      → consume c s.write_index.stores (at_move s)
        ≡ record (at_move s) { consumer = Consumer.destroying a (latest s.read_index) }
  unfolding consume consume_at
  from_filled c s a filled = rw filled refl

  abbrev pub seen_as : Popped A × State A → Popped A × SpscRingBuffer A
  seen_as p = (p.0, buffer_of p.1)

  pop_alone-try_pop :
      (c : ℕ) (s : State A)
      → s.consumer ≡ Consumer.idle
      → seen_as (pop_alone c s) ≡ try_pop c (buffer_of s)
  unfolding consume consume_at try_pop
  pop_alone-try_pop c s e = elim (Bool-cases (latest s.read_index == latest s.write_index)) [
    | inl same ↦ rw (e, same) refl
    | inr differ ↦
        ap (λ t. seen_as (try_move c t t.consumer)) (to_move c s e differ)
        ∙ elim (Option-cases (s.storage (bit_and (latest s.read_index) (k_mask c)))) [
          | inl raw ↦
              ap (λ t. seen_as (finish_pop c t t.consumer)) (from_raw c s raw)
              ∙ rw (differ, raw) refl
          | inr (a, filled) ↦
              ap (λ t. seen_as (finish_pop c t t.consumer)) (from_filled c s a filled)
              ∙ rw (differ, filled)
                  (ap
                    (λ i. (
                      item a,
                      record (buffer_of s) {
                        read_index = i;
                        storage = update s.storage (bit_and (latest s.read_index) (k_mask c)) none;
                      },
                    ))
                    (latest-store (next_index (latest s.read_index)) s.read_index))
        ]
  ]

  -- For a capacity that passes the static assertions: in any state in which both threads are
  -- between two calls, where the buffer holds a queue, and when each load gets the newest value:
  -- all the steps of a `TryPush`, one after the other, answer what the bounded queue answers, are
  -- between two calls again, and leave its next state in the buffer; and all those of a `TryPop`
  -- return what the queue returns, and leave its next state in the buffer.
  pub alone-refines :
      {c : ℕ} (v : IsCapacity c) (x : A) (s : State A) {q : List A}
      → s.producer ≡ Producer.idle
      → s.consumer ≡ Consumer.idle
      → Holds c (buffer_of s) q
      → let (done, after) = push_alone c x s in
        let (out, left) = pop_alone c s in
        (done ≡ (Queue.push c x q).0)
        × Holds c (buffer_of after) (Queue.push c x q).1
        × (after.producer ≡ Producer.idle)
        × (out ≡ (Queue.pop q).0)
        × Holds c (buffer_of left) (Queue.pop q).1
  alone-refines {c = c} v x s {q} resting waiting h =
      let (ended, same) = push_alone-try_push c x s resting in
      let popped = pop_alone-try_pop c s waiting in
      let (answered, held) = try_push-refines v h x in
      let (returned, left) = try_pop-refines v h in
      (
        ap (λ p. p.0) same ∙ answered,
        subst (λ r. Holds c r (Queue.push c x q).1) (sym (ap (λ p. p.1) same)) held,
        ended,
        ap (λ p. p.0) popped ∙ returned,
        subst (λ r. Holds c r (Queue.pop q).1) (sym (ap (λ p. p.1) popped)) left,
      )
