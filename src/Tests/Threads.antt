-- ===== src/Tests/Threads.antt =====
-- Two threads on a buffer of four slots: the producer constructs its second element while the
-- consumer moves the first one out.
use low_latency_logger.Prelude.{
  zero, suc, ◌+◌, ◌%◌, ◌<◌, get_elem?, ℕ, ◌≤◌, bit_and, true, List, [], ◌∷◌, ◌++◌, ◌≡◌, ◌≢◌, inl,
  refl, length, arith,
}
use low_latency_logger.RingBuffer.{k_mask}
use low_latency_logger.RingBuffer.Queue.{Holds}
use low_latency_logger.RingBuffer.Queue
use low_latency_logger.Spsc.Sequential.{buffer_of, push_alone, pop_alone, alone-refines}
use low_latency_logger.Spsc.{
  Producer, Consumer, State, start, produce, produce_at, consume, consume_at, Reach, begin, later,
  produces, consumes,
}
use low_latency_logger.Spsc.Refine.{waiting}
use low_latency_logger.Spsc.History.{QueueRun, labels, pushes_of, pops_of, Reach-refines}
use low_latency_logger.Spsc.Safety.{fifo, race_free}
use low_latency_logger.Spsc.WaitFree.{Move, producer_moves, consumer_moves, returns, push_wait_free}
use low_latency_logger.Tests.{four-IsCapacity}

abbrev pushed_one : State ℕ
pushed_one = produce 4 7 0 (produce 4 7 0 (produce 4 7 0 (produce 4 7 0 start)))

abbrev popping : State ℕ
popping = consume 4 1 (consume 4 1 pushed_one)

abbrev both : State ℕ
both = produce 4 8 0 (produce 4 8 0 popping)

abbrev pushed_one-Reach : Reach 4 pushed_one
unfolding produce produce_at
pushed_one-Reach =
    later
      (later
        (later (later begin (produces 7 0 (omega arith) (omega arith)))
          (produces 7 0 (omega arith) (omega arith)))
        (produces 7 0 (omega arith) (omega arith)))
      (produces 7 0 (omega arith) (omega arith))

abbrev popping-Reach : Reach 4 popping
unfolding produce produce_at consume consume_at
popping-Reach =
    later (later pushed_one-Reach (consumes 1 (omega arith) (omega arith)))
      (consumes 1 (omega arith) (omega arith))

abbrev both-Reach : Reach 4 both
unfolding produce produce_at consume consume_at
both-Reach =
    later (later popping-Reach (produces 8 0 (omega arith) (omega arith)))
      (produces 8 0 (omega arith) (omega arith))

both-places : (both.producer ≡ Producer.constructing 8 1) × (both.consumer ≡ Consumer.moving 0)
unfolding produce produce_at consume consume_at
both-places = (refl, refl)

fifo_example : (waiting : List ℕ) × (both.popped ++ waiting ≡ both.pushed) × (length waiting ≤ 3)
fifo_example = fifo four-IsCapacity both-Reach

race_free_example : bit_and 1 (k_mask 4) ≢ bit_and 0 (k_mask 4)
race_free_example = race_free four-IsCapacity both-Reach 8 1 both-places.0 0 (inl both-places.1)

abbrev moves : List (Move ℕ)
moves =
    producer_moves 9 0
    ∷ consumer_moves 1
    ∷ producer_moves 9 0
    ∷ consumer_moves 1
    ∷ producer_moves 9 1
    ∷ []

push_wait_free_example : returns 4 moves both ≡ true
push_wait_free_example = push_wait_free 4 moves both (omega arith)

Reach-refines_example :
    QueueRun 4 (labels both-Reach) (waiting both)
    × (pushes_of (labels both-Reach) ≡ both.pushed)
    × (pops_of (labels both-Reach) ≡ both.popped)
Reach-refines_example = Reach-refines four-IsCapacity both-Reach

-- The producer is in its next call.
abbrev asking : State ℕ
asking = produce 4 8 0 pushed_one

asking-Reach : Reach 4 asking
unfolding produce produce_at
asking-Reach = later pushed_one-Reach (produces 8 0 (omega arith) (omega arith))

asking-place : asking.producer ≡ Producer.have_write 8 1
unfolding produce produce_at
asking-place = refl

pushed_one-idle : pushed_one.consumer ≡ Consumer.idle
unfolding produce produce_at
pushed_one-idle = refl

-- Both threads rest, with one element in the buffer.
pushed_one-Holds : Holds 4 (buffer_of pushed_one) (7 ∷ [])
unfolding produce produce_at
pushed_one-Holds = record {
  read_fits = omega arith;
  write_at = omega arith;
  room = omega arith;
  cells = cells_at;
}
  where
    cells_at : (j : ℕ) → j < 4 → pushed_one.storage ((0 + j) % 4) ≡ get_elem? (7 ∷ []) j
    cells_at zero h = refl
    cells_at (suc zero) h = refl
    cells_at (suc (suc zero)) h = refl
    cells_at (suc (suc (suc zero))) h = refl
    cells_at (suc (suc (suc (suc j)))) h = absurd (omega arith)

abbrev eight : ℕ
eight = 8

abbrev one_waits : List ℕ
one_waits = 7 ∷ []

alone-refines_example :
    let (done, after) = push_alone 4 eight pushed_one in
    let (out, left) = pop_alone 4 pushed_one in
    (done ≡ (Queue.push 4 eight one_waits).0)
    × Holds 4 (buffer_of after) (Queue.push 4 eight one_waits).1
    × (after.producer ≡ Producer.idle)
    × (out ≡ (Queue.pop one_waits).0)
    × Holds 4 (buffer_of left) (Queue.pop one_waits).1
unfolding produce produce_at
alone-refines_example = alone-refines four-IsCapacity eight pushed_one refl refl pushed_one-Holds
