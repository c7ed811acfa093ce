-- ===== src/RingBuffer/Run.antt =====
-- Any sequence of calls: a ring and the bounded queue it holds cannot be told apart.
use low_latency_logger.Prelude.{ℕ, Bool, List, [], ◌∷◌, ◌≡◌, refl, ap₂}
use low_latency_logger.RingBuffer.{SpscRingBuffer, Popped, try_push, try_pop}
use low_latency_logger.RingBuffer.Capacity.{IsCapacity}
use low_latency_logger.RingBuffer.Queue
use low_latency_logger.RingBuffer.Queue.{Holds, init-Holds}
use low_latency_logger.RingBuffer.Push.{try_push-refines}
use low_latency_logger.RingBuffer.Pop.{try_pop-refines}

-- A client's calls, and what each returns.
pub data Call (A : Type 0) : Type 0 where
  offer : A → Call A
  take_one : Call A

pub data Reply (A : Type 0) : Type 0 where
  offered : Bool → Reply A
  taken : Popped A → Reply A

module _ {A : Type 0} (capacity : ℕ) where
  unfoldable pub run : SpscRingBuffer A → List (Call A) → List (Reply A) × SpscRingBuffer A
  run r [] = ([], r)
  run r (offer x ∷ calls) =
      let (done, r') = try_push capacity x r in
      let (replies, last) = run r' calls in (offered done ∷ replies, last)
  run r (take_one ∷ calls) =
      let (out, r') = try_pop capacity r in
      let (replies, last) = run r' calls in (taken out ∷ replies, last)

  unfoldable pub run_queue : List A → List (Call A) → List (Reply A) × List A
  run_queue q [] = ([], q)
  run_queue q (offer x ∷ calls) =
      let (done, q') = Queue.push capacity x q in
      let (replies, last) = run_queue q' calls in (offered done ∷ replies, last)
  run_queue q (take_one ∷ calls) =
      let (out, q') = Queue.pop q in
      let (replies, last) = run_queue q' calls in (taken out ∷ replies, last)

-- For a capacity that passes the static assertions: from a ring that holds a queue, every sequence
-- of pushes and pops returns what the bounded queue returns, call by call, and ends in a ring that
-- holds the last state of the queue.
pub run-refines :
    {A : Type 0} {c : ℕ} (v : IsCapacity c) (calls : List (Call A)) (r : SpscRingBuffer A)
    (q : List A)
    → Holds c r q
    → let (replies, r') = run c r calls in
      let (expected, q') = run_queue c q calls in (replies ≡ expected) × Holds c r' q'
unfolding run run_queue
run-refines v [] r q h = (refl, h)
run-refines {c = c} v (offer x ∷ calls) r q h =
    let (same, h') = try_push-refines v h x in
    let (rest, last) = run-refines v calls (try_push c x r).1 (Queue.push c x q).1 h' in
    (ap₂ (λ b l. offered b ∷ l) same rest, last)
run-refines {c = c} v (take_one ∷ calls) r q h =
    let (same, h') = try_pop-refines v h in
    let (rest, last) = run-refines v calls (try_pop c r).1 (Queue.pop q).1 h' in
    (ap₂ (λ b l. taken b ∷ l) same rest, last)
