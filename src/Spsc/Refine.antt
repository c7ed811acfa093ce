-- ===== src/Spsc/Refine.antt =====
-- The two threads together implement one bounded queue.
use low_latency_logger.Prelude.{
  ℕ, zero, suc, ◌+◌, ◌-◌, ◌≤◌, ◌<◌, List, [], ◌∷◌, ◌++◌, ◌≡◌, refl, ap, ◌∙◌, some, ◌↔◌, length,
  drop, get_elem?, length-drop, arith,
}
use low_latency_logger.Spsc.{
  Producer, Consumer, State, Step, produces, consumes, Reach, produce, produce_at, consume,
  consume_at,
}
use low_latency_logger.Spsc.Invariant.{Inv}
use low_latency_logger.Spsc.Produce
use low_latency_logger.Spsc.Consume
use low_latency_logger.Spsc.Safety.{Reach-Inv}
use low_latency_logger.RingBuffer.{distance}
use low_latency_logger.RingBuffer.Capacity.{IsCapacity}

-- What a step is seen as from outside: the end of a push, the end of a pop, or nothing.
pub data Label (A : Type 0) : Type 0 where
  silent : Label A
  push : A → Label A
  pop : A → Label A

-- A queue of at most `Capacity-1` elements.
pub data QueueStep {A : Type 0} (c : ℕ) : Label A → List A → List A → Type 0 where
  stays : {q : List A} → QueueStep c silent q q
  enqueues : {q : List A} (x : A) → length q < c - 1 → QueueStep c (push x) q (q ++ x ∷ [])
  dequeues : {q rest : List A} (a : A) → q ≡ a ∷ rest → QueueStep c (pop a) q rest

-- The elements published and not yet released.
abbrev pub waiting : {A : Type 0} → State A → List A
waiting s = drop s.read_index.stores s.pushed

drop-append :
    {A : Type 0} (k : ℕ) (xs ys : List A) → k ≤ length xs → drop k (xs ++ ys) ≡ drop k xs ++ ys
drop-append zero xs ys h = refl
drop-append (suc k) [] ys h = absurd (omega arith)
drop-append (suc k) (x ∷ xs) ys h = drop-append k xs ys (omega (arith, h))

drop-get_elem? :
    {A : Type 0} (k : ℕ) (xs : List A) (a : A)
    → get_elem? xs k ≡ some a
    → drop k xs ≡ a ∷ drop (suc k) xs
drop-get_elem? zero [] a h = absurd (grind arith)
drop-get_elem? zero (x ∷ xs) a h = grind arith
drop-get_elem? (suc k) [] a h = absurd (grind arith)
drop-get_elem? (suc k) (x ∷ xs) a h = drop-get_elem? k xs a h

-- A push ends with the store of the write index, and a pop with that of the read index.
abbrev pub produced : {A : Type 0} → Producer A → Label A
produced (Producer.publishing x w) = push x
produced _ = silent

abbrev pub consumed : {A : Type 0} → Consumer A → Label A
consumed (Consumer.releasing a r) = pop a
consumed _ = silent

abbrev pub label : {A : Type 0} {c : ℕ} {s t : State A} → Step c s t → Label A
label {s} (produces x m lo hi) = produced s.producer
label {s} (consumes m lo hi) = consumed s.consumer

module _ {A : Type 0} {c : ℕ} (v : IsCapacity c) {s : State A} (inv : Inv c s) where
  produce-QueueStep :
      (x : A) (m : ℕ) → QueueStep c (produced s.producer) (waiting s) (waiting (produce c x m s))
  unfolding produce produce_at
  produce-QueueStep x m = go s.producer refl
    where
      go :
          (p : Producer A)
          → s.producer ≡ p
          → QueueStep c (produced p) (waiting s) (waiting (produce_at c x m s p))
      go Producer.idle e = QueueStep.stays
      go (Producer.have_write y w) e = QueueStep.stays
      go (Producer.constructing y w) e = QueueStep.stays
      go (Producer.publishing y w) e =
          let at = Produce.at_pc v inv (Producer.publishing y w) e in
          rw
            (drop-append s.read_index.stores s.pushed (y ∷ [])
              (omega (arith, inv.behind, inv.write_seen, inv.pushes)))
            (QueueStep.enqueues y (
              omega
                (arith, length-drop s.read_index.stores s.pushed, at.1, inv.read_seen, inv.pushes)))

  consume-QueueStep :
      (m : ℕ) → QueueStep c (consumed s.consumer) (waiting s) (waiting (consume c m s))
  unfolding consume consume_at
  consume-QueueStep m = go s.consumer refl
    where
      go :
          (p : Consumer A)
          → s.consumer ≡ p
          → QueueStep c (consumed p) (waiting s) (waiting (consume_at c m s p))
      go Consumer.idle e = QueueStep.stays
      go (Consumer.have_write w) e = QueueStep.stays
      go (Consumer.moving r) e = QueueStep.stays
      go (Consumer.destroying a r) e = QueueStep.stays
      go (Consumer.releasing a r) e =
          let at = Consume.at_pc v inv (Consumer.releasing a r) e in
          let next : suc s.read_index.stores ≡ s.read_index.stores + 1 = omega arith in
          QueueStep.dequeues a (
            drop-get_elem? s.read_index.stores s.pushed a at.2 ∙ ap (λ n. a ∷ drop n s.pushed) next)
      go Consumer.faulted e = QueueStep.stays

  refused :
      (x y : A) (w : ℕ)
      → s.producer ≡ Producer.have_write x w
      → ((produce c y s.read_index.stores s).producer ≡ Producer.idle)
        ↔ (length (waiting s) ≡ c - 1)
  unfolding produce produce_at
  refused x y w e =
      let at = Produce.at_pc v inv (Producer.have_write x w) e in
      let exact : distance w (s.read_index.value_at s.read_index.stores) ≡ length (waiting s) =
        omega (
          arith,
          inv.read_counts s.read_index.stores,
          inv.room,
          inv.behind,
          inv.write_seen,
          inv.pushes,
          inv.read_seen,
          v.fits,
          length-drop s.read_index.stores s.pushed,
        ) in
      let most : length (waiting s) ≤ c - 1 =
        omega
          (arith, length-drop s.read_index.stores s.pushed, inv.pushes, inv.room, inv.read_seen) in
      rw (e, exact) (ground arith)

  found_none :
      (m : ℕ)
      → s.consumer ≡ Consumer.idle
      → ((consume c m (consume c s.write_index.stores s)).consumer ≡ Consumer.idle)
        ↔ (length (waiting s) ≡ 0)
  unfolding consume consume_at
  found_none m e =
      let own = inv.read_counts s.read_index.stores (omega arith) in
      let other = inv.write_counts s.write_index.stores (omega arith) in
      let same : length (waiting s) ≡ s.write_index.stores - s.read_index.stores =
        omega (arith, length-drop s.read_index.stores s.pushed, inv.pushes) in
      rw e (
        ground
          (arith, own, other, same, inv.behind, inv.write_seen, inv.room, inv.read_seen, v.fits))

module _ {A : Type 0} {c : ℕ} (v : IsCapacity c) where
  -- For a capacity that passes the static assertions: of the steps of the two threads, in any
  -- interleaving and whatever the acquire loads return, the one that ends a push puts its element
  -- at the back of a queue of less than `Capacity-1` elements, the one that ends a pop takes the
  -- element that it returns from the front, and every other step leaves the queue alone.
  pub Step-refines :
      {s t : State A}
      → Reach c s
      → (st : Step c s t) → QueueStep c (label st) (waiting s) (waiting t)
  Step-refines reach (produces x m lo hi) = produce-QueueStep v (Reach-Inv v reach) x m
  Step-refines reach (consumes m lo hi) = consume-QueueStep v (Reach-Inv v reach) m

  -- For a capacity that passes the static assertions, in a reachable state in which the producer
  -- loads the read index and gets its newest store: the push is refused exactly if
  -- `Capacity-1` elements wait in the queue.
  pub full_answer :
      {s : State A}
      → Reach c s
      → (x y : A) (w : ℕ) → s.producer ≡ Producer.have_write x w
      → ((produce c y s.read_index.stores s).producer ≡ Producer.idle)
        ↔ (length (waiting s) ≡ c - 1)
  full_answer reach x y w e = refused v (Reach-Inv v reach) x y w e

  -- For a capacity that passes the static assertions, in a reachable state in which the consumer
  -- loads the write index and gets its newest store: the next step ends the pop with no element
  -- exactly if nothing waited in the queue when it was loaded.
  pub empty_answer :
      {s : State A}
      → Reach c s
      → (m : ℕ) → s.consumer ≡ Consumer.idle
      → ((consume c m (consume c s.write_index.stores s)).consumer ≡ Consumer.idle)
        ↔ (length (waiting s) ≡ 0)
  empty_answer reach m e = found_none v (Reach-Inv v reach) m e
