-- ===== src/Spsc/WaitFree.antt =====
-- A push finishes within a fixed number of the producer's own steps, whatever the consumer does.
use low_latency_logger.Prelude.{
  ℕ, suc, ◌≤◌, ◌<◌, List, [], ◌∷◌, ◌≡◌, refl, Bool, true, false, ◌||◌, arith, Bool-cases, inl, inr,
}
use low_latency_logger.Spsc.{Producer, Consumer, State, produce, produce_at, consume, consume_at}

-- Who moves; see `Step` for `x` and `m`.
pub data Move (A : Type 0) : Type 0 where
  producer_moves : (x : A) (m : ℕ) → Move A
  consumer_moves : (m : ℕ) → Move A

module _ {A : Type 0} where
  unfoldable pub move : ℕ → Move A → State A → State A
  move c (producer_moves x m) s = produce c x m s
  move c (consumer_moves m) s = consume c m s

  abbrev is_idle : Producer A → Bool
  is_idle Producer.idle = true
  is_idle _ = false

  -- Whether the producer is between two calls at some point of a run.
  unfoldable pub returns : ℕ → List (Move A) → State A → Bool
  returns c [] s = is_idle s.producer
  returns c (mv ∷ moves) s = let rest = returns c moves (move c mv s) in is_idle s.producer || rest

  abbrev pub producer_steps : List (Move A) → ℕ
  producer_steps [] = 0
  producer_steps (producer_moves x m ∷ moves) = suc (producer_steps moves)
  producer_steps (consumer_moves m ∷ moves) = producer_steps moves

  abbrev left : Producer A → ℕ
  left Producer.idle = 0
  left (Producer.have_write x w) = 3
  left (Producer.constructing x w) = 2
  left (Producer.publishing x w) = 1

  left_le : (p : Producer A) → left p ≤ 3
  left_le p = ground arith

  idle_of_zero : (p : Producer A) → left p ≤ 0 → is_idle p ≡ true
  idle_of_zero p h = ground arith

  -- A step of the producer brings it one step nearer to its return.
  left-produce :
      (c : ℕ) (x : A) (m : ℕ) (s : State A)
      → is_idle s.producer ≡ false
      → left (produce c x m s).producer < left s.producer
  unfolding produce produce_at
  left-produce c x m s busy = go s.producer busy
    where
      go : (p : Producer A) → is_idle p ≡ false → left (produce_at c x m s p).producer < left p
      go Producer.idle b = cc
      go (Producer.have_write y w) b = ground arith
      go (Producer.constructing y w) b = omega arith
      go (Producer.publishing y w) b = omega arith

  producer-consume : (c m : ℕ) (s : State A) → (consume c m s).producer ≡ s.producer
  unfolding consume consume_at
  producer-consume c m s = go s.consumer
    where
      go : (p : Consumer A) → (consume_at c m s p).producer ≡ s.producer
      go Consumer.idle = refl
      go (Consumer.have_write w) = refl
      go (Consumer.moving r) = refl
      go (Consumer.destroying a r) = refl
      go (Consumer.releasing a r) = refl
      go Consumer.faulted = refl

  returns_within :
      (c : ℕ) (moves : List (Move A)) (s : State A)
      → left s.producer ≤ producer_steps moves
      → returns c moves s ≡ true
  unfolding returns move
  returns_within c [] s h = idle_of_zero s.producer h
  returns_within c (producer_moves x m ∷ moves) s h = elim (Bool-cases (is_idle s.producer)) [
    | inl idle ↦ rw idle
    | inr busy ↦
        rw busy
          (returns_within c moves (produce c x m s) (omega (arith, left-produce c x m s busy)))
  ]
  returns_within c (consumer_moves m ∷ moves) s h =
      let rest = returns_within c moves (consume c m s) (rw (producer-consume c m s) h) in
      ground arith

  -- From any state, a run in which the producer makes at least three steps passes a point at which
  -- the producer is between two calls, however many steps of the consumer lie between, and whatever
  -- they are.
  pub push_wait_free :
      (c : ℕ) (moves : List (Move A)) (s : State A)
      → 3 ≤ producer_steps moves
      → returns c moves s ≡ true
  push_wait_free c moves s h = returns_within c moves s (omega (arith, left_le s.producer))
