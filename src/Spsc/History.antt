-- ===== src/Spsc/History.antt =====
-- A whole run of the two threads is a history of one bounded queue.
use low_latency_logger.Prelude.{ℕ, List, [], ◌∷◌, ◌++◌, ◌≡◌, refl, sym, ap, ◌∙◌, append-nil}
use low_latency_logger.Spsc.{
  Producer, Consumer, State, Step, produces, consumes, Reach, begin, later, produce, produce_at,
  consume, consume_at,
}
use low_latency_logger.Spsc.Refine.{
  Label, silent, push, pop, QueueStep, label, produced, consumed, waiting, Step-refines,
}
use low_latency_logger.RingBuffer.Capacity.{IsCapacity}

-- The histories of a queue that is empty at first: what happened, and what it holds in the end.
pub data QueueRun {A : Type 0} (c : ℕ) : List (Label A) → List A → Type 0 where
  nothing : QueueRun c [] []
  and_then :
      {ls : List (Label A)} {l : Label A} {q q' : List A}
      → QueueRun c ls q
      → QueueStep c l q q'
      → QueueRun c (ls ++ l ∷ []) q'

module _ {A : Type 0} where
  abbrev pub pushes_of : List (Label A) → List A
  pushes_of [] = []
  pushes_of (push x ∷ ls) = x ∷ pushes_of ls
  pushes_of (pop x ∷ ls) = pushes_of ls
  pushes_of (silent ∷ ls) = pushes_of ls

  abbrev pub pops_of : List (Label A) → List A
  pops_of [] = []
  pops_of (push x ∷ ls) = pops_of ls
  pops_of (pop x ∷ ls) = x ∷ pops_of ls
  pops_of (silent ∷ ls) = pops_of ls

  -- What the steps of a run are seen as.
  abbrev pub labels : {c : ℕ} {s : State A} → Reach c s → List (Label A)
  labels begin = []
  labels (later r st) = labels r ++ label st ∷ []

  pushes_of-append :
      (ls ls' : List (Label A)) → pushes_of (ls ++ ls') ≡ pushes_of ls ++ pushes_of ls'
  pushes_of-append [] ls' = refl
  pushes_of-append (push x ∷ ls) ls' = ap (λ xs. x ∷ xs) (pushes_of-append ls ls')
  pushes_of-append (pop x ∷ ls) ls' = pushes_of-append ls ls'
  pushes_of-append (silent ∷ ls) ls' = pushes_of-append ls ls'

  pops_of-append : (ls ls' : List (Label A)) → pops_of (ls ++ ls') ≡ pops_of ls ++ pops_of ls'
  pops_of-append [] ls' = refl
  pops_of-append (push x ∷ ls) ls' = pops_of-append ls ls'
  pops_of-append (pop x ∷ ls) ls' = ap (λ xs. x ∷ xs) (pops_of-append ls ls')
  pops_of-append (silent ∷ ls) ls' = pops_of-append ls ls'

  -- The account that the state keeps is the account of the labels.
  record Recorded (l : Label A) (s t : State A) : Type 0 where
    pushed : t.pushed ≡ s.pushed ++ pushes_of (l ∷ [])
    popped : t.popped ≡ s.popped ++ pops_of (l ∷ [])

  unseen : {s t : State A} → t.pushed ≡ s.pushed → t.popped ≡ s.popped → Recorded silent s t
  unseen {s} h k = record {
    pushed = h ∙ sym (append-nil s.pushed);
    popped = k ∙ sym (append-nil s.popped);
  }

  produce-Recorded :
      (c : ℕ) (x : A) (m : ℕ) (s : State A) → Recorded (produced s.producer) s (produce c x m s)
  unfolding produce produce_at
  produce-Recorded c x m s = go s.producer
    where
      go : (p : Producer A) → Recorded (produced p) s (produce_at c x m s p)
      go Producer.idle = unseen refl refl
      go (Producer.have_write y w) = unseen refl refl
      go (Producer.constructing y w) = unseen refl refl
      go (Producer.publishing y w) = record { pushed = refl; popped = sym (append-nil s.popped) }

  consume-Recorded : (c m : ℕ) (s : State A) → Recorded (consumed s.consumer) s (consume c m s)
  unfolding consume consume_at
  consume-Recorded c m s = go s.consumer
    where
      go : (p : Consumer A) → Recorded (consumed p) s (consume_at c m s p)
      go Consumer.idle = unseen refl refl
      go (Consumer.have_write w) = unseen refl refl
      go (Consumer.moving r) = unseen refl refl
      go (Consumer.destroying a r) = unseen refl refl
      go (Consumer.releasing a r) = record { pushed = sym (append-nil s.pushed); popped = refl }
      go Consumer.faulted = unseen refl refl

  Step-Recorded : {c : ℕ} {s t : State A} (st : Step c s t) → Recorded (label st) s t
  Step-Recorded {c} {s} (produces x m lo hi) = produce-Recorded c x m s
  Step-Recorded {c} {s} (consumes m lo hi) = consume-Recorded c m s

  -- For a capacity that passes the static assertions: every run of the two threads, in any
  -- interleaving and whatever the acquire loads return, is a history of one queue of at most
  -- `Capacity-1` elements, which is empty at first, in which each push happens as it ends and each
  -- pop as it ends, and nothing else happens; the elements pushed and popped in that history are
  -- those that the run pushed and popped.
  pub Reach-refines :
      {c : ℕ}
      → IsCapacity c
      → {s : State A} (r : Reach c s)
      → QueueRun c (labels r) (waiting s)
        × (pushes_of (labels r) ≡ s.pushed)
        × (pops_of (labels r) ≡ s.popped)
  Reach-refines v begin = (QueueRun.nothing, refl, refl)
  Reach-refines v (later r st) =
      let (before, pushed, popped) = Reach-refines v r in
      let kept = Step-Recorded st in
      (
        QueueRun.and_then before (Step-refines v r st),
        pushes_of-append (labels r) (label st ∷ [])
            ∙ ap (λ xs. xs ++ pushes_of (label st ∷ [])) pushed
            ∙ sym kept.pushed,
        pops_of-append (labels r) (label st ∷ [])
            ∙ ap (λ xs. xs ++ pops_of (label st ∷ [])) popped
            ∙ sym kept.popped,
      )
