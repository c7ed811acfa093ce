-- ===== src/Backend/Pops.antt =====
-- What one step of either thread on the ring does to the account.
use low_latency_logger.Prelude.{
  ℕ, ◌-◌, Option, none, some, List, [], ◌∷◌, ◌++◌, ◌≡◌, refl, sym, ap, ◌∙◌, append-nil, All,
  All-append, if-elim, ◌==◌, Bool-cases, leb, inl, inr, arith,
}
use low_latency_logger.Record.{LogRecord}
use low_latency_logger.RingBuffer.{distance}
use low_latency_logger.Spsc.{
  Producer, Consumer, State, produce, produce_at, consume, consume_at, latest,
}
use low_latency_logger.Backend.{pop_returns}

-- The element that `TryPop` has just returned.
abbrev pub returned : {A : Type 0} → Option (Option A) → List A
returned (some (some a)) = a ∷ []
returned _ = []

-- What a step of `TryPop` does to the account, and where it leaves the consumer when it returns.
pub record Pops {A : Type 0} (s s' : State A) : Type 0 where
  pub popped : s'.popped ≡ s.popped ++ returned (pop_returns s.consumer s'.consumer)
  pub pushed : s'.pushed ≡ s.pushed
  pub producer : s'.producer ≡ s.producer
  pub idle_after :
      (o : Option A) → pop_returns s.consumer s'.consumer ≡ some o → s'.consumer ≡ Consumer.idle

pub consume-Pops : {A : Type 0} (c m : ℕ) (s : State A) → Pops s (consume c m s)
unfolding consume consume_at
consume-Pops {A} c m s = go s.consumer refl
  where
    still :
        {s' : State A}
        → s'.popped ≡ s.popped
        → s'.pushed ≡ s.pushed
        → s'.producer ≡ s.producer
        → pop_returns s.consumer s'.consumer ≡ none
        → Pops s s'
    still h k l none_yet = record {
      popped = h ∙ sym (append-nil s.popped) ∙ ap (λ o. s.popped ++ returned o) (sym none_yet);
      pushed = k;
      producer = l;
      idle_after = λ o e. absurd (ground (arith, e, none_yet));
    }

    go : (p : Consumer A) → s.consumer ≡ p → Pops s (consume_at c m s p)
    go Consumer.idle e = still refl refl refl (rw e)
    go (Consumer.have_write w) e = elim (Bool-cases (latest s.read_index == w)) [
      | inl same ↦ rw same (record {
        popped = rw e (sym (append-nil s.popped));
        pushed = refl;
        producer = refl;
        idle_after = λ o h. refl;
      })
      | inr differ ↦ rw differ (still refl refl refl (rw e))
    ]
    go (Consumer.moving r) e = still refl refl refl (rw e)
    go (Consumer.destroying a r) e = still refl refl refl (rw e)
    go (Consumer.releasing a r) e = record {
      popped = rw e;
      pushed = refl;
      producer = refl;
      idle_after = λ o h. refl;
    }
    go Consumer.faulted e = still refl refl refl (rw e)

-- The element that the producer is about to push.
abbrev pub ProducerOk : {A : Type 0} → (A → Type 0) → Producer A → Type 0
ProducerOk Ok Producer.idle = Unit
ProducerOk Ok (Producer.have_write x w) = Ok x
ProducerOk Ok (Producer.constructing x w) = Ok x
ProducerOk Ok (Producer.publishing x w) = Ok x

pub produce-ok :
    (Ok : LogRecord → Type 0) (c : ℕ) (x : LogRecord) (m : ℕ) (s : State LogRecord)
    → Ok x
    → All Ok s.pushed
    → ProducerOk Ok s.producer
    → let s' = produce c x m s in
      All Ok s'.pushed
      × ProducerOk Ok s'.producer
      × (s'.popped ≡ s.popped)
      × (s'.consumer ≡ s.consumer)
unfolding produce produce_at
produce-ok Ok c x m s ok all = go s.producer
  where
    go :
        (p : Producer LogRecord)
        → ProducerOk Ok p
        → let s' = produce_at c x m s p in
          All Ok s'.pushed
          × ProducerOk Ok s'.producer
          × (s'.popped ≡ s.popped)
          × (s'.consumer ≡ s.consumer)
    go Producer.idle h = (all, ok, refl, refl)
    go (Producer.have_write y w) h = (
      all,
      if-elim (ProducerOk Ok) (leb (c - 1) (distance w (s.read_index.value_at m))) Producer.idle
          (Producer.constructing y w) (λ full. tt) (λ free. h),
      refl,
      refl,
    )
    go (Producer.constructing y w) h = (all, h, refl, refl)
    go (Producer.publishing y w) h = (All-append Ok s.pushed (y ∷ []) all (h, tt), tt, refl, refl)
