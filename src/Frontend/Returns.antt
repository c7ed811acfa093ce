-- ===== src/Frontend/Returns.antt =====
-- What a step of a call does to the ring and to the answers.
use low_latency_logger.Prelude.{
  ℕ, ◌+◌, ◌-◌, Option, none, some, Bool, true, false, List, [], ◌∷◌, ◌++◌, ◌≡◌, refl, ap, arith,
  leb, Bool-cases, inl, inr,
}
use low_latency_logger.Config.{Config}
use low_latency_logger.Record.{LogRecord}
use low_latency_logger.RingBuffer.{distance}
use low_latency_logger.Spsc.{Producer, State, produce, produce_at}
use low_latency_logger.System.{LogCall, record_of}
use low_latency_logger.Logger.{LogResult, success, buffer_full}
use low_latency_logger.Frontend.{Request, messages, nulls, push_returns, call_of}

-- The calls answered `Success`, in order, and the number of those answered `BufferFull`.
abbrev pub accepted : List (Request × LogResult) → List LogCall
accepted [] = []
accepted ((messages call, success) ∷ answers) = call ∷ accepted answers
accepted ((messages call, buffer_full) ∷ answers) = accepted answers
accepted ((messages call, LogResult.error) ∷ answers) = accepted answers
accepted ((nulls env level file line function, answer) ∷ answers) = accepted answers

abbrev pub dropped : List (Request × LogResult) → ℕ
dropped [] = 0
dropped ((request, success) ∷ answers) = dropped answers
dropped ((request, buffer_full) ∷ answers) = 1 + dropped answers
dropped ((request, LogResult.error) ∷ answers) = dropped answers

pub accepted-append :
    (xs ys : List (Request × LogResult)) → accepted (xs ++ ys) ≡ accepted xs ++ accepted ys
accepted-append [] ys = refl
accepted-append ((messages call, success) ∷ xs) ys = ap (λ l. call ∷ l) (accepted-append xs ys)
accepted-append ((messages call, buffer_full) ∷ xs) ys = accepted-append xs ys
accepted-append ((messages call, LogResult.error) ∷ xs) ys = accepted-append xs ys
accepted-append ((nulls env level file line function, answer) ∷ xs) ys = accepted-append xs ys

pub dropped-append :
    (xs ys : List (Request × LogResult)) → dropped (xs ++ ys) ≡ dropped xs + dropped ys
dropped-append [] ys = omega arith
dropped-append ((request, success) ∷ xs) ys = dropped-append xs ys
dropped-append ((request, buffer_full) ∷ xs) ys = omega (arith, dropped-append xs ys)
dropped-append ((request, LogResult.error) ∷ xs) ys = dropped-append xs ys

-- An answer that fits its request: an error exactly for a null message.
abbrev pub Fits : Request × LogResult → Type 0
Fits (messages call, LogResult.error) = ⊥
Fits (messages call, answer) = Unit
Fits (nulls env level file line function, LogResult.error) = Unit
Fits (nulls env level file line function, answer) = ⊥

module _ (c : ℕ) (cfg : Config) (Ok : LogCall → Type 0) where
  -- The element that `TryPush` works on is the record of the call under way.
  abbrev pub InFlight : Option LogCall → Producer LogRecord → Type 0
  InFlight none Producer.idle = Unit
  InFlight none _ = ⊥
  InFlight (some call) Producer.idle = ⊥
  InFlight (some call) (Producer.have_write x w) = Ok call × (x ≡ record_of c cfg call)
  InFlight (some call) (Producer.constructing x w) = Ok call × (x ≡ record_of c cfg call)
  InFlight (some call) (Producer.publishing x w) = Ok call × (x ≡ record_of c cfg call)

  -- What a step that returns `answer` leaves.
  abbrev pub Leaves : Option Bool → LogCall → State LogRecord → State LogRecord → Type 0
  Leaves none call s s' = InFlight (some call) s'.producer × (s'.pushed ≡ s.pushed)
  Leaves (some true) call s s' =
      InFlight none s'.producer × (s'.pushed ≡ s.pushed ++ record_of c cfg call ∷ [])
  Leaves (some false) call s s' = InFlight none s'.producer × (s'.pushed ≡ s.pushed)

  pub produce-Leaves :
      (next : LogCall) (m : ℕ) (current : Option LogCall) (s : State LogRecord)
      → Ok next
      → InFlight current s.producer
      → let call = call_of current next in
        let s' = produce c (record_of c cfg call) m s in
        Ok call × Leaves (push_returns s.producer s'.producer) call s s'
  unfolding produce produce_at
  produce-Leaves next m current s ok = go current s.producer
    where
      go :
          (current : Option LogCall) (p : Producer LogRecord)
          → InFlight current p
          → let call = call_of current next in
            let s' = produce_at c (record_of c cfg call) m s p in
            Ok call × Leaves (push_returns p s'.producer) call s s'
      go none Producer.idle h = (ok, ((ok, refl), refl))
      go none (Producer.have_write x w) h = absurd h
      go none (Producer.constructing x w) h = absurd h
      go none (Producer.publishing x w) h = absurd h
      go (some call) Producer.idle h = absurd h
      go (some call) (Producer.have_write x w) h =
          elim (Bool-cases (leb (c - 1) (distance w (s.read_index.value_at m)))) [
            | inl full ↦ rw full (h.0, (tt, refl))
            | inr room ↦ rw room (h.0, (h, refl))
          ]
      go (some call) (Producer.constructing x w) h = (h.0, (h, refl))
      go (some call) (Producer.publishing x w) h = (h.0, (tt, ap (λ r. s.pushed ++ r ∷ []) h.1))
