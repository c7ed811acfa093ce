-- ===== src/Backend/Invariant.antt =====
-- What every interleaving of the two threads keeps true.
use low_latency_logger.Prelude.{
  ℕ, ◌≤◌, Bool, true, false, Option, none, some, List, [], ◌∷◌, ◌++◌, ◌≡◌, refl, sym, ap, ◌∙◌,
  length, map, append-nil, All, arith,
}
use low_latency_logger.Prelude.Text.{Text}
use low_latency_logger.Record.{LogRecord}
use low_latency_logger.Spsc.{
  Producer, Consumer, State, produce, produce_at, consume, consume_at, latest,
}
use low_latency_logger.Spsc
use low_latency_logger.Consumer.{Setup, SinkCall, flush}
use low_latency_logger.Consumer.Trace.{written}
use low_latency_logger.Backend.{
  Pc, Machine, launched, pop_returns, after_pop, pop_step, produce_step,
}
use low_latency_logger.Backend.Pops.{returned, consume-Pops, ProducerOk, produce-ok}

-- The record between its pop and its line.
abbrev pub in_hand : Pc → List LogRecord
in_hand (Pc.writing r) = r ∷ []
in_hand _ = []

abbrev pub in_pop : Pc → Bool
in_pop Pc.popping = true
in_pop (Pc.retrying left) = true
in_pop _ = false

abbrev pub leaving : Pc → Bool
leaving Pc.closing = true
leaving Pc.done = true
leaving _ = false

pub record Inv (S : Setup) (Ok : LogRecord → Type 0) (line : LogRecord → Text) (w : Machine)
    : Type 0 where
  pub reached : Spsc.Reach S.capacity w.ring
  pub handed : w.emitted ++ in_hand w.pc ≡ w.ring.popped
  pub lines : written w.calls ≡ map line w.emitted
  pub sized : length w.scratch ≡ S.scratch_size
  pub pushed_ok : All Ok w.ring.pushed
  pub coming_ok : ProducerOk Ok w.ring.producer
  pub resting : in_pop w.pc ≡ false → w.ring.consumer ≡ Consumer.idle
  pub signalled : leaving w.pc ≡ true → w.stopped ≡ true
  pub flushed : w.pc ≡ Pc.done → (before : List SinkCall) × (w.calls ≡ before ++ flush ∷ [])

at_rest :
    (inside on_empty : Pc) (o : Option (Option LogRecord)) {c : Consumer LogRecord}
    → in_pop inside ≡ true
    → ((r : Option LogRecord) → o ≡ some r → c ≡ Consumer.idle)
    → in_pop (after_pop inside on_empty o) ≡ false
    → c ≡ Consumer.idle
at_rest inside on_empty none popping h out = absurd (ground (arith, popping, out))
at_rest inside on_empty (some r) popping h out = h r refl

-- A place that a step of `TryPop` may lead to when it returns no element.
pub record IsEmptyHanded (pc : Pc) : Type 0 where
  pub hand : in_hand pc ≡ []
  pub stays : leaving pc ≡ false

in_hand-after_pop :
    (inside on_empty : Pc) (o : Option (Option LogRecord))
    → IsEmptyHanded inside
    → IsEmptyHanded on_empty
    → (in_hand (after_pop inside on_empty o) ≡ returned o)
      × (leaving (after_pop inside on_empty o) ≡ false)
in_hand-after_pop inside on_empty none a b = (a.hand, a.stays)
in_hand-after_pop inside on_empty (some none) a b = (b.hand, b.stays)
in_hand-after_pop inside on_empty (some (some r)) a b = (refl, refl)

module _ {S : Setup} {Ok : LogRecord → Type 0} {line : LogRecord → Text} where
  pub launched-Inv :
      (scratch : Text) → length scratch ≡ S.scratch_size → Inv S Ok line (launched scratch)
  launched-Inv scratch sized = record {
    reached = Spsc.begin;
    handed = refl;
    lines = refl;
    sized = sized;
    pushed_ok = tt;
    coming_ok = tt;
    resting = λ h. refl;
    signalled = λ h. cc;
    flushed = λ h. cc;
  }

  pub produce_step-Inv :
      (x : LogRecord) (m : ℕ) (w : Machine)
      → Ok x
      → w.ring.seen_read ≤ m
      → m ≤ w.ring.read_index.stores
      → Inv S Ok line w
      → Inv S Ok line (produce_step S x m w)
  produce_step-Inv x m w ok lo hi i =
      let (pushed_ok, coming_ok, popped, same) =
        produce-ok Ok S.capacity x m w.ring ok i.pushed_ok i.coming_ok in
      record {
        reached = Spsc.later i.reached (Spsc.produces x m lo hi);
        handed = i.handed ∙ sym popped;
        lines = i.lines;
        sized = i.sized;
        pushed_ok = pushed_ok;
        coming_ok = coming_ok;
        resting = λ h. same ∙ i.resting h;
        signalled = i.signalled;
        flushed = i.flushed;
      }

  pub pop_step-Inv :
      (m : ℕ) (inside on_empty : Pc) (w : Machine)
      → w.pc ≡ inside
      → in_pop inside ≡ true
      → IsEmptyHanded inside
      → IsEmptyHanded on_empty
      → w.ring.seen_write ≤ m
      → m ≤ w.ring.write_index.stores
      → Inv S Ok line w
      → Inv S Ok line (pop_step S m inside on_empty w)
  unfolding pop_step
  pop_step-Inv m inside on_empty w e popping a b lo hi i =
      let p = consume-Pops S.capacity m w.ring in
      let o = pop_returns w.ring.consumer (consume S.capacity m w.ring).consumer in
      let (hand, stays) = in_hand-after_pop inside on_empty o a b in
      let empty : w.emitted ≡ w.ring.popped =
        sym (append-nil w.emitted)
        ∙ ap (λ l. w.emitted ++ l) (sym (ap in_hand e ∙ a.hand))
        ∙ i.handed in
      record {
        reached = Spsc.later i.reached (Spsc.consumes m lo hi);
        handed = ap (λ l. w.emitted ++ l) hand ∙ ap (λ l. l ++ returned o) empty ∙ sym p.popped;
        lines = i.lines;
        sized = i.sized;
        pushed_ok = rw p.pushed i.pushed_ok;
        coming_ok = rw p.producer i.coming_ok;
        resting = at_rest inside on_empty o popping p.idle_after;
        signalled = λ h. absurd (ground (arith, h, stays));
        flushed = λ h. absurd (ground (arith, ap leaving h, stays));
      }
