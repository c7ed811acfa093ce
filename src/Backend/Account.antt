-- ===== src/Backend/Account.antt =====
-- include/consumer.h: what every interleaving of the producer's and the consumer's thread does with
-- the records.
use low_latency_logger.Prelude.{
  ℕ, zero, suc, ◌-◌, ◌≤◌, Bool, true, false, List, [], ◌∷◌, ◌++◌, ◌≡◌, ◌≢◌, refl, sym, ap, ◌∙◌,
  length, take, map, map-append, append-nil, All, All-append_left, All-head, if◌then◌else◌,
  Bool-cases, inl, inr, arith,
}
use low_latency_logger.Prelude.Text.{Text}
use low_latency_logger.Record.{LogRecord}
use low_latency_logger.Spsc.{Consumer}
use low_latency_logger.Spsc.Safety.{fifo, never_faults}
use low_latency_logger.Consumer.{Setup, SinkCall, write, flush}
use low_latency_logger.Consumer.Trace.{IsSetup, written, written-append}
use low_latency_logger.Backend.{Pc, Machine, loop_at, loop_step, Step, Reach}
use low_latency_logger.Backend.Invariant.{
  in_hand, in_pop, leaving, Inv, launched-Inv, IsEmptyHanded, produce_step-Inv, pop_step-Inv,
}

module _ {S : Setup} {Ok : LogRecord → Type 0} {line : LogRecord → Text}
    (setup : IsSetup S Ok line) where
  -- A step outside `TryPop` that touches no record: it goes to `pc` with `calls`.
  control-Inv :
      (pc : Pc) (calls : List SinkCall) (w : Machine)
      → in_pop w.pc ≡ false
      → in_hand pc ≡ in_hand w.pc
      → written calls ≡ written w.calls
      → (leaving pc ≡ true → w.stopped ≡ true)
      → (pc ≡ Pc.done → (before : List SinkCall) × (calls ≡ before ++ flush ∷ []))
      → Inv S Ok line w
      → Inv S Ok line (record w { pc = pc; calls = calls })
  control-Inv pc calls w outside hand same off last i = record {
    reached = i.reached;
    handed = ap (λ l. w.emitted ++ l) hand ∙ i.handed;
    lines = same ∙ i.lines;
    sized = i.sized;
    pushed_ok = i.pushed_ok;
    coming_ok = i.coming_ok;
    resting = λ h. i.resting outside;
    signalled = off;
    flushed = last;
  }

  write_step-Inv :
      (m : ℕ) (on : Bool) (r : LogRecord) (w : Machine)
      → w.pc ≡ Pc.writing r
      → Inv S Ok line w
      → Inv S Ok line (loop_at S m on w (Pc.writing r))
  unfolding loop_at
  write_step-Inv m on r w e i =
      let popped : w.emitted ++ r ∷ [] ≡ w.ring.popped =
        ap (λ p. w.emitted ++ in_hand p) (sym e) ∙ i.handed in
      let (waiting, whole, _) = fifo setup.capacity_ok i.reached in
      let ok : All Ok (w.emitted ++ r ∷ []) =
        All-append_left Ok (w.emitted ++ r ∷ []) waiting (rw popped (rw whole i.pushed_ok)) in
      let (text, size) = setup.formats r w.scratch (All-head Ok w.emitted r [] ok) i.sized in
      let (len, scratch) = S.format r w.scratch S.scratch_size in
      record {
        reached = i.reached;
        handed = append-nil (w.emitted ++ r ∷ []) ∙ popped;
        lines =
            written-append w.calls (write (take len scratch) ∷ [])
            ∙ (rw i.lines (rw text (sym (map-append line w.emitted (r ∷ [])))));
        sized = size;
        pushed_ok = i.pushed_ok;
        coming_ok = i.coming_ok;
        resting = λ h. i.resting (ap in_pop e);
        signalled = λ h. cc;
        flushed = λ h. cc;
      }

  flushing_keeps : (calls : List SinkCall) → written (calls ++ flush ∷ []) ≡ written calls
  flushing_keeps calls = written-append calls (flush ∷ []) ∙ append-nil (written calls)

  loop_step-Inv :
      (m : ℕ) (on : Bool) (w : Machine)
      → w.ring.seen_write ≤ m
      → m ≤ w.ring.write_index.stores
      → (on ≡ false → w.stopped ≡ true)
      → Inv S Ok line w
      → Inv S Ok line (loop_step S m on w)
  unfolding loop_step loop_at
  loop_step-Inv m on w lo hi off i = go w.pc refl
    where
      bare : (pc : Pc) → in_hand pc ≡ [] → leaving pc ≡ false → IsEmptyHanded pc
      bare pc h k = record { hand = h; stays = k }

      -- A test of `is_running_`, which goes to `pc` when it is set.
      tests :
          (pc : Pc)
          → in_pop w.pc ≡ false
          → in_hand w.pc ≡ []
          → IsEmptyHanded pc
          → Inv S Ok line (record w { pc = if on then pc else Pc.closing })
      tests pc out empty b = elim (Bool-cases on) [
        | inl set ↦ rw set (
            control-Inv pc w.calls w out (b.hand ∙ sym empty) refl
              (λ h. absurd (ground (arith, h, b.stays)))
              (λ h. absurd (ground (arith, ap leaving h, b.stays))) i)
        | inr cleared ↦
            rw cleared
              (control-Inv Pc.closing w.calls w out (sym empty) refl (λ h. off cleared) (λ h. cc) i)
      ]

      go : (pc : Pc) → w.pc ≡ pc → Inv S Ok line (loop_at S m on w pc)
      go Pc.testing e = tests Pc.popping (ap in_pop e) (ap in_hand e) (bare Pc.popping refl refl)
      go Pc.popping e =
          pop_step-Inv m Pc.popping Pc.flushing w e refl (bare Pc.popping refl refl)
            (bare Pc.flushing refl refl) lo hi i
      go (Pc.writing r) e = write_step-Inv m on r w e i
      go Pc.flushing e =
          control-Inv (Pc.spinning S.spin_count) (w.calls ++ flush ∷ []) w (ap in_pop e)
            (sym (ap in_hand e)) (flushing_keeps w.calls) (λ h. cc) (λ h. cc) i
      go (Pc.spinning zero) e =
          control-Inv Pc.dozing w.calls w (ap in_pop e) (sym (ap in_hand e)) refl (λ h. cc)
            (λ h. cc) i
      go (Pc.spinning (suc left)) e =
          tests (Pc.retrying left) (ap in_pop e) (ap in_hand e) (bare (Pc.retrying left) refl refl)
      go (Pc.retrying left) e =
          pop_step-Inv m (Pc.retrying left) (Pc.spinning left) w e refl
            (bare (Pc.retrying left) refl refl) (bare (Pc.spinning left) refl refl) lo hi i
      go Pc.dozing e =
          control-Inv Pc.testing w.calls w (ap in_pop e) (sym (ap in_hand e)) refl (λ h. cc)
            (λ h. cc) i
      go Pc.closing e =
          control-Inv Pc.done (w.calls ++ flush ∷ []) w (ap in_pop e) (sym (ap in_hand e))
            (flushing_keeps w.calls) (λ h. i.signalled (ap leaving e)) (λ h. (w.calls, refl)) i
      go Pc.done e = i

  pub Step-Inv : {w w' : Machine} → Step S Ok w w' → Inv S Ok line w → Inv S Ok line w'
  Step-Inv {w} (Step.produces x m ok lo hi) i = produce_step-Inv x m w ok lo hi i
  Step-Inv {w} Step.stops i = record {
    reached = i.reached;
    handed = i.handed;
    lines = i.lines;
    sized = i.sized;
    pushed_ok = i.pushed_ok;
    coming_ok = i.coming_ok;
    resting = i.resting;
    signalled = λ h. refl;
    flushed = i.flushed;
  }
  Step-Inv {w} (Step.starts scratch sized ended) i = record {
    reached = i.reached;
    handed = ap (λ p. w.emitted ++ in_hand p) (sym ended) ∙ i.handed;
    lines = i.lines;
    sized = sized;
    pushed_ok = i.pushed_ok;
    coming_ok = i.coming_ok;
    resting = λ h. i.resting (ap in_pop ended);
    signalled = λ h. cc;
    flushed = λ h. cc;
  }
  Step-Inv {w} (Step.loops m on lo hi off) i = loop_step-Inv m on w lo hi off i

  pub Reach-Inv :
      {scratch : Text} {w : Machine}
      → length scratch ≡ S.scratch_size
      → Reach S Ok scratch w
      → Inv S Ok line w
  Reach-Inv {scratch} sized Reach.begin = launched-Inv scratch sized
  Reach-Inv {scratch} sized (Reach.later r st) = Step-Inv st (Reach-Inv sized r)

-- What is true of a machine at any time.
pub record IsAccounted (S : Setup) (line : LogRecord → Text) (w : Machine) : Type 0 where
  pub waiting : List LogRecord
  pub whole : (w.emitted ++ in_hand w.pc) ++ waiting ≡ w.ring.pushed
  pub room : length waiting ≤ S.capacity - 1
  pub lines : written w.calls ≡ map line w.emitted
  pub sound : w.ring.consumer ≢ Consumer.faulted
  pub last_flush :
      w.pc ≡ Pc.done
      → (w.stopped ≡ true) × (before : List SinkCall) × (w.calls ≡ before ++ flush ∷ [])

module _ {S : Setup} {Ok : LogRecord → Type 0} {line : LogRecord → Text}
    (setup : IsSetup S Ok line) where
  pub Inv-IsAccounted : {w : Machine} → Inv S Ok line w → IsAccounted S line w
  Inv-IsAccounted {w} i =
      let (waiting, whole, room) = fifo setup.capacity_ok i.reached in
      record {
        waiting = waiting;
        whole = ap (λ l. l ++ waiting) i.handed ∙ whole;
        room = room;
        lines = i.lines;
        sound = never_faults setup.capacity_ok i.reached;
        last_flush =
            λ h. let (before, last) = i.flushed h in (i.signalled (ap leaving h), before, last);
      }

  -- For a setup whose capacity passes the static assertions and whose formatter turns each `Ok`
  -- record into its line, and a scratch buffer of the setup's size: in every machine that an
  -- interleaving of a producer of `Ok` records, a caller of `Stop` and of `Start` after it, and the
  -- loop can reach, even when loads of the indices and of `is_running_` return old values, the
  -- records emitted, then the one in the loop's hand, then at most `Capacity-1` that wait in the
  -- ring are the records pushed; the texts written are the lines of the records emitted; and
  -- `TryPop` has never moved from a slot that holds no record. A loop that has returned was told to
  -- stop, and its last call of the sink is `Flush`.
  pub accounted :
      (scratch : Text)
      → length scratch ≡ S.scratch_size
      → {w : Machine} → Reach S Ok scratch w
      → IsAccounted S line w
  accounted scratch sized reach = Inv-IsAccounted (Reach-Inv setup sized reach)
