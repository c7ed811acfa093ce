-- ===== src/Consumer/Conserve.antt =====
-- Every part of the loop keeps the account of records, and brings the end of the schedule nearer.
use low_latency_logger.Prelude.{
  ℕ, zero, suc, not, List, [], ◌∷◌, ◌++◌, ◌≡◌, ◌≢◌, refl, sym, ap, ◌∙◌, length, take, All-head,
  append_assoc, append-nil, arith, ap₂, Bool-cases, inl, inr,
}
use mathlib.Core.List.{map-append}
use mathlib.Core.List.Sublist
use low_latency_logger.Prelude.Text.{Text}
use low_latency_logger.Record.{LogRecord}
use low_latency_logger.RingBuffer.{Popped, empty, item, fault, SpscRingBuffer, try_pop}
use low_latency_logger.RingBuffer.Queue.{Holds}
use low_latency_logger.RingBuffer.Pop.{try_pop-nil, try_pop-cons}
use low_latency_logger.Consumer.{
  Event, write, flush, World, Setup, Spin, stopped, found, idle, crashed, tick, emit, flush_sink,
  pop_result, pop_and_write, spin, turn, turn_spun,
}
use low_latency_logger.Consumer.Trace.{written-append, offers, IsSetup, Inv}
use low_latency_logger.Consumer.Account.{Goes, Goes-refl, Goes-trans, tick-Goes}

module _ {S : Setup} {Ok : LogRecord → Type 0} {line : LogRecord → Text}
    (setup : IsSetup S Ok line) where
  emit-Inv :
      (r : LogRecord) (rest : List LogRecord) (w : World) (ring : SpscRingBuffer LogRecord)
      → (i : Inv S Ok line w) → i.waiting ≡ r ∷ rest
      → Holds S.capacity ring rest
      → Inv S Ok line (emit S r (record w { ring = ring }))
  unfolding emit
  emit-Inv r rest w ring i e holds =
      let account : w.emitted ++ r ∷ rest ≡ w.accepted = rw (← e) i.conserved in
      let ok : Ok r = All-head Ok w.emitted r rest (rw account i.accepted_ok) in
      let (same, sized) = setup.formats r w.scratch ok i.sized in
      record {
        waiting = rest;
        holds = holds;
        conserved = append_assoc w.emitted (r ∷ []) rest ∙ account;
        lines =
            written-append w.calls (
              write (
                take (S.format r w.scratch S.scratch_size).0
                  (S.format r w.scratch S.scratch_size).1)
              ∷ [])
            ∙ ap₂ ◌++◌ i.lines (ap (λ t. t ∷ []) same)
            ∙ sym (map-append line w.emitted (r ∷ []));
        sized = sized;
        accepted_ok = i.accepted_ok;
        coming_ok = i.coming_ok;
      }

  pub flush-Goes : (w : World) → Goes setup w (flush_sink S w)
  unfolding flush_sink
  flush-Goes w = record {
    shorter = omega arith;
    stopping = λ h. h;
    drops = Sublist.refl (offers w);
    keeps = λ i. record {
      waiting = i.waiting;
      holds = i.holds;
      conserved = i.conserved;
      lines = written-append w.calls (flush ∷ []) ∙ append-nil _ ∙ i.lines;
      sized = i.sized;
      accepted_ok = i.accepted_ok;
      coming_ok = i.coming_ok;
    };
  }

  -- A result of the loop's parts goes on from `w`, and is no crash if the account was in order.
  pub record Sound (w : World) (out : Spin × World) : Type 0 where
    pub goes : Goes setup w out.1
    pub safe : Inv S Ok line w → out.0 ≢ crashed

  pub Sound-after : {u w : World} {out : Spin × World} → Goes setup u w → Sound w out → Sound u out
  Sound-after g s = record { goes = Goes-trans setup g s.goes; safe = λ i. s.safe (g.keeps i) }

  pop_result-same :
      (w : World) (p : Popped LogRecord × SpscRingBuffer LogRecord)
      → ((pop_result S w p).1.schedule ≡ w.schedule)
        × ((pop_result S w p).1.is_running ≡ w.is_running)
        × ((pop_result S w p).1.accepted ≡ w.accepted)
  unfolding pop_result emit
  pop_result-same w (empty, ring) = (refl, refl, refl)
  pop_result-same w (item r, ring) = (refl, refl, refl)
  pop_result-same w (fault, ring) = (refl, refl, refl)

  pop_result-keeps :
      (w : World) (i : Inv S Ok line w) (q : List LogRecord)
      → i.waiting ≡ q
      → let out = pop_result S w (try_pop S.capacity w.ring) in
        (out.0 ≢ crashed) × Inv S Ok line out.1
  unfolding pop_result
  pop_result-keeps w i [] e = rw (try_pop-nil setup.capacity_ok (rw e at i.holds)) ((λ b. cc), i)
  pop_result-keeps w i (r ∷ rest) e =
      let (popped, holds) = try_pop-cons setup.capacity_ok r rest (rw e at i.holds) in
      let ring = (try_pop S.capacity w.ring).1 in
      let pair : try_pop S.capacity w.ring ≡ (item r, ring) = ap (λ p. (p, ring)) popped in
      rw pair ((λ b. cc), emit-Inv r rest w ring i e holds)

  pub pop_and_write-Sound : (w : World) → Sound w (pop_and_write S w)
  unfolding pop_and_write
  pop_and_write-Sound w =
      let now = tick S w in
      let out = try_pop S.capacity now.ring in
      let (same, running, kept) = pop_result-same now out in
      Sound-after (tick-Goes setup w) (record {
        goes = record {
          shorter = omega (arith, ap (length {A = List Event}) same);
          stopping = λ h. rw (same, running) h;
          drops = rw (same, kept) (Sublist.refl (offers now));
          keeps = λ i. (pop_result-keeps now i i.waiting refl).1;
        };
        safe = λ i. (pop_result-keeps now i i.waiting refl).0;
      })

  still : (w : World) (s : Spin) → s ≢ crashed → Sound w (s, w)
  still w s h = record { goes = Goes-refl setup w; safe = λ i. h }

  choose-Sound :
      {w : World} (s : Spin) {polled again : Spin × World}
      → Sound w polled
      → Sound w again
      → Sound w (elim s [ idle ↦ again | _ ↦ polled ])
  choose-Sound stopped p a = p
  choose-Sound found p a = p
  choose-Sound idle p a = a
  choose-Sound crashed p a = p

  pub spin-Sound : (n : ℕ) (w : World) → Sound w (spin S n w)
  unfolding spin
  spin-Sound zero w = still w idle (λ b. cc)
  spin-Sound (suc n) w =
      let now = tick S w in
      let polled = pop_and_write-Sound now in
      let again = Sound-after polled.goes (spin-Sound n (pop_and_write S now).1) in
      Sound-after (tick-Goes setup w) (elim (Bool-cases (not now.is_running)) [
        | inl stop ↦ rw stop (still now stopped (λ b. cc))
        | inr go_on ↦ rw go_on (choose-Sound (pop_and_write S now).0 polled again)
      ])

  turn_spun-Sound : {w : World} (out : Spin × World) → Sound w out → Sound w (turn_spun S out)
  unfolding turn_spun
  turn_spun-Sound (idle, now) s = record {
    goes = Goes-trans setup s.goes (tick-Goes setup now);
    safe = s.safe;
  }
  turn_spun-Sound (stopped, now) s = s
  turn_spun-Sound (found, now) s = s
  turn_spun-Sound (crashed, now) s = s

  pub turn-Sound : (w : World) → Sound w (turn S w)
  unfolding turn
  turn-Sound w =
      let first = pop_and_write-Sound w in
      let flushed = flush_sink S (pop_and_write S w).1 in
      choose-Sound (pop_and_write S w).0 first (
        turn_spun-Sound (spin S S.spin_count flushed) (
          Sound-after (Goes-trans setup first.goes (flush-Goes (pop_and_write S w).1))
            (spin-Sound S.spin_count flushed)))
