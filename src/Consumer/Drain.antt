-- ===== src/Consumer/Drain.antt =====
-- A `Stop` that comes late enough: the loop writes all that waits before it looks at the signal.
use low_latency_logger.Prelude.{
  ℕ, suc, ◌+◌, true, false, List, [], ◌∷◌, ◌++◌, ◌≡◌, refl, sym, ap, ◌∙◌, length, map, map-append,
  append-nil, append_assoc, All, All-append_right, arith,
}
use low_latency_logger.Prelude.Text.{Text}
use low_latency_logger.Record.{LogRecord}
use low_latency_logger.RingBuffer.{try_pop}
use low_latency_logger.RingBuffer.Queue.{Holds}
use low_latency_logger.RingBuffer.Pop.{try_pop-cons}
use low_latency_logger.Consumer.{
  Event, stops, SinkCall, flush, World, Setup, idle, found, finished, tick, tick_by, happen_all,
  emit, flush_sink, pop_result, pop_and_write, turn, turn_spun, spin, loop,
}
use low_latency_logger.Consumer.Shutdown.{tick-stops}
use low_latency_logger.Consumer.Trace.{IsSetup, Inv, written, written-append}

-- Two accesses for each record: the test of the signal and the pop.
abbrev pub undisturbed : List LogRecord → List (List Event) → List (List Event)
undisturbed [] rest = rest
undisturbed (r ∷ q) rest = [] ∷ [] ∷ undisturbed q rest

tick-undisturbed :
    (S : Setup) (w : World) (later : List (List Event))
    → w.schedule ≡ [] ∷ later
    → tick S w ≡ record w { schedule = later }
unfolding tick tick_by happen_all
tick-undisturbed S w later e = ap (λ b. tick_by S b w) e

module _ {S : Setup} {Ok : LogRecord → Type 0} {line : LogRecord → Text}
    (setup : IsSetup S Ok line) where
  -- What the loop reaches from `w` once it has written the records of `q`.
  record Drained (w : World) (q : List LogRecord) (rest : List (List Event)) (fuel : ℕ)
      : Type 0 where
    last : World
    runs : loop S (length q + fuel) w ≡ loop S fuel last
    holds : Holds S.capacity last.ring []
    emitted_all : last.emitted ≡ w.emitted ++ q
    lines : written last.calls ≡ written w.calls ++ map line q
    ahead : last.schedule ≡ rest

  -- The world after the turn that writes `r`.
  abbrev after : LogRecord → List (List Event) → World → World
  after r later w = emit S r (record w { ring = (try_pop S.capacity w.ring).1; schedule = later })

  pop_and_write-after :
      (r : LogRecord) (q : List LogRecord) (w : World) (later : List (List Event))
      → Holds S.capacity w.ring (r ∷ q)
      → w.schedule ≡ [] ∷ later
      → pop_and_write S w ≡ (found, after r later w)
  unfolding pop_and_write pop_result
  pop_and_write-after r q w later h e =
      let popped = (try_pop-cons setup.capacity_ok r q h).0 in
      let ring = (try_pop S.capacity w.ring).1 in
      ap (λ now. pop_result S now (try_pop S.capacity now.ring)) (tick-undisturbed S w later e)
      ∙ ap (λ p. pop_result S (record w { schedule = later }) (p, ring)) popped

  turn-after :
      (r : LogRecord) (q : List LogRecord) (w : World) (later : List (List Event))
      → Holds S.capacity w.ring (r ∷ q)
      → w.schedule ≡ [] ∷ later
      → turn S w ≡ (found, after r later w)
  unfolding turn
  turn-after r q w later h e =
      ap
        (λ first. elim first.0 [
          | idle ↦ turn_spun S (spin S S.spin_count (flush_sink S first.1))
          | _ ↦ first
        ])
        (pop_and_write-after r q w later h e)

  loop-turn :
      (w w' : World) (n : ℕ)
      → (tick S w).is_running ≡ true
      → turn S (tick S w) ≡ (found, w')
      → loop S (suc n) w ≡ loop S n w'
  unfolding loop tick
  loop-turn w w' n on turned = rw turned (rw on (ap (λ out. loop S n out.1) turned))

  loop-after :
      (r : LogRecord) (q : List LogRecord) (w : World) (later : List (List Event)) (n : ℕ)
      → Holds S.capacity w.ring (r ∷ q)
      → w.is_running ≡ true
      → w.schedule ≡ [] ∷ [] ∷ later
      → loop S (suc n) w ≡ loop S n (after r later w)
  loop-after r q w later n h on e =
      let ticked = tick-undisturbed S w ([] ∷ later) e in
      loop-turn w (after r later w) n (ap (λ now. now.is_running) ticked ∙ on)
        (ap (turn S) ticked ∙ turn-after r q (record w { schedule = [] ∷ later }) later h refl)

  -- What that turn does to each part of the world.
  after-parts :
      (r : LogRecord) (later : List (List Event)) (w : World)
      → Ok r
      → length w.scratch ≡ S.scratch_size
      → let w' = after r later w in
        (w'.ring ≡ (try_pop S.capacity w.ring).1)
        × (w'.is_running ≡ w.is_running)
        × (w'.schedule ≡ later)
        × (w'.emitted ≡ w.emitted ++ r ∷ [])
        × (length w'.scratch ≡ S.scratch_size)
        × (written w'.calls ≡ written w.calls ++ line r ∷ [])
  unfolding emit
  after-parts r later w ok sized =
      let (same, kept) = setup.formats r w.scratch ok sized in
      (
        refl,
        refl,
        refl,
        refl,
        kept,
        written-append w.calls _ ∙ ap (λ t. written w.calls ++ t ∷ []) same,
      )

  drained :
      (q : List LogRecord) (w : World) (rest : List (List Event)) (fuel : ℕ)
      → Holds S.capacity w.ring q
      → w.is_running ≡ true
      → length w.scratch ≡ S.scratch_size
      → All Ok q
      → w.schedule ≡ undisturbed q rest
      → Drained w q rest fuel
  drained [] w rest fuel h on sized ok e = record {
    last = w;
    runs = ap (λ n. loop S n w) (omega arith);
    holds = h;
    emitted_all = sym (append-nil w.emitted);
    lines = sym (append-nil (written w.calls));
    ahead = e;
  }
  drained (r ∷ q) w rest fuel h on sized (ok, later_ok) e =
      let w' = after r (undisturbed q rest) w in
      let later = undisturbed q rest in
      let (ring, running, ahead, shown, kept, wrote) = after-parts r later w ok sized in
      let popped = (try_pop-cons setup.capacity_ok r q h).1 in
      let next : suc (length q) + fuel ≡ suc (length q + fuel) = omega arith in
      let d =
        drained q (after r later w) rest fuel (rw ring popped) (running ∙ on) kept later_ok ahead in
      record {
        last = d.last;
        runs = ap (λ n. loop S n w) next ∙ loop-after r q w later (length q + fuel) h on e ∙ d.runs;
        holds = d.holds;
        emitted_all = d.emitted_all ∙ ap (λ t. t ++ q) shown ∙ append_assoc w.emitted (r ∷ []) q;
        lines =
            d.lines
            ∙ ap (λ t. t ++ map line q) wrote
            ∙ append_assoc (written w.calls) (line r ∷ []) (map line q);
        ahead = d.ahead;
      }

  -- The stop comes after all that waits was written.
  ended :
      (w : World) (n : ℕ)
      → w.schedule ≡ (stops ∷ []) ∷ []
      → loop S (suc n) w ≡ finished (flush_sink S (record w { is_running = false; schedule = [] }))
  unfolding loop
  ended w n e = rw (tick-stops S w e) refl

  -- With a valid capacity and a formatter that turns every record that is accepted into its line:
  -- from a state whose account is in order and in which the consumer runs, if nothing happens
  -- during two accesses for each record that waits and then `Stop` comes, the loop returns, given
  -- more fuel than records wait; it has written the line of every record accepted, in order, the
  -- ring is empty, and the last call of the sink is a flush.
  pub stop_after_drain :
      (w : World) (fuel : ℕ) (i : Inv S Ok line w)
      → w.is_running ≡ true
      → w.schedule ≡ undisturbed i.waiting ((stops ∷ []) ∷ [])
      → (last : World) × (before : List SinkCall) × (loop S (length i.waiting + suc fuel) w
          ≡ finished last)
        × (written last.calls ≡ map line w.accepted)
        × (last.emitted ≡ w.accepted)
        × Holds S.capacity last.ring []
        × (last.calls ≡ before ++ flush ∷ [])
  unfolding flush_sink
  stop_after_drain w fuel i on e =
      let ok = All-append_right Ok w.emitted i.waiting (rw i.conserved i.accepted_ok) in
      let d = drained i.waiting w ((stops ∷ []) ∷ []) (suc fuel) i.holds on i.sized ok e in
      (
        flush_sink S (record d.last { is_running = false; schedule = [] }),
        d.last.calls,
        d.runs ∙ ended d.last fuel d.ahead,
        written-append d.last.calls (flush ∷ [])
            ∙ append-nil (written d.last.calls)
            ∙ d.lines
            ∙ ap (λ t. t ++ map line i.waiting) i.lines
            ∙ sym (map-append line w.emitted i.waiting)
            ∙ ap (map line) i.conserved,
        d.emitted_all ∙ i.conserved,
        record {
          read_fits = d.holds.read_fits;
          write_at = d.holds.write_at;
          room = d.holds.room;
          cells = d.holds.cells;
        },
        refl,
      )
