-- ===== src/Consumer/Shutdown.antt =====
-- How the loop ends: after a `Stop`, with a last flush, and with the account of records in order.
use low_latency_logger.Prelude.{
  ℕ, zero, suc, ◌<◌, true, false, not, List, [], ◌∷◌, ◌++◌, ◌≡◌, refl, ap, length, arith,
  Bool-cases, inl, inr,
}
use mathlib.Core.List.{Sublist, sublist-append_left}
use mathlib.Core.List.Sublist
use low_latency_logger.Prelude.Text.{Text}
use low_latency_logger.Record.{LogRecord}
use low_latency_logger.Consumer.{
  Event, stops, SinkCall, flush, World, Setup, Spin, stopped, found, idle, crashed, Outcome,
  finished, crash, happen_all, tick, tick_by, flush_sink, turn, loop,
}
use low_latency_logger.Consumer.Trace.{stop_ahead, will_stop, offers, pushed_in, IsSetup, Inv}
use low_latency_logger.Consumer.Account.{Goes, Goes-trans, tick-Goes, schedule-happen_all}
use low_latency_logger.Consumer.Conserve.{flush-Goes, turn-Sound}

module _ {S : Setup} {Ok : LogRecord → Type 0} {line : LogRecord → Text}
    (setup : IsSetup S Ok line) where
  -- From `w` the loop has returned: the account is in order, the records accepted are those
  -- accepted before and some of those that the schedule pushes, and the last call is a flush.
  pub record Ended (w : World) (out : Outcome) : Type 0 where
    pub last : World
    pub returns : out ≡ finished last
    pub account : Inv S Ok line last
    pub before : List SinkCall
    pub offered : Sublist last.accepted (offers w)
    pub flushed : last.calls ≡ before ++ flush ∷ []

  flush-Ended : (w : World) → Inv S Ok line w → Ended w (finished (flush_sink S w))
  flush-Ended w i = record {
    last = flush_sink S w;
    returns = refl;
    account = (flush-Goes setup w).keeps i;
    before = w.calls;
    offered = unfold flush_sink in sublist-append_left w.accepted (pushed_in w.schedule);
    flushed = unfold flush_sink in refl;
  }

  Ended-after : {u w : World} {out : Outcome} → Goes setup u w → Ended w out → Ended u out
  Ended-after g e = record {
    last = e.last;
    returns = e.returns;
    account = e.account;
    before = e.before;
    offered = Sublist.trans e.offered g.drops;
    flushed = e.flushed;
  }

  tick_by-shorter :
      (batches : List (List Event)) (w : World)
      → w.schedule ≡ batches
      → will_stop w ≡ true
      → not (tick_by S batches w).is_running ≡ false
      → length (tick_by S batches w).schedule < length batches
  unfolding tick_by
  tick_by-shorter [] w e h on =
      let none_ahead : stop_ahead w.schedule ≡ false = ap stop_ahead e in absurd (grind arith)
  tick_by-shorter (batch ∷ later) w e h on =
      rw (schedule-happen_all setup batch (record w { schedule = later })) (omega arith)

  -- While a stop is ahead and the loop still runs, each tick uses up a batch of the schedule.
  tick-shorter :
      (w : World)
      → will_stop w ≡ true
      → not (tick S w).is_running ≡ false
      → length (tick S w).schedule < length w.schedule
  unfolding tick
  tick-shorter w h on = tick_by-shorter w.schedule w refl h on

  -- With a valid capacity and a formatter that turns every record pushed into its line: from a
  -- state whose account is in order, with a `Stop` done or in the schedule, and with more fuel
  -- than the schedule has batches, the loop returns; the records emitted, followed by those that
  -- wait in the ring, are still the records accepted, which are those accepted before and some of
  -- those that the schedule pushes, in order; what was written is the lines of the records emitted;
  -- and the last call of the sink is a flush.
  pub loop-Ended :
      (fuel : ℕ) (w : World)
      → Inv S Ok line w
      → will_stop w ≡ true
      → length w.schedule < fuel
      → Ended w (loop S fuel w)
  unfolding loop
  loop-Ended zero w i h lt = absurd (omega arith)
  loop-Ended (suc fuel) w i h lt =
      let now = tick S w in
      let ticked = tick-Goes setup w in
      let turned = turn-Sound setup now in
      elim (Bool-cases (not now.is_running)) [
        | inl stop ↦ rw stop (Ended-after ticked (flush-Ended now (ticked.keeps i)))
        | inr go_on ↦ rw go_on (
            Ended-after (Goes-trans setup ticked turned.goes) (
              next (turn S now).0 refl (
                loop-Ended fuel (turn S now).1 (turned.goes.keeps (ticked.keeps i))
                  (turned.goes.stopping (ticked.stopping h))
                  (omega (arith, tick-shorter w h go_on, turned.goes.shorter)))))
      ]
    where
      next :
          (s : Spin)
          → (turn S (tick S w)).0 ≡ s
          → Ended (turn S (tick S w)).1 (loop S fuel (turn S (tick S w)).1)
          → Ended (turn S (tick S w)).1 (elim s [
            | stopped ↦ finished (flush_sink S (turn S (tick S w)).1)
            | crashed ↦ crash
            | _ ↦ loop S fuel (turn S (tick S w)).1
          ])
      next stopped e ih =
          flush-Ended (turn S (tick S w)).1
            ((turn-Sound setup (tick S w)).goes.keeps ((tick-Goes setup w).keeps i))
      next found e ih = ih
      next idle e ih = ih
      next crashed e ih =
          absurd ((turn-Sound setup (tick S w)).safe ((tick-Goes setup w).keeps i) e)

pub tick-stops :
    (S : Setup) (w : World)
    → w.schedule ≡ (stops ∷ []) ∷ []
    → tick S w ≡ record w { is_running = false; schedule = [] }
unfolding tick tick_by happen_all
tick-stops S w e = ap (λ b. tick_by S b w) e
