-- ===== src/Backend/Stopping.antt =====
-- include/consumer.h: how fast the loop ends after a `Stop`.
use low_latency_logger.Prelude.{ℕ, suc, ◌+◌, ◌-◌, ◌≤◌, true, false, ◌≡◌, ◌∙◌, length, arith}
use low_latency_logger.Prelude.Text.{Text}
use low_latency_logger.Record.{LogRecord}
use low_latency_logger.Consumer.{Setup}
use low_latency_logger.Consumer.Trace.{IsSetup}
use low_latency_logger.Backend.{Pc, Machine, loop_step, produce_step, Step, Reach}
use low_latency_logger.Backend.Pops.{produce-ok}
use low_latency_logger.Backend.Invariant.{Inv}
use low_latency_logger.Backend.Account.{IsAccounted, Inv-IsAccounted, Reach-Inv, Step-Inv}
use low_latency_logger.Backend.Rank.{
  rank, rank-le, rank-zero, allowance, allowance-le, loop_step-rank, loop_step-allowance,
  loop_step-stopped,
}

module _ (S : Setup) where
  -- An interleaving in which the loop takes the given number of steps, and finds `is_running_`
  -- cleared.
  pub data WindsDown (Ok : LogRecord → Type 0) (w : Machine) : ℕ → Machine → Type 0 where
    rests : WindsDown Ok w 0 w
    produces :
        {n : ℕ} {v : Machine} (x : LogRecord) (m : ℕ)
        → WindsDown Ok w n v
        → Ok x
        → v.ring.seen_read ≤ m
        → m ≤ v.ring.read_index.stores
        → WindsDown Ok w n (produce_step S x m v)
    loops :
        {n : ℕ} {v : Machine} (m : ℕ)
        → WindsDown Ok w n v
        → v.ring.seen_write ≤ m
        → m ≤ v.ring.write_index.stores
        → WindsDown Ok w (suc n) (loop_step S m false v)

  -- What such a run keeps: the state is reachable, the flag cleared, and the two bounds.
  pub record IsWinding (Ok : LogRecord → Type 0) (line : LogRecord → Text) (w : Machine) (n : ℕ)
      (v : Machine) : Type 0 where
    pub inv : Inv S Ok line v
    cleared : v.stopped ≡ true
    pub ranked : rank v.pc v.ring.consumer ≤ 8 - n
    budget : length v.emitted + allowance v.pc ≤ length w.emitted + allowance w.pc

module _ {S : Setup} {Ok : LogRecord → Type 0} {line : LogRecord → Text}
    (setup : IsSetup S Ok line) where
  pub WindsDown-IsWinding :
      {w : Machine} {n : ℕ} {v : Machine}
      → Inv S Ok line w
      → w.stopped ≡ true
      → WindsDown S Ok w n v
      → IsWinding S Ok line w n v
  WindsDown-IsWinding {w} i stop WindsDown.rests = record {
    inv = i;
    cleared = stop;
    ranked = rank-le w.pc w.ring.consumer;
    budget = omega arith;
  }
  WindsDown-IsWinding {w} i stop (WindsDown.produces {v = v} x m run ok lo hi) =
      let h : IsWinding S Ok line w _ v = WindsDown-IsWinding i stop run in
      let (_, _, _, same) =
        produce-ok Ok S.capacity x m v.ring ok h.inv.pushed_ok h.inv.coming_ok in
      record {
        inv = Step-Inv setup (Step.produces x m ok lo hi) h.inv;
        cleared = h.cleared;
        ranked = rw same h.ranked;
        budget = h.budget;
      }
  WindsDown-IsWinding {w} i stop (WindsDown.loops {v = v} m run lo hi) =
      let h : IsWinding S Ok line w _ v = WindsDown-IsWinding i stop run in
      record {
        inv = Step-Inv setup (Step.loops m false lo hi (λ e. h.cleared)) h.inv;
        cleared = loop_step-stopped S m false v ∙ h.cleared;
        ranked = omega (arith, h.ranked, loop_step-rank S m v (Inv-IsAccounted setup h.inv).sound);
        budget = omega (arith, h.budget, loop_step-allowance S m v);
      }

  -- For a setup whose capacity passes the static assertions and whose formatter turns each `Ok`
  -- record into its line, and a scratch buffer of the setup's size: from any reachable machine with
  -- `is_running_` cleared, once the loop has taken eight steps whose loads of `is_running_` return
  -- `false`, it has returned, whatever the producer does in between and however old the values of
  -- the other loads are; it has written at most one more record; and the account of the records
  -- still holds.
  pub winds_down :
      (scratch : Text)
      → length scratch ≡ S.scratch_size
      → {w v : Machine} {n : ℕ} → Reach S Ok scratch w
      → w.stopped ≡ true
      → WindsDown S Ok w n v
      → 8 ≤ n
      → (v.pc ≡ Pc.done) × (length v.emitted ≤ length w.emitted + 1) × IsAccounted S line v
  winds_down scratch sized {w} {v} reach stop run enough =
      let h : IsWinding S Ok line w _ v =
        WindsDown-IsWinding (Reach-Inv setup sized reach) stop run in
      (
        rank-zero v.pc v.ring.consumer (omega (arith, h.ranked, enough)),
        omega (arith, h.budget, allowance-le w.pc),
        Inv-IsAccounted setup h.inv,
      )
