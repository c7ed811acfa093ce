-- ===== src/Backend/Graceful.antt =====
-- include/consumer.h: a `Stop` that leaves the loop time for what was pushed before.
use low_latency_logger.Prelude.{
  ℕ, zero, suc, ◌+◌, ◌-◌, ◌*◌, ◌≤◌, Bool, true, false, List, [], ◌∷◌, ◌++◌, ◌≡◌, refl, sym, ap, ◌∙◌,
  length, take, take-append_left, length-append, append-nil, append_assoc, take-append-drop, drop,
  arith,
}
use low_latency_logger.Prelude.Text.{Text}
use low_latency_logger.Record.{LogRecord}
use low_latency_logger.Consumer.{Setup}
use low_latency_logger.Consumer.Trace.{IsSetup}
use low_latency_logger.Backend.{Pc, Machine, loop_at, loop_step, pop_step, Step, Reach}
use low_latency_logger.Backend.Invariant.{Inv, leaving}
use low_latency_logger.Backend.Account.{IsAccounted, Inv-IsAccounted, Reach-Inv, Step-Inv}
use low_latency_logger.Backend.Rank.{rank-zero}
use low_latency_logger.Backend.Stopping.{WindsDown, IsWinding, WindsDown-IsWinding}
use low_latency_logger.Backend.Latency.{Attends, IsAttending, Attends-IsAttending, attended}

-- What the loop has written stays written.
abbrev Grows : Machine → Machine → Type 0
Grows w v = (wrote : List LogRecord) × (v.emitted ≡ w.emitted ++ wrote)

loop_step-Grows : (S : Setup) (m : ℕ) (on : Bool) (w : Machine) → Grows w (loop_step S m on w)
unfolding loop_step loop_at pop_step
loop_step-Grows S m on w = go w.pc
  where
    still : (wrote : List LogRecord) × (w.emitted ≡ w.emitted ++ wrote)
    still = ([], sym (append-nil w.emitted))

    go : (pc : Pc) → Grows w (loop_at S m on w pc)
    go Pc.testing = still
    go Pc.popping = still
    go (Pc.writing r) = (r ∷ [], refl)
    go Pc.flushing = still
    go (Pc.spinning zero) = still
    go (Pc.spinning (suc left)) = still
    go (Pc.retrying left) = still
    go Pc.dozing = still
    go Pc.closing = still
    go Pc.done = still

WindsDown-Grows :
    {S : Setup} {Ok : LogRecord → Type 0} {w v : Machine} {n : ℕ} → WindsDown S Ok w n v → Grows w v
WindsDown-Grows {w = w} WindsDown.rests = ([], sym (append-nil w.emitted))
WindsDown-Grows (WindsDown.produces x m run ok lo hi) = WindsDown-Grows run
WindsDown-Grows {S} {w = w} (WindsDown.loops {v = v} m run lo hi) =
    let (early, e) = WindsDown-Grows run in
    let (late, k) = loop_step-Grows S m false v in
    (early ++ late, k ∙ ap (λ l. l ++ late) e ∙ append_assoc w.emitted early late)

module _ {S : Setup} {Ok : LogRecord → Type 0} {line : LogRecord → Text}
    (setup : IsSetup S Ok line) where
  -- For a setup whose capacity passes the static assertions and whose formatter turns each `Ok`
  -- record into its line, and a scratch buffer of the setup's size: from any reachable machine
  -- whose loop is not leaving, let the loop take seven steps for each record pushed and not yet
  -- written and eleven more, with loads that return the newest values and find `is_running_` set;
  -- then let `Stop` clear the flag, and let the loop take eight steps whose loads of the flag
  -- return `false`, with the producer doing whatever it does throughout. Then the loop has
  -- returned, all records pushed up to the start have been written, in the order pushed, and the
  -- account of the records still holds, the last flush included.
  pub graceful :
      (scratch : Text)
      → length scratch ≡ S.scratch_size
      → {w u v : Machine} {n k : ℕ} → Reach S Ok scratch w
      → leaving w.pc ≡ false
      → Attends S Ok w n u
      → 7 * (length w.ring.pushed - length w.emitted) + 11 ≤ n
      → WindsDown S Ok (record u { stopped = true }) k v
      → 8 ≤ k
      → (v.pc ≡ Pc.done)
        × (take (length w.ring.pushed) v.emitted ≡ w.ring.pushed)
        × IsAccounted S line v
  graceful scratch sized {w} {u} {v} reach staying run enough down last =
      let total = length w.ring.pushed in
      let h : IsAttending setup w _ u =
        Attends-IsAttending setup (Reach-Inv setup sized reach) staying run in
      let told : Inv S Ok line (record u { stopped = true }) = Step-Inv setup Step.stops h.inv in
      let d : IsWinding S Ok line (record u { stopped = true }) _ v =
        WindsDown-IsWinding setup told refl down in
      let written = attended setup scratch sized reach staying run enough in
      let (wrote, grown) = WindsDown-Grows down in
      let there : total ≤ length u.emitted = omega (
        arith,
        ap length (take-append-drop total u.emitted),
        ap length written,
        length-append (take total u.emitted) (drop total u.emitted),
      ) in
      (
        rank-zero v.pc v.ring.consumer (omega (arith, d.ranked, last)),
        ap (take total) grown ∙ take-append_left total u.emitted wrote there ∙ written,
        Inv-IsAccounted setup d.inv,
      )
