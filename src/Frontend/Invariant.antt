-- ===== src/Frontend/Invariant.antt =====
-- What every interleaving keeps true of the calls and their answers.
use low_latency_logger.Prelude.{
  ℕ, suc, ◌+◌, ◌%◌, ◌^◌, ◌≤◌, Option, none, some, Bool, true, false, [], ◌∷◌, ◌++◌, ◌≡◌, refl, sym,
  ap, ap₂, ◌∙◌, map, map-append, append-nil, arith, All, All-append,
}
use low_latency_logger.Prelude.Text.{Text, ℤ}
use low_latency_logger.Config.{Config}
use low_latency_logger.Level.{Level}
use low_latency_logger.Record.{LogRecord}
use low_latency_logger.RingBuffer.{init}
use low_latency_logger.Spsc.{produce}
use low_latency_logger.Logger.{Logger, LogResult, success, buffer_full, Surroundings, note_drop}
use low_latency_logger.Logger.Effect.{log_at-error}
use low_latency_logger.Logger.Drops.{drop_times}
use low_latency_logger.Consumer.{Setup}
use low_latency_logger.Pipeline.{text_setup}
use low_latency_logger.Backend.{Machine, loop_step}
use low_latency_logger.Backend
use low_latency_logger.Backend.Progress.{loop_step-keeps}
use low_latency_logger.System.{LogCall, record_of}
use low_latency_logger.System.Served.{IsRecordOf}
use low_latency_logger.Frontend.{
  messages, nulls, Front, opened, push_returns, call_of, logger_of, after_push, call_step,
  null_step, Step, Reach,
}
use low_latency_logger.Frontend.Returns.{
  accepted, dropped, accepted-append, dropped-append, Fits, InFlight, Leaves, produce-Leaves,
}

-- The counter and stderr after a number of drops.
abbrev pub fresh : Logger
fresh = record { ring = init; dropped_count = 0; stderr = [] }

-- A step of Backend that is not of the producer.
backs-keeps :
    {S : Setup} {w w' : Machine}
    → Backend.Step S (λ r. ⊥) w w'
    → (w'.ring.pushed ≡ w.ring.pushed) × (w'.ring.producer ≡ w.ring.producer)
backs-keeps (Backend.produces x m ok lo hi) = absurd ok
backs-keeps Backend.stops = (refl, refl)
backs-keeps (Backend.starts scratch sized ended) = (refl, refl)
backs-keeps {S} {w} (Backend.loops m on lo hi off) = loop_step-keeps S m on w

backs-Step :
    {S : Setup} {Ok : LogRecord → Type 0} {w w' : Machine}
    → Backend.Step S (λ r. ⊥) w w'
    → Backend.Step S Ok w w'
backs-Step (Backend.produces x m ok lo hi) = absurd ok
backs-Step Backend.stops = Backend.stops
backs-Step (Backend.starts scratch sized ended) = Backend.starts scratch sized ended
backs-Step (Backend.loops m on lo hi off) = Backend.loops m on lo hi off

module _ (cfg : Config) (ns : ℕ → ℕ) (c : ℕ) (Ok : LogCall → Type 0) where
  pub record Inv (scratch : Text) (f : Front) : Type 0 where
    pub reached : Backend.Reach (text_setup cfg ns c) (IsRecordOf c cfg Ok) scratch f.machine
    pub flight : InFlight c cfg Ok f.current f.machine.ring.producer
    pub agreed : f.machine.ring.pushed ≡ map (record_of c cfg) (accepted f.answers)
    pub oks : All Ok (accepted f.answers)
    pub fits : All Fits f.answers
    pub counted :
        cfg.enable_stderr_diagnostics ≡ true
        → (f.dropped_count ≡ (drop_times (dropped f.answers) fresh).dropped_count)
          × (f.stderr ≡ (drop_times (dropped f.answers) fresh).stderr)

  opened-Inv : (scratch : Text) → Inv scratch (opened scratch)
  unfolding drop_times
  opened-Inv scratch = record {
    reached = Backend.begin;
    flight = tt;
    agreed = refl;
    oks = tt;
    fits = tt;
    counted = λ on. (refl, refl);
  }

  backs-Inv :
      {scratch : Text} {w : Machine} (f : Front)
      → Backend.Step (text_setup cfg ns c) (λ r. ⊥) f.machine w
      → Inv scratch f
      → Inv scratch (record f { machine = w })
  backs-Inv f st i =
      let (pushed, producer) = backs-keeps st in
      record {
        reached = Backend.later i.reached (backs-Step st);
        flight = rw producer i.flight;
        agreed = pushed ∙ i.agreed;
        oks = i.oks;
        fits = i.fits;
        counted = i.counted;
      }

  null_step-Inv :
      {scratch : Text} (env : Surroundings) (level : Level) (file : Option Text) (line : ℤ)
      (function : Option Text) (f : Front)
      → Inv scratch f
      → Inv scratch (null_step cfg ns c env level file line function f)
  unfolding null_step
  null_step-Inv env level file line function f i =
      let (error, same) = log_at-error c cfg env level none file line function (logger_of f) in
      rw (same, error.1 refl)
        (record {
          reached = i.reached;
          flight = i.flight;
          agreed =
              i.agreed
              ∙ ap (map (record_of c cfg)) (
                  sym (
                    accepted-append f.answers
                      ((nulls env level file line function, LogResult.error) ∷ [])
                    ∙ append-nil (accepted f.answers)));
          oks = rw (accepted-append, append-nil) i.oks;
          fits = All-append Fits f.answers _ i.fits (tt, tt);
          counted =
              let none_more : dropped
                    (f.answers ++ (nulls env level file line function, LogResult.error) ∷ [])
                  ≡ dropped f.answers =
                omega (
                  arith,
                  dropped-append f.answers
                      ((nulls env level file line function, LogResult.error) ∷ []),
                ) in
              rw none_more i.counted;
        })

  after_push-Inv :
      {scratch : Text} (o : Option Bool) (call : LogCall) (f : Front) (w : Machine)
      → Inv scratch f
      → Backend.Reach (text_setup cfg ns c) (IsRecordOf c cfg Ok) scratch w
      → Ok call
      → Leaves c cfg Ok o call f.machine.ring w.ring
      → Inv scratch (after_push cfg ns c o call (record f { machine = w }))
  unfolding after_push note_drop drop_times
  after_push-Inv none call f w i reached ok (flight, pushed) = record {
    reached = reached;
    flight = flight;
    agreed = pushed ∙ i.agreed;
    oks = i.oks;
    fits = i.fits;
    counted = i.counted;
  }
  after_push-Inv (some true) call f w i reached ok (flight, pushed) =
      let more = accepted-append f.answers ((messages call, success) ∷ []) in
      record {
        reached = reached;
        flight = flight;
        agreed =
            pushed
            ∙ ap (λ l. l ++ record_of c cfg call ∷ []) i.agreed
            ∙ sym (map-append (record_of c cfg) (accepted f.answers) (call ∷ []))
            ∙ ap (map (record_of c cfg)) (sym more);
        oks = rw more (All-append Ok (accepted f.answers) (call ∷ []) i.oks (ok, tt));
        fits = All-append Fits f.answers _ i.fits (tt, tt);
        counted =
            let none_more : dropped (f.answers ++ (messages call, success) ∷ [])
                ≡ dropped f.answers =
              omega (arith, dropped-append f.answers ((messages call, success) ∷ [])) in
            rw none_more i.counted;
      }
  after_push-Inv (some false) call f w i reached ok (flight, pushed) =
      let more =
        accepted-append f.answers ((messages call, buffer_full) ∷ [])
        ∙ append-nil (accepted f.answers) in
      record {
        reached = reached;
        flight = flight;
        agreed = pushed ∙ i.agreed ∙ ap (map (record_of c cfg)) (sym more);
        oks = rw more i.oks;
        fits = All-append Fits f.answers _ i.fits (tt, tt);
        counted = λ on.
            let one_more : dropped (f.answers ++ (messages call, buffer_full) ∷ [])
                ≡ suc (dropped f.answers) =
              omega (arith, dropped-append f.answers ((messages call, buffer_full) ∷ [])) in
            let (count, lines) = i.counted on in
            rw (on, one_more)
              (
                ap (λ n. (n + 1) % 2 ^ 64) count,
                ap₂
                    (λ n e.
                      (note_drop (record { ring = init; dropped_count = n; stderr = e })).stderr)
                    count lines,
              );
      }

  call_step-Inv :
      {scratch : Text} (next : LogCall) (m : ℕ) (f : Front)
      → Ok next
      → f.machine.ring.seen_read ≤ m
      → m ≤ f.machine.ring.read_index.stores
      → Inv scratch f
      → Inv scratch (call_step cfg ns c next m f)
  unfolding call_step
  call_step-Inv next m f ok lo hi i =
      let call = call_of f.current next in
      let (good, leaves) = produce-Leaves c cfg Ok next m f.current f.machine.ring ok i.flight in
      after_push-Inv
        (push_returns f.machine.ring.producer
          (produce c (record_of c cfg call) m f.machine.ring).producer)
        call f _ i
        (Backend.later i.reached (
          Backend.produces (record_of c cfg call) m
            (record { call = call; kind = good; same = refl }) lo hi))
        good leaves

  pub Step-Inv :
      {scratch : Text} {f g : Front} → Step cfg ns c Ok f g → Inv scratch f → Inv scratch g
  Step-Inv {f = f} (Step.calls next m ok lo hi) i = call_step-Inv next m f ok lo hi i
  Step-Inv {f = f} (Step.null_calls env level file line function idle) i =
      null_step-Inv env level file line function f i
  Step-Inv {f = f} (Step.backs st) i = backs-Inv f st i

  pub Reach-Inv : {scratch : Text} {f : Front} → Reach cfg ns c Ok scratch f → Inv scratch f
  Reach-Inv {scratch} Reach.begin = opened-Inv scratch
  Reach-Inv (Reach.later r st) = Step-Inv st (Reach-Inv r)
