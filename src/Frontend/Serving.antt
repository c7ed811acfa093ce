-- ===== src/Frontend/Serving.antt =====
-- Runs in which the loop attends to the ring while the producer makes calls.
use low_latency_logger.Prelude.{
  ℕ, suc, ◌≤◌, ◌<◌, Option, none, some, Bool, true, false, List, [], ◌∷◌, ◌++◌, ◌≡◌, refl, sym, ap,
  ◌∙◌, length, append-nil, append_assoc, arith,
}
use low_latency_logger.Prelude.Text.{Text, ℤ}
use low_latency_logger.Config.{Config}
use low_latency_logger.Level.{Level}
use low_latency_logger.RingBuffer.Capacity.{IsCapacity}
use low_latency_logger.Spsc.Safety
use low_latency_logger.Logger.{success, buffer_full, Surroundings, log_at}
use low_latency_logger.Pipeline.{k_scratch_size, text_setup}
use low_latency_logger.Backend.{Machine, loop_step, produce_step}
use low_latency_logger.Backend
use low_latency_logger.Backend.Account
use low_latency_logger.Backend.Latency.{Attends}
use low_latency_logger.Backend.Stopping.{WindsDown}
use low_latency_logger.Backend.Rank.{loop_step-stopped}
use low_latency_logger.Consumer.{Setup}
use low_latency_logger.Record.{LogRecord}
use low_latency_logger.System.{LogCall, record_of}
use low_latency_logger.System.Entries.{IsCallable}
use low_latency_logger.System.Served.{IsRecordOf, calls-IsSetup}
use low_latency_logger.Frontend.{
  messages, nulls, Front, push_returns, call_of, logger_of, after_push, call_step, null_step, Step,
}
use low_latency_logger.Frontend.Returns.{accepted, accepted-append, produce-Leaves}
use low_latency_logger.Frontend.Invariant.{Inv, Step-Inv}

-- A run of the machine in which each load of the flag returns the given value.
abbrev pub Runs : Bool → (S : Setup) → (LogRecord → Type 0) → Machine → ℕ → Machine → Type 0
Runs true = Attends
Runs false = WindsDown

module _ (S : Setup) (Ok : LogRecord → Type 0) (w : Machine) where
  Runs-rests : (on : Bool) → Runs on S Ok w 0 w
  Runs-rests true = Attends.rests
  Runs-rests false = WindsDown.rests

  Runs-produces :
      (on : Bool) (n : ℕ) (v : Machine) (x : LogRecord) (m : ℕ)
      → Runs on S Ok w n v
      → Ok x
      → v.ring.seen_read ≤ m
      → m ≤ v.ring.read_index.stores
      → Runs on S Ok w n (produce_step S x m v)
  Runs-produces true n v x m run ok lo hi = Attends.produces x m run ok lo hi
  Runs-produces false n v x m run ok lo hi = WindsDown.produces x m run ok lo hi

  Runs-loops :
      (on : Bool) (n : ℕ) (v : Machine)
      → Runs on S Ok w n v
      → v.ring.seen_write ≤ v.ring.write_index.stores
      → Runs on S Ok w (suc n) (loop_step S v.ring.write_index.stores on v)
  Runs-loops true n v run lo = Attends.loops run
  Runs-loops false n v run lo = WindsDown.loops v.ring.write_index.stores run lo (omega arith)

module _ (cfg : Config) (ns : ℕ → ℕ) (c : ℕ) (Ok : LogCall → Type 0) where
  -- The loop takes the given number of steps, each of its loads of the ring returns the newest
  -- value, and each of the flag returns `on`.
  pub data Serves (on : Bool) (f : Front) : ℕ → Front → Type 0 where
    rests : Serves on f 0 f
    calls :
        {n : ℕ} {g : Front} (next : LogCall) (m : ℕ)
        → Serves on f n g
        → Ok next
        → g.machine.ring.seen_read ≤ m
        → m ≤ g.machine.ring.read_index.stores
        → Serves on f n (call_step cfg ns c next m g)
    null_calls :
        {n : ℕ} {g : Front} (env : Surroundings) (level : Level) (file : Option Text) (line : ℤ)
        (function : Option Text)
        → Serves on f n g
        → g.current ≡ none
        → Serves on f n (null_step cfg ns c env level file line function g)
    loops :
        {n : ℕ} {g : Front}
        → Serves on f n g
        → Serves on f (suc n) (record g {
          machine = loop_step (text_setup cfg ns c) g.machine.ring.write_index.stores on g.machine;
        })

  -- What is answered stays answered.
  abbrev pub Grows : Front → Front → Type 0
  Grows f g = (more : List LogCall) × (accepted g.answers ≡ accepted f.answers ++ more)

  pub Grows-trans : (f g h : Front) → Grows f g → Grows g h → Grows f h
  Grows-trans f g h (xs, d) (ys, e) =
      (xs ++ ys, e ∙ ap (λ l. l ++ ys) d ∙ append_assoc (accepted f.answers) xs ys)

  after_push-Grows :
      (o : Option Bool) (call : LogCall) (f : Front)
      → ((after_push cfg ns c o call f).machine ≡ f.machine)
        × Grows f (after_push cfg ns c o call f)
  unfolding after_push
  after_push-Grows none call f = (refl, ([], sym (append-nil (accepted f.answers))))
  after_push-Grows (some true) call f =
      (refl, (call ∷ [], accepted-append f.answers ((messages call, success) ∷ [])))
  after_push-Grows (some false) call f =
      (refl, ([], accepted-append f.answers ((messages call, buffer_full) ∷ [])))

  pub record IsServing (on : Bool) (scratch : Text) (f : Front) (n : ℕ) (g : Front) : Type 0 where
    pub inv : Inv cfg ns c Ok scratch g
    told : g.machine.stopped ≡ f.machine.stopped
    pub run : Runs on (text_setup cfg ns c) (IsRecordOf c cfg Ok) f.machine n g.machine
    pub grows : Grows f g

  pub call_step-Grows :
      (next : LogCall) (m : ℕ) (g : Front)
      → ((call_step cfg ns c next m g).machine
          ≡ produce_step
              (text_setup cfg ns c)
              (record_of c cfg (call_of g.current next))
              m
              g.machine)
        × Grows g (call_step cfg ns c next m g)
  unfolding call_step
  call_step-Grows next m g =
      let machine =
        produce_step (text_setup cfg ns c) (record_of c cfg (call_of g.current next)) m g.machine in
      after_push-Grows (push_returns g.machine.ring.producer machine.ring.producer)
        (call_of g.current next) (record g { machine = machine })

  pub null_step-Grows :
      (env : Surroundings) (level : Level) (file : Option Text) (line : ℤ) (function : Option Text)
      (g : Front)
      → ((null_step cfg ns c env level file line function g).machine ≡ g.machine)
        × Grows g (null_step cfg ns c env level file line function g)
  unfolding null_step
  null_step-Grows env level file line function g =
      let answer = (log_at c cfg env level none file line function (logger_of g)).0 in
      (refl, ([], accepted-append g.answers ((nulls env level file line function, answer) ∷ [])))

module _ (cfg : Config) (ns : ℕ → ℕ) (c : ℕ) (positive : 0 < cfg.max_message_size)
    (v : IsCapacity c) {Ok : LogCall → Type 0}
    (callable : (call : LogCall) → Ok call → IsCallable cfg call) where
  pub Serves-IsServing :
      (on : Bool) {scratch : Text} {f : Front} {n : ℕ} {g : Front}
      → (on ≡ false → f.machine.stopped ≡ true)
      → length scratch ≡ k_scratch_size cfg
      → Inv cfg ns c Ok scratch f
      → Serves cfg ns c Ok on f n g
      → IsServing cfg ns c Ok on scratch f n g
  Serves-IsServing on {f = f} off sized i Serves.rests = record {
    inv = i;
    told = refl;
    run = Runs-rests _ _ f.machine on;
    grows = ([], sym (append-nil (accepted f.answers)));
  }
  Serves-IsServing on {f = f} off sized i (Serves.calls {g = g} next m run ok lo hi) =
      let h : IsServing cfg ns c Ok on _ f _ g = Serves-IsServing on off sized i run in
      let (same, grown) = call_step-Grows cfg ns c Ok next m g in
      let (good, _) = produce-Leaves c cfg Ok next m g.current g.machine.ring ok h.inv.flight in
      record {
        inv = Step-Inv cfg ns c Ok (Step.calls next m ok lo hi) h.inv;
        told = ap (λ w. w.stopped) same ∙ h.told;
        run = rw same (
            Runs-produces _ _ f.machine on _ g.machine (record_of c cfg (call_of g.current next)) m
              h.run (record { call = call_of g.current next; kind = good; same = refl }) lo hi);
        grows = Grows-trans cfg ns c Ok f g (call_step cfg ns c next m g) h.grows grown;
      }
  Serves-IsServing on {f = f} off sized i
        (Serves.null_calls {g = g} env level file line function run idle) =
      let h : IsServing cfg ns c Ok on _ f _ g = Serves-IsServing on off sized i run in
      let (same, grown) = null_step-Grows cfg ns c Ok env level file line function g in
      record {
        inv = Step-Inv cfg ns c Ok (Step.null_calls env level file line function idle) h.inv;
        told = ap (λ w. w.stopped) same ∙ h.told;
        run = rw same h.run;
        grows =
            Grows-trans cfg ns c Ok f g (null_step cfg ns c env level file line function g) h.grows
              grown;
      }
  Serves-IsServing on {f = f} off sized i (Serves.loops {g = g} run) =
      let h : IsServing cfg ns c Ok on _ f _ g = Serves-IsServing on off sized i run in
      let setup = calls-IsSetup cfg ns c positive v callable in
      let ring = Safety.Reach-Inv v (Account.Reach-Inv setup sized h.inv.reached).reached in
      record {
        inv =
            Step-Inv cfg ns c Ok
              (Step.backs (
                Backend.loops g.machine.ring.write_index.stores on ring.write_seen (omega arith)
                  (λ e. h.told ∙ off e)))
              h.inv;
        told =
            loop_step-stopped (text_setup cfg ns c) g.machine.ring.write_index.stores on g.machine
            ∙ h.told;
        run = Runs-loops _ _ f.machine on _ g.machine h.run ring.write_seen;
        grows = h.grows;
      }
