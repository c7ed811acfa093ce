-- ===== src/Runtime/Invariant.antt =====
-- include/consumer.h with include/logger.h: what every interleaving keeps true of the owner, of the
-- thread it has started and of the handle.
use low_latency_logger.Prelude.{
  ℕ, false, ◌≡◌, refl, ap, ◌∙◌, subst, length, ◌==◌, arith, Bool-cases, inl, inr,
}
use low_latency_logger.Prelude.Text.{Text}
use low_latency_logger.Config.{Config}
use low_latency_logger.Pipeline.{k_scratch_size, text_setup}
use low_latency_logger.Lifecycle.{exchange}
use low_latency_logger.Backend.{Pc, Machine, loop_at, loop_step, pop_step, started_again}
use low_latency_logger.Backend
use low_latency_logger.System.{LogCall}
use low_latency_logger.Frontend.{Front, call_step, null_step}
use low_latency_logger.Frontend
use low_latency_logger.Frontend.Serving.{call_step-Grows, null_step-Grows}
use low_latency_logger.Runtime.{
  Errand, calling, ending_logger, ending_consumer, Place, Runtime, after_stop, start_thread,
  stop_exchange, Step, Reach,
}
use low_latency_logger.Runtime.Handle.{
  Stands, Tied, start_exchange-Stands, stop_exchange-Stands, stop_join-Stands, start_thread-Stands,
  loop_step-Tied,
}

module _ (cfg : Config) (ns : ℕ → ℕ) (c : ℕ) (Ok : LogCall → Type 0) (scratch : Text) where
  -- The runs of the front that the owner's steps are.
  start_thread-Reach :
      (next : Text) (r : Runtime)
      → length next ≡ k_scratch_size cfg
      → r.life.joinable ≡ false
      → Tied r.front.machine r.life
      → Frontend.Reach cfg ns c Ok scratch r.front
      → Frontend.Reach cfg ns c Ok scratch (start_thread next r).front
  unfolding start_thread
  start_thread-Reach next r sized free t reach = elim (Bool-cases (r.life.threads == 0)) [
    | inl first ↦ rw first reach
    | inr again ↦ rw again (
        Frontend.later reach
          (Frontend.backs (Backend.starts next sized (t.ended free (ground (arith, again))))))
  ]

  after_stop-front : (errand : Errand) (r : Runtime) → (after_stop errand r).front ≡ r.front
  unfolding after_stop
  after_stop-front calling r = refl
  after_stop-front ending_logger r = refl
  after_stop-front ending_consumer r = refl

  stop_exchange-Reach :
      (errand : Errand) (r : Runtime)
      → Frontend.Reach cfg ns c Ok scratch r.front
      → Frontend.Reach cfg ns c Ok scratch (stop_exchange errand r).front
  unfolding stop_exchange exchange
  stop_exchange-Reach errand r reach = elim (Bool-cases r.life.is_running) [
    | inl on ↦ rw on (Frontend.later reach (Frontend.backs Backend.stops))
    | inr off ↦ rw (off, after_stop-front) reach
  ]

  -- The calls and the loops of a runtime are a run of the front; and the flag, the handle and the
  -- machine agree.
  pub record Inv (r : Runtime) : Type 0 where
    pub reached : Frontend.Reach cfg ns c Ok scratch r.front
    pub stands : Stands r.place r.life
    pub tied : Tied r.front.machine r.life

  pub standing : {p : Place} (r : Runtime) → Inv r → r.place ≡ p → Stands p r.life
  standing r i here = subst (λ p. Stands p r.life) here i.stands

  -- A step of the producer.
  front-Inv :
      (f : Front) (r : Runtime)
      → f.machine.pc ≡ r.front.machine.pc
      → f.machine.stopped ≡ r.front.machine.stopped
      → Frontend.Reach cfg ns c Ok scratch f
      → Inv r
      → Inv (record r { front = f })
  front-Inv f r pc stopped reach i = record {
    reached = reach;
    stands = i.stands;
    tied = record {
      alive = i.tied.alive;
      owned = i.tied.owned;
      ended = λ e h. pc ∙ i.tied.ended e h;
      told = λ e h. stopped ∙ i.tied.told e h;
      unused = λ e. stopped ∙ i.tied.unused e;
      working = λ held e. stopped ∙ i.tied.working held e;
    };
  }

  Step-Inv : {r s : Runtime} → Step cfg ns c Ok r s → Inv r → Inv s
  Step-Inv {r} (Step.calls next m here ok lo hi) i =
      let (same, grown) = call_step-Grows cfg ns c Ok next m r.front in
      front-Inv (call_step cfg ns c next m r.front) r (ap (λ w. w.pc) same)
        (ap (λ w. w.stopped) same) (Frontend.later i.reached (Frontend.calls next m ok lo hi)) i
  Step-Inv {r} (Step.null_calls env level file line function here idle) i =
      let (same, grown) = null_step-Grows cfg ns c Ok env level file line function r.front in
      front-Inv (null_step cfg ns c env level file line function r.front) r (ap (λ w. w.pc) same)
        (ap (λ w. w.stopped) same)
        (Frontend.later i.reached (Frontend.null_calls env level file line function idle)) i
  Step-Inv {r} (Step.loops m on started lo hi off) i = record {
    reached =
        Frontend.later i.reached
          (Frontend.backs (Backend.loops m on lo hi (λ e. i.tied.told (off e) started)));
    stands = i.stands;
    tied = loop_step-Tied (text_setup cfg ns c) m on r.front.machine r.life i.tied;
  }
  Step-Inv {r} (Step.starts here) i =
      let (stands, tied, same) = start_exchange-Stands r (standing r i here) i.tied in
      record { reached = rw same i.reached; stands = stands; tied = tied }
  Step-Inv {r} (Step.assigns next here sized) i =
      let standing : Stands Place.assigning r.life = standing r i here in
      let (stands, tied) = start_thread-Stands next r standing i.tied in
      record {
        reached = start_thread-Reach next r sized standing.1 i.tied i.reached;
        stands = stands;
        tied = tied;
      }
  Step-Inv {r} (Step.stops here) i =
      let (stands, tied) = stop_exchange-Stands calling r (standing r i here) i.tied in
      record { reached = stop_exchange-Reach calling r i.reached; stands = stands; tied = tied }
  Step-Inv {r} (Step.destroys here) i =
      let (stands, tied) = stop_exchange-Stands ending_logger r (standing r i here) i.tied in
      record {
        reached = stop_exchange-Reach ending_logger r i.reached;
        stands = stands;
        tied = tied;
      }
  Step-Inv {r} (Step.destroys_consumer here) i =
      let (stands, tied) = stop_exchange-Stands ending_consumer r (standing r i here) i.tied in
      record {
        reached = stop_exchange-Reach ending_consumer r i.reached;
        stands = stands;
        tied = tied;
      }
  Step-Inv {r} (Step.joins errand here ended) i =
      let (stands, tied, same) = stop_join-Stands errand r (standing r i here) i.tied ended in
      record { reached = rw same i.reached; stands = stands; tied = tied }

  pub Reach-Inv : {r : Runtime} → Reach cfg ns c Ok scratch r → Inv r
  Reach-Inv Reach.begin = record {
    reached = Frontend.begin;
    stands = refl;
    tied = record {
      alive = refl;
      owned = λ e. cc;
      ended = λ e h. absurd (omega arith);
      told = λ e h. absurd (omega arith);
      unused = λ e. refl;
      working = λ e h. refl;
    };
  }
  Reach-Inv (Reach.later reach st) = Step-Inv st (Reach-Inv reach)
