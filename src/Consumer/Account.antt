-- ===== src/Consumer/Account.antt =====
-- How a run goes on as time passes: no record comes in but by a push, and the schedule gets
-- shorter.
use low_latency_logger.Prelude.{
  ◌≤◌, true, not, ◌||◌, List, [], ◌∷◌, ◌++◌, ◌≡◌, refl, sym, ap, ◌∙◌, length, All, All-append,
  append_assoc, arith, Bool-cases, inl, inr, leb, ◌-◌,
}
use mathlib.Core.List.{Sublist}
use mathlib.Core.List.Sublist
use low_latency_logger.Prelude.Text.{Text}
use low_latency_logger.Record.{LogRecord}
use low_latency_logger.RingBuffer.{try_push}
use low_latency_logger.RingBuffer.Push.{try_push-room, try_push-full}
use low_latency_logger.Consumer.{
  Event, pushes, stops, World, Setup, happen, happen_all, tick, tick_by,
}
use low_latency_logger.Consumer.Trace.{
  has_stop, stop_ahead, will_stop, pushed_by, pushed_in, offers, EventOk, IsSetup, Inv,
}

sublist-append_middle :
    {A : Type 0} (xs : List A) (y : A) (zs : List A) → Sublist (xs ++ zs) (xs ++ y ∷ zs)
sublist-append_middle [] y zs = Sublist.cons y (Sublist.refl zs)
sublist-append_middle (x ∷ xs) y zs = Sublist.cons-cons x (sublist-append_middle xs y zs)

-- A push accepts its record or passes over it; no record comes in otherwise.
happen_all-drops :
    (S : Setup) (es : List Event) (w : World) (rest : List LogRecord)
    → Sublist ((happen_all S es w).accepted ++ rest) (w.accepted ++ (pushed_by es ++ rest))
unfolding happen_all happen
happen_all-drops S [] w rest = Sublist.refl (w.accepted ++ rest)
happen_all-drops S (stops ∷ es) w rest = happen_all-drops S es (happen S stops w) rest
happen_all-drops S (pushes r ∷ es) w rest =
    let next = happen_all-drops S es (happen S (pushes r) w) rest in
    Sublist.trans next (elim (Bool-cases (try_push S.capacity r w.ring).0) [
      | inl done ↦ rw (done, append_assoc) (Sublist.refl _)
      | inr refused ↦ rw refused (sublist-append_middle w.accepted r (pushed_by es ++ rest))
    ])

module _ {S : Setup} {Ok : LogRecord → Type 0} {line : LogRecord → Text}
    (setup : IsSetup S Ok line) where
  -- From `w` the run goes on to `w'`.
  pub record Goes (w w' : World) : Type 0 where
    pub shorter : length w'.schedule ≤ length w.schedule
    pub stopping : will_stop w ≡ true → will_stop w' ≡ true
    pub drops : Sublist (offers w') (offers w)
    pub keeps : Inv S Ok line w → Inv S Ok line w'

  pub Goes-refl : (w : World) → Goes w w
  Goes-refl w = record {
    shorter = omega arith;
    stopping = λ h. h;
    drops = Sublist.refl (offers w);
    keeps = λ i. i;
  }

  pub Goes-trans : {u v w : World} → Goes u v → Goes v w → Goes u w
  Goes-trans g h = record {
    shorter = omega (arith, g.shorter, h.shorter);
    stopping = λ e. h.stopping (g.stopping e);
    drops = Sublist.trans h.drops g.drops;
    keeps = λ i. h.keeps (g.keeps i);
  }

  push-Inv :
      (r : LogRecord) (w : World) → Ok r → Inv S Ok line w → Inv S Ok line (happen S (pushes r) w)
  unfolding happen
  push-Inv r w ok i = elim (Bool-cases (leb (S.capacity - 1) (length i.waiting))) [
    | inl full ↦ rw (try_push-full setup.capacity_ok i.holds r (ground (arith, i.holds.room))) i
    | inr free ↦
        let (done, holds) = try_push-room setup.capacity_ok i.holds r (ground arith) in
        rw done (record {
          waiting = i.waiting ++ r ∷ [];
          holds = holds;
          conserved =
              sym (append_assoc w.emitted i.waiting (r ∷ [])) ∙ ap (λ l. l ++ r ∷ []) i.conserved;
          lines = i.lines;
          sized = i.sized;
          accepted_ok = All-append Ok w.accepted (r ∷ []) i.accepted_ok (ok, tt);
          coming_ok = i.coming_ok;
        })
  ]

  happen-Inv :
      (e : Event) (w : World) → EventOk Ok e → Inv S Ok line w → Inv S Ok line (happen S e w)
  happen-Inv (pushes r) w ok i = push-Inv r w ok i
  happen-Inv stops w ok i =
      unfold happen in
      record {
        waiting = i.waiting;
        holds = i.holds;
        conserved = i.conserved;
        lines = i.lines;
        sized = i.sized;
        accepted_ok = i.accepted_ok;
        coming_ok = i.coming_ok;
      }

  happen_all-Inv :
      (es : List Event) (w : World)
      → All (EventOk Ok) es
      → Inv S Ok line w
      → Inv S Ok line (happen_all S es w)
  unfolding happen_all
  happen_all-Inv [] w ok i = i
  happen_all-Inv (e ∷ es) w ok i = happen_all-Inv es (happen S e w) ok.1 (happen-Inv e w ok.0 i)

  pub schedule-happen_all :
      (es : List Event) (w : World) → (happen_all S es w).schedule ≡ w.schedule
  unfolding happen_all happen
  schedule-happen_all [] w = refl
  schedule-happen_all (pushes r ∷ es) w = schedule-happen_all es (happen S (pushes r) w)
  schedule-happen_all (stops ∷ es) w = schedule-happen_all es (happen S stops w)

  stop-happen_all :
      (es : List Event) (w : World)
      → (not w.is_running || (has_stop es || stop_ahead w.schedule)) ≡ true
      → will_stop (happen_all S es w) ≡ true
  unfolding happen_all happen
  stop-happen_all [] w h = h
  stop-happen_all (pushes r ∷ es) w h = stop-happen_all es (happen S (pushes r) w) h
  stop-happen_all (stops ∷ es) w h = stop-happen_all es (happen S stops w) refl

  tick_by-Goes :
      (batches : List (List Event)) (w : World)
      → w.schedule ≡ batches
      → Goes w (tick_by S batches w)
  unfolding tick_by
  tick_by-Goes [] w e = Goes-refl w
  tick_by-Goes (batch ∷ later) w e = record {
    shorter =
        let now = schedule-happen_all batch (record w { schedule = later }) in
        rw (now, e) (omega arith);
    drops =
        let now = schedule-happen_all batch (record w { schedule = later }) in
        rw (now, e) (happen_all-drops S batch (record w { schedule = later }) (pushed_in later));
    stopping = λ h. stop-happen_all batch (record w { schedule = later }) (rw e at h);
    keeps = λ i.
        let ok = rw e at i.coming_ok in
        happen_all-Inv batch (record w { schedule = later }) ok.0
          (record {
            waiting = i.waiting;
            holds = i.holds;
            conserved = i.conserved;
            lines = i.lines;
            sized = i.sized;
            accepted_ok = i.accepted_ok;
            coming_ok = ok.1;
          });
  }

  pub tick-Goes : (w : World) → Goes w (tick S w)
  unfolding tick
  tick-Goes w = tick_by-Goes w.schedule w refl
