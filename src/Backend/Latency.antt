-- ===== src/Backend/Latency.antt =====
-- include/consumer.h: how soon a record that has been pushed is written.
use low_latency_logger.Prelude.{
  ℕ, suc, ◌+◌, ◌-◌, ◌*◌, ◌≤◌, ◌<◌, true, false, List, [], ◌∷◌, ◌++◌, ◌≡◌, refl, sym, ap, ◌∙◌,
  length, length-append, append-nil, append_assoc, take, take-append_left, take_all, dec_lt, arith,
}
use low_latency_logger.Prelude.Text.{Text}
use low_latency_logger.Record.{LogRecord}
use low_latency_logger.Spsc.{Producer, State, produce, produce_at}
use low_latency_logger.Spsc.Safety
use low_latency_logger.Consumer.{Setup}
use low_latency_logger.Consumer.Trace.{IsSetup}
use low_latency_logger.Backend.{Machine, loop_step, produce_step, Step, Reach}
use low_latency_logger.Backend.Invariant.{Inv, in_hand, leaving}
use low_latency_logger.Backend.Account.{Inv-IsAccounted, Reach-Inv, Step-Inv}
use low_latency_logger.Backend.Wait.{wait_of-le}
use low_latency_logger.Backend.Progress.{ahead, loop_step-ahead, loop_step-stays, loop_step-keeps}

-- An interleaving in which the loop takes the given number of steps, and each of its loads returns
-- the newest value: `is_running_` is set, and the write index is that of the last push.
pub data Attends (S : Setup) (Ok : LogRecord → Type 0) (w : Machine) : ℕ → Machine → Type 0 where
  rests : Attends S Ok w 0 w
  produces :
      {n : ℕ} {v : Machine} (x : LogRecord) (m : ℕ)
      → Attends S Ok w n v
      → Ok x
      → v.ring.seen_read ≤ m
      → m ≤ v.ring.read_index.stores
      → Attends S Ok w n (produce_step S x m v)
  loops :
      {n : ℕ} {v : Machine}
      → Attends S Ok w n v
      → Attends S Ok w (suc n) (loop_step S v.ring.write_index.stores true v)

-- What a step of the producer leaves alone, and what it adds.
record Pushes {A : Type 0} (s s' : State A) : Type 0 where
  consumer : s'.consumer ≡ s.consumer
  read_index : s'.read_index ≡ s.read_index
  seen_write : s'.seen_write ≡ s.seen_write
  more : List A
  pushed : s'.pushed ≡ s.pushed ++ more

produce-Pushes : {A : Type 0} (c : ℕ) (x : A) (m : ℕ) (s : State A) → Pushes s (produce c x m s)
unfolding produce produce_at
produce-Pushes {A} c x m s = go s.producer
  where
    still :
        {s' : State A}
        → s'.consumer ≡ s.consumer
        → s'.read_index ≡ s.read_index
        → s'.seen_write ≡ s.seen_write
        → s'.pushed ≡ s.pushed
        → Pushes s s'
    still h k l p = record {
      consumer = h;
      read_index = k;
      seen_write = l;
      more = [];
      pushed = p ∙ sym (append-nil s.pushed);
    }

    go : (p : Producer A) → Pushes s (produce_at c x m s p)
    go Producer.idle = still refl refl refl refl
    go (Producer.have_write y w) = still refl refl refl refl
    go (Producer.constructing y w) = still refl refl refl refl
    go (Producer.publishing y w) = record {
      consumer = refl;
      read_index = refl;
      seen_write = refl;
      more = y ∷ [];
      pushed = refl;
    }

module _ {S : Setup} {Ok : LogRecord → Type 0} {line : LogRecord → Text}
    (setup : IsSetup S Ok line) where
  pub record IsAttending (w : Machine) (n : ℕ) (v : Machine) : Type 0 where
    pub inv : Inv S Ok line v
    stays : leaving v.pc ≡ false
    more : List LogRecord
    pushed : v.ring.pushed ≡ w.ring.pushed ++ more
    near :
        length v.emitted < length w.ring.pushed
        → ahead (length w.ring.pushed) v + n ≤ ahead (length w.ring.pushed) w

  pub Attends-IsAttending :
      {w : Machine} {n : ℕ} {v : Machine}
      → Inv S Ok line w
      → leaving w.pc ≡ false
      → Attends S Ok w n v
      → IsAttending w n v
  Attends-IsAttending {w} i staying Attends.rests = record {
    inv = i;
    stays = staying;
    more = [];
    pushed = sym (append-nil w.ring.pushed);
    near = λ h. omega arith;
  }
  Attends-IsAttending {w} i staying (Attends.produces {v = v} x m run ok lo hi) =
      let h : IsAttending w _ v = Attends-IsAttending i staying run in
      let p = produce-Pushes S.capacity x m v.ring in
      record {
        inv = Step-Inv setup (Step.produces x m ok lo hi) h.inv;
        stays = h.stays;
        more = h.more ++ p.more;
        pushed =
            p.pushed ∙ ap (λ l. l ++ p.more) h.pushed ∙ append_assoc w.ring.pushed h.more p.more;
        near = rw (p.consumer, p.read_index, p.seen_write) h.near;
      }
  Attends-IsAttending {w} i staying (Attends.loops {n = n} {v = v} run) =
      let h : IsAttending w n v = Attends-IsAttending i staying run in
      let ring = Safety.Reach-Inv setup.capacity_ok h.inv.reached in
      let (stays, grows) = loop_step-stays S v.ring.write_index.stores v h.stays in
      let there : length w.ring.pushed ≤ v.ring.write_index.stores =
        omega (arith, ring.pushes, ap length h.pushed, length-append w.ring.pushed h.more) in
      record {
        inv =
            Step-Inv setup
              (Step.loops v.ring.write_index.stores true ring.write_seen (omega arith) (λ e. cc))
              h.inv;
        stays = stays;
        more = h.more;
        pushed = (loop_step-keeps S v.ring.write_index.stores true v).0 ∙ h.pushed;
        near = λ short.
            let before : length v.emitted < length w.ring.pushed = omega (arith, short, grows) in
            let step =
              loop_step-ahead S (length w.ring.pushed) v setup.capacity_ok ring h.inv.handed
                h.inv.resting h.stays there before in
            omega (arith, step, h.near before);
      }

  -- For a setup whose capacity passes the static assertions and whose formatter turns each `Ok`
  -- record into its line, and a scratch buffer of the setup's size: from any reachable machine
  -- whose loop is not leaving, in which some records pushed are not yet written, once the loop has
  -- taken seven steps for each of these and eleven more, with loads that return the newest values
  -- and find `is_running_` set, all records pushed up to the start have been written, in the order
  -- pushed, whatever the producer does in between.
  pub attended :
      (scratch : Text)
      → length scratch ≡ S.scratch_size
      → {w v : Machine} {n : ℕ} → Reach S Ok scratch w
      → leaving w.pc ≡ false
      → Attends S Ok w n v
      → 7 * (length w.ring.pushed - length w.emitted) + 11 ≤ n
      → take (length w.ring.pushed) v.emitted ≡ w.ring.pushed
  attended scratch sized {w} {v} {n} reach staying run enough =
      let h : IsAttending w n v = Attends-IsAttending (Reach-Inv setup sized reach) staying run in
      let a = Inv-IsAccounted setup h.inv in
      let total = length w.ring.pushed in
      let full : total ≤ length v.emitted = elim (dec_lt (length v.emitted) total) [
        | yes short ↦ absurd (omega (arith, h.near short, enough, wait_of-le w, short))
        | no all ↦ omega arith
      ] in
      sym (take-append_left total v.emitted (in_hand v.pc ++ a.waiting) full)
      ∙ ap (take total) (sym (append_assoc v.emitted (in_hand v.pc) a.waiting) ∙ a.whole ∙ h.pushed)
      ∙ take-append_left total w.ring.pushed h.more (omega arith)
      ∙ take_all total w.ring.pushed (omega arith)
