-- ===== src/System/Served.antt =====
-- The calls behind the records that the consumer's thread has written.
use low_latency_logger.Prelude.{
  ℕ, ◌+◌, ◌-◌, ◌*◌, ◌≤◌, ◌<◌, false, List, [], ◌∷◌, ◌++◌, ◌≡◌, refl, sym, ap, ap₂, ◌∙◌, length,
  drop, take-append-drop, map, map-append, All, All, All-append, All-append_left, All-append_right,
}
use low_latency_logger.Prelude.Text.{Text}
use low_latency_logger.Config.{Config}
use low_latency_logger.Record.{LogRecord}
use low_latency_logger.RingBuffer.Capacity.{IsCapacity}
use low_latency_logger.Consumer.Trace.{IsSetup, written}
use low_latency_logger.Pipeline.{k_scratch_size, text_setup}
use low_latency_logger.Pipeline.Delivery.{cut_line, text_setup-IsSetup}
use low_latency_logger.Backend.{Machine, Reach}
use low_latency_logger.Backend.Invariant.{in_hand, leaving}
use low_latency_logger.Backend.Account.{Inv-IsAccounted, Reach-Inv}
use low_latency_logger.Backend.Latency.{Attends, Attends-IsAttending, IsAttending, attended}
use low_latency_logger.System.{LogCall, record_of}
use low_latency_logger.System.Entries.{IsCallable, record_of-IsPrintable}

-- The record that a call of the producer has built, where the call is of a kind.
pub record IsRecordOf (c : ℕ) (cfg : Config) (Kind : LogCall → Type 0) (r : LogRecord)
    : Type 0 where
  pub call : LogCall
  pub kind : Kind call
  pub same : r ≡ record_of c cfg call

-- The calls behind a list of records.
pub record Behind (c : ℕ) (cfg : Config) (Kind : LogCall → Type 0) (rs : List LogRecord)
    : Type 0 where
  pub calls : List LogCall
  pub kinds : All Kind calls
  pub records : map (record_of c cfg) calls ≡ rs

pub behind :
    {c : ℕ} {cfg : Config} {Kind : LogCall → Type 0} (rs : List LogRecord)
    → All (IsRecordOf c cfg Kind) rs
    → Behind c cfg Kind rs
behind [] h = record { calls = []; kinds = tt; records = refl }
behind (r ∷ rs) (k, h) =
    let rest = behind rs h in
    record {
      calls = k.call ∷ rest.calls;
      kinds = (k.kind, rest.kinds);
      records = ap₂ (λ x xs. x ∷ xs) (sym k.same) rest.records;
    }

module _ (cfg : Config) (ns : ℕ → ℕ) (c : ℕ) (positive : 0 < cfg.max_message_size)
    (v : IsCapacity c) {Kind : LogCall → Type 0}
    (callable : (call : LogCall) → Kind call → IsCallable cfg call) where
  pub calls-IsSetup : IsSetup (text_setup cfg ns c) (IsRecordOf c cfg Kind) (cut_line cfg ns)
  calls-IsSetup =
      let s = text_setup-IsSetup cfg ns v in
      record {
        capacity_ok = v;
        formats = λ r scratch k sized.
            s.formats r scratch
              (rw k.same (record_of-IsPrintable c cfg positive k.call (callable k.call k.kind)))
              sized;
      }

  -- What a run that attends to the ring has written: the records of all calls pushed up to its
  -- start, and then some others.
  pub record Served (w u : Machine) : Type 0 where
    pub before : List LogCall
    pub since : List LogCall
    pub pushed : map (record_of c cfg) before ≡ w.ring.pushed
    pub emitted : map (record_of c cfg) (before ++ since) ≡ u.emitted
    pub kinds : All Kind (before ++ since)
    pub lines : written u.calls ≡ map (cut_line cfg ns) u.emitted

  pub Attends-Served :
      (scratch : Text)
      → length scratch ≡ k_scratch_size cfg
      → {w u : Machine} {n : ℕ} → Reach (text_setup cfg ns c) (IsRecordOf c cfg Kind) scratch w
      → leaving w.pc ≡ false
      → Attends (text_setup cfg ns c) (IsRecordOf c cfg Kind) w n u
      → 7 * (length w.ring.pushed - length w.emitted) + 11 ≤ n
      → Served w u
  Attends-Served scratch sized {w} {u} {n} reach staying run enough =
      let Ok = IsRecordOf c cfg Kind in
      let total = length w.ring.pushed in
      let h : IsAttending calls-IsSetup w n u =
        Attends-IsAttending calls-IsSetup (Reach-Inv calls-IsSetup sized reach) staying run in
      let a = Inv-IsAccounted calls-IsSetup h.inv in
      let reached = attended calls-IsSetup scratch sized reach staying run enough in
      let split : w.ring.pushed ++ drop total u.emitted ≡ u.emitted =
        ap (λ l. l ++ drop total u.emitted) (sym reached) ∙ take-append-drop total u.emitted in
      let ok : All Ok (w.ring.pushed ++ drop total u.emitted) = rw split (
        All-append_left Ok u.emitted (in_hand u.pc) (
          All-append_left Ok (u.emitted ++ in_hand u.pc) a.waiting (rw a.whole h.inv.pushed_ok))) in
      let early =
        behind w.ring.pushed (All-append_left Ok w.ring.pushed (drop total u.emitted) ok) in
      let late =
        behind (drop total u.emitted)
          (All-append_right Ok w.ring.pushed (drop total u.emitted) ok) in
      record {
        before = early.calls;
        since = late.calls;
        pushed = early.records;
        emitted =
            map-append (record_of c cfg) early.calls late.calls
            ∙ ap₂ (λ x y. x ++ y) early.records late.records
            ∙ split;
        kinds = All-append Kind early.calls late.calls early.kinds late.kinds;
        lines = a.lines;
      }
