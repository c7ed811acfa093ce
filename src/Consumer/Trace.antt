-- ===== src/Consumer/Trace.antt =====
-- What the calls of a run wrote, and what is asked of the formatter.
use low_latency_logger.Prelude.{
  Bool, true, false, not, ◌||◌, List, [], ◌∷◌, ◌++◌, ◌≡◌, refl, ap, length, take, map, All,
}
use low_latency_logger.Prelude.Text.{Text}
use low_latency_logger.Record.{LogRecord}
use low_latency_logger.RingBuffer.Queue.{Holds}
use low_latency_logger.RingBuffer.Capacity.{IsCapacity}
use low_latency_logger.Consumer.{Event, pushes, stops, SinkCall, write, flush, World, Setup}

-- The texts written, in order.
abbrev pub written : List SinkCall → List Text
written [] = []
written (write t ∷ calls) = t ∷ written calls
written (flush ∷ calls) = written calls

pub written-append : (xs ys : List SinkCall) → written (xs ++ ys) ≡ written xs ++ written ys
written-append [] ys = refl
written-append (write t ∷ xs) ys = ap (λ l. t ∷ l) (written-append xs ys)
written-append (flush ∷ xs) ys = written-append xs ys

-- Whether the schedule still holds a `Stop`.
abbrev pub has_stop : List Event → Bool
has_stop [] = false
has_stop (pushes r ∷ es) = has_stop es
has_stop (stops ∷ es) = true

abbrev pub stop_ahead : List (List Event) → Bool
stop_ahead [] = false
stop_ahead (batch ∷ later) = has_stop batch || stop_ahead later

abbrev pub will_stop : World → Bool
will_stop w = not w.is_running || stop_ahead w.schedule

-- The records that a schedule pushes, and all that a run has accepted or may still be offered.
abbrev pub pushed_by : List Event → List LogRecord
pushed_by [] = []
pushed_by (pushes r ∷ es) = r ∷ pushed_by es
pushed_by (stops ∷ es) = pushed_by es

abbrev pub pushed_in : List (List Event) → List LogRecord
pushed_in [] = []
pushed_in (batch ∷ later) = pushed_by batch ++ pushed_in later

abbrev pub offers : World → List LogRecord
offers w = w.accepted ++ pushed_in w.schedule

abbrev pub EventOk : (LogRecord → Type 0) → Event → Type 0
EventOk Ok (pushes r) = Ok r
EventOk Ok stops = Unit

-- A setup whose capacity is one, and whose formatter turns every record that is `Ok` into `line r`,
-- without touching the scratch buffer's size.
pub record IsSetup (S : Setup) (Ok : LogRecord → Type 0) (line : LogRecord → Text) : Type 0 where
  pub capacity_ok : IsCapacity S.capacity
  pub formats :
      (r : LogRecord) (scratch : Text)
      → Ok r
      → length scratch ≡ S.scratch_size
      → let (n, out) = S.format r scratch S.scratch_size in
        (take n out ≡ line r) × (length out ≡ S.scratch_size)

-- The records emitted, followed by those that wait in the ring, are the records accepted; and what
-- was written is their lines.
pub record Inv (S : Setup) (Ok : LogRecord → Type 0) (line : LogRecord → Text) (w : World)
    : Type 0 where
  pub waiting : List LogRecord
  pub holds : Holds S.capacity w.ring waiting
  pub conserved : w.emitted ++ waiting ≡ w.accepted
  pub lines : written w.calls ≡ map line w.emitted
  pub sized : length w.scratch ≡ S.scratch_size
  pub accepted_ok : All Ok w.accepted
  pub coming_ok : All (All (EventOk Ok)) w.schedule
