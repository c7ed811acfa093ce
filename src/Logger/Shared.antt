-- ===== src/Logger/Shared.antt =====
-- include/logger.h: the counter of `PushRecord` is a static local of a member of a class template,
-- so all `Logger`s of one capacity share it.
use low_latency_logger.Prelude.{
  ℕ, zero, suc, ◌+◌, ◌-◌, ◌/◌, ◌^◌, ◌<◌, min, Bool, true, false, List, [], ◌∷◌, ◌≡◌, refl, ap, ◌∙◌,
  length,
}
use low_latency_logger.Prelude.Text.{Text}
use low_latency_logger.Config.{Config}
use low_latency_logger.Record.{LogRecord}
use low_latency_logger.RingBuffer.{SpscRingBuffer}
use low_latency_logger.RingBuffer.Capacity.{IsCapacity}
use low_latency_logger.RingBuffer.Queue.{Holds}
use low_latency_logger.Logger.{Logger, note_drop, push_record}
use low_latency_logger.Logger.Drops.{push_full, drop_times, drop_times_lem}

-- Two loggers of one capacity: a ring each, and the counter and stderr of the process.
pub record Loggers : Type 0 where
  pub first : SpscRingBuffer LogRecord
  pub second : SpscRingBuffer LogRecord
  pub dropped_count : ℕ
  pub stderr : List Text

-- `PushRecord` of the first logger, or of the second one.
abbrev pub push_record_to : ℕ → Config → Bool → LogRecord → Loggers → Loggers
push_record_to c cfg true r w =
    let l =
      (push_record c cfg r
        (record { ring = w.first; dropped_count = w.dropped_count; stderr = w.stderr })).1 in
    record w { first = l.ring; dropped_count = l.dropped_count; stderr = l.stderr }
push_record_to c cfg false r w =
    let l =
      (push_record c cfg r
        (record { ring = w.second; dropped_count = w.dropped_count; stderr = w.stderr })).1 in
    record w { second = l.ring; dropped_count = l.dropped_count; stderr = l.stderr }

-- Pushes in the order in which they reach the counter; the increment is one atomic operation.
unfoldable pub push_records : ℕ → Config → List (Bool × LogRecord) → Loggers → Loggers
push_records c cfg [] w = w
push_records c cfg (p ∷ ps) w = push_records c cfg ps (push_record_to c cfg p.0 p.1 w)

-- A drop, whichever logger it is of.
drop_once : Loggers → Loggers
drop_once w =
    let l =
      note_drop (record { ring = w.first; dropped_count = w.dropped_count; stderr = w.stderr }) in
    record w { dropped_count = l.dropped_count; stderr = l.stderr }

drops : ℕ → Loggers → Loggers
drops n w =
    let l =
      drop_times n
        (record { ring = w.first; dropped_count = w.dropped_count; stderr = w.stderr }) in
    record w { dropped_count = l.dropped_count; stderr = l.stderr }

drop_times-shift : (n : ℕ) (l : Logger) → drop_times n (note_drop l) ≡ note_drop (drop_times n l)
unfolding drop_times
drop_times-shift zero l = refl
drop_times-shift (suc n) l = ap note_drop (drop_times-shift n l)

module _ {c : ℕ} (v : IsCapacity c) (cfg : Config) (on : cfg.enable_stderr_diagnostics ≡ true) where
  push_record_to-full :
      (b : Bool) (r : LogRecord) (w : Loggers) (p q : List LogRecord)
      → Holds c w.first p
      → Holds c w.second q
      → length p ≡ c - 1
      → length q ≡ c - 1
      → push_record_to c cfg b r w ≡ drop_once w
  unfolding drop_once note_drop
  push_record_to-full true r w p q hp hq full_p full_q =
      rw
        (push_full v cfg on r
          (record { ring = w.first; dropped_count = w.dropped_count; stderr = w.stderr }) p hp
          full_p)
        refl
  push_record_to-full false r w p q hp hq full_p full_q =
      rw
        (push_full v cfg on r
          (record { ring = w.second; dropped_count = w.dropped_count; stderr = w.stderr }) q hq
          full_q)
        refl

  drops-push_records :
      (ps : List (Bool × LogRecord)) (w : Loggers) (p q : List LogRecord)
      → Holds c w.first p
      → Holds c w.second q
      → length p ≡ c - 1
      → length q ≡ c - 1
      → push_records c cfg ps w ≡ drops (length ps) w
  unfolding push_records drops drop_times drop_once note_drop
  drops-push_records [] w p q hp hq full_p full_q = refl
  drops-push_records (x ∷ ps) w p q hp hq full_p full_q =
      let l : Logger = record {
        ring = w.first;
        dropped_count = w.dropped_count;
        stderr = w.stderr;
      } in
      ap (push_records c cfg ps) (push_record_to-full x.0 x.1 w p q hp hq full_p full_q)
      ∙ drops-push_records ps (drop_once w) p q hp hq full_p full_q
      ∙ ap (λ k. record w { dropped_count = k.dropped_count; stderr = k.stderr })
          (drop_times-shift (length ps) l)

  -- With diagnostics compiled in, a valid capacity, two loggers whose rings are both full, and the
  -- counter at 0: after any pushes to either in any order, less than 2^64 of them, both rings are
  -- as they were, the counter is the number of pushes to both, and one warning was printed for
  -- the first of all the drops and one for every thousandth of them, whichever logger they were of.
  pub push_records_lem :
      (ps : List (Bool × LogRecord)) (w : Loggers) (p q : List LogRecord)
      → Holds c w.first p
      → Holds c w.second q
      → length p ≡ c - 1
      → length q ≡ c - 1
      → w.dropped_count ≡ 0
      → length ps < 2 ^ 64
      → let after = push_records c cfg ps w in
        (after.first ≡ w.first)
        × (after.second ≡ w.second)
        × (after.dropped_count ≡ length ps)
        × (length after.stderr ≡ length w.stderr + min (length ps) 1 + length ps / 1000)
  unfolding drops
  push_records_lem ps w p q hp hq full_p full_q zeroed small =
      let (count, lines) =
        drop_times_lem (length ps)
          (record { ring = w.first; dropped_count = w.dropped_count; stderr = w.stderr }) zeroed
          small in
      rw (drops-push_records ps w p q hp hq full_p full_q) (refl, refl, count, lines)
