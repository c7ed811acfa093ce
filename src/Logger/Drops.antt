-- ===== src/Logger/Drops.antt =====
-- The backpressure policy of `PushRecord`: what a burst keeps, what it drops, and how it is
-- reported.
use low_latency_logger.Prelude.{
  ℕ, zero, suc, ◌+◌, ◌-◌, ◌/◌, ◌%◌, ◌^◌, ◌<◌, min, true, List, [], ◌∷◌, ◌++◌, ◌≡◌, refl, ap, length,
  take, length-append, append-nil, append_assoc, arith, dec_lt, take_all,
}
use low_latency_logger.Config.{Config}
use low_latency_logger.Record.{LogRecord}
use low_latency_logger.RingBuffer.Capacity.{IsCapacity}
use low_latency_logger.RingBuffer.Queue.{Holds}
use low_latency_logger.RingBuffer.Push.{try_push-room, try_push-full}
use low_latency_logger.Logger.{Logger, note_drop, push_record, drop_warning}

note_drop-dropped_count :
    (l : Logger) → (note_drop l).dropped_count ≡ (l.dropped_count + 1) % 2 ^ 64
unfolding note_drop
note_drop-dropped_count l = refl

note_drop-Holds :
    {c : ℕ} (l : Logger) (q : List LogRecord) → Holds c l.ring q → Holds c (note_drop l).ring q
unfolding note_drop
note_drop-Holds l q h = h

-- Records pushed one after the other, with no consumer at work.
unfoldable pub burst : ℕ → Config → List LogRecord → Logger → Logger
burst c cfg [] l = l
burst c cfg (r ∷ rs) l = burst c cfg rs (push_record c cfg r l).1

-- `n` drops in a row.
unfoldable pub drop_times : ℕ → Logger → Logger
drop_times zero l = l
drop_times (suc n) l = note_drop (drop_times n l)

-- After `n` drops from a counter of 0, with `n` below 2^64, the counter is `n`, and one warning
-- was printed for the first drop and one for every thousandth.
pub drop_times_lem :
    (n : ℕ) (l : Logger)
    → l.dropped_count ≡ 0
    → n < 2 ^ 64
    → ((drop_times n l).dropped_count ≡ n)
      × (length (drop_times n l).stderr ≡ length l.stderr + min n 1 + n / 1000)
unfolding drop_times note_drop
drop_times_lem zero l e h = (e, omega arith)
drop_times_lem (suc n) l e h =
    let before = drop_times_lem n l e (omega arith) in
    let now : ((drop_times n l).dropped_count + 1) % 2 ^ 64 ≡ suc n = omega (arith, before.0) in
    (
      now,
      ground (
        arith,
        before.1,
        now,
        length-append {0} (drop_times n l).stderr
            (drop_warning (((drop_times n l).dropped_count + 1) % 2 ^ 64) ∷ []),
      ),
    )

module _ {c : ℕ} (v : IsCapacity c) (cfg : Config) (on : cfg.enable_stderr_diagnostics ≡ true) where
  push_room :
      (r : LogRecord) (l : Logger) (q : List LogRecord)
      → Holds c l.ring q
      → length q < c - 1
      → Holds c (push_record c cfg r l).1.ring (q ++ r ∷ [])
        × ((push_record c cfg r l).1.dropped_count ≡ l.dropped_count)
  unfolding push_record
  push_room r l q h room = let (done, holds) = try_push-room v h r room in rw done (holds, refl)

  pub push_full :
      (r : LogRecord) (l : Logger) (q : List LogRecord)
      → Holds c l.ring q
      → length q ≡ c - 1
      → (push_record c cfg r l).1 ≡ note_drop l
  unfolding push_record
  push_full r l q h full = rw (try_push-full v h r full, on)

  -- With diagnostics compiled in, and no consumer at work: a burst into a ring of a valid capacity
  -- that holds `q` keeps the first records, as many as there is room for, in order, and drops all
  -- others; a counter below 2^64 grows by their number, modulo 2^64.
  pub burst_lem :
      (rs : List LogRecord) (l : Logger) (q : List LogRecord)
      → Holds c l.ring q
      → l.dropped_count < 2 ^ 64
      → Holds c (burst c cfg rs l).ring (q ++ take (c - 1 - length q) rs)
        × ((burst c cfg rs l).dropped_count
            ≡ (l.dropped_count + (length rs - (c - 1 - length q))) % 2 ^ 64)
  unfolding burst
  burst_lem [] l q h small =
      let nothing = take_all {A = LogRecord} (c - 1 - length q) [] (omega arith) in
      (rw (nothing, append-nil) h, omega arith)
  burst_lem (r ∷ rs) l q h small = elim (dec_lt (length q) (c - 1)) [
    | yes room ↦
        let (holds, same) = push_room r l q h room in
        let longer : length (q ++ r ∷ []) ≡ length q + 1 = length-append q (r ∷ []) in
        let (rest, count) =
          burst_lem rs (push_record c cfg r l).1 (q ++ r ∷ []) holds (rw same small) in
        let left : c - 1 - length q ≡ suc (c - 1 - length (q ++ r ∷ [])) = omega arith in
        (
          rw (left, ← append_assoc q (r ∷ []) (take (c - 1 - length (q ++ r ∷ [])) rs)) rest,
          rw (count, same, left) (omega arith),
        )
    | no none_left ↦
        let full : length q ≡ c - 1 = omega (arith, h.room) in
        let drop = push_full r l q h full in
        let nothing : c - 1 - length q ≡ 0 = omega arith in
        let counted = note_drop-dropped_count l in
        let (rest, count) =
          burst_lem rs (note_drop l) q (note_drop-Holds l q h) (omega (arith, counted)) in
        let kept : burst c cfg (r ∷ rs) l ≡ burst c cfg rs (note_drop l) =
          ap (burst c cfg rs) drop in
        (rw (kept, nothing) (rw nothing at rest), rw (kept, count, counted, nothing) (omega arith))
  ]
