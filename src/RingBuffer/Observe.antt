-- ===== src/RingBuffer/Observe.antt =====
-- `Size`, `Empty` and `Full`, for a caller that sees both indices at one moment, and for one whose
-- two relaxed loads are separated by other threads' work.
use low_latency_logger.Prelude.{ℕ, ◌-◌, ◌^◌, ◌≤◌, true, false, List, [], ◌≡◌, ◌↔◌, length, arith}
use low_latency_logger.RingBuffer.{
  SpscRingBuffer, size, is_empty, is_full, size_between, full_between, try_push, try_pop,
}
use low_latency_logger.RingBuffer.Capacity.{IsCapacity}
use low_latency_logger.RingBuffer.Queue
use low_latency_logger.RingBuffer.Queue.{Holds}
use low_latency_logger.RingBuffer.Push.{
  distance-Holds, try_push-refines, try_push-room, read_index-try_push,
}
use low_latency_logger.RingBuffer.Pop.{try_pop-cons, read_index-try_pop}

module _ {A : Type 0} {c : ℕ} (v : IsCapacity c) {r : SpscRingBuffer A} {q : List A}
    (h : Holds c r q) where
  -- For a capacity that passes the static assertions: on a ring that holds a queue, with both
  -- indices read at one moment, `Size` is the number of elements held, at most `Capacity-1`;
  -- `Empty` is true exactly when there is none; and `Full` is true exactly when the next `TryPush`
  -- fails.
  pub observers :
      (x : A)
      → (size r ≡ length q)
        × (size r ≤ c - 1)
        × ((is_empty r ≡ true) ↔ (length q ≡ 0))
        × ((is_full c r ≡ true) ↔ ((try_push c x r).0 ≡ false))
  unfolding size is_empty is_full Queue.push
  observers x = ground (arith, distance-Holds v h, h.room, try_push-refines v h x)

-- For a capacity that passes the static assertions: if one element passes through an empty ring
-- between the two loads of `Size`, pushed and popped, then `Size` returns 2^64-1 and `Full`
-- returns true, although the ring is empty at both loads.
pub stale_load_wraps :
    {A : Type 0} {c : ℕ} (v : IsCapacity c) {r : SpscRingBuffer A} (x : A)
    → Holds c r []
    → let after = (try_pop c (try_push c x r).1).1 in
      Holds c after [] × (size_between r after ≡ 2 ^ 64 - 1) × (full_between c r after ≡ true)
unfolding size_between full_between
stale_load_wraps {c = c} v {r} x h =
    let (_, one) = try_push-room v h x (omega (arith, v)) in
    let (_, none_left) = try_pop-cons v x [] one in
    let read = read_index-try_pop v one in
    let still = read_index-try_push c x r in
    (
      none_left,
      ground (arith, h.write_at, h.read_fits, v.fits),
      ground (arith, h.write_at, h.read_fits, v.fits),
    )
