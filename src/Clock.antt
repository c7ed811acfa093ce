-- ===== src/Clock.antt =====
-- src/clock.cpp: `TscToNanoseconds`, which calibrates the time stamp counter on its first call.
-- The arithmetic of `double` is a parameter; so are the readings of `std::chrono::steady_clock`, in
-- nanoseconds, and of the counter. The steady clock never goes back.
pub mod Calibration
use low_latency_logger.Prelude.{
  ℕ, ◌+◌, ◌-◌, ◌%◌, ◌^◌, Bool, true, false, Option, none, some, List, [], ◌∷◌, leb, ltb,
  if◌then◌else◌,
}

-- What is used of `double`: the conversions, the division, and the comparison `x <= 0.0`. The
-- language leaves `to_uint64` undefined where the number does not fit; nothing is assumed of it.
pub record Doubles (D : Type 0) : Type 0 where
  pub of_integer : ℕ → D
  pub divide : D → D → D
  pub to_uint64 : D → ℕ
  pub at_most_zero : D → Bool
  pub zero_double : D
  pub one_double : D

-- What a first call reads: the clock, the counter, the clock again and again, and the counter.
pub record Readings : Type 0 where
  pub t0 : ℕ
  pub c0 : ℕ
  pub times : List ℕ
  pub c1 : ℕ

-- The spin of one millisecond: the first reading that is late enough, `none` if there is none.
unfoldable pub spin_until : ℕ → List ℕ → Option ℕ
spin_until t0 [] = none
spin_until t0 (t1 ∷ times) =
    let rest = spin_until t0 times in if leb 1000000 (t1 - t0) then some t1 else rest

module _ {D : Type 0} (real : Doubles D) where
  -- `ticks_per_ns`, once the spin has ended at `t1`; the counter wraps at 2^64.
  unfoldable pub ticks_per_ns : Readings → ℕ → D
  ticks_per_ns m t1 =
      let ticks = (m.c1 + 2 ^ 64 - m.c0) % 2 ^ 64 in
      let ns = t1 - m.t0 in
      let ratio =
        if ltb 0 ns
        then real.divide (real.of_integer ticks) (real.of_integer ns)
        else real.zero_double in
      if real.at_most_zero ratio then real.one_double else ratio

  unfoldable pub calibrated : Readings → Option ℕ → Option D
  calibrated m none = none
  calibrated m (some t1) = some (ticks_per_ns m t1)

  -- The initialisation of the static `calibration`.
  unfoldable pub calibrate : Readings → Option D
  unfolding calibrated
  calibrate m = calibrated m (spin_until m.t0 m.times)

  -- The conversion with a calibration at hand.
  unfoldable pub convert : D → ℕ → ℕ
  convert calibration tsc =
      if real.at_most_zero calibration
      then 0
      else real.to_uint64 (real.divide (real.of_integer tsc) calibration)

  unfoldable pub converted : ℕ → Option D → Option (ℕ × D)
  converted tsc none = none
  converted tsc (some calibration) = some (convert calibration tsc, calibration)

  -- `TscToNanoseconds`, on the static calibration, if there is one: the result and the calibration
  -- after the call; `none` if the spin does not end within the readings.
  unfoldable pub tsc_to_nanoseconds : Option D → Readings → ℕ → Option (ℕ × D)
  unfolding converted
  tsc_to_nanoseconds (some calibration) m tsc = some (convert calibration tsc, calibration)
  tsc_to_nanoseconds none m tsc = converted tsc (calibrate m)
