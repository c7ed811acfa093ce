-- ===== src/Clock/Calibration.antt =====
-- The calibration ends, is the quotient that it is meant to be, and is made once.
use low_latency_logger.Prelude.{
  ℕ, ◌+◌, ◌-◌, ◌%◌, ◌^◌, ◌≤◌, ◌<◌, true, false, none, some, List, [], ◌∷◌, ◌++◌, leb, ltb, ◌≡◌, ap,
  refl, arith, Bool-cases, inl, inr, ◌⊎◌, All,
}
use low_latency_logger.Clock.{
  Doubles, Readings, spin_until, ticks_per_ns, calibrate, convert, tsc_to_nanoseconds, calibrated,
  converted,
}

-- The reading at which the spin ends: the first that is a millisecond past `t0`.
pub record IsFirstLate (t0 : ℕ) (times : List ℕ) (t1 : ℕ) : Type 0 where
  pub early : List ℕ
  pub rest : List ℕ
  pub split : times ≡ early ++ t1 ∷ rest
  pub all_early : All (λ t. t < t0 + 1000000) early
  pub late : t0 + 1000000 ≤ t1

spin_until-ends :
    (t0 late : ℕ) (before after : List ℕ)
    → t0 + 1000000 ≤ late
    → (t1 : ℕ) × (spin_until t0 (before ++ late ∷ after) ≡ some t1)
      × IsFirstLate t0 (before ++ late ∷ after) t1
unfolding spin_until
spin_until-ends t0 late [] after h =
    let enough : leb 1000000 (late - t0) ≡ true = ground arith in
    (
      late,
      rw enough refl,
      record { early = []; rest = after; split = refl; all_early = tt; late = h },
    )
spin_until-ends t0 late (t ∷ before) after h = elim (Bool-cases (leb 1000000 (t - t0))) [
  | inl enough ↦ (
    t,
    rw enough refl,
    record {
      early = [];
      rest = before ++ late ∷ after;
      split = refl;
      all_early = tt;
      late = ground (arith, enough);
    },
  )
  | inr soon ↦
      let (t1, e, first) = spin_until-ends t0 late before after h in
      (
        t1,
        rw (soon, e) refl,
        record {
          early = t ∷ first.early;
          rest = first.rest;
          split = ap (λ l. t ∷ l) first.split;
          all_early = (ground (arith, soon), first.all_early);
          late = first.late;
        },
      )
]

module _ {D : Type 0} (real : Doubles D) where
  -- Ticks of the counter, which wraps, by nanoseconds of the clock.
  abbrev pub measured : ℕ → ℕ → ℕ → ℕ → D
  measured t0 c0 c1 t1 =
      real.divide (real.of_integer ((c1 + 2 ^ 64 - c0) % 2 ^ 64)) (real.of_integer (t1 - t0))

  -- Where 1.0 is not at most 0.0: once a reading of the clock is a millisecond past the first one,
  -- the first call returns, whatever the counter shows; it has taken the first such reading `t1`;
  -- its calibration is the ticks of the counter since, modulo 2^64, by the nanoseconds from the
  -- first reading to `t1`, or 1.0 where this is at most 0.0; the result is the quotient of the time
  -- stamp by the calibration, never the 0 of the last test; and each later call, whatever it could
  -- read, returns the quotient of its time stamp by the same calibration, and keeps it.
  pub tsc_to_nanoseconds_lem :
      real.at_most_zero real.one_double ≡ false
      → (t0 c0 c1 late : ℕ) (before after : List ℕ) (x y : ℕ) (m' : Readings) → t0 + 1000000 ≤ late
      → let m : Readings = record { t0 = t0; c0 = c0; times = before ++ late ∷ after; c1 = c1 } in
        (t1 : ℕ) × (calibration : D) × IsFirstLate t0 m.times t1
        × (((real.at_most_zero (measured t0 c0 c1 t1) ≡ false)
              × (calibration ≡ measured t0 c0 c1 t1))
            ⊎ ((real.at_most_zero (measured t0 c0 c1 t1) ≡ true) × (calibration ≡ real.one_double)))
        × (tsc_to_nanoseconds real none m x
            ≡ some (real.to_uint64 (real.divide (real.of_integer x) calibration), calibration))
        × (tsc_to_nanoseconds real (some calibration) m' y
            ≡ some (real.to_uint64 (real.divide (real.of_integer y) calibration), calibration))
  unfolding tsc_to_nanoseconds calibrate calibrated converted convert ticks_per_ns
  tsc_to_nanoseconds_lem one t0 c0 c1 late before after x y m' h =
      let (t1, e, first) = spin_until-ends t0 late before after h in
      let passed : ltb 0 (t1 - t0) ≡ true = ground (arith, first.late) in
      elim (Bool-cases (real.at_most_zero (measured t0 c0 c1 t1))) [
        | inl flat ↦ (
          t1,
          real.one_double,
          first,
          inr (flat, refl),
          rw (e, passed, flat, one) refl,
          rw one refl,
        )
        | inr rising ↦ (
          t1,
          measured t0 c0 c1 t1,
          first,
          inl (rising, refl),
          rw (e, passed, rising, rising) refl,
          rw rising refl,
        )
      ]
