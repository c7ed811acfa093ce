-- ===== src/RingBuffer/Capacity.antt =====
-- The compile-time checks of internal/ring_buffer.h on `Capacity`, and what they give the index
-- arithmetic: masking an index that has wrapped at 2^64 is the remainder by the capacity.
use low_latency_logger.Prelude.{
  ℕ, zero, suc, ◌+◌, ◌-◌, ◌%◌, ◌^◌, ◌<◌, bit_and, ◌≡◌, sym, ap, ◌∙◌, arith, dec_lt,
}
use low_latency_logger.Prelude.Bits.{bit_and-mask, pow_of_bit_and}
use Prim.Native.Nat.{◌∣◌}
use native.Mathlib.Nat.{mod-mod_of_dvd, pow-suc, dvd_refl, dvd-mul_right_of_dvd, pow-le-pow_right}
use low_latency_logger.RingBuffer.{k_mask}

-- The two `static_assert`s, and that the capacity is a `size_t`.
pub record IsCapacity (capacity : ℕ) : Type 0 where
  pub more_than_one : 1 < capacity
  pub power_of_two : bit_and capacity (capacity - 1) ≡ 0
  pub fits : capacity < 2 ^ 64

pow-dvd : (d k : ℕ) → 2 ^ k ∣ 2 ^ (d + k)
pow-dvd zero k = let e : zero + k ≡ k = omega arith in rw e (dvd_refl (2 ^ k))
pow-dvd (suc d) k =
    let e : suc d + k ≡ suc (d + k) = omega arith in
    rw (e, pow-suc) (dvd-mul_right_of_dvd (2 ^ k) (pow-dvd d k) 2)

exponent-lt : (k : ℕ) → 2 ^ k < 2 ^ 64 → k < 64
exponent-lt k h = elim (dec_lt k 64) [
  | yes small ↦ small
  | no large ↦
      absurd (omega (arith, pow-le-pow_right {n = 2} (omega arith) {i = 64} {j = k} (omega arith)))
]

pub capacity-dvd : {c : ℕ} → IsCapacity c → c ∣ 2 ^ 64
capacity-dvd {c} v =
    let (k, e) = pow_of_bit_and c (omega (arith, v)) v.power_of_two in
    let small : k < 64 = exponent-lt k (omega arith) in
    let sum : 64 - k + k ≡ 64 = omega arith in rw e ((rw sum at (pow-dvd (64 - k) k)))

-- For a capacity that passes the static assertions: the slot of the `n`-th element ever pushed is
-- `n % Capacity`, whether or not the index wrapped at 2^64.
pub mask-index : {c : ℕ} → IsCapacity c → (n : ℕ) → bit_and (n % 2 ^ 64) (k_mask c) ≡ n % c
mask-index {c} v n =
    let (k, e) = pow_of_bit_and c (omega (arith, v)) v.power_of_two in
    ap (λ m. bit_and (n % 2 ^ 64) (m - 1)) e
    ∙ bit_and-mask k (n % 2 ^ 64)
    ∙ ap (λ m. n % 2 ^ 64 % m) (sym e)
    ∙ mod-mod_of_dvd c n (capacity-dvd v)
