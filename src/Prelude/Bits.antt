-- ===== src/Prelude/Bits.antt =====
-- `x & (2^k - 1)` as a remainder, and the test `(c & (c - 1)) == 0` for a power of two, which the
-- index arithmetic and the compile-time checks of internal/ring_buffer.h rest on, and `|` of two
-- numbers that share no digits, as internal/platform.h joins two halves.
use Prim.Native.Nat.{
  ℕ, zero, suc, ◌+◌, ◌-◌, ◌*◌, ◌/◌, ◌%◌, ◌^◌, ◌≤◌, ◌<◌, min, max, bit_and, bit_or, digits,
  bit_and-bitwise, bit_or-bitwise,
}
use mathlib.Core.Path.{◌≡◌, refl, sym, ap, ◌∙◌}
use mathlib.Core.Logic.{◌⊎◌, inl, inr}
use native.Mathlib.Nat.{zero-mod, mod-lt, div-add-mod, mul-add-mod_self_left, mod-eq_of_lt}
use native.Mathlib.Nat.{pow-suc, one-le-pow}
use native.Mathlib.Omega.{arith}

-- Both facts are inductions on the digits that are left, where the fuel is only a bound.
abbrev conj : ℕ → ℕ → ℕ → ℕ
conj n a b = digits (λ _. zero) min n a b

mod_double : (a m : ℕ) → 0 < m → a % (2 * m) ≡ a / 2 % m * 2 + a % 2
mod_double a m pos =
    let r : a / 2 % m < m = mod-lt (a / 2) pos in
    let split : a ≡ 2 * m * (a / 2 / m) + (a / 2 % m * 2 + a % 2) =
      omega (arith, div-add-mod (a / 2) m, ap (λ (t : ℕ). 2 * t) (div-add-mod (a / 2) m)) in
    ap (λ t. t % (2 * m)) split
    ∙ mul-add-mod_self_left (2 * m) (a / 2 / m) (a / 2 % m * 2 + a % 2)
    ∙ mod-eq_of_lt (omega arith)

conj_mask : (n k a : ℕ) → a ≤ n → conj n a (2 ^ k - 1) ≡ a % 2 ^ k
conj_mask zero k zero h = sym (zero-mod (2 ^ k))
conj_mask zero k (suc a) h = absurd (omega arith)
conj_mask (suc n) k zero h = sym (zero-mod (2 ^ k))
conj_mask (suc n) zero (suc a) h = omega (arith, conj_mask n 0 (suc a / 2) (omega arith))
conj_mask (suc n) (suc k) (suc a) h =
    let pos : 0 < 2 ^ k = one-le-pow k 2 (omega arith) in
    let twice : 2 ^ suc k ≡ 2 * 2 ^ k = omega (arith, pow-suc 2 k) in
    let half : (2 ^ suc k - 1) / 2 ≡ 2 ^ k - 1 = omega arith in
    let low : (2 ^ suc k - 1) % 2 ≡ 1 = omega arith in
    rw (half, low, twice, mod_double (suc a) (2 ^ k) pos)
      (omega (arith, conj_mask n k (suc a / 2) (omega arith)))

-- A mask of `k` ones keeps the remainder by `2 ^ k`.
pub bit_and-mask : (k a : ℕ) → bit_and a (2 ^ k - 1) ≡ a % 2 ^ k
bit_and-mask k a = bit_and-bitwise a (2 ^ k - 1) ∙ conj_mask a k a (omega arith)

conj_self : (n a : ℕ) → a ≤ n → conj n a a ≡ a
conj_self zero zero h = refl
conj_self zero (suc a) h = absurd (omega arith)
conj_self (suc n) zero h = refl
conj_self (suc n) (suc a) h = omega (arith, conj_self n (suc a / 2) (omega arith))

even_or_odd : (c : ℕ) → (c % 2 ≡ 0) ⊎ (c % 2 ≡ 1)
even_or_odd c = grind arith

conj_pred : (n c : ℕ) → suc c ≤ n → conj n (suc c) c ≡ 0 → (k : ℕ) × (suc c ≡ 2 ^ k)
conj_pred zero c h e = absurd (omega arith)
conj_pred (suc n) c h e = elim (even_or_odd c) [
  | inl even ↦
      let same : suc c / 2 ≡ c / 2 = omega arith in
      let whole : conj n (c / 2) (c / 2) ≡ c / 2 = conj_self n (c / 2) (omega arith) in
      let gone : conj n (c / 2) (c / 2) * 2 + min (suc c % 2) (c % 2) ≡ 0 = rw same at e in
      (0, omega arith)
  | inr odd ↦
      let up : suc c / 2 ≡ suc (c / 2) = omega arith in
      let gone : conj n (suc (c / 2)) (c / 2) * 2 + min (suc c % 2) (c % 2) ≡ 0 = rw up at e in
      let (k, half) = conj_pred n (c / 2) (omega arith) (omega arith) in
      (suc k, omega (arith, pow-suc 2 k))
]

-- A positive number that shares no binary digit with its predecessor is a power of two.
pub pow_of_bit_and : (c : ℕ) → 0 < c → bit_and c (c - 1) ≡ 0 → (k : ℕ) × (c ≡ 2 ^ k)
pow_of_bit_and zero pos e = absurd (omega arith)
pow_of_bit_and (suc c) pos e =
    let less : suc c - 1 ≡ c = omega arith in
    conj_pred (suc c) c (omega arith) (sym (bit_and-bitwise (suc c) c) ∙ (rw less at e))

abbrev disj : ℕ → ℕ → ℕ → ℕ
disj n a b = digits (λ b. b) max n a b

disj_fields : (n k a l : ℕ) → a ≤ n → a % 2 ^ k ≡ 0 → l < 2 ^ k → disj n a l ≡ a + l
disj_fields zero k zero l h e small = omega arith
disj_fields zero k (suc a) l h e small = absurd (omega arith)
disj_fields (suc n) k zero l h e small = omega arith
disj_fields (suc n) zero (suc a) l h e small =
    let nothing : l ≡ 0 = omega arith in
    rw nothing
      (omega (arith, disj_fields n 0 (suc a / 2) 0 (omega arith) (omega arith) (omega arith)))
disj_fields (suc n) (suc k) (suc a) l h e small =
    let pos : 0 < 2 ^ k = one-le-pow k 2 (omega arith) in
    let twice : 2 ^ suc k ≡ 2 * 2 ^ k = omega (arith, pow-suc 2 k) in
    let parts : suc a / 2 % 2 ^ k * 2 + suc a % 2 ≡ 0 =
      sym (mod_double (suc a) (2 ^ k) pos) ∙ ap (λ m. suc a % m) (sym twice) ∙ e in
    let even : suc a % 2 ≡ 0 = omega arith in
    let rest = disj_fields n k (suc a / 2) (l / 2) (omega arith) (omega arith) (omega arith) in
    rw even (omega (arith, rest, even))

-- A number whose last `k` digits are 0, joined with one of `k` digits, is their sum.
pub bit_or-fields : (k a l : ℕ) → a % 2 ^ k ≡ 0 → l < 2 ^ k → bit_or a l ≡ a + l
bit_or-fields k a l e small = bit_or-bitwise a l ∙ disj_fields a k a l (omega arith) e small
