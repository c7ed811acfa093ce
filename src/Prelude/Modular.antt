-- ===== src/Prelude/Modular.antt =====
-- Remainders by a number that is not a numeral.
use Prim.Native.Nat.{ℕ, ◌+◌, ◌/◌, ◌%◌, ◌≤◌, ◌<◌}
use mathlib.Core.Path.{◌≡◌, sym}
use native.Mathlib.Nat.{div-add-mod}
use native.Mathlib.Decide.{dec_lt}
use native.Mathlib.Omega.{arith}

-- Fewer than `c` steps apart, two numbers have different remainders.
pub mod-injective : (c a b : ℕ) → a ≤ b → b < a + c → a % c ≡ b % c → a ≡ b
mod-injective c a b le lt e = elim (dec_lt (a / c) (b / c)) [
  | yes up ↦ absurd (grind (arith, div-add-mod a c, div-add-mod b c))
  | no flat ↦ grind (arith, div-add-mod a c, div-add-mod b c)
]

-- So have any two numbers of one window of length `c`.
pub window-injective : (c b i j : ℕ) → b ≤ i → i < b + c → b ≤ j → j < b + c → i % c ≡ j % c → i ≡ j
window-injective c b i j li hi lj hj e = elim (dec_lt i j) [
  | yes up ↦ mod-injective c i j (omega arith) (omega arith) e
  | no down ↦ sym (mod-injective c j i (omega arith) (omega arith) (sym e))
]
