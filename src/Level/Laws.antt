-- ===== src/Level/Laws.antt =====
-- The names, letters and numbers of the levels agree with each other and with the order.
use low_latency_logger.Prelude.{ℕ, ◌<◌, true, Option, some, [], ◌∷◌, ◌≡◌, ◌↔◌, arith}
use low_latency_logger.Prelude.Text.{Text}
use low_latency_logger.Level.{
  Level, level_to_string, level_to_char, level_to_int, should_log, k_level_count,
}

-- The levels that the enumeration names.
abbrev pub IsNamed : Level → Type 0
IsNamed (Level.other n) = ⊥
IsNamed _ = Unit

abbrev pub first : Text → Option ℕ
first [] = Option.none
first (c ∷ cs) = some c

-- A named level is printed compactly by the first letter of its name, and its number is below
-- `kLevelCount`.
pub level_names :
    (a : Level)
    → IsNamed a
    → (first (level_to_string a) ≡ some (level_to_char a)) × (level_to_int a < k_level_count)
unfolding level_to_string level_to_char level_to_int
level_names a na = ground arith

-- Two named levels are printed by one letter exactly when each passes the threshold that the other
-- sets, and then they are the same level.
pub level_order :
    (a b : Level)
    → IsNamed a
    → IsNamed b
    → ((level_to_char a ≡ level_to_char b) ↔ (a ≡ b))
      × (((should_log a b ≡ true) × (should_log b a ≡ true)) ↔ (a ≡ b))
unfolding level_to_char should_log level_to_int
level_order a b na nb = ground arith

-- A message that passes a threshold passes every lower one.
pub should_log_trans :
    (a b m : Level) → should_log a b ≡ true → should_log b m ≡ true → should_log a m ≡ true
unfolding should_log
should_log_trans a b m h k = ground arith
