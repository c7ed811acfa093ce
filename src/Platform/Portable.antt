-- ===== src/Platform/Portable.antt =====
-- What the hints of internal/platform.h do on every target.
use low_latency_logger.Prelude.{
  ℕ, Bool, true, false, not, ◌&&◌, ◌||◌, [], ◌∷◌, ◌≡◌, ◌≢◌, ◌↔◌, ◌⊎◌, ◌==◌, arith,
}
use low_latency_logger.Prelude.Text.{Text}
use low_latency_logger.Platform.{Macros, Compiler, Arch, compiler, arch, is_gcc_compatible}
use low_latency_logger.Platform.Counter.{compiler-not_msvc}
use low_latency_logger.Platform.Hints.{
  to_bool, likely_on, unlikely_on, Relax, cpu_relax_on, Promise, unreachable_on, DebugBreak,
  debug_break_on, force_inline, no_inline, cold, hot, restrict, exported, hidden,
}

-- Whether a value passes as a condition of C++.
abbrev pub holds : ℕ → Bool
holds x = not (x == 0)

-- Two underscores in a row mark a name of the compiler's own.
abbrev pub is_extension : Text → Bool
is_extension [] = false
is_extension (c ∷ []) = false
is_extension (c ∷ d ∷ cs) = (c == b'_') && (d == b'_') || is_extension (d ∷ cs)

module _ (c : Compiler) (a : Arch) (not_msvc : c ≢ Compiler.msvc) where
  relaxes :
      ((cpu_relax_on c a ≡ Relax.pause)
        ↔ ((is_gcc_compatible c ≡ true) × ((a ≡ Arch.x64) ⊎ (a ≡ Arch.x86))))
      × ((cpu_relax_on c a ≡ Relax.yields)
          ↔ ((is_gcc_compatible c ≡ true) × ((a ≡ Arch.arm64) ⊎ (a ≡ Arch.arm))))
      × ((cpu_relax_on c a ≡ Relax.nothing) ↔ (is_gcc_compatible c ≡ false))
  unfolding cpu_relax_on is_gcc_compatible
  relaxes = ground arith

  stops :
      ((unreachable_on c ≡ Promise.promised) ↔ (is_gcc_compatible c ≡ true))
      × ((debug_break_on c a ≡ DebugBreak.nothing) ↔ (is_gcc_compatible c ≡ false))
  unfolding unreachable_on debug_break_on is_gcc_compatible
  stops = ground arith

  extensions :
      (is_extension (force_inline c) ≡ is_gcc_compatible c)
      × (is_extension (no_inline c) ≡ is_gcc_compatible c)
      × (is_extension (cold c) ≡ is_gcc_compatible c)
      × (is_extension (hot c) ≡ is_gcc_compatible c)
      × (is_extension (restrict c) ≡ is_gcc_compatible c)
      × (is_extension (exported c) ≡ is_gcc_compatible c)
      × (is_extension (hidden c) ≡ is_gcc_compatible c)
  unfolding force_inline no_inline cold hot restrict exported hidden is_gcc_compatible
  extensions = ground arith

conditions :
    (c : Compiler) (x : ℕ) → (holds (likely_on c x) ≡ holds x) × (holds (unlikely_on c x) ≡ holds x)
unfolding likely_on unlikely_on to_bool is_gcc_compatible
conditions c x = ground arith

-- On every target: `LOGGER_LIKELY` and `LOGGER_UNLIKELY` pass as a condition exactly if their
-- argument does; `LOGGER_CPU_RELAX` pauses exactly under GCC or Clang on x86, yields exactly under
-- them on ARM, and does nothing exactly under all other compilers; under these alone,
-- `LOGGER_UNREACHABLE` promises nothing and `LOGGER_DEBUG_BREAK` does not stop; and under these
-- alone the macros for inlining, for hot and cold code, for restricted pointers and for visibility
-- expand to no name of the compiler's own.
pub hints_lem :
    (m : Macros) (x : ℕ)
    → let c = compiler m in
      let known = is_gcc_compatible c in
      ((holds (likely_on c x) ≡ holds x) × (holds (unlikely_on c x) ≡ holds x))
      × (((cpu_relax_on c (arch m) ≡ Relax.pause)
            ↔ ((known ≡ true) × ((arch m ≡ Arch.x64) ⊎ (arch m ≡ Arch.x86))))
          × ((cpu_relax_on c (arch m) ≡ Relax.yields)
              ↔ ((known ≡ true) × ((arch m ≡ Arch.arm64) ⊎ (arch m ≡ Arch.arm))))
          × ((cpu_relax_on c (arch m) ≡ Relax.nothing) ↔ (known ≡ false)))
      × (((unreachable_on c ≡ Promise.promised) ↔ (known ≡ true))
          × ((debug_break_on c (arch m) ≡ DebugBreak.nothing) ↔ (known ≡ false)))
      × ((is_extension (force_inline c) ≡ known)
          × (is_extension (no_inline c) ≡ known)
          × (is_extension (cold c) ≡ known)
          × (is_extension (hot c) ≡ known)
          × (is_extension (restrict c) ≡ known)
          × (is_extension (exported c) ≡ known)
          × (is_extension (hidden c) ≡ known))
hints_lem m x =
    let n = compiler-not_msvc m in
    (
      conditions (compiler m) x,
      relaxes (compiler m) (arch m) n,
      stops (compiler m) (arch m) n,
      extensions (compiler m) (arch m) n,
    )
