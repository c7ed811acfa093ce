-- ===== src/Platform/Hints.antt =====
-- internal/platform.h: the macros for hints to the compiler and the processor. A macro with an
-- effect at run time is a value that says which; one that is only an attribute is the text that it
-- expands to.
use low_latency_logger.Prelude.{ℕ, ◌&&◌, [], ◌++◌, ◌==◌, leb, if◌then◌else◌}
use low_latency_logger.Prelude.Text.{Text, text}
use low_latency_logger.Platform.{Compiler, Arch, is_gcc_compatible}

-- `!!(x)`
unfoldable pub to_bool : ℕ → ℕ
to_bool x = if x == 0 then 0 else 1

-- `LOGGER_LIKELY(x)` and `LOGGER_UNLIKELY(x)`; `__builtin_expect` returns its first argument.
unfoldable pub likely_on : Compiler → ℕ → ℕ
unfolding is_gcc_compatible to_bool
likely_on c x = if is_gcc_compatible c then to_bool x else x

unfoldable pub unlikely_on : Compiler → ℕ → ℕ
unfolding is_gcc_compatible to_bool
unlikely_on c x = if is_gcc_compatible c then to_bool x else x

-- `LOGGER_CPU_RELAX()`: an instruction and a compiler barrier, the barrier alone, or nothing.
pub data Relax : Type 0 where
  pause yields barrier nothing : Relax

unfoldable pub cpu_relax_on : Compiler → Arch → Relax
cpu_relax_on Compiler.unknown a = Relax.nothing
cpu_relax_on Compiler.msvc Arch.x64 = Relax.pause
cpu_relax_on Compiler.msvc Arch.x86 = Relax.pause
cpu_relax_on Compiler.msvc Arch.arm64 = Relax.yields
cpu_relax_on Compiler.msvc _ = Relax.nothing
cpu_relax_on _ Arch.x64 = Relax.pause
cpu_relax_on _ Arch.x86 = Relax.pause
cpu_relax_on _ Arch.arm64 = Relax.yields
cpu_relax_on _ Arch.arm = Relax.yields
cpu_relax_on _ Arch.unknown = Relax.barrier

-- `LOGGER_PREFETCH_READ` and `LOGGER_PREFETCH_WRITE`.
pub data Prefetch : Type 0 where
  builtin : (for_write : ℕ) (locality : ℕ) → Prefetch
  hint_t0 : Prefetch
  evaluated : Prefetch

unfoldable pub prefetch_on : ℕ → Compiler → Arch → Prefetch
prefetch_on for_write Compiler.unknown a = Prefetch.evaluated
prefetch_on for_write Compiler.msvc Arch.x64 = Prefetch.hint_t0
prefetch_on for_write Compiler.msvc Arch.x86 = Prefetch.hint_t0
prefetch_on for_write Compiler.msvc _ = Prefetch.evaluated
prefetch_on for_write _ a = Prefetch.builtin for_write 3

-- `LOGGER_UNREACHABLE()` and `LOGGER_ASSUME(cond)`, the latter for `__GNUC__` of a version: a
-- promise that the compiler may rely on, or nothing.
pub data Promise : Type 0 where
  promised ignored : Promise

unfoldable pub unreachable_on : Compiler → Promise
unreachable_on Compiler.unknown = Promise.ignored
unreachable_on _ = Promise.promised

unfoldable pub assume_on : ℕ → Compiler → Promise
unfolding is_gcc_compatible
assume_on gnuc c = if is_gcc_compatible c && leb 13 gnuc then Promise.promised else elim c [
  | Compiler.clang ↦ Promise.promised
  | Compiler.msvc ↦ Promise.promised
  | _ ↦ Promise.ignored
]

-- `LOGGER_DEBUG_BREAK()`
pub data DebugBreak : Type 0 where
  int3 trap debugbreak nothing : DebugBreak

unfoldable pub debug_break_on : Compiler → Arch → DebugBreak
debug_break_on Compiler.unknown a = DebugBreak.nothing
debug_break_on Compiler.msvc a = DebugBreak.debugbreak
debug_break_on _ Arch.x64 = DebugBreak.int3
debug_break_on _ Arch.x86 = DebugBreak.int3
debug_break_on _ _ = DebugBreak.trap

-- `LOGGER_ATTR_LIKELY` and `LOGGER_ATTR_UNLIKELY`, for a value of `__cplusplus`.
unfoldable pub attr_likely : ℕ → Text
attr_likely cplusplus = if leb 202002 cplusplus then text "[[likely]]" else []

unfoldable pub attr_unlikely : ℕ → Text
attr_unlikely cplusplus = if leb 202002 cplusplus then text "[[unlikely]]" else []

-- `LOGGER_FORCE_INLINE`, `LOGGER_NO_INLINE`, `LOGGER_COLD`, `LOGGER_HOT`, `LOGGER_THREAD_LOCAL`,
-- `LOGGER_RESTRICT`, `LOGGER_EXPORT` and `LOGGER_HIDDEN`.
unfoldable pub force_inline : Compiler → Text
force_inline Compiler.unknown = text "inline"
force_inline Compiler.msvc = text "__forceinline"
force_inline _ = text "inline __attribute__((always_inline))"

unfoldable pub no_inline : Compiler → Text
no_inline Compiler.unknown = []
no_inline Compiler.msvc = text "__declspec(noinline)"
no_inline _ = text "__attribute__((noinline))"

unfoldable pub cold : Compiler → Text
unfolding is_gcc_compatible
cold c = if is_gcc_compatible c then text "__attribute__((cold))" else []

unfoldable pub hot : Compiler → Text
unfolding is_gcc_compatible
hot c = if is_gcc_compatible c then text "__attribute__((hot))" else []

unfoldable pub thread_storage : Compiler → Text
thread_storage Compiler.unknown = []
thread_storage _ = text "thread_local"

unfoldable pub restrict : Compiler → Text
restrict Compiler.unknown = []
restrict Compiler.msvc = text "__restrict"
restrict _ = text "__restrict__"

unfoldable pub exported : Compiler → Text
exported Compiler.unknown = []
exported Compiler.msvc = text "__declspec(dllexport)"
exported _ = text "__attribute__((visibility(\"default\")))"

unfoldable pub hidden : Compiler → Text
unfolding is_gcc_compatible
hidden c = if is_gcc_compatible c then text "__attribute__((visibility(\"hidden\")))" else []

-- `LOGGER_NODISCARD` and `LOGGER_DEPRECATED(msg)`, for a value of `__cplusplus`.
unfoldable pub nodiscard : ℕ → Compiler → Text
nodiscard cplusplus c = if leb 201703 cplusplus then text "[[nodiscard]]" else elim c [
  | Compiler.unknown ↦ []
  | Compiler.msvc ↦ text "_Check_return_"
  | _ ↦ text "__attribute__((warn_unused_result))"
]

unfoldable pub deprecated : ℕ → Text → Compiler → Text
deprecated cplusplus msg c =
    if leb 201402 cplusplus then text "[[deprecated(" ++ (msg ++ text ")]]") else elim c [
      | Compiler.unknown ↦ []
      | Compiler.msvc ↦ text "__declspec(deprecated(" ++ (msg ++ text "))")
      | _ ↦ text "__attribute__((deprecated(" ++ (msg ++ text ")))")
    ]
