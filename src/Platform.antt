-- ===== src/Platform.antt =====
-- internal/platform.h: what the preprocessor makes of a target, and the reads of the time stamp
-- counter. The registers that the assembly reads are an argument. The macros for hints are in
-- Hints.
pub mod Counter
pub mod Hints
pub mod Portable
use low_latency_logger.Prelude.{
  ℕ, ◌+◌, ◌*◌, ◌%◌, ◌^◌, bit_or, Bool, true, false, ◌&&◌, ◌||◌, Option, none, some, if◌then◌else◌,
}

-- The macros that compilers predefine.
pub record Macros : Type 0 where
  pub clang : Bool
  pub gnuc : Bool
  pub apple : Bool
  pub mach : Bool
  pub linux : Bool
  pub win32 : Bool
  pub win64 : Bool
  pub free_bsd : Bool
  pub unix : Bool
  pub aarch64 : Bool
  pub m_arm64 : Bool
  pub x86_64 : Bool
  pub m_x64 : Bool
  pub i386 : Bool
  pub m_ix86 : Bool
  pub arm : Bool
  pub m_arm : Bool

-- `LOGGER_COMPILER_*`. The macro for MSVC is tested but never defined.
pub data Compiler : Type 0 where
  clang gcc msvc unknown : Compiler

pub data Os : Type 0 where
  mac_os linux windows free_bsd unix unknown : Os

pub data Arch : Type 0 where
  arm64 x64 x86 arm unknown : Arch

unfoldable pub compiler : Macros → Compiler
compiler m = if m.clang then Compiler.clang else (if m.gnuc then Compiler.gcc else Compiler.unknown)

-- `LOGGER_COMPILER_GCC_COMPATIBLE`
unfoldable pub is_gcc_compatible : Compiler → Bool
is_gcc_compatible Compiler.gcc = true
is_gcc_compatible Compiler.clang = true
is_gcc_compatible _ = false

unfoldable pub os : Macros → Os
os m =
    if m.apple && m.mach
    then Os.mac_os
    else (if m.linux
        then Os.linux
        else (if m.win32 || m.win64
            then Os.windows
            else (if m.free_bsd then Os.free_bsd else (if m.unix then Os.unix else Os.unknown))))

-- `LOGGER_OS_POSIX`
unfoldable pub is_posix : Os → Bool
is_posix Os.windows = false
is_posix Os.unknown = false
is_posix _ = true

unfoldable pub arch : Macros → Arch
arch m =
    if m.aarch64 || m.m_arm64
    then Arch.arm64
    else (if m.x86_64 || m.m_x64
        then Arch.x64
        else (if m.i386 || m.m_ix86
            then Arch.x86
            else (if m.arm || m.m_arm then Arch.arm else Arch.unknown)))

-- What the instructions read: `cntvct_el0`, and `edx`, `eax` and `ecx` of `rdtsc` and `rdtscp`.
pub record Registers : Type 0 where
  pub counter : ℕ
  pub hi : ℕ
  pub lo : ℕ
  pub aux : ℕ

-- `(static_cast<uint64_t>(hi) << 32) | lo`
unfoldable pub join : Registers → ℕ
join g = bit_or (g.hi * 2 ^ 32 % 2 ^ 64) g.lo

-- `ReadTsc`. The intrinsics of MSVC read the same counters.
unfoldable pub read_tsc_on : Compiler → Arch → Registers → ℕ
unfolding join
read_tsc_on Compiler.unknown a g = 0
read_tsc_on Compiler.msvc Arch.x64 g = join g
read_tsc_on Compiler.msvc Arch.x86 g = join g
read_tsc_on Compiler.msvc Arch.arm64 g = g.counter
read_tsc_on Compiler.msvc _ g = 0
read_tsc_on _ Arch.arm64 g = g.counter
read_tsc_on _ Arch.x64 g = join g
read_tsc_on _ Arch.x86 g = join g
read_tsc_on _ _ g = 0

unfoldable pub read_tsc : Macros → Registers → ℕ
unfolding read_tsc_on compiler arch
read_tsc m g = read_tsc_on (compiler m) (arch m) g

-- `if (processor_id) *processor_id = id`, on what the pointer points to.
set_id : ℕ → Option ℕ → Option ℕ
set_id id none = none
set_id id (some old) = some id

-- `ReadTscp`: the counter, and what `processor_id` points to afterwards.
unfoldable pub read_tscp_on : Compiler → Arch → Option ℕ → Registers → ℕ × Option ℕ
unfolding join set_id read_tsc_on
read_tscp_on Compiler.clang Arch.x64 cell g = (join g, set_id g.aux cell)
read_tscp_on Compiler.clang Arch.x86 cell g = (join g, set_id g.aux cell)
read_tscp_on Compiler.clang Arch.arm64 cell g = (g.counter, cell)
read_tscp_on Compiler.gcc Arch.x64 cell g = (join g, set_id g.aux cell)
read_tscp_on Compiler.gcc Arch.x86 cell g = (join g, set_id g.aux cell)
read_tscp_on Compiler.gcc Arch.arm64 cell g = (g.counter, cell)
read_tscp_on Compiler.msvc Arch.x64 cell g = (join g, set_id g.aux cell)
read_tscp_on Compiler.msvc Arch.x86 cell g = (join g, set_id g.aux cell)
read_tscp_on c a cell g = (read_tsc_on c a g, set_id 0 cell)

unfoldable pub read_tscp : Macros → Option ℕ → Registers → ℕ × Option ℕ
unfolding read_tscp_on compiler arch
read_tscp m cell g = read_tscp_on (compiler m) (arch m) cell g
