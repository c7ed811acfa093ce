-- ===== src/Platform/Counter.antt =====
-- What the reads of the time stamp counter return.
use low_latency_logger.Prelude.{
  ℕ, ◌+◌, ◌*◌, ◌%◌, ◌^◌, ◌<◌, Option, none, some, ◌≡◌, ◌≢◌, if◌then◌else◌, arith,
}
use low_latency_logger.Prelude.Bits.{bit_or-fields}
use low_latency_logger.Platform.{
  Macros, Compiler, Arch, Registers, compiler, arch, is_gcc_compatible, join, read_tsc_on, read_tsc,
  read_tscp_on, read_tscp,
}

-- The registers hold what their widths allow.
pub record IsRead (g : Registers) : Type 0 where
  pub counter_fits : g.counter < 2 ^ 64
  pub hi_fits : g.hi < 2 ^ 32
  pub lo_fits : g.lo < 2 ^ 32

-- The counter of the architectures for which the source has an instruction, as a number.
abbrev pub counter_of : Arch → Registers → Option ℕ
counter_of Arch.arm64 g = some g.counter
counter_of Arch.x64 g = some (g.hi * 2 ^ 32 + g.lo)
counter_of Arch.x86 g = some (g.hi * 2 ^ 32 + g.lo)
counter_of Arch.arm g = none
counter_of Arch.unknown g = none

abbrev pub or_zero : Option ℕ → ℕ
or_zero none = 0
or_zero (some n) = n

join_lem : (g : Registers) → IsRead g → join g ≡ g.hi * 2 ^ 32 + g.lo
unfolding join
join_lem g i =
    let whole : g.hi * 2 ^ 32 % 2 ^ 64 ≡ g.hi * 2 ^ 32 = omega (arith, i.hi_fits) in
    rw whole (bit_or-fields 32 (g.hi * 2 ^ 32) g.lo (omega arith) i.lo_fits)

counter-fits : (a : Arch) (g : Registers) → IsRead g → or_zero (counter_of a g) < 2 ^ 64
counter-fits a g i = ground (arith, i.counter_fits, i.hi_fits, i.lo_fits)

pub compiler-not_msvc : (m : Macros) → compiler m ≢ Compiler.msvc
unfolding compiler
compiler-not_msvc m = ground arith

read_on :
    (c : Compiler) (a : Arch) (g : Registers)
    → IsRead g
    → c ≢ Compiler.msvc
    → read_tsc_on c a g ≡ (if is_gcc_compatible c then or_zero (counter_of a g) else 0)
unfolding read_tsc_on is_gcc_compatible
read_on c a g i n = ground (arith, join_lem g i, n)

tscp_on :
    (c : Compiler) (a : Arch) (cell : Option ℕ) (g : Registers)
    → (read_tscp_on c a cell g).0 ≡ read_tsc_on c a g
unfolding read_tscp_on read_tsc_on
tscp_on c a cell g = ground arith

-- With registers of their widths, under GCC and Clang `ReadTsc` returns the counter as one 64-bit
-- number on ARM64, x86 and x64, and 0 on 32-bit ARM and on every architecture that is not
-- recognised; under every other compiler, MSVC included, it returns 0; and `ReadTscp` returns the
-- same as `ReadTsc`.
pub read_tsc_lem :
    (m : Macros) (g : Registers) (cell : Option ℕ)
    → IsRead g
    → (read_tsc m g
        ≡ (if is_gcc_compatible (compiler m) then or_zero (counter_of (arch m) g) else 0))
      × (read_tsc m g < 2 ^ 64)
      × ((read_tscp m cell g).0 ≡ read_tsc m g)
unfolding read_tsc read_tscp
read_tsc_lem m g cell i =
    let e = read_on (compiler m) (arch m) g i (compiler-not_msvc m) in
    (e, ground (arith, e, counter-fits (arch m) g i), tscp_on (compiler m) (arch m) cell g)
