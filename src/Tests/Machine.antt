-- ===== src/Tests/Machine.antt =====
-- The layouts of an M4, of x86-64 and of a ring of four records, and the hints of the platform.
use low_latency_logger.Prelude.{
  ◌+◌, ◌*◌, ◌%◌, ◌^◌, ◌≤◌, ◌<◌, bit_and, true, false, some, ◌≡◌, ◌≢◌, ◌↔◌, ◌⊎◌, refl, if◌then◌else◌,
  arith,
}
use low_latency_logger.Config.{default_config}
use low_latency_logger.Cacheline.{
  record_assertion, Target, k_cache_line_size, k_padding_size, record_offsets, align_up,
}
use low_latency_logger.Cacheline.Layout.{lines_before, record_assertion_lem}
use low_latency_logger.Platform.{
  Macros, Registers, compiler, arch, is_gcc_compatible, read_tsc, read_tscp,
}
use low_latency_logger.Platform.Counter.{IsRead, counter_of, or_zero, read_tsc_lem}
use low_latency_logger.RingBuffer.{k_mask}
use low_latency_logger.RingBuffer.Slots.{Memory, IsMemory, get_slot, storage_end, get_slot_lem}
use low_latency_logger.Tests.{four-IsCapacity}

abbrev m4 : Target
m4 = record {
  apple = true;
  arm64 = true;
  x86_64 = false;
  m_x64 = false;
  i386 = false;
  m_ix86 = false;
  aarch64 = true;
  m_arm64 = false;
  destructive = some 256;
  constructive = some 64;
}

record_offsets-m4 : (record_offsets (k_cache_line_size m4) default_config).size_of ≡ 1792
unfolding record_offsets align_up k_padding_size k_cache_line_size
record_offsets-m4 = refl

abbrev linux_x64 : Macros
linux_x64 = record {
  clang = false;
  gnuc = true;
  apple = false;
  mach = false;
  linux = true;
  win32 = false;
  win64 = false;
  free_bsd = false;
  unix = true;
  aarch64 = false;
  m_arm64 = false;
  x86_64 = true;
  m_x64 = false;
  i386 = false;
  m_ix86 = false;
  arm = false;
  m_arm = false;
}

abbrev registers : Registers
registers = record { counter = 0; hi = 2; lo = 7; aux = 5 }

registers-IsRead : IsRead registers
registers-IsRead = omega arith

read_tsc_lem_example :
    (read_tsc linux_x64 registers ≡ (
      if is_gcc_compatible (compiler linux_x64)
      then or_zero (counter_of (arch linux_x64) registers)
      else 0))
    × (read_tsc linux_x64 registers < 2 ^ 64)
    × ((read_tscp linux_x64 (some 0) registers).0 ≡ read_tsc linux_x64 registers)
read_tsc_lem_example = read_tsc_lem linux_x64 registers (some 0) registers-IsRead

-- Four records of 576 bytes.
abbrev four_records : Memory
four_records = record { size_of = 576; align_of = 64; storage = 128 }

four_records-IsMemory : IsMemory four_records
four_records-IsMemory = record { aligned = omega arith; whole = omega arith; placed = omega arith }

get_slot_lem_example :
    let at = get_slot four_records (bit_and (6 % 2 ^ 64) (k_mask 4)) in
    let other = get_slot four_records (bit_and (11 % 2 ^ 64) (k_mask 4)) in
    (128 ≤ at)
    × (at + 576 ≤ storage_end 4 four_records)
    × (at % 64 ≡ 0)
    × ((6 % 4 ≡ 11 % 4) × (at ≡ other)
        ⊎ (6 % 4 ≢ 11 % 4) × ((at + 576 ≤ other) ⊎ (other + 576 ≤ at)))
get_slot_lem_example = get_slot_lem four-IsCapacity four_records four_records-IsMemory 6 11

-- On the target with lines of 128 bytes, 3328 is the largest message size that compiles.
record_assertion_lem_example :
    (record_assertion (k_cache_line_size m4) default_config ≡ true)
    ↔ (1024 + lines_before default_config * k_cache_line_size m4 ≤ 4096)
record_assertion_lem_example = record_assertion_lem m4 default_config
