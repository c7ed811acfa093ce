-- ===== src/Cacheline.antt =====
-- internal/cacheline.h: the size of a cache line and the padding, and the layouts that
-- internal/ring_buffer.h and include/record.h make of them. Sizes and offsets are in bytes;
-- pointers and `size_t` have eight.
pub mod Layout
use low_latency_logger.Prelude.{
  ℕ, ◌+◌, ◌-◌, ◌*◌, ◌%◌, Bool, true, false, ◌&&◌, ◌||◌, Option, none, some, bit_and, leb, ltb, ◌==◌,
  if◌then◌else◌,
}
use low_latency_logger.Config.{Config}

-- The macros that a compiler predefines for a target, and the two constants of the standard library
-- if it has them.
pub record Target : Type 0 where
  pub apple : Bool
  pub arm64 : Bool
  pub x86_64 : Bool
  pub m_x64 : Bool
  pub i386 : Bool
  pub m_ix86 : Bool
  pub aarch64 : Bool
  pub m_arm64 : Bool
  pub destructive : Option ℕ
  pub constructive : Option ℕ

unfoldable pub k_cache_line_size : Target → ℕ
k_cache_line_size t =
    if t.apple && t.arm64
    then 128
    else (if t.x86_64 || t.m_x64 || t.i386 || t.m_ix86
        then 64
        else (if t.aarch64 || t.m_arm64 then 64 else 64))

-- `size` if the library has no constant.
larger_of : ℕ → Option ℕ → ℕ
larger_of size none = size
larger_of size (some d) = if ltb size d then d else size

smaller_of : ℕ → Option ℕ → ℕ
smaller_of size none = size
smaller_of size (some c) = if ltb c size then c else size

unfoldable pub k_destructive_interference_size : Target → ℕ
unfolding larger_of
k_destructive_interference_size t = larger_of (k_cache_line_size t) t.destructive

unfoldable pub k_constructive_interference_size : Target → ℕ
unfolding smaller_of
k_constructive_interference_size t = smaller_of (k_cache_line_size t) t.constructive

-- `CachelinePad<n>::kPaddingSize`, also `CACHELINE_PAD_AFTER`, for a cache line of `size` bytes.
unfoldable pub k_padding_size : ℕ → ℕ → ℕ
k_padding_size size n = (size - n % size) % size

-- The seven static assertions, in order. `CachelinePadFull` is an array of `char`, of alignment 1;
-- a `CachelinePad` of no bytes is the empty specialization.
unfoldable pub static_assertions : Target → Bool
static_assertions t =
    let size = k_cache_line_size t in
    leb 64 size
    && (bit_and size (size - 1) == 0)
    && leb size (k_destructive_interference_size t)
    && leb (k_constructive_interference_size t) size
    && leb 1 size
    && (k_padding_size size 1 == size - 1)
    && (k_padding_size size size == 0)

-- The next offset that is a multiple of an alignment.
unfoldable pub align_up : ℕ → ℕ → ℕ
align_up alignment offset = offset + (alignment - offset % alignment) % alignment

-- `IndexWrapper` is aligned to, and so padded to, a cache line; the storage is aligned to the
-- larger of a cache line and the alignment of `T`.
pub record RingOffsets : Type 0 where
  pub write_index : ℕ
  pub read_index : ℕ
  pub storage : ℕ

unfoldable pub ring_offsets : ℕ → ℕ → RingOffsets
ring_offsets size alignment_of_element = record {
  write_index = 0;
  read_index = align_up size 8;
  storage =
      align_up (if ltb size alignment_of_element then alignment_of_element else size)
        (align_up size 8 + align_up size 8);
}

-- `LogRecord`, a field after the other with its padding; `size_of` is rounded up to the alignment.
pub record RecordOffsets : Type 0 where
  pub timestamp : ℕ
  pub message_length : ℕ
  pub thread_id : ℕ
  pub file : ℕ
  pub function : ℕ
  pub line : ℕ
  pub message : ℕ
  pub size_of : ℕ

unfoldable pub record_offsets : ℕ → Config → RecordOffsets
record_offsets size cfg =
    let timestamp = align_up 8 (1 + k_padding_size size 1) in
    let message_length = align_up 8 (timestamp + 8) in
    let after_length = message_length + 8 + k_padding_size size 16 in
    let thread_id = align_up 8 after_length in
    let after_thread =
      if cfg.enable_thread_id then thread_id + 8 + k_padding_size size 8 else after_length in
    let file = align_up 8 after_thread in
    let function = align_up 8 (file + 8 + k_padding_size size 8) in
    let line = align_up 4 (function + 8 + k_padding_size size 8) in
    let message =
      if cfg.enable_source_location then line + 4 + k_padding_size size 4 else after_thread in
    record {
      timestamp = timestamp;
      message_length = message_length;
      thread_id = thread_id;
      file = file;
      function = function;
      line = line;
      message = message;
      size_of = align_up size (message + cfg.max_message_size);
    }

-- `static_assert(sizeof(LogRecord) <= 4096)`
unfoldable pub record_assertion : ℕ → Config → Bool
record_assertion size cfg = leb (record_offsets size cfg).size_of 4096
