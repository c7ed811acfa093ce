-- ===== src/Cacheline/Layout.antt =====
-- The compile-time checks hold for every target, and the layouts keep what is shared apart.
use low_latency_logger.Prelude.{
  ℕ, ◌+◌, ◌-◌, ◌*◌, ◌%◌, ◌≤◌, ◌<◌, bit_and, true, ◌≡◌, ◌⊎◌, ◌↔◌, if◌then◌else◌, inl, inr, refl,
  arith,
}
use low_latency_logger.Config.{Config}
use low_latency_logger.Cacheline.{
  Target, k_cache_line_size, k_destructive_interference_size, k_constructive_interference_size,
  k_padding_size, static_assertions, align_up, ring_offsets, record_offsets, record_assertion,
}

line_sizes : (t : Target) → (k_cache_line_size t ≡ 64) ⊎ (k_cache_line_size t ≡ 128)
unfolding k_cache_line_size
line_sizes t = ground arith

asserted : (t : Target) → static_assertions t ≡ true
unfolding static_assertions k_destructive_interference_size k_constructive_interference_size
    k_padding_size
asserted t = elim (line_sizes t) [ inl e ↦ rw e (ground arith) | inr e ↦ rw e (ground arith) ]

-- On every target the static assertions of internal/cacheline.h hold: a cache line has at least 64
-- bytes, a power of two; the destructive size is no smaller and the constructive size no larger;
-- and the padding after `n` bytes fills the line and is shorter than one.
pub cache_line_lem :
    (t : Target) (n : ℕ)
    → (static_assertions t ≡ true)
      × (64 ≤ k_cache_line_size t)
      × (bit_and (k_cache_line_size t) (k_cache_line_size t - 1) ≡ 0)
      × (k_cache_line_size t ≤ k_destructive_interference_size t)
      × (k_constructive_interference_size t ≤ k_cache_line_size t)
      × ((n + k_padding_size (k_cache_line_size t) n) % k_cache_line_size t ≡ 0)
      × (k_padding_size (k_cache_line_size t) n < k_cache_line_size t)
unfolding k_destructive_interference_size k_constructive_interference_size k_padding_size
cache_line_lem t n = elim (line_sizes t) [
  | inl e ↦
      rw e (asserted t, omega arith, refl, ground arith, ground arith, omega arith, omega arith)
  | inr e ↦
      rw e (asserted t, omega arith, refl, ground arith, ground arith, omega arith, omega arith)
]

-- On every target, and for every alignment of the elements, the two indices and the storage of the
-- ring buffer start at least a cache line apart from each other.
pub ring_offsets_lem :
    (t : Target) (alignment_of_element : ℕ)
    → let o = ring_offsets (k_cache_line_size t) alignment_of_element in
      (o.write_index + k_cache_line_size t ≤ o.read_index)
      × (o.read_index + k_cache_line_size t ≤ o.storage)
unfolding ring_offsets align_up
ring_offsets_lem t a = elim (line_sizes t) [
  | inl e ↦ rw e (omega arith, omega arith)
  | inr e ↦ rw e (omega arith, omega arith)
]

-- On every target and with every choice of the switches, the fields of a record other than the
-- message length start cache lines, the message length follows the time stamp, and the record
-- takes whole cache lines, at most seven more than its message needs.
pub record_offsets_lem :
    (t : Target) (cfg : Config)
    → let size = k_cache_line_size t in
      let o = record_offsets size cfg in
      (o.timestamp ≡ size)
      × (o.message_length ≡ size + 8)
      × (o.thread_id ≡ 2 * size)
      × (o.file % size ≡ 0)
      × (o.function ≡ o.file + size)
      × (o.line ≡ o.file + 2 * size)
      × (o.message % size ≡ 0)
      × (o.message ≤ 6 * size)
      × (o.size_of % size ≡ 0)
      × (o.size_of < cfg.max_message_size + 7 * size)
unfolding record_offsets align_up k_padding_size
record_offsets_lem t cfg = elim (line_sizes t) [
  | inl e ↦ rw e (ground arith)
  | inr e ↦ rw e (ground arith)
]

-- The cache lines before the message of a record.
abbrev pub lines_before : Config → ℕ
lines_before cfg =
    2 + (if cfg.enable_thread_id then 1 else 0) + (if cfg.enable_source_location then 3 else 0)

-- On every target and with every choice of the switches, the assertion on the size of a record lets
-- a message size pass exactly if it is no larger than 4096 bytes less the lines before the
-- message: two, one more with thread ids, and three more with source locations.
pub record_assertion_lem :
    (t : Target) (cfg : Config)
    → (record_assertion (k_cache_line_size t) cfg ≡ true)
      ↔ (cfg.max_message_size + lines_before cfg * k_cache_line_size t ≤ 4096)
unfolding record_assertion record_offsets align_up k_padding_size
record_assertion_lem t cfg = elim (line_sizes t) [
  | inl e ↦ rw e (ground arith)
  | inr e ↦ rw e (ground arith)
]
