-- ===== src/RingBuffer/Slots.antt =====
-- Where the elements of internal/ring_buffer.h live: `GetSlot` and the bytes of `storage_`.
use low_latency_logger.Prelude.{
  ℕ, zero, suc, ◌+◌, ◌*◌, ◌%◌, ◌^◌, ◌≤◌, ◌<◌, bit_and, ◌≡◌, ◌≢◌, ◌⊎◌, inl, inr, ap, arith, dec_lt,
}
use native.Mathlib.Nat.{mul-le-mul_right, suc-mul, add-mod, mod-eq_of_lt, mod-lt}
use low_latency_logger.RingBuffer.{k_mask}
use low_latency_logger.RingBuffer.Capacity.{IsCapacity, mask-index}

-- `sizeof(T)`, `alignof(T)` and the address of `storage_`.
pub record Memory : Type 0 where
  pub size_of : ℕ
  pub align_of : ℕ
  pub storage : ℕ

-- `GetSlot(index)`, as an address.
unfoldable pub get_slot : Memory → ℕ → ℕ
get_slot mem index = mem.storage + index * mem.size_of

-- The address after the last byte of `storage_`.
abbrev pub storage_end : ℕ → Memory → ℕ
storage_end capacity mem = mem.storage + capacity * mem.size_of

-- What the compiler grants: an object takes whole multiples of its alignment, and `storage_` is
-- aligned for it.
pub record IsMemory (mem : Memory) : Type 0 where
  pub aligned : 0 < mem.align_of
  pub whole : mem.size_of % mem.align_of ≡ 0
  pub placed : mem.storage % mem.align_of ≡ 0

slots-aligned :
    (base size a : ℕ) → 0 < a → base % a ≡ 0 → size % a ≡ 0 → (k : ℕ) → (base + k * size) % a ≡ 0
slots-aligned base size a pos h whole zero =
    let none : base + 0 * size ≡ base = omega arith in rw none h
slots-aligned base size a pos h whole (suc k) =
    let next : base + suc k * size ≡ base + k * size + size = omega (arith, suc-mul k size) in
    rw (next, add-mod (base + k * size) size a, slots-aligned base size a pos h whole k, whole)
      (mod-eq_of_lt pos)

-- A slot of a smaller index ends before the other one begins.
slots-apart : (k n size : ℕ) → k < n → k * size + size ≤ n * size
slots-apart k n size h = omega (arith, suc-mul k size, mul-le-mul_right {m = suc k} {n = n} size h)

-- For a capacity that passes the static assertions, and a type whose size is a multiple of its
-- alignment in a storage aligned for it: the slots that `GetSlot` returns for any two elements
-- ever pushed, whether or not the indices wrapped at 2^64, lie in `storage_` and are aligned; and
-- they are the same slot if the elements lie a multiple of `Capacity` apart, and else share no
-- byte.
pub get_slot_lem :
    {c : ℕ}
    → IsCapacity c
    → (mem : Memory) → IsMemory mem
    → (i j : ℕ)
    → let at = get_slot mem (bit_and (i % 2 ^ 64) (k_mask c)) in
      let other = get_slot mem (bit_and (j % 2 ^ 64) (k_mask c)) in
      (mem.storage ≤ at)
      × (at + mem.size_of ≤ storage_end c mem)
      × (at % mem.align_of ≡ 0)
      × ((i % c ≡ j % c) × (at ≡ other)
          ⊎ (i % c ≢ j % c) × ((at + mem.size_of ≤ other) ⊎ (other + mem.size_of ≤ at)))
unfolding get_slot
get_slot_lem {c} v mem ok i j =
    let inside : i % c < c = mod-lt i (omega (arith, v.more_than_one)) in
    rw (mask-index v i, mask-index v j)
      (
        omega arith,
        omega (arith, slots-apart (i % c) c mem.size_of inside),
        slots-aligned mem.storage mem.size_of mem.align_of ok.aligned ok.placed ok.whole (i % c),
        elim (dec_lt (i % c) (j % c)) [
          | yes before ↦ inr (
            (λ e. omega (arith, e, before)),
            inl (omega (arith, slots-apart (i % c) (j % c) mem.size_of before)),
          )
          | no not_before ↦ elim (dec_lt (j % c) (i % c)) [
            | yes after ↦ inr (
              (λ e. omega (arith, e, after)),
              inr (omega (arith, slots-apart (j % c) (i % c) mem.size_of after)),
            )
            | no not_after ↦
                let same : i % c ≡ j % c = omega (arith, not_before, not_after) in
                inl (same, ap (λ k. mem.storage + k * mem.size_of) same)
          ]
        ],
      )
