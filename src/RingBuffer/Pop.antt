-- ===== src/RingBuffer/Pop.antt =====
-- `TryPop` refines the pop of the bounded queue.
use low_latency_logger.Prelude.{
  ℕ, suc, ◌+◌, ◌%◌, ◌<◌, bit_and, true, false, List, [], ◌∷◌, ◌≡◌, refl, sym, ap, ◌∙◌, get_elem?,
  get_elem?-none, arith, none, update, ◌==◌, dec_lt,
}
use native.Mathlib.Nat.{add-mod_right, mod-mod_of_dvd, mod-add-mod}
use low_latency_logger.RingBuffer.{SpscRingBuffer, empty, item, next_index, k_mask, try_pop}
use low_latency_logger.RingBuffer.Capacity.{IsCapacity, mask-index, capacity-dvd}
use low_latency_logger.RingBuffer.Queue.{Holds, pop}
use low_latency_logger.RingBuffer.Push.{slot-injective}

-- One place further from the next index is one more place from this one.
shift-slot : {c : ℕ} (v : IsCapacity c) (i j : ℕ) → (next_index i + j) % c ≡ (i + suc j) % c
shift-slot {c} v i j =
    sym (mod-add-mod (next_index i) c j)
    ∙ ap (λ t. (t + j) % c) (mod-mod_of_dvd c (i + 1) (capacity-dvd v))
    ∙ mod-add-mod (i + 1) c j
    ∙ ap (λ t. t % c) (omega arith)

module _ {A : Type 0} {c : ℕ} (v : IsCapacity c) {r : SpscRingBuffer A} where
  read-slot : (q : List A) → Holds c r q → bit_and r.read_index (k_mask c) ≡ (r.read_index + 0) % c
  read-slot q h =
      ap (λ i. bit_and i (k_mask c)) (omega (arith, h.read_fits)) ∙ mask-index v (r.read_index + 0)

  popped-cells :
      (x : A) (q : List A)
      → Holds c r (x ∷ q)
      → (j : ℕ) → j < c
      → update r.storage ((r.read_index + 0) % c) none ((next_index r.read_index + j) % c)
        ≡ get_elem? q j
  popped-cells x q h j hj = rw (shift-slot v r.read_index j) (elim (dec_lt (suc j) c) [
    | yes inside ↦ ground (arith, h.cells (suc j), slot-injective c r.read_index 0 (suc j))
    | no last ↦
        let round : (r.read_index + suc j) % c ≡ (r.read_index + 0) % c =
          let all : r.read_index + suc j ≡ r.read_index + 0 + c = omega arith in
          rw all (add-mod_right (r.read_index + 0) c) in
        ground (arith, get_elem?-none q j, h.room)
  ])

  -- For a capacity that passes the static assertions: on a ring that holds a queue, `TryPop`
  -- returns what the queue returns, never a fault, and leaves the ring holding the rest.
  pub try_pop-refines :
      {q : List A}
      → Holds c r q
      → let (out, r') = try_pop c r in let (front, q') = pop q in (out ≡ front) × Holds c r' q'
  unfolding try_pop pop
  try_pop-refines {q = []} h =
      let same : (r.read_index == r.write_index) ≡ true = ground (arith, h.read_fits, h.write_at) in
      rw same (refl, h)
  try_pop-refines {q = x ∷ q} h =
      let differ : (r.read_index == r.write_index) ≡ false =
        ground (arith, h.read_fits, h.write_at, h.room, v.fits) in
      rw (differ, read-slot (x ∷ q) h, h.cells 0 (omega (arith, v)))
        (
          refl,
          record {
            read_fits = omega arith;
            write_at = omega (arith, h.write_at);
            room = omega (arith, h.room);
            cells = λ j hj. rw (read-slot (x ∷ q) h) (popped-cells x q h j hj);
          },
        )

  pub try_pop-cons :
      (x : A) (q : List A)
      → Holds c r (x ∷ q)
      → ((try_pop c r).0 ≡ item x) × Holds c (try_pop c r).1 q
  unfolding pop
  try_pop-cons x q h = try_pop-refines h

  pub try_pop-nil : Holds c r [] → try_pop c r ≡ (empty, r)
  unfolding try_pop
  try_pop-nil h =
      let same : (r.read_index == r.write_index) ≡ true = ground (arith, h.read_fits, h.write_at) in
      rw same

  pub read_index-try_pop :
      {x : A} {q : List A}
      → Holds c r (x ∷ q)
      → (try_pop c r).1.read_index ≡ next_index r.read_index
  unfolding try_pop
  read_index-try_pop {x} {q} h =
      let differ : (r.read_index == r.write_index) ≡ false =
        ground (arith, h.read_fits, h.write_at, h.room, v.fits) in
      rw (differ, read-slot (x ∷ q) h, h.cells 0 (omega (arith, v)))
