-- ===== src/RingBuffer/Push.antt =====
-- `TryPush` refines the push of the bounded queue.
use low_latency_logger.Prelude.{
  ℕ, ◌+◌, ◌-◌, ◌%◌, ◌<◌, bit_and, List, [], ◌∷◌, ◌++◌, ◌≡◌, refl, sym, ap, ◌∙◌, leb, true, false,
  length, get_elem?, get_elem?-append, length-append, if◌then◌else◌, arith, some, update,
  Bool-cases, inl, inr, dec_lt,
}
use low_latency_logger.Prelude.Modular.{mod-injective}
use low_latency_logger.RingBuffer.{
  SpscRingBuffer, distance, next_index, k_mask, try_push, try_push_move,
}
use low_latency_logger.RingBuffer.Capacity.{IsCapacity, mask-index}
use low_latency_logger.RingBuffer.Queue.{Holds, push}

-- Two places of the window of `c` slots after `r` share a slot only if they are the same.
pub slot-injective : (c r i j : ℕ) → i < c → j < c → (r + i) % c ≡ (r + j) % c → i ≡ j
slot-injective c r i j hi hj e = elim (dec_lt i j) [
  | yes up ↦ omega (arith, mod-injective c (r + i) (r + j) (omega arith) (omega arith) e)
  | no down ↦ omega (arith, mod-injective c (r + j) (r + i) (omega arith) (omega arith) (sym e))
]

module _ {A : Type 0} {c : ℕ} (v : IsCapacity c) {r : SpscRingBuffer A} {q : List A}
    (h : Holds c r q) where
  -- The subtraction of the indices is exact, even after either has wrapped.
  pub distance-Holds : distance r.write_index r.read_index ≡ length q
  distance-Holds = omega (arith, h.read_fits, h.write_at, h.room, v.fits)

  pub write-slot : bit_and r.write_index (k_mask c) ≡ (r.read_index + length q) % c
  write-slot = ap (λ w. bit_and w (k_mask c)) h.write_at ∙ mask-index v (r.read_index + length q)

  pushed-cells :
      (x : A) (j : ℕ)
      → j < c
      → update r.storage ((r.read_index + length q) % c) (some x) ((r.read_index + j) % c)
        ≡ get_elem? (q ++ x ∷ []) j
  pushed-cells x j hj =
      ground (
        arith,
        h.cells j,
        h.room,
        get_elem?-append q x j,
        slot-injective c r.read_index (length q) j,
      )

  -- The ring after the element is constructed in its slot and the write index published.
  abbrev stored : A → SpscRingBuffer A
  stored x = record r {
    storage = update r.storage (bit_and r.write_index (k_mask c)) (some x);
    write_index = next_index r.write_index;
  }

  stored-Holds : (x : A) → length q < c - 1 → Holds c (stored x) (q ++ x ∷ [])
  stored-Holds x room = record {
    read_fits = h.read_fits;
    write_at = omega (arith, length-append {0} q (x ∷ []), h.write_at);
    room = omega (arith, length-append {0} q (x ∷ []));
    cells = λ j hj. rw write-slot (pushed-cells x j hj);
  }

  -- For a capacity that passes the static assertions: on a ring that holds a queue, `TryPush(const
  -- T &)` answers as the bounded queue does, and leaves the ring holding the queue after the push,
  -- with the element appended if there was room, and as it was otherwise.
  pub try_push-refines :
      (x : A)
      → let (done, r') = try_push c x r in
        let (pushed, q') = push c x q in (done ≡ pushed) × Holds c r' q'
  unfolding try_push push
  try_push-refines x = elim (Bool-cases (leb (c - 1) (length q))) [
    | inl full ↦ rw (distance-Holds, full) (refl, h)
    | inr free ↦ rw (distance-Holds, free) (refl, stored-Holds x (ground arith))
  ]

  pub try_push-room :
      (x : A)
      → length q < c - 1
      → ((try_push c x r).0 ≡ true) × Holds c (try_push c x r).1 (q ++ x ∷ [])
  unfolding try_push
  try_push-room x room =
      let free : leb (c - 1) (length q) ≡ false = ground arith in
      rw (distance-Holds, free) (refl, stored-Holds x room)

  pub try_push-full : (x : A) → length q ≡ c - 1 → try_push c x r ≡ (false, r)
  unfolding try_push
  try_push-full x e =
      let full : leb (c - 1) (length q) ≡ true = ground arith in rw (distance-Holds, full)

  -- For a capacity that passes the static assertions: on a ring that holds a queue, `TryPush(T
  -- &&)` is `TryPush(const T &)` on the ring, and moves from the element of the caller only if
  -- there was room.
  pub try_push_move_lem :
      (moved : A → A) (x : A)
      → let (done, source, r') = try_push_move c moved x r in
        ((done, r') ≡ try_push c x r) × (source ≡ (if (push c x q).0 then moved x else x))
  unfolding try_push_move try_push push
  try_push_move_lem moved x = elim (Bool-cases (leb (c - 1) (length q))) [
    | inl full ↦ rw (distance-Holds, full) (refl, refl)
    | inr free ↦ rw (distance-Holds, free) (refl, refl)
  ]

pub read_index-try_push :
    {A : Type 0} (c : ℕ) (x : A) (r : SpscRingBuffer A)
    → (try_push c x r).1.read_index ≡ r.read_index
unfolding try_push
read_index-try_push c x r = ground arith
