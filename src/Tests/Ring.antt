-- ===== src/Tests/Ring.antt =====
-- The ring buffer, at indices that wrap round both the storage and 2^64.
use low_latency_logger.Prelude.{
  ℕ, zero, suc, ◌+◌, ◌-◌, ◌%◌, ◌^◌, ◌<◌, true, false, none, some, List, [], ◌∷◌, ◌≡◌, refl,
  get_elem?, arith, ◌==◌, if◌then◌else◌,
}
use low_latency_logger.RingBuffer.{
  SpscRingBuffer, item, empty, init, try_push, try_pop, size_between, full_between,
}
use low_latency_logger.RingBuffer.Queue.{Holds, init-Holds}
use low_latency_logger.RingBuffer.Run.{
  Call, offer, take_one, offered, taken, run, run_queue, run-refines,
}
use low_latency_logger.RingBuffer.Observe.{stale_load_wraps}
use low_latency_logger.Tests.{four-IsCapacity}

-- 5 in the last slot, then 6 in the first; the write index has wrapped, the read index has not.
abbrev wrapped : SpscRingBuffer ℕ
wrapped = record {
  write_index = 1;
  read_index = 2 ^ 64 - 1;
  storage = λ i. if i == 3 then some 5 else if i == 0 then some 6 else none;
}

abbrev held : List ℕ
held = 5 ∷ 6 ∷ []

abbrev seven : ℕ
seven = 7

abbrev script : List (Call ℕ)
script = offer 7 ∷ offer 8 ∷ take_one ∷ take_one ∷ take_one ∷ take_one ∷ []

wrapped-Holds : Holds 4 wrapped held
wrapped-Holds = record {
  read_fits = omega arith;
  write_at = omega arith;
  room = omega arith;
  cells = cells_at;
}
  where
    cells_at : (j : ℕ) → j < 4 → wrapped.storage ((2 ^ 64 - 1 + j) % 4) ≡ get_elem? held j
    cells_at zero h = refl
    cells_at (suc zero) h = refl
    cells_at (suc (suc zero)) h = refl
    cells_at (suc (suc (suc zero))) h = refl
    cells_at (suc (suc (suc (suc j)))) h = absurd (omega arith)

run-wrapped :
    (run 4 wrapped script).0
    ≡ offered true
      ∷ offered false
      ∷ taken (item 5)
      ∷ taken (item 6)
      ∷ taken (item 7)
      ∷ taken empty
      ∷ []
unfolding run try_push try_pop
run-wrapped = refl

run-refines_example :
    let (replies, r') = run 4 wrapped script in
    let (expected, q') = run_queue 4 held script in (replies ≡ expected) × Holds 4 r' q'
run-refines_example = run-refines four-IsCapacity script wrapped held wrapped-Holds

stale_load_wraps_example :
    let after = (try_pop 4 (try_push 4 seven init).1).1 in
    Holds 4 after [] × (size_between init after ≡ 2 ^ 64 - 1) × (full_between 4 init after ≡ true)
stale_load_wraps_example = stale_load_wraps four-IsCapacity seven (init-Holds 4 four-IsCapacity)
