-- ===== src/Kva/Tests.antt =====
-- kvaAlloc and kvaFree at small inputs.
use bongos.Common.{ℕ, ◌+◌, ◌-◌, ◌≡◌, refl, none, some, [], ◌∷◌, arith, u64_mod, ◌≤◌}
use bongos.Kva.{
  KvaState, ok, err_invalid, state_init, alloc, free, release_at, find_idx, first_fit, guard_size,
}
use bongos.Kva.Alloc.{Reserved, alloc-Reserved, alloc_total, alloc_fails}
use bongos.Kva.Free.{Freed, free-Freed, free_wraps, free_fails}

abbrev fresh : KvaState
fresh = record {
  base = 0x10000;
  end = 0x20000;
  extents = record { start = 0x10000; end = 0x20000 } ∷ [];
  live_count = 0;
}

abbrev taken : KvaState
taken = record fresh { extents = record { start = 0x14000; end = 0x20000 } ∷ []; live_count = 1 }

fresh_is_initial : state_init 0x10000 0x20000 ≡ fresh
unfolding state_init
fresh_is_initial = refl

alloc_two_pages : alloc fresh 0x2000 ≡ (ok, some 0x11000, taken)
unfolding alloc first_fit
alloc_two_pages = refl

free_two_pages : free taken 0x11000 0x2000 ≡ (ok, fresh)
unfolding free release_at find_idx
free_two_pages = refl

double_free : free fresh 0x11000 0x2000 ≡ (err_invalid, fresh)
unfolding free release_at find_idx
double_free = refl

alloc-Reserved_example : Reserved fresh 0x2000 0x11000 taken
alloc-Reserved_example =
    alloc-Reserved fresh 0x2000 0x11000 taken (omega arith) (omega arith) alloc_two_pages

alloc_total_example : (va : ℕ) × (st' : KvaState) × (alloc taken 0x3000 ≡ (ok, some va, st'))
alloc_total_example =
    alloc_total taken 0x3000 0x15000 (omega arith) (omega arith) (omega arith) (λ a w. ground arith)

alloc_fails_example : ((alloc fresh 0x1001).1 ≡ none) × ((alloc fresh 0x1001).2 ≡ fresh)
unfolding alloc
alloc_fails_example = alloc_fails fresh 0x1001 (λ e. cc)

free-Freed_example : Freed taken 0x11000 0x2000 fresh
free-Freed_example =
    free-Freed taken 0x11000 0x2000 fresh (omega arith) (omega arith) (omega arith) free_two_pages

free_wraps_example :
    (free taken 0x12000 (u64_mod - guard_size) ≡ (
      ok,
      record taken {
        extents = record { start = 0x11000; end = 0x12000 } ∷ taken.extents;
        live_count = 0;
      },
    ))
    × ¬ (0x12000 + (u64_mod - guard_size) + guard_size ≤ taken.end)
unfolding release_at find_idx
free_wraps_example =
    free_wraps taken 0x12000 (record { start = 0x11000; end = 0x12000 } ∷ taken.extents)
      (omega arith) (omega arith) (omega arith) refl

free_fails_example : (free fresh 0x11000 0x2000).1 ≡ fresh
unfolding free release_at find_idx
free_fails_example = free_fails fresh 0x11000 0x2000 (λ e. cc)
