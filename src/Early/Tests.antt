-- ===== src/Early/Tests.antt =====
-- Two usable ranges of four frames.
use bongos.Common.{ℕ, ◌+◌, ◌*◌, ◌≡◌, ◌↔◌, ◌⊎◌, refl, Bool, true, false, some, [], ◌∷◌, arith}
use bongos.Early.{
  EarlyState, err_no_memory, allocated, init_ranges, early_init, take_pages, early_alloc_pages,
  seal, was_allocated,
}
use bongos.Early.Bump.{IsAscending, IsUsed, TooFew, Takes, early_alloc_pages-Takes}
use bongos.Early.Seal.{was_allocated-seal}

abbrev fresh : EarlyState
fresh = early_init ((256, 260) ∷ (512, 516) ∷ [])

abbrev after_two : EarlyState
after_two = record {
  ranges =
      record { start_pfn = 256; end_pfn = 260; cursor = 260; original_end = 260 }
      ∷ record { start_pfn = 512; end_pfn = 516; cursor = 514; original_end = 516 }
      ∷ [];
  is_sealed = false;
  used_pages = 2;
}

two_taken : early_alloc_pages fresh 2 ≡ allocated (514 * 4096) after_two
unfolding early_alloc_pages take_pages early_init init_ranges
two_taken = refl

after_two-IsAscending : IsAscending 0 after_two.ranges
after_two-IsAscending = omega arith

early_alloc_pages-Takes_example :
    (early_alloc_pages after_two 3 ≡ err_no_memory) × TooFew 3 after_two.ranges
    ⊎ ((pfn : ℕ) × (s' : EarlyState) × (early_alloc_pages after_two 3 ≡ allocated (pfn * 4096) s')
        × Takes 0 3 after_two.ranges pfn s'.ranges
        × (s'.used_pages ≡ 2 + 3)
        × (s'.is_sealed ≡ false))
early_alloc_pages-Takes_example = early_alloc_pages-Takes after_two 3 refl after_two-IsAscending

was_allocated-seal_example :
    (b : Bool) × (was_allocated (seal after_two) 515 ≡ some b)
    × ((b ≡ true) ↔ IsUsed after_two.ranges 515)
was_allocated-seal_example = was_allocated-seal after_two 515 refl
