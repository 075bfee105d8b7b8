-- ===== src/Buddy/Tests.antt =====
-- A zone with one free block.
use bongos.Common.{
  ℕ, ◌+◌, ◌^◌, ◌≤◌, ◌≡◌, ◌⊎◌, refl, none, some, [], ◌∷◌, ◌==◌, if◌then◌else◌, arith, inl, inr,
  same_or_not, eq→==, ne→==,
}
use bongos.Common.Bits.{test_bit, set_bit, clear_bit}
use bongos.Buddy.{
  PmmZone, Page, reserved, buddy, free_block, alloc_block, merge, buddy_of, link_block,
  unlink_block, list_remove,
}
use bongos.Buddy.Blocks.{IsBlock, IsValid, In}
use bongos.Buddy.Links.{Links}
use bongos.Buddy.Free.{IsBusy, free_block-Links}
use bongos.Buddy.Alloc.{Allocates, alloc_block-Allocates}

-- The frames 4 to 7 are free.
abbrev pages : ℕ → Page
pages p =
    if p == 4 then record { state = buddy; order = 2 } else record { state = reserved; order = 0 }

abbrev zone : PmmZone
zone = record {
  free_list = λ k. if k == 2 then 4 ∷ [] else [];
  free_blocks = λ k. if k == 2 then 1 else 0;
  free_pages = 4;
  managed_pages = 8;
  start_pfn = 0;
  end_pfn = 1024;
  name = 1;
  pages = pages;
}

only_block : (p k : ℕ) → IsBlock zone p k → (p ≡ 4) × (k ≡ 2)
only_block p k b = ground arith

only_listed : (k p : ℕ) → In p (zone.free_list k) → (p ≡ 4) × (k ≡ 2)
only_listed k p m = elim (same_or_not k 2) [
  | inl s ↦ let e = eq→== s in elim (rw e at m) [ inl at_4 ↦ (at_4, s) | inr rest ↦ absurd rest ]
  | inr n ↦ let e = ne→== n in absurd (rw e at m)
]

zone-IsValid : IsValid zone
zone-IsValid = record {
  listed = λ k p. (
    (λ m. let (at_4, of_2) = only_listed k p m in rw (at_4, of_2) (refl, refl)),
    (λ b. let (at_4, of_2) = only_block p k b in rw (at_4, of_2) (inl refl)),
  );
  once = λ k. elim (same_or_not k 2) [
    | inl s ↦ let e = eq→== s in rw e ((λ m. m), tt)
    | inr n ↦ let e = ne→== n in rw e tt
  ];
  counts = λ k. ground arith;
  top = λ p k b. omega (arith, only_block p k b);
  aligned = λ p k b. let (at_4, of_2) = only_block p k b in (1, rw (at_4, of_2) refl);
  apart = λ p k q j x b c u w. omega (arith, only_block p k b, only_block q j c);
}

low_busy : IsBusy zone 2 1
low_busy x w (p, k, b, u) = let o = only_block p k b in omega (arith, o, w, u)

free_block-Links_example :
    Links zone 2 1 (free_block zone 2 1) × ((free_block zone 2 1).free_pages ≡ 4 + 2 ^ 1)
free_block-Links_example = free_block-Links zone 2 1 zone-IsValid (omega arith) (1, refl) low_busy

alloc_block-Allocates_example :
    (alloc_block zone 0 ≡ none) × ((p j : ℕ) → 0 ≤ j → IsBlock zone p j → ⊥)
    ⊎ ((p : ℕ) × (z' : PmmZone) × (alloc_block zone 0 ≡ some (p, z')) × Allocates zone 0 p z')
alloc_block-Allocates_example = alloc_block-Allocates zone 0 zone-IsValid (omega arith)

-- The frames 2 and 3 merge with nothing; 0 and 1 then merge with them, and all four with 4 to 7.
all_merged : (free_block (free_block zone 2 1) 0 1).free_list 3 ≡ 0 ∷ []
unfolding free_block merge buddy_of link_block unlink_block list_remove test_bit set_bit clear_bit
all_merged = refl
