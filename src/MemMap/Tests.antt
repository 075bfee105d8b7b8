-- ===== src/MemMap/Tests.antt =====
-- The memory map at small inputs.
use bongos.Common.{◌≡◌, refl, none, some, List, [], ◌∷◌, arith, ℕ}
use bongos.MemMap.{
  MemMapInput, BootMemRegion, efi_type_to_boot_mem, e820_type_to_boot_mem, round_input, rank,
  collect, insert_back, sort_onto, unique_after, unique, points, best, push_region, sweep,
  sweep_all, normalize,
}
use bongos.Common.Bits.{test_bit}
use bongos.MemMap.Result.{IsNormal, normalize-IsNormal}
use bongos.MemMap.Total.{normalize_total}

-- Usable memory with a kernel in it, and a reserved range that overlaps its end.
abbrev inputs : List MemMapInput
inputs =
    record { base = 0x800; length = 0x7900; type = 1 }
    ∷ record { base = 0x2000; length = 0x1000; type = 7 }
    ∷ record { base = 0x7800; length = 0x1000; type = 2 }
    ∷ []

abbrev regions : List BootMemRegion
regions =
    record { base = 0x1000; length = 0x1000; type = 1 }
    ∷ record { base = 0x2000; length = 0x1000; type = 7 }
    ∷ record { base = 0x3000; length = 0x4000; type = 1 }
    ∷ record { base = 0x7000; length = 0x2000; type = 2 }
    ∷ []

normalizes : normalize inputs 8 ≡ some regions
unfolding normalize points collect insert_back sort_onto unique_after unique best push_region sweep
    sweep_all round_input rank
normalizes = refl

full : normalize inputs 3 ≡ none
unfolding normalize points collect insert_back sort_onto unique_after unique best push_region sweep
    sweep_all round_input rank
full = refl

efi_special_purpose : efi_type_to_boot_mem 7 0x40000 ≡ 2
unfolding efi_type_to_boot_mem test_bit
efi_special_purpose = refl

e820_non_volatile : e820_type_to_boot_mem 1 2 ≡ 2
unfolding e820_type_to_boot_mem test_bit
e820_non_volatile = refl

normalize-IsNormal_example : IsNormal inputs 8 regions
normalize-IsNormal_example = normalize-IsNormal inputs 8 regions (omega arith) normalizes

normalize_total_example : (out : List BootMemRegion) × (normalize inputs 6 ≡ some out)
normalize_total_example = normalize_total inputs 6 (omega arith)

abbrev loader : List MemMapInput
loader =
    record { base = 0x1000; length = 0x1000; type = 7 }
    ∷ record { base = 0x5000; length = 0x3000; type = 2 }
    ∷ []

abbrev overlay_size : ℕ
overlay_size = 0x2000
