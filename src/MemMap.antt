-- ===== src/MemMap.antt =====
-- boot/common/memmap.c: firmware memory maps to the map that the kernel is given.
-- A `BootMemType` is its number in boot/common/include/bootinfo.h. A rank is one more than
-- memMapRank's, so that 0 stands for its -1.
pub mod Points
pub mod Sweep
pub mod Regions
pub mod Result
pub mod Total
pub mod Overlay
mod Tests
use bongos.Common.{
  ℕ, zero, suc, ◌+◌, ◌-◌, ◌%◌, Bool, true, false, not, ◌&&◌, ◌||◌, Option, none, some, List, [],
  ◌∷◌, ◌++◌, ltb, leb, ◌==◌, if◌then◌else◌, length, reverse_onto, add64, sub64,
}
use bongos.Common.Bits.{test_bit}

abbrev pub usable : ℕ
usable = 1

abbrev pub reserved : ℕ
reserved = 2

abbrev pub acpi_reclaim : ℕ
acpi_reclaim = 3

abbrev pub acpi_nvs : ℕ
acpi_nvs = 4

abbrev pub bad : ℕ
bad = 5

abbrev pub loader_reclaim : ℕ
loader_reclaim = 6

abbrev pub kernel : ℕ
kernel = 7

abbrev pub initrd : ℕ
initrd = 8

abbrev pub framebuffer : ℕ
framebuffer = 9

abbrev pub page_size : ℕ
page_size = 4096

-- The bit 0x40000 of `attribute` is EFI_MEMORY_SP.
pub efi_type_to_boot_mem : ℕ → ℕ → ℕ
efi_type_to_boot_mem efi_type attribute =
    if efi_type == 1 || efi_type == 2 || efi_type == 3 || efi_type == 4
    then usable
    else if efi_type == 7
    then if test_bit attribute 18 then reserved else usable
    else if efi_type == 8
    then bad
    else if efi_type == 9
    then acpi_reclaim
    else if efi_type == 10
    then acpi_nvs
    else reserved

pub e820_type_to_boot_mem : ℕ → ℕ → ℕ
e820_type_to_boot_mem e820_type ext_attr =
    if e820_type == 1
    then if test_bit ext_attr 1 then reserved else usable
    else if e820_type == 3
    then acpi_reclaim
    else if e820_type == 4
    then acpi_nvs
    else if e820_type == 5
    then bad
    else reserved

pub record MemMapInput : Type 0 where
  pub base : ℕ
  pub length : ℕ
  pub type : ℕ

pub record BootMemRegion : Type 0 where
  pub base : ℕ
  pub length : ℕ
  pub type : ℕ

pub data BootStatus : Type 0 where
  ok err_memmap_capacity err_memmap_overlay : BootStatus

-- `align` is a power of two, so that `x & ~(align - 1)` drops the remainder.
abbrev pub align_down : ℕ → ℕ → ℕ
align_down x align = x - x % align

abbrev pub align_up : ℕ → ℕ → ℕ
align_up x align = align_down (add64 x (align - 1)) align

-- The rounded range, where the input is not dropped.
pub round_input : MemMapInput → Option (ℕ × ℕ)
round_input r =
    let end = add64 r.base r.length in
    let inner = r.type == usable in
    let base = if inner then align_up r.base page_size else align_down r.base page_size in
    let rounded_end = if inner then align_down end page_size else align_up end page_size in
    if r.length == 0 || ltb end r.base
    then none
    else if (if inner then ltb base r.base else ltb rounded_end end)
    then none
    else if leb rounded_end base
    then none
    else some (base, rounded_end)

pub rank : ℕ → ℕ
rank type =
    if type == usable
    then 1
    else if type == loader_reclaim
    then 2
    else if type == initrd
    then 3
    else if type == kernel
    then 4
    else if type == acpi_reclaim
    then 5
    else if type == acpi_nvs
    then 6
    else if type == reserved
    then 7
    else if type == framebuffer
    then 8
    else if type == bad
    then 9
    else 0

-- The first loop: both ends of every rounded input.
pub collect : List MemMapInput → List ℕ
collect [] = []
collect (r ∷ rs) = elim (round_input r) [
  | none ↦ collect rs
  | some (base, end) ↦ base ∷ end ∷ collect rs
]

-- The insertion sort. The sorted part is held last element first, as the inner loop walks it.
pub insert_back : ℕ → List ℕ → List ℕ
insert_back key [] = key ∷ []
insert_back key (x ∷ done) =
    let rest = insert_back key done in if ltb key x then x ∷ rest else key ∷ x ∷ done

pub sort_onto : List ℕ → List ℕ → List ℕ
sort_onto done [] = done
sort_onto done (x ∷ xs) = sort_onto (insert_back x done) xs

-- The loop that drops repeated points: `k` is the point kept last. Where `x` is dropped it equals
-- `k`, so the call goes on from `x` in both cases.
pub unique_after : ℕ → List ℕ → List ℕ
unique_after k [] = []
unique_after k (x ∷ xs) = let rest = unique_after x xs in if x == k then rest else x ∷ rest

pub unique : List ℕ → List ℕ
unique [] = []
unique (x ∷ xs) = x ∷ unique_after x xs

-- The points in ascending order, each once.
pub points : List MemMapInput → List ℕ
points inputs = unique (reverse_onto (sort_onto [] (collect inputs)) [])

-- The rank and type of the best input over [start, end).
pub best : List MemMapInput → ℕ → ℕ → ℕ × ℕ → ℕ × ℕ
best [] start end found = found
best (r ∷ rs) start end (best_rank, best_type) = best rs start end (elim (round_input r) [
  | none ↦ (best_rank, best_type)
  | some (b, e) ↦
      if leb b start && leb end e && ltb best_rank (rank r.type)
      then (rank r.type, r.type)
      else (best_rank, best_type)
])

-- One more region at the end of the output, which is held last element first: it grows the last
-- region where that has the same type and touches it. `none` is BOOT_ERR_MEMMAP_CAPACITY.
pub push_region : ℕ → List BootMemRegion → ℕ → ℕ → ℕ → Option (List BootMemRegion)
push_region cap [] start end type =
    if leb cap 0
    then none
    else some (record { base = start; length = sub64 end start; type = type } ∷ [])
push_region cap (r ∷ out) start end type =
    if r.type == type && add64 r.base r.length == start
    then some (record r { length = add64 r.length (sub64 end start) } ∷ out)
    else if leb cap (length (r ∷ out))
    then none
    else some (record { base = start; length = sub64 end start; type = type } ∷ r ∷ out)

-- The sweep over consecutive points.
pub sweep : List MemMapInput → ℕ → ℕ → List ℕ → List BootMemRegion → Option (List BootMemRegion)
sweep inputs cap start [] out = some out
sweep inputs cap start (end ∷ pts) out =
    let (best_rank, best_type) = best inputs start end (0, 0) in
    elim (if best_rank == 0 then some out else push_region cap out start end best_type) [
      | none ↦ none
      | some out' ↦ sweep inputs cap end pts out'
    ]

pub sweep_all : List MemMapInput → ℕ → List ℕ → Option (List BootMemRegion)
sweep_all inputs cap [] = some []
sweep_all inputs cap (p ∷ pts) = sweep inputs cap p pts []

-- The output in order; `none` is BOOT_ERR_MEMMAP_CAPACITY.
pub normalize : List MemMapInput → ℕ → Option (List BootMemRegion)
normalize inputs cap = elim (sweep_all inputs cap (points inputs)) [
  | none ↦ none
  | some out ↦ some (reverse_onto out [])
]

abbrev is_loader_type : ℕ → Bool
is_loader_type type = type == 1 || type == 2

pub overlay_in : ℕ → ℕ → List MemMapInput → BootStatus
overlay_in base end [] = err_memmap_overlay
overlay_in base end (r ∷ rs) =
    let region_end = add64 r.base r.length in
    let rest = overlay_in base end rs in
    if not (is_loader_type r.type) || ltb region_end r.base
    then rest
    else if leb r.base base && leb end region_end
    then ok
    else rest

pub check_overlay : ℕ → ℕ → List MemMapInput → BootStatus
check_overlay base length efi_regions =
    if length == 0
    then ok
    else if ltb (add64 base length) base
    then err_memmap_overlay
    else overlay_in base (add64 base length) efi_regions
