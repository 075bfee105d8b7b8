-- ===== src/BootHeap.antt =====
-- boot/common/bootheap.c: the page allocator of the BIOS loader's second stage.
pub mod Free
pub mod Init
pub mod Alloc
mod Tests
use bongos.Common.{
  ℕ, ◌+◌, ◌*◌, ◌%◌, Option, none, some, List, [], ◌∷◌, ltb, leb, ◌==◌, not, if◌then◌else◌, add64,
  sub64, mul64,
}
use bongos.MemMap.{
  BootMemRegion, BootStatus, ok, err_memmap_capacity, usable, page_size, align_up, align_down,
}

abbrev pub heap_min : ℕ
heap_min = 0x100000

abbrev pub heap_max : ℕ
heap_max = 0x100000000

abbrev pub max_regions : ℕ
max_regions = 64

-- `base` is the bump pointer: what lies below it is handed out.
pub record BootHeapRegion : Type 0 where
  pub base : ℕ
  pub end : ℕ

-- The body of bootHeapInit's loop: what is kept of one region of the map.
pub clip : BootMemRegion → Option BootHeapRegion
clip r =
    let end = add64 r.base r.length in
    let base' = align_up (if ltb r.base heap_min then heap_min else r.base) page_size in
    let end' = align_down (if ltb heap_max end then heap_max else end) page_size in
    if not (r.type == usable)
    then none
    else if ltb end r.base
    then none
    else if leb end' base'
    then none
    else some (record { base = base'; end = end' })

-- bootHeapInit from one region on, `count` regions being recorded already.
pub init_from : ℕ → List BootMemRegion → BootStatus × List BootHeapRegion
init_from count [] = (ok, [])
init_from count (r ∷ rs) = elim (clip r) [
  | none ↦ init_from count rs
  | some region ↦
      let (status, rest) = init_from (count + 1) rs in
      if leb max_regions count then (err_memmap_capacity, []) else (status, region ∷ rest)
]

abbrev pub init : List BootMemRegion → BootStatus × List BootHeapRegion
init regions = init_from 0 regions

-- The loop of bootHeapAllocPages for `need` bytes.
pub alloc_bytes : ℕ → List BootHeapRegion → Option (ℕ × List BootHeapRegion)
alloc_bytes need [] = none
alloc_bytes need (r ∷ rs) =
    let rest = alloc_bytes need rs in
    if leb need (sub64 r.end r.base)
    then some (r.base, record r { base = add64 r.base need } ∷ rs)
    else elim rest [ none ↦ none | some (phys, rs') ↦ some (phys, r ∷ rs') ]

-- The address and the heap after it; `none` is BOOT_ERR_NO_MEMORY.
pub alloc_pages : List BootHeapRegion → ℕ → Option (ℕ × List BootHeapRegion)
alloc_pages heap pages = alloc_bytes (mul64 pages page_size) heap
