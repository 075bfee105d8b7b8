-- ===== src/BootHeap/Tests.antt =====
-- The loader's heap at small inputs.
use bongos.Common.{ℕ, ◌+◌, ◌*◌, ◌≤◌, length, ◌≡◌, refl, arith, true, some, List, [], ◌∷◌}
use bongos.MemMap.{BootMemRegion, ok, usable, page_size}
use bongos.MemMap.Regions.{type_at}
use bongos.MemMap.Result.{IsSorted}
use bongos.BootHeap.{
  BootHeapRegion, clip, init_from, alloc_bytes, alloc_pages, heap_max, max_regions,
}
use bongos.BootHeap.Free.{IsHeap, is_free}
use bongos.BootHeap.Alloc.{IsTaken, alloc_pages-Taken}
use bongos.BootHeap.Init.{AreBounded, init_from-IsHeap, clip_wraps}

abbrev map_small : List BootMemRegion
map_small =
    record { base = 0x1000; length = 0x9e000; type = 1 }
    ∷ record { base = 0x100000; length = 0x3000; type = 1 }
    ∷ record { base = 0x103000; length = 0x1000; type = 7 }
    ∷ record { base = 0x104000; length = 0x8000; type = 1 }
    ∷ []

abbrev heap_small : List BootHeapRegion
heap_small =
    record { base = 0x100000; end = 0x103000 } ∷ record { base = 0x104000; end = 0x10c000 } ∷ []

abbrev heap_after : List BootHeapRegion
heap_after =
    record { base = 0x100000; end = 0x103000 } ∷ record { base = 0x108000; end = 0x10c000 } ∷ []

map_small-IsSorted : IsSorted 0 map_small
map_small-IsSorted = omega arith

map_small-AreBounded : AreBounded map_small
map_small-AreBounded = omega arith

heap_small-IsHeap : IsHeap 0 heap_small
heap_small-IsHeap = omega arith

makes_heap : init_from 0 map_small ≡ (ok, heap_small)
unfolding init_from clip
makes_heap = refl

takes_four : alloc_pages heap_small 4 ≡ some (0x104000, heap_after)
unfolding alloc_pages alloc_bytes
takes_four = refl

init_from-IsHeap_example :
    IsHeap 0 heap_small
    × ((a : ℕ) → is_free heap_small a ≡ true → type_at map_small a ≡ some usable)
    × (0 + length heap_small ≤ max_regions)
init_from-IsHeap_example =
    init_from-IsHeap map_small 0 0 heap_small map_small-IsSorted map_small-AreBounded (omega arith)
      makes_heap

alloc_pages-Taken_example :
    IsTaken heap_small (4 * page_size) 0x104000 heap_after × IsHeap 0 heap_after
alloc_pages-Taken_example =
    alloc_pages-Taken heap_small 4 0x104000 heap_after (omega arith) heap_small-IsHeap takes_four

abbrev last_page : BootMemRegion
last_page = record { base = 0xfffffffffffff800; length = 0x400; type = 1 }

clip_wraps_example : clip last_page ≡ some (record { base = 0; end = heap_max })
clip_wraps_example = clip_wraps last_page (omega arith) (omega arith) refl
