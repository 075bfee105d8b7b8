-- ===== src/BootHeap/Free.antt =====
-- The free bytes of the loader's heap.
use bongos.Common.{ℕ, ◌%◌, ◌≤◌, ◌≡◌, Bool, false, ◌&&◌, ◌||◌, List, [], ◌∷◌, ltb, leb}
use bongos.MemMap.{page_size}
use bongos.BootHeap.{BootHeapRegion, heap_min, heap_max}

abbrev pub in_region : BootHeapRegion → ℕ → Bool
in_region r a = leb r.base a && ltb a r.end

abbrev pub is_free : List BootHeapRegion → ℕ → Bool
is_free [] a = false
is_free (r ∷ rs) a = in_region r a || is_free rs a

-- Whole pages between 1 MiB and 4 GiB, in ascending order from `lo` on without overlap.
abbrev pub IsHeap : ℕ → List BootHeapRegion → Type 0
IsHeap lo [] = Unit {0}
IsHeap lo (r ∷ rs) =
    (lo ≤ r.base)
    × (heap_min ≤ r.base)
    × (r.base ≤ r.end)
    × (r.end ≤ heap_max)
    × (r.base % page_size ≡ 0)
    × (r.end % page_size ≡ 0)
    × IsHeap r.end rs
