-- ===== src/BootHeap/Init.antt =====
-- bootHeapInit on the sorted map that memMapNormalize makes.
use bongos.Common.{
  ℕ, ◌+◌, ◌-◌, ◌%◌, ◌≤◌, ◌<◌, ◌≡◌, true, inl, inr, some, List, [], ◌∷◌, arith, length, leb,
  if◌then◌else◌, Bool-cases, Option-cases, u64_mod,
}
use bongos.MemMap.{BootMemRegion, BootStatus, ok, err_memmap_capacity, usable, page_size}
use bongos.MemMap.Regions.{type_at}
use bongos.MemMap.Result.{IsSorted, type_at-below}
use bongos.BootHeap.{BootHeapRegion, clip, init_from, heap_min, heap_max, max_regions}
use bongos.BootHeap.Free.{in_region, is_free, IsHeap}

-- No region ends past the 64-bit addresses or begins inside their last page.
abbrev pub AreBounded : List BootMemRegion → Type 0
AreBounded [] = Unit {0}
AreBounded (r ∷ rs) = (r.base + r.length < u64_mod) × (r.base + page_size ≤ u64_mod) × AreBounded rs

-- What bootHeapInit keeps of a region.
record IsClipped (r : BootMemRegion) (h : BootHeapRegion) : Type 0 where
  is_usable : r.type ≡ usable
  inside : (r.base ≤ h.base) × (h.end ≤ r.base + r.length)
  bounds : (heap_min ≤ h.base) × (h.base < h.end) × (h.end ≤ heap_max)
  whole : (h.base % page_size ≡ 0) × (h.end % page_size ≡ 0)

clip-IsClipped :
    (r : BootMemRegion) (h : BootHeapRegion)
    → r.base + r.length < u64_mod
    → r.base + page_size ≤ u64_mod
    → clip r ≡ some h
    → IsClipped r h
unfolding clip
clip-IsClipped r h b l e = record {
  is_usable = ground arith;
  inside = ground arith;
  bounds = ground arith;
  whole = ground arith;
}

IsHeap-lower : (heap : List BootHeapRegion) (lo hi : ℕ) → lo ≤ hi → IsHeap hi heap → IsHeap lo heap
IsHeap-lower [] lo hi h i = tt
IsHeap-lower (r ∷ rs) lo hi h i = (omega arith, i.1, i.2, i.3, i.4, i.5, i.6)

-- Where bootHeapInit succeeds on a sorted map none of whose regions ends past the 64-bit addresses
-- or begins inside their last page, it makes a well-formed heap, all of whose free bytes are usable
-- memory of the map; with the regions recorded before, at most 64, there are at most 64.
pub init_from-IsHeap :
    (rs : List BootMemRegion) (count lo : ℕ) (heap : List BootHeapRegion)
    → IsSorted lo rs
    → AreBounded rs
    → count ≤ max_regions
    → init_from count rs ≡ (ok, heap)
    → IsHeap lo heap
      × ((a : ℕ) → is_free heap a ≡ true → type_at rs a ≡ some usable)
      × (count + length heap ≤ max_regions)
unfolding init_from
init_from-IsHeap [] count lo heap s b room e =
    let empty : [] ≡ heap = cc in rw (← empty) (tt, (λ a f. absurd (cc)), omega arith)
init_from-IsHeap (r ∷ rs) count lo heap s b room e =
    let end = r.base + r.length in
    let past = λ (a : ℕ) (t : type_at rs a ≡ some usable).
      let out : (a < end) → ⊥ = λ l. let n = type_at-below rs end a s.3 l in absurd (cc) in out in
    elim (Option-cases (clip r)) [
      | inl dropped ↦
          let (i, free, few) =
            init_from-IsHeap rs count end heap s.3 b.2 room (rw (init_from, dropped) at e) in
          (
            IsHeap-lower heap lo end (omega (arith, s.0)) i,
            (λ a f. ground (arith, free a f, past a (free a f))),
            few,
          )
      | inr (h, kept) ↦
          let c = clip-IsClipped r h b.0 b.1 kept in
          let rest = init_from (count + 1) rs in
          let status : BootStatus = rest.0 in
          let found : List BootHeapRegion = rest.1 in
          let full : BootStatus × List BootHeapRegion = (err_memmap_capacity, []) in
          let e' : (if leb max_regions count then full else (status, h ∷ found)) ≡ (ok, heap) =
            rw (init_from, kept) at e in
          let good : rest ≡ (ok, rest.1) = ground arith in
          let same : h ∷ rest.1 ≡ heap = ground arith in
          let below : count + 1 ≤ max_regions = ground arith in
          let (i, free, few) = init_from-IsHeap rs (count + 1) end rest.1 s.3 b.2 below good in
          rw (← same) (
            (
              omega (arith, s.0, c.inside),
              c.bounds.0,
              omega (arith, c.bounds),
              c.bounds.2,
              c.whole.0,
              c.whole.1,
              IsHeap-lower rest.1 h.end end (omega (arith, c.inside)) i,
            ),
            (λ a f. elim (Bool-cases (in_region h a)) [
              | inl here ↦ ground (arith, c.inside, c.is_usable)
              | inr later ↦ ground (arith, free a, past a)
            ]),
            omega (arith, few),
          )
    ]

-- A usable region that begins inside the last page of the 64-bit addresses and ends below 2^64
-- becomes a region from 0 to 4 GiB, because aligning its base up wraps to 0.
pub clip_wraps :
    (r : BootMemRegion)
    → u64_mod - page_size < r.base
    → r.base + r.length < u64_mod
    → r.type ≡ usable
    → clip r ≡ some (record { base = 0; end = heap_max })
unfolding clip
clip_wraps r h l u = ground arith
