-- ===== src/BootHeap/Alloc.antt =====
-- bootHeapAllocPages takes free pages and no other.
use bongos.Common.{
  ℕ, ◌+◌, ◌*◌, ◌%◌, ◌≤◌, ◌<◌, ◌≡◌, refl, true, false, not, ◌&&◌, ◌⊎◌, inl, inr, some, List, [], ◌∷◌,
  arith, ltb, leb, Bool-cases, Option-cases, u32_mod, add64, sub64, mul64,
}
use bongos.MemMap.{page_size}
use bongos.BootHeap.{BootHeapRegion, alloc_bytes, alloc_pages, heap_min, heap_max}
use bongos.BootHeap.Free.{is_free, IsHeap}

is_free-below : (rs : List BootHeapRegion) (lo a : ℕ) → IsHeap lo rs → a < lo → is_free rs a ≡ false
is_free-below [] lo a h l = refl
is_free-below (r ∷ rs) lo a h l = ground (arith, is_free-below rs r.end a h.6)

-- The heap after an allocation of `need` bytes at `phys`.
pub record IsTaken (heap : List BootHeapRegion) (need phys : ℕ) (heap' : List BootHeapRegion)
    : Type 0 where
  pub aligned : phys % page_size ≡ 0
  pub in_bounds : (heap_min ≤ phys) × (phys + need ≤ heap_max)
  pub was_free : (a : ℕ) → phys ≤ a → a < phys + need → is_free heap a ≡ true
  pub left : (a : ℕ) → is_free heap' a ≡ (is_free heap a && not (leb phys a && ltb a (phys + need)))

module _ (need : ℕ) (pages : need % page_size ≡ 0) (small : need < 2 * heap_max * page_size) where
  Taken-first :
      (lo : ℕ) (r : BootHeapRegion) (rs : List BootHeapRegion)
      → IsHeap lo (r ∷ rs)
      → r.base + need ≤ r.end
      → IsTaken (r ∷ rs) need r.base (record r { base = r.base + need } ∷ rs)
        × IsHeap lo (record r { base = r.base + need } ∷ rs)
  Taken-first lo r rs h room = (
    record {
      aligned = h.4;
      in_bounds = (h.1, omega arith);
      was_free = λ a l u. ground arith;
      left = λ a. ground (arith, is_free-below rs r.end a h.6);
    },
    (omega arith, omega arith, omega arith, h.3, omega arith, h.5, h.6),
  )

  Taken-later :
      (lo phys : ℕ) (r : BootHeapRegion) (rs rs' : List BootHeapRegion)
      → IsHeap lo (r ∷ rs)
      → IsTaken rs need phys rs'
      → r.end ≤ phys
      → IsTaken (r ∷ rs) need phys (r ∷ rs')
  Taken-later lo phys r rs rs' h t above = record {
    aligned = t.aligned;
    in_bounds = t.in_bounds;
    was_free = λ a l u. ground (arith, t.was_free a l u);
    left = λ a. ground (arith, t.left a);
  }

  alloc_bytes-Taken :
      (heap : List BootHeapRegion) (lo phys : ℕ) (heap' : List BootHeapRegion)
      → IsHeap lo heap
      → alloc_bytes need heap ≡ some (phys, heap')
      → IsTaken heap need phys heap' × IsHeap lo heap' × (lo ≤ phys)
  unfolding alloc_bytes
  alloc_bytes-Taken [] lo phys heap' h e = absurd (cc)
  alloc_bytes-Taken (r ∷ rs) lo phys heap' h e = elim (Bool-cases (leb need (sub64 r.end r.base))) [
    | inl room ↦
        let fits : r.base + need ≤ r.end = ground arith in
        let sum : add64 r.base need ≡ r.base + need = omega arith in
        let at : r.base ≡ phys = ground arith in
        let same : record r { base = r.base + need } ∷ rs ≡ heap' = ground arith in
        let (t, i) = Taken-first lo r rs h fits in rw (← at, ← same) (t, i, h.0)
    | inr full ↦ elim (Option-cases (alloc_bytes need rs)) [
      | inl failed ↦ absurd (ground arith)
      | inr ((phys', rs'), found) ↦
          let at : phys' ≡ phys = ground arith in
          let same : r ∷ rs' ≡ heap' = ground arith in
          let (t, i, above) = alloc_bytes-Taken rs r.end phys' rs' h.6 found in
          rw (← at, ← same)
            (
              Taken-later lo phys' r rs rs' h t above,
              (h.0, h.1, h.2, h.3, h.4, h.5, i),
              omega arith,
            )
    ]
  ]

-- A successful bootHeapAllocPages returns a page-aligned address between 1 MiB and 4 GiB whose
-- pages were all free, takes exactly those from the free bytes, and keeps the heap well formed.
pub alloc_pages-Taken :
    (heap : List BootHeapRegion) (pages phys : ℕ) (heap' : List BootHeapRegion)
    → pages < u32_mod
    → IsHeap 0 heap
    → alloc_pages heap pages ≡ some (phys, heap')
    → IsTaken heap (pages * page_size) phys heap' × IsHeap 0 heap'
unfolding alloc_pages
alloc_pages-Taken heap pages phys heap' h i e =
    let size : mul64 pages page_size ≡ pages * page_size = omega arith in
    let (t, i', _) =
      alloc_bytes-Taken (pages * page_size) (omega arith) (omega arith) heap 0 phys heap' i
        (rw size at e) in
    (t, i')

-- Some region has `need` bytes left.
abbrev pub HasRoom : ℕ → List BootHeapRegion → Type 0
HasRoom need [] = ⊥
HasRoom need (r ∷ rs) = (r.base + need ≤ r.end) ⊎ HasRoom need rs

alloc_bytes_total :
    (need : ℕ) (heap : List BootHeapRegion) (lo : ℕ)
    → IsHeap lo heap
    → HasRoom need heap
    → (phys : ℕ) × (heap' : List BootHeapRegion) × (alloc_bytes need heap ≡ some (phys, heap'))
unfolding alloc_bytes
alloc_bytes_total need [] lo i m = elim m [ ]
alloc_bytes_total need (r ∷ rs) lo i m = elim (Bool-cases (leb need (sub64 r.end r.base))) [
  | inl room ↦ (r.base, record r { base = add64 r.base need } ∷ rs, rw (alloc_bytes, room) refl)
  | inr full ↦ elim m [
    | inl room ↦ absurd (ground arith)
    | inr later ↦
        let (phys, rs', e) = alloc_bytes_total need rs r.end i.6 later in
        (phys, r ∷ rs', rw (alloc_bytes, full) (rw e refl))
  ]
]

-- bootHeapAllocPages succeeds whenever some region has that many pages left.
pub alloc_pages_total :
    (heap : List BootHeapRegion) (pages : ℕ)
    → pages < u32_mod
    → IsHeap 0 heap
    → HasRoom (pages * page_size) heap
    → (phys : ℕ) × (heap' : List BootHeapRegion) × (alloc_pages heap pages ≡ some (phys, heap'))
unfolding alloc_pages
alloc_pages_total heap pages h i m =
    let size : mul64 pages page_size ≡ pages * page_size = omega arith in
    rw size (alloc_bytes_total (pages * page_size) heap 0 i m)
