-- ===== src/Irq/Vectors/Laws.antt =====
-- irqVectorMapAlloc, irqVectorMapFree and the count of allocated vectors.
use bongos.Common.{
  ℕ, zero, suc, ◌+◌, ◌/◌, ◌%◌, ◌≤◌, ◌<◌, ◌≡◌, ◌≢◌, refl, true, false, none, some, inl, inr, arith,
  ◌∙◌, ◌↔◌, ◌⊎◌, Option-cases, ◌==◌, get_or, Bool-cases, length-set,
}
use bongos.Common.Bits.{set_bit, clear_bit}
use bongos.Irq.Vectors.{
  IrqVectorMap, ok, err_invalid, err_no_memory, is_used, mark, unmark, alloc_from, alloc,
  is_allocated, free, count_from, allocated_count, vector_first_dynamic, vector_last_dynamic,
}
use bongos.Irq.Vectors.Marks.{IsMap, mark_self, unmark_self, mark_ne, unmark_ne}

-- The search returns the first vector that is not used.
alloc_from-some :
    (n v u : ℕ) (m : IrqVectorMap)
    → alloc_from n v m ≡ some u
    → (v ≤ u) × (u < v + n) × (is_used m u ≡ false)
unfolding alloc_from
alloc_from-some zero v u m h = absurd (ground arith)
alloc_from-some (suc n) v u m h = ground (arith, alloc_from-some n (v + 1) u m)

alloc_from_below :
    (n v u k : ℕ) (m : IrqVectorMap)
    → alloc_from n v m ≡ some u
    → v ≤ k
    → k < u
    → is_used m k ≡ true
unfolding alloc_from
alloc_from_below zero v u k m h a b = absurd (ground arith)
alloc_from_below (suc n) v u k m h a b = elim (Bool-cases (v == k)) [
  | inl e ↦ let e' : v ≡ k = ground arith in ground (arith, e')
  | inr ne ↦ ground (arith, alloc_from_below n (v + 1) u k m)
]

alloc_from-none :
    (n v k : ℕ) (m : IrqVectorMap)
    → alloc_from n v m ≡ none
    → v ≤ k
    → k < v + n
    → is_used m k ≡ true
unfolding alloc_from
alloc_from-none zero v k m h a b = absurd (omega arith)
alloc_from-none (suc n) v k m h a b = elim (Bool-cases (v == k)) [
  | inl e ↦ let e' : v ≡ k = ground arith in ground (arith, e')
  | inr ne ↦ ground (arith, alloc_from-none n (v + 1) k m)
]

abbrev pub IsDynamic : ℕ → Type 0
IsDynamic v = (vector_first_dynamic ≤ v) × (v ≤ vector_last_dynamic)

-- What a successful irqVectorMapAlloc has done.
pub record Allocated (m : IrqVectorMap) (v : ℕ) (m' : IrqVectorMap) : Type 0 where
  pub words : IsMap m'
  pub dynamic : IsDynamic v
  pub was_free : is_allocated m v ≡ false
  pub lowest : (k : ℕ) → vector_first_dynamic ≤ k → k < v → is_allocated m k ≡ true
  pub taken : is_allocated m' v ≡ true
  pub others : (k : ℕ) → v ≢ k → is_allocated m' k ≡ is_allocated m k

IsMap-mark : (m : IrqVectorMap) (v : ℕ) → IsMap m → IsMap (mark m v)
unfolding mark
IsMap-mark m v l = length-set m.used (v / 64) (set_bit (get_or m.used (v / 64) 0) (v % 64)) ∙ l

IsMap-unmark : (m : IrqVectorMap) (v : ℕ) → IsMap m → IsMap (unmark m v)
unfolding unmark
IsMap-unmark m v l = length-set m.used (v / 64) (clear_bit (get_or m.used (v / 64) 0) (v % 64)) ∙ l

is_allocated-dynamic : (m : IrqVectorMap) (v : ℕ) → IsDynamic v → is_allocated m v ≡ is_used m v
unfolding is_allocated
is_allocated-dynamic m v d = ground arith

is_allocated-cong :
    (m m' : IrqVectorMap) (v : ℕ)
    → is_used m' v ≡ is_used m v
    → is_allocated m' v ≡ is_allocated m v
unfolding is_allocated
is_allocated-cong m m' v h = rw h

alloc-inv :
    (m : IrqVectorMap) {v : ℕ} {m' : IrqVectorMap}
    → alloc m ≡ (ok, some v, m')
    → (alloc_from 192 48 m ≡ some v) × (m' ≡ mark m v)
unfolding alloc
alloc-inv m h = ground arith

-- A successful irqVectorMapAlloc returns the lowest vector of 48-239 that is not allocated, and
-- allocates it and no other.
pub alloc-Allocated :
    (m : IrqVectorMap) {v : ℕ} {m' : IrqVectorMap}
    → IsMap m
    → alloc m ≡ (ok, some v, m')
    → Allocated m v m'
alloc-Allocated m {v} {m'} l h =
    let (found, e) = alloc-inv m h in
    let (from, to, free_bit) = alloc_from-some 192 48 v m found in
    let d : IsDynamic v = (from, omega arith) in
    rw e (record {
      words = IsMap-mark m v l;
      dynamic = d;
      was_free = is_allocated-dynamic m v d ∙ free_bit;
      lowest = λ k a b.
          is_allocated-dynamic m k (a, omega arith) ∙ alloc_from_below 192 48 v k m found a b;
      taken = is_allocated-dynamic (mark m v) v d ∙ mark_self m v l (omega arith);
      others = λ k ne. is_allocated-cong m (mark m v) k (mark_ne m v k l (omega arith) ne);
    })

-- irqVectorMapAlloc fails exactly when every vector of 48-239 is allocated.
pub alloc-no_memory :
    (m : IrqVectorMap)
    → ((alloc m).0 ≡ err_no_memory) ↔ ((v : ℕ) → IsDynamic v → is_allocated m v ≡ true)
unfolding alloc
alloc-no_memory m = elim (Option-cases (alloc_from 192 48 m)) [
  | inl e ↦ (
    λ h v d. is_allocated-dynamic m v d ∙ alloc_from-none 192 48 v m e d.0 (omega arith),
    λ h. rw (e, alloc),
  )
  | inr (v, e) ↦
      let (from, to, free_bit) = alloc_from-some 192 48 v m e in
      (
        λ h. absurd (ground arith),
        λ h.
            absurd (
              ground
                (arith, h v (from, omega arith), is_allocated-dynamic m v (from, omega arith))),
      )
]

-- What a successful irqVectorMapFree has done.
pub record Freed (m : IrqVectorMap) (v : ℕ) (m' : IrqVectorMap) : Type 0 where
  pub words : IsMap m'
  pub was_allocated : is_allocated m v ≡ true
  pub freed : is_allocated m' v ≡ false
  pub others : (k : ℕ) → v ≢ k → is_allocated m' k ≡ is_allocated m k

is_allocated-IsDynamic : (m : IrqVectorMap) (v : ℕ) → is_allocated m v ≡ true → IsDynamic v
unfolding is_allocated
is_allocated-IsDynamic m v h = ground arith

unmark-Freed :
    (m : IrqVectorMap) (v : ℕ) → IsMap m → is_allocated m v ≡ true → Freed m v (unmark m v)
unmark-Freed m v l h =
    let d = is_allocated-IsDynamic m v h in
    record {
      words = IsMap-unmark m v l;
      was_allocated = h;
      freed = is_allocated-dynamic (unmark m v) v d ∙ unmark_self m v l (omega arith);
      others = λ k ne. is_allocated-cong m (unmark m v) k (unmark_ne m v k l (omega arith) ne);
    }

-- irqVectorMapFree of an allocated vector frees it and no other; of any other vector, it is
-- refused as STATUS_ERR_INVALID and changes nothing.
pub free_lem :
    (m : IrqVectorMap) (v : ℕ)
    → IsMap m
    → (is_allocated m v ≡ true) × ((free m v).0 ≡ ok) × Freed m v (free m v).1
      ⊎ (is_allocated m v ≡ false) × (free m v ≡ (err_invalid, m))
unfolding free
free_lem m v l = elim (Bool-cases (is_allocated m v)) [
  | inl h ↦ rw h (inl (refl, refl, unmark-Freed m v l h))
  | inr h ↦ rw h (inr (refl, refl))
]

count_from-same :
    (n v u : ℕ) (m : IrqVectorMap)
    → IsMap m
    → u < v ⊎ v + n ≤ u
    → u < 256
    → count_from n v (mark m u) ≡ count_from n v m
unfolding count_from
count_from-same zero v u m l o b = refl
count_from-same (suc n) v u m l o b =
    ground (arith, count_from-same n (v + 1) u m l, mark_ne m u v l b)

count_from-mark :
    (n v u : ℕ) (m : IrqVectorMap)
    → IsMap m
    → v ≤ u
    → u < v + n
    → u < 256
    → is_used m u ≡ false
    → count_from n v (mark m u) ≡ count_from n v m + 1
unfolding count_from
count_from-mark zero v u m l a b c f = absurd (omega arith)
count_from-mark (suc n) v u m l a b c f = elim (Bool-cases (v == u)) [
  | inl e ↦
      let e' : v ≡ u = ground arith in
      rw e' (
        ground (arith, f, mark_self m u l c, count_from-same n (u + 1) u m l (inl (omega arith)) c))
  | inr ne ↦ ground (arith, count_from-mark n (v + 1) u m l, mark_ne m u v l c)
]

-- A successful irqVectorMapAlloc raises irqVectorMapAllocatedCount by one.
pub allocated_count-alloc :
    (m : IrqVectorMap) {v : ℕ} {m' : IrqVectorMap}
    → IsMap m
    → alloc m ≡ (ok, some v, m')
    → allocated_count m' ≡ allocated_count m + 1
unfolding allocated_count
allocated_count-alloc m {v} {m'} l h =
    let (found, e) = alloc-inv m h in
    let (from, to, free_bit) = alloc_from-some 192 48 v m found in
    rw e (count_from-mark 192 48 v m l from to (omega arith) free_bit)
