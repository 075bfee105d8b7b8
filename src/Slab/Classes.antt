-- ===== src/Slab/Classes.antt =====
-- slabClassIndexForSize and slabIndexForOffset.
use native.Mathlib.Nat.{mod-add-div', mul-mod_left, mul-div_left}
use bongos.Common.{
  ℕ, zero, suc, ◌+◌, ◌*◌, ◌/◌, ◌%◌, ◌≤◌, ◌<◌, ◌≡◌, ◌≢◌, ◌↔◌, ◌⊎◌, ◌∙◌, ap, false, none, some,
  some-injective, List, [], ◌∷◌, leb, ltb, ◌==◌, ◌||◌, arith, Bool-cases, inl, inr, get_or, length,
  ==_iff,
}
use bongos.Slab.{
  SlabLayout, index_for_offset, class_sizes, first_class, class_index_for_size, kmalloc_max_size,
}

-- The `k`th class is the first that is large enough.
pub record IsFirst (size k : ℕ) (cs : List ℕ) : Type 0 where
  pub within : k < length cs
  pub enough : size ≤ get_or cs k 0
  pub below : (j : ℕ) → j < k → get_or cs j 0 < size

first_class_lem :
    (size i : ℕ) (cs : List ℕ)
    → ((j : ℕ) → j < length cs → get_or cs j 0 < size)
      ⊎ ((k : ℕ) × (first_class size i cs ≡ some (i + k)) × IsFirst size k cs)
unfolding first_class
first_class_lem size i [] = inl (λ j h. absurd (omega arith))
first_class_lem size i (c ∷ cs) = elim (Bool-cases (leb size c)) [
  | inl e ↦ inr (
    0,
    rw (first_class, e) (ap some (omega arith)),
    record { within = omega arith; enough = ground arith; below = λ j h. absurd (omega arith) },
  )
  | inr e ↦
      let small : c < size = ground arith in
      elim (first_class_lem size (i + 1) cs) [
        | inl all ↦ inl (below_cons size c cs small (length cs) all)
        | inr (k, found, first) ↦ inr (
          suc k,
          rw (first_class, e) (found ∙ ap some (omega arith)),
          record {
            within = omega (arith, first.within);
            enough = first.enough;
            below = below_cons size c cs small k first.below;
          },
        )
      ]
]
  where
    below_cons :
        (size c : ℕ) (cs : List ℕ)
        → c < size
        → (n : ℕ) → ((j : ℕ) → j < n → get_or cs j 0 < size)
        → (j : ℕ) → j < suc n
        → get_or (c ∷ cs) j 0 < size
    below_cons size c cs small n all zero h = small
    below_cons size c cs small n all (suc j) h = all j (omega arith)

-- slabClassIndexForSize finds the smallest class for every size from 1 to KMALLOC_MAX_SIZE.
pub class_index_for_size_lem :
    (size : ℕ)
    → 0 < size
    → size ≤ kmalloc_max_size
    → (k : ℕ) × (class_index_for_size size ≡ some k) × IsFirst size k class_sizes
unfolding class_index_for_size
class_index_for_size_lem size pos small =
    let in_range : (size == 0 || ltb kmalloc_max_size size) ≡ false = ground arith in
    elim (first_class_lem size 0 class_sizes) [
      | inl all ↦ absurd (omega (arith, all 11 (omega arith)))
      | inr (k, found, first) ↦
          (k, rw (class_index_for_size, in_range) (found ∙ ap some (omega arith)), first)
    ]

none_not_some : (i : ℕ) → none ≢ some i
none_not_some i e = cc

-- slabIndexForOffset gives an index exactly for the offset of a slot of the slab.
pub index_for_offset_iff :
    (l : SlabLayout) (off i : ℕ)
    → 0 < l.stride
    → (index_for_offset l off ≡ some i) ↔ (off ≡ i * l.stride) × (i < l.objs_per_slab)
unfolding index_for_offset
index_for_offset_iff l off i pos =
    let d = l.stride in
    let split = mod-add-div' off d in
    let nonzero : (d == 0) ≡ false = ground arith in
    elim (Bool-cases (off % d == 0)) [
      | inr uneven ↦ (
        λ e. absurd (ground arith),
        λ (at_slot, inside). absurd (ground (arith, mul-mod_left i d, ap (λ o. o % d) at_slot)),
      )
      | inl even ↦
          let none_left = (==_iff (off % d) 0).0 even in
          let q = off / d in
          let multiple : off ≡ q * d = omega (arith, split, none_left) in
          elim (Bool-cases (leb l.objs_per_slab q)) [
            | inl beyond ↦ (
              λ e. absurd (none_not_some i (rw (index_for_offset, nonzero, even, beyond) at e)),
              λ (at_slot, inside).
                  let same : q ≡ i = ap (λ o. o / d) at_slot ∙ mul-div_left i pos in
                  absurd (ground arith),
            )
            | inr within ↦ (
              λ e.
                  let same : q ≡ i =
                    some-injective q i (rw (index_for_offset, nonzero, even, within) at e) in
                  (multiple ∙ ap (λ k. k * d) same, ground arith),
              λ (at_slot, inside).
                  let same : q ≡ i = ap (λ o. o / d) at_slot ∙ mul-div_left i pos in
                  rw (index_for_offset, nonzero, even, within) (ap some same),
            )
          ]
    ]
