-- ===== src/Buddy/Alloc.antt =====
-- buddyAllocBlock takes an aligned block of free frames, and fails only if there is none.
use native.Mathlib.Nat.{add-mul}
use bongos.Common.{
  ℕ, zero, suc, ◌+◌, ◌-◌, ◌*◌, ◌^◌, ◌≤◌, ◌<◌, ◌≡◌, ◌⊎◌, refl, subst, ◌∙◌, ap, none, some, [], arith,
  inl, inr, List-cases, same_or_not,
}
use bongos.Buddy.{
  PmmZone, link_block, unlink_block, first_order, split, alloc_block, pmm_max_order,
  pmm_order_count,
}
use bongos.Buddy.Blocks.{IsBlock, Within, IsFree, IsAligned, In, IsValid}
use bongos.Buddy.Links.{link-Links, unlink-Unlinks}
use bongos.Buddy.Halves.{two_halves, double, pow2-next}
use bongos.Buddy.Free.{IsBusy}

first_order_lem :
    (z : PmmZone) (n k : ℕ)
    → (first_order z n k ≡ none) × ((j : ℕ) → k ≤ j → j < k + n → z.free_list j ≡ [])
      ⊎ ((j : ℕ) × (p : ℕ) × (first_order z n k ≡ some (j, p))
          × (k ≤ j)
          × (j < k + n)
          × In p (z.free_list j))
unfolding first_order
first_order_lem z zero k = inl (refl, λ j a b. absurd (omega (arith, a, b)))
first_order_lem z (suc n) k = elim (List-cases (z.free_list k)) [
  | inr (p, l, e) ↦ inr (k, p, rw (first_order, e) refl, omega arith, omega arith, rw e (inl refl))
  | inl e ↦ elim (first_order_lem z n (k + 1)) [
    | inl (none', all) ↦ inl (
      rw (first_order, e) none',
      λ j a b. elim (same_or_not j k) [
        | inl s ↦ ap z.free_list s ∙ e
        | inr ne ↦ all j (omega (arith, a, ne)) (omega (arith, b))
      ],
    )
    | inr (j, p, found, a, b, m) ↦
        inr (j, p, rw (first_order, e) found, omega (arith, a), omega (arith, b), m)
  ]
]

-- What is left of a block of `m` at `p` when one of `k` has been cut from its start.
record Splits (z : PmmZone) (p m k : ℕ) (r : PmmZone) : Type 0 where
  valid : IsValid r
  aligned : IsAligned p k
  kept : IsBusy r p k
  covers :
      (x : ℕ)
      → (IsFree r x ⊎ Within p k x → IsFree z x ⊎ Within p m x)
        × (IsFree z x ⊎ Within p m x → IsFree r x ⊎ Within p k x)

-- The halves of an aligned block.
Aligned-halves : (p m : ℕ) → IsAligned p (m + 1) → IsAligned p m × IsAligned (p + 2 ^ m) m
Aligned-halves p m (q, e) =
    let low : p ≡ q * 2 * 2 ^ m = e ∙ double q m in
    ((q * 2, low), (q * 2 + 1, omega (arith, low, add-mul (q * 2) 1 (2 ^ m))))

-- Of a block and its frames.
Within-halves :
    (p j m x : ℕ)
    → m ≡ j + 1
    → (Within p m x → Within p j x ⊎ Within (p + 2 ^ j) j x)
      × (Within p j x ⊎ Within (p + 2 ^ j) j x → Within p m x)
Within-halves p j m x e =
    let twice : 2 ^ m ≡ 2 ^ j * 2 = ap (λ i. 2 ^ i) e ∙ pow2-next j in
    rw twice (two_halves p (2 ^ j) x)

split-Splits :
    (n : ℕ) (z : PmmZone) (p k m : ℕ)
    → m ≡ k + n
    → m ≤ pmm_max_order
    → IsValid z
    → IsAligned p m
    → IsBusy z p m
    → Splits z p m k (split n z p k)
unfolding split
split-Splits zero z p k m e low v a busy =
    let same : m ≡ k = omega (arith, e) in
    record {
      valid = v;
      aligned = subst (IsAligned p) same a;
      kept = subst (IsBusy z p) same busy;
      covers = λ x. rw same ((λ m'. m'), (λ m'. m'));
    }
split-Splits (suc n) z p k m e low v a busy =
    let j = k + n in
    let next : m ≡ j + 1 = omega (arith, e) in
    let (a_low, a_high) = Aligned-halves p j (subst (IsAligned p) next a) in
    let high_busy : IsBusy z (p + 2 ^ j) j =
      λ x w f. busy x ((Within-halves p j m x next).1 (inr w)) f in
    let l = link-Links z (p + 2 ^ j) j v a_high (omega (arith, e, low)) high_busy in
    let low_busy : IsBusy (link_block z (p + 2 ^ j) j) p j = λ x w f. elim ((l.covers x).0 f) [
      | inl f' ↦ busy x ((Within-halves p j m x next).1 (inl w)) f'
      | inr w' ↦ absurd (omega (arith, w, w'))
    ] in
    let s =
      split-Splits n (link_block z (p + 2 ^ j) j) p k j refl (omega (arith, e, low)) l.valid a_low
        low_busy in
    record {
      valid = s.valid;
      aligned = s.aligned;
      kept = s.kept;
      covers = λ x.
          let (apart, together) = Within-halves p j m x next in
          let (old, new) = s.covers x in
          let (from, to) = l.covers x in
          (
            (λ y. elim (old y) [
              | inl f ↦ elim (from f) [ inl f' ↦ inl f' | inr w ↦ inr (together (inr w)) ]
              | inr w ↦ inr (together (inl w))
            ]),
            (λ y. elim y [
              | inl f ↦ new (inl (to (inl f)))
              | inr w ↦ elim (apart w) [ inl w' ↦ new (inr w') | inr w' ↦ new (inl (to (inr w'))) ]
            ]),
          );
    }

split-free_pages : (n : ℕ) (z : PmmZone) (p k : ℕ) → (split n z p k).free_pages ≡ z.free_pages
unfolding split link_block
split-free_pages zero z p k = refl
split-free_pages (suc n) z p k = split-free_pages n (link_block z (p + 2 ^ (k + n)) (k + n)) p k

unlink-free_pages : (z : PmmZone) (p k : ℕ) → (unlink_block z p k).free_pages ≡ z.free_pages
unfolding unlink_block
unlink-free_pages z p k = refl

-- The block that an allocation returns: aligned, free before and not after; the other frames stay
-- as they were.
pub record Allocates (z : PmmZone) (k p : ℕ) (z' : PmmZone) : Type 0 where
  pub valid : IsValid z'
  pub aligned : IsAligned p k
  pub taken : IsBusy z' p k
  pub covers :
      (x : ℕ)
      → (IsFree z x → IsFree z' x ⊎ Within p k x) × (IsFree z' x ⊎ Within p k x → IsFree z x)
  pub free_pages : z'.free_pages ≡ z.free_pages - 2 ^ k

-- In a valid zone buddyAllocBlock of an order up to the top returns an aligned block of free frames
-- and takes exactly them, or it fails and there is no free block of that order or a greater one.
pub alloc_block-Allocates :
    (z : PmmZone) (k : ℕ)
    → IsValid z
    → k ≤ pmm_max_order
    → (alloc_block z k ≡ none) × ((p j : ℕ) → k ≤ j → IsBlock z p j → ⊥)
      ⊎ ((p : ℕ) × (z' : PmmZone) × (alloc_block z k ≡ some (p, z')) × Allocates z k p z')
unfolding alloc_block
alloc_block-Allocates z k v low = elim (first_order_lem z (pmm_order_count - k) k) [
  | inl (none', all) ↦ inl (
    rw (alloc_block, none') refl,
    λ p j above b.
        let below : j < k + (pmm_order_count - k) = omega (arith, v.top p j b, low) in
        absurd (subst (In p) (all j above below) ((v.listed j p).1 b)),
  )
  | inr (j, p, found, above, below, m) ↦
      let b = (v.listed j p).0 m in
      let u = unlink-Unlinks z p j v b in
      let z1 = unlink_block z p j in
      let s =
        split-Splits (j - k) z1 p k j (omega (arith, above)) (v.top p j b) u.valid (v.aligned p j b)
          u.taken in
      let r = split (j - k) z1 p k in
      inr (
        p,
        record r { free_pages = r.free_pages - 2 ^ k },
        rw (alloc_block, found) refl,
        record {
          valid = record {
            listed = s.valid.listed;
            once = s.valid.once;
            counts = s.valid.counts;
            top = s.valid.top;
            aligned = s.valid.aligned;
            apart = s.valid.apart;
          };
          aligned = s.aligned;
          taken = s.kept;
          covers = λ x.
              let (from, to) = s.covers x in
              let (old, new) = u.covers x in ((λ f. to (old f)), (λ y. new (from y)));
          free_pages =
              ap (λ n. n - 2 ^ k) (split-free_pages (j - k) z1 p k ∙ unlink-free_pages z p j);
        },
      )
]
