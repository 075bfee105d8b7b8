-- ===== src/Buddy/Blocks.antt =====
-- The free blocks of a zone, and what linking and unlinking one changes.
use bongos.Common.{
  ℕ, ◌+◌, ◌*◌, ◌^◌, ◌≤◌, ◌<◌, ◌≡◌, ◌≢◌, ◌⊎◌, sym, subst, ◌∙◌, true, false, List, [], ◌∷◌, ◌==◌,
  length, arith, inl, inr, Bool-cases, same_or_not, eq→==, ne→==,
}
use bongos.Buddy.{PmmZone, is_buddy, list_remove, pmm_max_order}

-- The frame heads a free block of this order.
abbrev pub IsBlock : PmmZone → ℕ → ℕ → Type 0
IsBlock z p k = (is_buddy (z.pages p).state ≡ true) × ((z.pages p).order ≡ k)

abbrev pub Within : ℕ → ℕ → ℕ → Type 0
Within p k x = (p ≤ x) × (x < p + 2 ^ k)

-- The frame is free.
abbrev pub IsFree : PmmZone → ℕ → Type 0
IsFree z x = (p : ℕ) × (k : ℕ) × IsBlock z p k × Within p k x

abbrev pub IsAligned : ℕ → ℕ → Type 0
IsAligned p k = (q : ℕ) × (p ≡ q * 2 ^ k)

abbrev pub In : ℕ → List ℕ → Type 0
In p [] = ⊥
In p (q ∷ l) = (p ≡ q) ⊎ In p l

abbrev pub Once : List ℕ → Type 0
Once [] = Unit {0}
Once (q ∷ l) = (In q l → ⊥) × Once l

-- The lists hold the heads of the free blocks of their orders, each once; blocks are aligned to
-- their size and do not overlap.
pub record IsValid (z : PmmZone) : Type 0 where
  pub listed :
      (k p : ℕ) → (In p (z.free_list k) → IsBlock z p k) × (IsBlock z p k → In p (z.free_list k))
  pub once : (k : ℕ) → Once (z.free_list k)
  pub counts : (k : ℕ) → z.free_blocks k ≡ length (z.free_list k)
  pub top : (p k : ℕ) → IsBlock z p k → k ≤ pmm_max_order
  pub aligned : (p k : ℕ) → IsBlock z p k → IsAligned p k
  pub apart : (p k q j x : ℕ) → IsBlock z p k → IsBlock z q j → Within p k x → Within q j x → p ≡ q

pub In-list_remove :
    (p q : ℕ) (l : List ℕ)
    → Once l
    → (In q (list_remove p l) → In q l × (q ≢ p)) × (In q l × (q ≢ p) → In q (list_remove p l))
unfolding list_remove
In-list_remove p q [] o = ((λ m. absurd m), λ m. absurd m.0)
In-list_remove p q (r ∷ l) o =
    let (to, from) = In-list_remove p q l o.1 in
    elim (same_or_not r p) [
      | inl same ↦
          let e : (r == p) ≡ true = eq→== same in
          rw (list_remove, e)
            (
              (λ m. (inr m, λ s. o.0 (subst (λ y. In y l) (s ∙ sym same) m))),
              λ (m, n). elim m [ inl s ↦ absurd (n (s ∙ same)) | inr m' ↦ m' ],
            )
      | inr ne ↦
          let e : (r == p) ≡ false = ne→== ne in
          rw (list_remove, e)
            (
              (λ m. elim m [
                | inl s ↦ (inl s, λ s'. ne (sym s ∙ s'))
                | inr m' ↦ let (i, n) = to m' in (inr i, n)
              ]),
              λ (m, n). elim m [ inl s ↦ inl s | inr m' ↦ inr (from (m', n)) ],
            )
    ]

pub Once-list_remove : (p : ℕ) (l : List ℕ) → Once l → Once (list_remove p l)
unfolding list_remove
Once-list_remove p [] o = tt
Once-list_remove p (r ∷ l) o = elim (Bool-cases (r == p)) [
  | inl e ↦ rw (list_remove, e) o.1
  | inr e ↦
      rw (list_remove, e) ((λ m. o.0 ((In-list_remove p r l o.1).0 m).0), Once-list_remove p l o.1)
]

pub length-list_remove : (p : ℕ) (l : List ℕ) → In p l → length (list_remove p l) + 1 ≡ length l
unfolding list_remove
length-list_remove p [] m = absurd m
length-list_remove p (r ∷ l) m = elim (same_or_not r p) [
  | inl same ↦ let e : (r == p) ≡ true = eq→== same in rw (list_remove, e) (omega arith)
  | inr ne ↦
      let e : (r == p) ≡ false = ne→== ne in
      rw (list_remove, e)
        (elim m [ inl s ↦ absurd (ne (sym s)) | inr m' ↦ omega (arith, length-list_remove p l m') ])
]
