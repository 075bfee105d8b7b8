-- ===== src/Buddy/Links.antt =====
-- Linking a block adds its frames to the free ones, unlinking takes them away.
use bongos.Common.{
  ℕ, ◌≤◌, ◌≡◌, ◌≢◌, ◌⊎◌, refl, sym, subst, ◌∙◌, ap, true, false, arith, inl, inr, same_or_not,
  eq→==, ne→==,
}
use bongos.Common.Bits.{pow2_pos}
use bongos.Buddy.{PmmZone, link_block, unlink_block, pmm_max_order}
use bongos.Buddy.Blocks.{
  IsBlock, Within, IsFree, IsAligned, In, IsValid, In-list_remove, Once-list_remove,
  length-list_remove,
}

pub Within-self : (p k : ℕ) → Within p k p
Within-self p k = (omega arith, omega (arith, pow2_pos k))

false_not_true : false ≢ true
false_not_true e = cc

-- The frames of a block leave the free ones.
pub record Unlinks (z : PmmZone) (p k : ℕ) (z' : PmmZone) : Type 0 where
  pub valid : IsValid z'
  pub blocks :
      (q j : ℕ)
      → (IsBlock z' q j → IsBlock z q j × (q ≢ p)) × (IsBlock z q j × (q ≢ p) → IsBlock z' q j)
  pub taken : (x : ℕ) → Within p k x → IsFree z' x → ⊥
  pub covers :
      (x : ℕ)
      → (IsFree z x → IsFree z' x ⊎ Within p k x) × (IsFree z' x ⊎ Within p k x → IsFree z x)

module _ (z : PmmZone) (p k : ℕ) (v : IsValid z) (b : IsBlock z p k) where
  abbrev without : PmmZone
  without = unlink_block z p k

  unlink-IsBlock :
      (q j : ℕ)
      → (IsBlock without q j → IsBlock z q j × (q ≢ p))
        × (IsBlock z q j × (q ≢ p) → IsBlock without q j)
  unfolding unlink_block
  unlink-IsBlock q j = elim (same_or_not q p) [
    | inl s ↦ let e = eq→== s in rw e ((λ c. absurd (false_not_true c.0)), λ (c, n). absurd (n s))
    | inr n ↦ let e = ne→== n in rw e ((λ c. (c, n)), λ (c, n'). c)
  ]

  -- A page heads blocks of one order only.
  other_order : (q j : ℕ) → IsBlock z q j → j ≢ k → q ≢ p
  other_order q j c n s = n (sym c.1 ∙ ap (λ y. (z.pages y).order) s ∙ b.1)

  unlink-listed :
      (j q : ℕ)
      → (In q (without.free_list j) → IsBlock without q j)
        × (IsBlock without q j → In q (without.free_list j))
  unfolding unlink_block
  unlink-listed j q =
      let (to, from) = unlink-IsBlock q j in
      let (listed, lists) = v.listed j q in
      elim (same_or_not j k) [
        | inl s ↦
            let e = eq→== s in
            let (old, new) = In-list_remove p q (z.free_list k) (v.once k) in
            rw e (
              (λ m.
                  let (i, n) = old m in from (subst (IsBlock z q) (sym s) ((v.listed k q).0 i), n)),
              (λ c. let (c', n) = to c in new ((v.listed k q).1 (subst (IsBlock z q) s c'), n)),
            )
        | inr n ↦
            let e = ne→== n in
            rw e ((λ m. from (listed m, other_order q j (listed m) n)), (λ c. lists (to c).0))
      ]

  pub unlink-Unlinks : Unlinks z p k without
  unfolding unlink_block
  unlink-Unlinks =
      let blocks = unlink-IsBlock in
      record {
        valid = record {
          listed = unlink-listed;
          once = λ j. elim (same_or_not j k) [
            | inl s ↦ let e = eq→== s in rw e (Once-list_remove p (z.free_list k) (v.once k))
            | inr n ↦ let e = ne→== n in rw e (v.once j)
          ];
          counts = λ j. elim (same_or_not j k) [
            | inl s ↦
                let e = eq→== s in
                rw e (
                  omega
                    (arith, length-list_remove p (z.free_list k) ((v.listed k p).1 b), v.counts k))
            | inr n ↦ let e = ne→== n in rw e (v.counts j)
          ];
          top = λ q j c. v.top q j ((blocks q j).0 c).0;
          aligned = λ q j c. v.aligned q j ((blocks q j).0 c).0;
          apart = λ q j r i x c d. v.apart q j r i x ((blocks q j).0 c).0 ((blocks r i).0 d).0;
        };
        blocks = blocks;
        taken = λ x w (q, j, c, u).
            let (c', n) = (blocks q j).0 c in absurd (n (v.apart q j p k x c' b u w));
        covers = λ x. (
          (λ (q, j, c, u). elim (same_or_not q p) [
            | inl s ↦
                let order : j ≡ k = sym c.1 ∙ ap (λ y. (z.pages y).order) s ∙ b.1 in
                inr (subst (λ y. Within y k x) s (subst (λ i. Within q i x) order u))
            | inr n ↦ inl (q, j, (blocks q j).1 (c, n), u)
          ]),
          (λ m. elim m [
            | inl (q, j, c, u) ↦ (q, j, ((blocks q j).0 c).0, u)
            | inr w ↦ (p, k, b, w)
          ]),
        );
      }

-- The frames of a block join the free ones.
pub record Links (z : PmmZone) (p k : ℕ) (z' : PmmZone) : Type 0 where
  pub valid : IsValid z'
  pub covers :
      (x : ℕ)
      → (IsFree z' x → IsFree z x ⊎ Within p k x) × (IsFree z x ⊎ Within p k x → IsFree z' x)

module _ (z : PmmZone) (p k : ℕ) (v : IsValid z) (a : IsAligned p k) (low : k ≤ pmm_max_order)
    (busy : (x : ℕ) → Within p k x → IsFree z x → ⊥) where
  abbrev with_block : PmmZone
  with_block = link_block z p k

  not_block : (j : ℕ) → IsBlock z p j → ⊥
  not_block j c = busy p (Within-self p k) (p, j, c, Within-self p j)

  link-IsBlock :
      (q j : ℕ)
      → (IsBlock with_block q j → (q ≡ p) × (j ≡ k) ⊎ IsBlock z q j)
        × ((q ≡ p) × (j ≡ k) ⊎ IsBlock z q j → IsBlock with_block q j)
  unfolding link_block
  link-IsBlock q j = elim (same_or_not q p) [
    | inl s ↦
        let e = eq→== s in
        rw e (
          (λ c. inl (s, sym c.1)),
          (λ m. elim m [
            | inl (_, o) ↦ (refl, sym o)
            | inr c ↦ absurd (not_block j (subst (λ y. IsBlock z y j) s c))
          ]),
        )
    | inr n ↦
        let e = ne→== n in
        rw e ((λ c. inr c), (λ m. elim m [ inl (s, _) ↦ absurd (n s) | inr c ↦ c ]))
  ]

  link-listed :
      (j q : ℕ)
      → (In q (with_block.free_list j) → IsBlock with_block q j)
        × (IsBlock with_block q j → In q (with_block.free_list j))
  unfolding link_block
  link-listed j q =
      let (to, from) = link-IsBlock q j in
      elim (same_or_not j k) [
        | inl s ↦
            let e = eq→== s in
            let (listed, lists) = v.listed k q in
            rw e (
              (λ m. elim m [
                | inl h ↦ from (inl (h, s))
                | inr t ↦ from (inr (subst (IsBlock z q) (sym s) (listed t)))
              ]),
              (λ c. elim (to c) [
                | inl (h, _) ↦ inl h
                | inr c' ↦ inr (lists (subst (IsBlock z q) s c'))
              ]),
            )
        | inr n ↦
            let e = ne→== n in
            let (listed, lists) = v.listed j q in
            rw e (
              (λ m. from (inr (listed m))),
              (λ c. elim (to c) [ inl (_, o) ↦ absurd (n o) | inr c' ↦ lists c' ]),
            )
      ]

  link-apart :
      (q j r i x : ℕ)
      → IsBlock with_block q j
      → IsBlock with_block r i
      → Within q j x
      → Within r i x
      → q ≡ r
  link-apart q j r i x c d u w = elim ((link-IsBlock q j).0 c) [
    | inl (s, o) ↦ elim ((link-IsBlock r i).0 d) [
      | inl (s', _) ↦ s ∙ sym s'
      | inr d' ↦
          absurd
            (busy x (subst (λ y. Within y k x) s (subst (λ m. Within q m x) o u)) (r, i, d', w))
    ]
    | inr c' ↦ elim ((link-IsBlock r i).0 d) [
      | inl (s', o') ↦
          absurd
            (busy x (subst (λ y. Within y k x) s' (subst (λ m. Within r m x) o' w)) (q, j, c', u))
      | inr d' ↦ v.apart q j r i x c' d' u w
    ]
  ]

  pub link-Links : Links z p k with_block
  unfolding link_block
  link-Links =
      let blocks = link-IsBlock in
      record {
        valid = record {
          listed = link-listed;
          once = λ j. elim (same_or_not j k) [
            | inl s ↦ let e = eq→== s in rw e ((λ m. not_block k ((v.listed k p).0 m)), v.once k)
            | inr n ↦ let e = ne→== n in rw e (v.once j)
          ];
          counts = λ j. elim (same_or_not j k) [
            | inl s ↦ let e = eq→== s in rw e (omega (arith, v.counts k))
            | inr n ↦ let e = ne→== n in rw e (v.counts j)
          ];
          top = λ q j c. elim ((blocks q j).0 c) [
            | inl (_, o) ↦ omega (arith, o, low)
            | inr c' ↦ v.top q j c'
          ];
          aligned = λ q j c. elim ((blocks q j).0 c) [
            | inl (s, o) ↦ subst (λ m. IsAligned q m) (sym o) (subst (λ y. IsAligned y k) (sym s) a)
            | inr c' ↦ v.aligned q j c'
          ];
          apart = link-apart;
        };
        covers = λ x. (
          (λ (q, j, c, u). elim ((blocks q j).0 c) [
            | inl (s, o) ↦ inr (subst (λ y. Within y k x) s (subst (λ m. Within q m x) o u))
            | inr c' ↦ inl (q, j, c', u)
          ]),
          (λ m. elim m [
            | inl (q, j, c, u) ↦ (q, j, (blocks q j).1 (inr c), u)
            | inr w ↦ (p, k, (blocks p k).1 (inl (refl, refl)), w)
          ]),
        );
      }
