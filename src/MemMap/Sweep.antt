-- ===== src/MemMap/Sweep.antt =====
-- The sweep of memMapNormalize: one segment, and one region at the end of the output.
use bongos.Common.{
  ℕ, ◌≤◌, ◌<◌, ◌≡◌, refl, sym, Bool, true, false, ◌&&◌, ◌⊎◌, inl, inr, Option, none, some, List, [],
  ◌∷◌, arith, ltb, leb, Bool-cases, Option-cases, ◌∙◌, ap,
}
use bongos.MemMap.{MemMapInput, round_input, rank, best}
use bongos.MemMap.Points.{EndsSatisfy, AllEnds}

abbrev pub in_range : Option (ℕ × ℕ) → ℕ → Bool
in_range none a = false
in_range (some (b, e)) a = leb b a && ltb a e

-- The rounded range of the input holds address `a`.
abbrev pub covers : MemMapInput → ℕ → Bool
covers r a = in_range (round_input r) a

-- No input that covers `a` has a rank above `k`.
abbrev pub Upper : List MemMapInput → ℕ → ℕ → Type 0
Upper [] a k = Unit {0}
Upper (r ∷ rs) a k = (covers r a ≡ true → rank r.type ≤ k) × Upper rs a k

-- Some input that covers `a` has type `t`.
abbrev pub Source : List MemMapInput → ℕ → ℕ → Type 0
Source [] a t = ⊥
Source (r ∷ rs) a t = (covers r a ≡ true) × (r.type ≡ t) ⊎ Source rs a t

-- The type of address `a` is that of an input of the highest rank that covers it; it has none
-- where every input that covers it has no rank.
abbrev pub Winner : List MemMapInput → ℕ → Option ℕ → Type 0
Winner rs a none = Upper rs a 0
Winner rs a (some t) = Source rs a t × Upper rs a (rank t) × (0 < rank t)

-- No end of an input lies inside [p, q).
abbrev pub Outside : ℕ → ℕ → ℕ → Type 0
Outside p q x = (x ≤ p) ⊎ (q ≤ x)

pub record Picked (rs : List MemMapInput) (a k t k' t' : ℕ) : Type 0 where
  pub upper : Upper rs a k'
  pub above : k ≤ k'
  pub from : (k' ≡ k) × (t' ≡ t) ⊎ Source rs a t' × (k' ≡ rank t')

Upper-mono : (rs : List MemMapInput) (a k k' : ℕ) → k ≤ k' → Upper rs a k → Upper rs a k'
Upper-mono [] a k k' h u = tt
Upper-mono (r ∷ rs) a k k' h u = (λ c. omega (arith, u.0 c), Upper-mono rs a k k' h u.1)

module _ (r : MemMapInput) (rs : List MemMapInput) (a k t k' t' : ℕ) where
  Picked-take :
      covers r a ≡ true
      → k < rank r.type
      → Picked rs a (rank r.type) r.type k' t'
      → Picked (r ∷ rs) a k t k' t'
  Picked-take c h p = record {
    upper = (λ _. p.above, p.upper);
    above = omega (arith, p.above);
    from = elim p.from [
      | inl (ek, et) ↦ inr (inl (c, sym et), ek ∙ ap rank (sym et))
      | inr (s, e) ↦ inr (inr s, e)
    ];
  }

  Picked-skip :
      (covers r a ≡ true → rank r.type ≤ k) → Picked rs a k t k' t' → Picked (r ∷ rs) a k t k' t'
  Picked-skip h p = record {
    upper = (λ c. omega (arith, h c, p.above), p.upper);
    above = p.above;
    from = elim p.from [ inl e ↦ inl e | inr (s, e) ↦ inr (inr s, e) ];
  }

module _ (p q a : ℕ) (from_p : p ≤ a) (to_q : a < q) where
  covers-segment :
      (o : Option (ℕ × ℕ))
      → EndsSatisfy (Outside p q) o
      → in_range o a ≡ elim o [ none ↦ false | some (b, e) ↦ leb b p && leb q e ]
  covers-segment none h = refl
  covers-segment (some (b, e)) h = ground (arith, h.0, h.1)

  pub best-Picked :
      (rs : List MemMapInput) (k t : ℕ)
      → AllEnds (Outside p q) rs
      → let (k', t') = best rs p q (k, t) in Picked rs a k t k' t'
  unfolding best
  best-Picked [] k t h = record { upper = tt; above = omega arith; from = inl (refl, refl) }
  best-Picked (r ∷ rs) k t h = elim (Option-cases (round_input r)) [
    | inl e ↦
        rw (e, best)
          (Picked-skip r rs a k t _ _ (λ c. let c' : false ≡ true = rw e at c in absurd (cc))
            (best-Picked rs k t h.1))
    | inr ((b, e), eq) ↦
        let ends = rw eq at h.0 in
        elim (Bool-cases (leb b p && leb q e && ltb k (rank r.type))) [
          | inl yes' ↦
              let covered : covers r a ≡ true = rw eq (ground (arith, ends.0, ends.1)) in
              rw (eq, best)
                (rw yes' (
                  Picked-take r rs a k t _ _ covered (ground arith)
                    (best-Picked rs (rank r.type) r.type h.1)))
          | inr no' ↦
              rw (eq, best)
                (rw no' (
                  Picked-skip r rs a k t _ _
                    (λ c.
                      let c' : leb b a && ltb a e ≡ true = rw eq at c in
                      ground (arith, ends.0, ends.1))
                    (best-Picked rs k t h.1)))
        ]
  ]
