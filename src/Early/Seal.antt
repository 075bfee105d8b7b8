-- ===== src/Early/Seal.antt =====
-- The seal, and the query of what was handed out before it.
use bongos.Common.{
  ℕ, ◌≡◌, ◌≢◌, ◌↔◌, refl, Bool, true, false, ◌&&◌, some, List, [], ◌∷◌, ltb, leb, arith, inl, inr,
  Bool-cases,
}
use bongos.Early.{EarlyRange, EarlyState, shrink, seal, in_consumed, was_allocated}
use bongos.Early.Bump.{IsUsed}

false_not_true : false ≢ true
false_not_true e = cc

in_consumed-shrink :
    (x : ℕ) (rs : List EarlyRange) → (in_consumed x (shrink rs) ≡ true) ↔ IsUsed rs x
unfolding in_consumed shrink
in_consumed-shrink x [] = ((λ e. absurd (false_not_true e)), (λ u. absurd u))
in_consumed-shrink x (r ∷ rs) =
    let (to, from) = in_consumed-shrink x rs in
    elim (Bool-cases (leb r.cursor x && ltb x r.original_end)) [
      | inl e ↦ rw (in_consumed, e) ((λ _. inl (ground arith, ground arith)), (λ _. refl))
      | inr e ↦
          rw (in_consumed, e)
            (
              (λ t. inr (to t)),
              (λ u. elim u [ inl h ↦ absurd (ground (arith, h)) | inr t ↦ from t ]),
            )
    ]

-- After pmmEarlySeal, pmmEarlyWasAllocated does not panic and tells exactly the frames that were
-- handed out before.
pub was_allocated-seal :
    (s : EarlyState) (x : ℕ)
    → s.is_sealed ≡ false
    → (b : Bool) × (was_allocated (seal s) x ≡ some b) × ((b ≡ true) ↔ IsUsed s.ranges x)
unfolding was_allocated seal
was_allocated-seal s x unsealed = (
  in_consumed x (shrink s.ranges),
  rw (was_allocated, seal, unsealed) refl,
  in_consumed-shrink x s.ranges,
)
