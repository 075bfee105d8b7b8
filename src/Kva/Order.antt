-- ===== src/Kva/Order.antt =====
-- The invariant that kva-internal.h states of the extent table, and the addresses that it covers.
use bongos.Common.{
  ℕ, ◌+◌, ◌≤◌, ◌<◌, ◌≡◌, refl, Bool, false, ◌&&◌, ◌||◌, List, [], ◌∷◌, arith, ltb, leb, u64_mod,
}
use bongos.Kva.{KvaExtent, KvaState, max_extents}

-- Sorted, none empty, no two overlap or touch, and all within [lo, hi).
abbrev pub IsChain : ℕ → List KvaExtent → ℕ → Type 0
IsChain lo [] hi = Unit {0}
IsChain lo (e ∷ es) hi =
    (lo ≤ e.start) × (e.start < e.end) × (e.end ≤ hi) × IsChain (e.end + 1) es hi

pub record IsValid (st : KvaState) : Type 0 where
  pub chain : IsChain st.base st.extents st.end
  pub fits : st.end < u64_mod
  pub capped : st.live_count < max_extents

abbrev pub within : ℕ → ℕ → ℕ → Bool
within lo hi a = leb lo a && ltb a hi

-- Whether address `a` is free.
abbrev pub covers : List KvaExtent → ℕ → Bool
covers [] a = false
covers (e ∷ es) a = within e.start e.end a || covers es a

pub covers-below :
    (lo hi a : ℕ) (es : List KvaExtent) → IsChain lo es hi → a < lo → covers es a ≡ false
covers-below lo hi a [] c h = refl
covers-below lo hi a (e ∷ es) c h =
    ground (arith, covers-below (e.end + 1) hi a es c.3 (omega arith))

pub covers-above :
    (lo hi a : ℕ) (es : List KvaExtent) → IsChain lo es hi → hi ≤ a → covers es a ≡ false
covers-above lo hi a [] c h = refl
covers-above lo hi a (e ∷ es) c h = ground (arith, covers-above (e.end + 1) hi a es c.3 h)

pub IsChain-weaken :
    (lo lo' hi : ℕ) (es : List KvaExtent) → lo' ≤ lo → IsChain lo es hi → IsChain lo' es hi
IsChain-weaken lo lo' hi [] h c = tt
IsChain-weaken lo lo' hi (e ∷ es) h c = (omega arith, c.1, c.2, c.3)
