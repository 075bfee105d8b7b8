-- ===== src/Early/Bump.antt =====
-- pmmEarlyAllocPages hands out frames of the usable ranges, each once.
use bongos.Common.{
  ap, ℕ, ◌+◌, ◌-◌, ◌*◌, ◌≤◌, ◌<◌, ◌≡◌, ◌⊎◌, refl, false, none, some, List, [], ◌∷◌, ltb, leb, arith,
  inl, inr, Bool-cases,
}
use bongos.Early.{EarlyRange, EarlyState, err_no_memory, allocated, take_pages, early_alloc_pages}

-- Ranges in ascending order from `lo` on, the cursor of each within it.
abbrev pub IsAscending : ℕ → List EarlyRange → Type 0
IsAscending lo [] = Unit {0}
IsAscending lo (r ∷ rs) =
    (lo ≤ r.start_pfn)
    × (r.start_pfn ≤ r.cursor)
    × (r.cursor ≤ r.original_end)
    × IsAscending r.original_end rs

-- The frame has not been handed out, or it has.
abbrev pub IsLeft : List EarlyRange → ℕ → Type 0
IsLeft [] x = ⊥
IsLeft (r ∷ rs) x = (r.start_pfn ≤ x) × (x < r.cursor) ⊎ IsLeft rs x

abbrev pub IsUsed : List EarlyRange → ℕ → Type 0
IsUsed [] x = ⊥
IsUsed (r ∷ rs) x = (r.cursor ≤ x) × (x < r.original_end) ⊎ IsUsed rs x

-- No range has as many frames left.
abbrev pub TooFew : ℕ → List EarlyRange → Type 0
TooFew count [] = Unit {0}
TooFew count (r ∷ rs) = (r.cursor < r.start_pfn + count) × TooFew count rs

-- What taking `count` frames from `pfn` on does.
pub record Takes (lo count : ℕ) (rs : List EarlyRange) (pfn : ℕ) (rs' : List EarlyRange)
    : Type 0 where
  pub ascending : IsAscending lo rs'
  pub above : lo ≤ pfn
  pub left :
      (x : ℕ)
      → (IsLeft rs x → IsLeft rs' x ⊎ (pfn ≤ x) × (x < pfn + count))
        × (IsLeft rs' x ⊎ (pfn ≤ x) × (x < pfn + count) → IsLeft rs x)
  pub used :
      (x : ℕ)
      → (IsUsed rs' x → IsUsed rs x ⊎ (pfn ≤ x) × (x < pfn + count))
        × (IsUsed rs x ⊎ (pfn ≤ x) × (x < pfn + count) → IsUsed rs' x)

IsLeft-above : (lo : ℕ) (rs : List EarlyRange) (x : ℕ) → IsAscending lo rs → IsLeft rs x → lo ≤ x
IsLeft-above lo [] x a l = absurd l
IsLeft-above lo (r ∷ rs) x a (inl here) = omega (arith, a.0, here)
IsLeft-above lo (r ∷ rs) x a (inr there) =
    omega (arith, a.0, a.1, a.2, IsLeft-above r.original_end rs x a.3 there)

IsUsed-above : (lo : ℕ) (rs : List EarlyRange) (x : ℕ) → IsAscending lo rs → IsUsed rs x → lo ≤ x
IsUsed-above lo [] x a l = absurd l
IsUsed-above lo (r ∷ rs) x a (inl here) = omega (arith, a.0, a.1, here)
IsUsed-above lo (r ∷ rs) x a (inr there) =
    omega (arith, a.0, a.1, a.2, IsUsed-above r.original_end rs x a.3 there)

-- No frame is both left and used.
pub IsLeft-IsUsed :
    (lo : ℕ) (rs : List EarlyRange) (x : ℕ) → IsAscending lo rs → IsLeft rs x → IsUsed rs x → ⊥
IsLeft-IsUsed lo [] x a l u = l
IsLeft-IsUsed lo (r ∷ rs) x a (inl here) (inl now) = absurd (omega (arith, here, now))
IsLeft-IsUsed lo (r ∷ rs) x a (inl here) (inr u) =
    absurd (omega (arith, here, a.2, IsUsed-above r.original_end rs x a.3 u))
IsLeft-IsUsed lo (r ∷ rs) x a (inr l) (inl now) =
    absurd (omega (arith, now, IsLeft-above r.original_end rs x a.3 l))
IsLeft-IsUsed lo (r ∷ rs) x a (inr l) (inr u) = IsLeft-IsUsed r.original_end rs x a.3 l u

take_pages-Takes :
    (lo count : ℕ) (rs : List EarlyRange)
    → IsAscending lo rs
    → (take_pages count rs ≡ none) × TooFew count rs
      ⊎ ((pfn : ℕ) × (rs' : List EarlyRange) × (take_pages count rs ≡ some (pfn, rs'))
          × Takes lo count rs pfn rs')
unfolding take_pages
take_pages-Takes lo count [] a = inl (refl, tt)
take_pages-Takes lo count (r ∷ rs) a = elim (take_pages-Takes r.original_end count rs a.3) [
  | inr (pfn, rs', e, t) ↦ inr (
    pfn,
    r ∷ rs',
    rw (take_pages, e) refl,
    record {
      ascending = (a.0, a.1, a.2, t.ascending);
      above = omega (arith, t.above, a.0, a.1, a.2);
      left = λ x.
          let (to, from) = t.left x in
          (
            (λ m. elim m [
              | inl h ↦ inl (inl h)
              | inr l ↦ elim (to l) [ inl l' ↦ inl (inr l') | inr b ↦ inr b ]
            ]),
            (λ m. elim m [
              | inl s ↦ elim s [ inl h ↦ inl h | inr l ↦ inr (from (inl l)) ]
              | inr b ↦ inr (from (inr b))
            ]),
          );
      used = λ x.
          let (to, from) = t.used x in
          (
            (λ m. elim m [
              | inl h ↦ inl (inl h)
              | inr l ↦ elim (to l) [ inl l' ↦ inl (inr l') | inr b ↦ inr b ]
            ]),
            (λ m. elim m [
              | inl s ↦ elim s [ inl h ↦ inl h | inr l ↦ inr (from (inl l)) ]
              | inr b ↦ inr (from (inr b))
            ]),
          );
    },
  )
  | inl (e, few) ↦ elim (Bool-cases (leb count (r.cursor - r.start_pfn))) [
    | inr small ↦ inl (rw (take_pages, e, small) refl, (ground (arith, a.1), few))
    | inl fits ↦
        let room : r.start_pfn + count ≤ r.cursor = ground (arith, a.1) in
        let base = r.cursor - count in
        inr (
          base,
          record r { cursor = base } ∷ rs,
          rw (take_pages, e, fits) refl,
          record {
            ascending = (a.0, omega (arith, room), omega (arith, a.2), a.3);
            above = omega (arith, a.0, room);
            left = λ x. (
              (λ m. elim m [
                | inl h ↦ elim (Bool-cases (ltb x base)) [
                  | inl low ↦ inl (inl (h.0, ground arith))
                  | inr high ↦ inr (ground arith, omega (arith, h, room))
                ]
                | inr l ↦ inl (inr l)
              ]),
              (λ m. elim m [
                | inl s ↦ elim s [ inl h ↦ inl (h.0, omega (arith, h, room)) | inr l ↦ inr l ]
                | inr b ↦ inl (omega (arith, b, room), omega (arith, b, room))
              ]),
            );
            used = λ x. (
              (λ m. elim m [
                | inl h ↦ elim (Bool-cases (ltb x r.cursor)) [
                  | inl low ↦ inr (h.0, ground (arith, room))
                  | inr high ↦ inl (inl (ground arith, h.1))
                ]
                | inr l ↦ inl (inr l)
              ]),
              (λ m. elim m [
                | inl s ↦ elim s [ inl h ↦ inl (omega (arith, h, room), h.1) | inr l ↦ inr l ]
                | inr b ↦ inl (b.0, omega (arith, b, room, a.2))
              ]),
            );
          },
        )
  ]
]

-- Before the seal, on ranges in ascending order, pmmEarlyAllocPages returns the address of frames
-- that were left and makes exactly them used, or it fails and no range has as many frames left.
pub early_alloc_pages-Takes :
    (s : EarlyState) (count : ℕ)
    → s.is_sealed ≡ false
    → IsAscending 0 s.ranges
    → (early_alloc_pages s count ≡ err_no_memory) × TooFew count s.ranges
      ⊎ ((pfn : ℕ) × (s' : EarlyState) × (early_alloc_pages s count ≡ allocated (pfn * 4096) s')
          × Takes 0 count s.ranges pfn s'.ranges
          × (s'.used_pages ≡ s.used_pages + count)
          × (s'.is_sealed ≡ false))
unfolding early_alloc_pages
early_alloc_pages-Takes s count unsealed a = elim (take_pages-Takes 0 count s.ranges a) [
  | inl (e, few) ↦ inl (rw (early_alloc_pages, unsealed, e) refl, few)
  | inr (pfn, rs, e, t) ↦ inr (
    pfn,
    record s { ranges = rs; used_pages = s.used_pages + count },
    rw (early_alloc_pages, unsealed, e)
        (ap
          (λ b.
            allocated (pfn * 4096)
              (record { ranges = rs; is_sealed = b; used_pages = s.used_pages + count }))
          unsealed),
    t,
    refl,
    unsealed,
  )
]
