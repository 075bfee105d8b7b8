-- ===== src/Kva/Free.antt =====
-- kvaFree: what was taken is free again, and nothing else.
use bongos.Common.{
  ℕ, suc, ◌+◌, ◌-◌, ◌≤◌, ◌<◌, ◌≡◌, ◌≢◌, refl, true, false, ◌||◌, Option, some, ◌⊎◌, List, [], ◌∷◌,
  inl, inr, arith, Option-cases, u64_mod, sub32, sub64, add64, ap, ◌∙◌,
}
use bongos.Kva.{KvaExtent, KvaState, ok, find_idx, release_at, free, guard_size}
use bongos.Kva.Order.{IsChain, IsValid, within, covers, covers-below}

-- What the release of [s, t) leaves of a table.
record Released (lo hi s t : ℕ) (es es' : List KvaExtent) : Type 0 where
  chain : IsChain lo es' hi
  was_taken : (a : ℕ) → within s t a ≡ true → covers es a ≡ false
  now : (a : ℕ) → covers es' a ≡ (covers es a || within s t a)

abbrev release : List KvaExtent → ℕ → ℕ → Option (List KvaExtent)
release es s t = release_at es (find_idx s es) s t

module _ (hi s t : ℕ) (order : s < t) (below : t ≤ hi) where
  -- No extent starts before `s`.
  release_first :
      (lo : ℕ) (es es' : List KvaExtent)
      → IsChain lo es hi
      → lo ≤ s
      → find_idx s es ≡ 0
      → release es s t ≡ some es'
      → Released lo hi s t es es'
  unfolding release_at find_idx
  release_first lo [] es' c l e h = record {
    chain = ground arith;
    was_taken = λ a w. refl;
    now = λ a. ground arith;
  }
  release_first lo (x ∷ es) es' c l e h = record {
    chain = ground arith;
    was_taken = λ a w. ground (arith, covers-below (x.end + 1) hi a es c.3);
    now = λ a. ground arith;
  }

  -- Exactly one extent starts before `s`.
  release_second :
      (lo : ℕ) (x : KvaExtent) (es es' : List KvaExtent)
      → IsChain lo (x ∷ es) hi
      → x.start < s
      → find_idx s es ≡ 0
      → release_at (x ∷ es) 1 s t ≡ some es'
      → Released lo hi s t (x ∷ es) es'
  unfolding release_at find_idx
  release_second lo x [] es' c l e h = record {
    chain = ground arith;
    was_taken = λ a w. ground arith;
    now = λ a. ground arith;
  }
  release_second lo x (y ∷ es) es' c l e h = record {
    chain = ground arith;
    was_taken = λ a w. ground (arith, covers-below (y.end + 1) hi a es c.3.3);
    now = λ a. ground arith;
  }

  -- An extent two places before the one found stays as it is.
  release_at-cons :
      (x : KvaExtent) (es : List KvaExtent) (i : ℕ) {es' : List KvaExtent}
      → release_at (x ∷ es) (suc (suc i)) s t ≡ some es'
      → (rest : List KvaExtent) × (release_at es (suc i) s t ≡ some rest) × (es' ≡ x ∷ rest)
  unfolding release_at
  release_at-cons x es i h =
      let one : suc i - 1 ≡ i = omega arith in
      let two : suc (suc i) - 1 ≡ suc i = omega arith in
      elim (Option-cases (release_at es (suc i) s t)) [
        | inl e ↦ absurd (ground arith)
        | inr (rest, e) ↦ (rest, e, ground arith)
      ]

  find_idx-nil : find_idx s [] ≡ 0
  unfolding find_idx
  find_idx-nil = refl

  find_idx-cons :
      (x : KvaExtent) (es : List KvaExtent)
      → (x.start < s) × (find_idx s (x ∷ es) ≡ suc (find_idx s es)) ⊎ (find_idx s (x ∷ es) ≡ 0)
  unfolding find_idx
  find_idx-cons x es = ground arith

  Released-cons :
      (lo : ℕ) (x : KvaExtent) (es es' : List KvaExtent)
      → IsChain lo (x ∷ es) hi
      → x.end < s
      → Released (x.end + 1) hi s t es es'
      → Released lo hi s t (x ∷ es) (x ∷ es')
  Released-cons lo x es es' c h r = record {
    chain = (c.0, c.1, c.2, r.chain);
    was_taken = λ a w. ground (arith, r.was_taken a w);
    now = λ a. ground (arith, r.now a);
  }

  -- The extents are searched from below, so an extent that stays ends before the next one starts.
  release-Released :
      (lo : ℕ) (es es' : List KvaExtent)
      → IsChain lo es hi
      → lo ≤ s
      → release es s t ≡ some es'
      → Released lo hi s t es es'
  release-Released lo [] es' c l h = release_first lo [] es' c l find_idx-nil h
  release-Released lo (x ∷ []) es' c l h = elim (find_idx-cons x []) [
    | inr first ↦ release_first lo (x ∷ []) es' c l first h
    | inl (starts, idx) ↦
        release_second lo x [] es' c starts find_idx-nil (rw (idx ∙ ap suc find_idx-nil) at h)
  ]
  release-Released lo (x ∷ y ∷ ys) es' c l h = elim (find_idx-cons x (y ∷ ys)) [
    | inr first ↦ release_first lo (x ∷ y ∷ ys) es' c l first h
    | inl (starts, idx) ↦ elim (find_idx-cons y ys) [
      | inr second ↦
          release_second lo x (y ∷ ys) es' c starts second (rw (idx ∙ ap suc second) at h)
      | inl (starts_too, idx_too) ↦
          let (rest, e, e') =
            release_at-cons x (y ∷ ys) (find_idx s ys) (rw (idx ∙ ap suc idx_too) at h) in
          rw e' (
            Released-cons lo x (y ∷ ys) rest c (omega arith)
              (release-Released (x.end + 1) (y ∷ ys) rest c.3 (omega arith) (rw idx_too e)))
    ]
  ]

-- What a successful kvaFree has done: the range with its two guard pages lies within the bounds,
-- none of it was free, now it is, and no other address has changed.
pub record Freed (st : KvaState) (va size : ℕ) (st' : KvaState) : Type 0 where
  pub chain : IsChain st'.base st'.extents st'.end
  pub bounds : (st'.base ≡ st.base) × (st'.end ≡ st.end)
  pub counted : st'.live_count ≡ sub32 st.live_count 1
  pub inside : (st.base + guard_size ≤ va) × (va + size + guard_size ≤ st.end)
  pub was_taken :
      (a : ℕ)
      → within (va - guard_size) (va + size + guard_size) a ≡ true
      → covers st.extents a ≡ false
  pub now :
      (a : ℕ)
      → covers st'.extents a
        ≡ (covers st.extents a || within (va - guard_size) (va + size + guard_size) a)

-- Below 2^64 - 4096 a sum that wraps is caught by the test `end < va`.
free-release :
    (st : KvaState) (va size : ℕ) (st' : KvaState)
    → st.end < u64_mod
    → va < u64_mod
    → size + guard_size < u64_mod
    → free st va size ≡ (ok, st')
    → (release st.extents (va - guard_size) (va + size + guard_size) ≡ some st'.extents)
      × (st' ≡ record st { extents = st'.extents; live_count = sub32 st.live_count 1 })
      × (0 < size)
      × (st.base + guard_size ≤ va)
      × (va + size + guard_size ≤ st.end)
      × (guard_size ≤ va)
unfolding free
free-release st va size st' small hv hs h = ground arith

-- In a valid state, a successful kvaFree of a 64-bit address and a size below 2^64 - 4096 keeps the
-- table sorted, non-overlapping and non-touching within unchanged bounds, takes one from the live
-- count (modulo 2^32), and gives back exactly the range with its two guard pages, which lies within
-- the bounds and held no free address: a double free does not succeed.
pub free-Freed :
    (st : KvaState) (va size : ℕ) (st' : KvaState)
    → IsValid st
    → va < u64_mod
    → size + guard_size < u64_mod
    → free st va size ≡ (ok, st')
    → Freed st va size st'
free-Freed st va size st' v hv hs h =
    let (released, e, positive, from, to, above) = free-release st va size st' v.fits hv hs h in
    let r =
      release-Released st.end (va - guard_size) (va + size + guard_size) (omega arith) to st.base
        st.extents st'.extents v.chain (omega arith) released in
    record {
      chain = rw e r.chain;
      bounds = rw e (refl, refl);
      counted = rw e refl;
      inside = (from, to);
      was_taken = r.was_taken;
      now = r.now;
    }

-- At size 2^64 - 4096 the test `end < va` does not see the wrap: the end comes out as `va` itself,
-- and whenever the page before `va` lies within the bounds and can be released, kvaFree succeeds
-- and releases that one page, though no range of that size lies within the bounds.
pub free_wraps :
    (st : KvaState) (va : ℕ) (es : List KvaExtent)
    → st.end < u64_mod
    → st.base + guard_size ≤ va
    → va ≤ st.end
    → release_at st.extents (find_idx (va - guard_size) st.extents) (va - guard_size) va ≡ some es
    → (free st va (u64_mod - guard_size)
        ≡ (ok, record st { extents = es; live_count = sub32 st.live_count 1 }))
      × ¬ (va + (u64_mod - guard_size) + guard_size ≤ st.end)
unfolding free
free_wraps st va es small from to h =
    let start : sub64 va guard_size ≡ va - guard_size = omega arith in
    let end : add64 (add64 va (u64_mod - guard_size)) guard_size ≡ va = omega arith in
    (ground arith, omega arith)

-- A kvaFree that does not succeed changes nothing.
pub free_fails : (st : KvaState) (va size : ℕ) → (free st va size).0 ≢ ok → (free st va size).1 ≡ st
unfolding free
free_fails st va size h = ground arith
