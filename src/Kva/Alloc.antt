-- ===== src/Kva/Alloc.antt =====
-- kvaAlloc: what it hands out was free, and is free no longer.
use bongos.Common.{
  ℕ, ◌+◌, ◌-◌, ◌*◌, ◌%◌, ◌≤◌, ◌<◌, ◌≡◌, true, false, not, ◌&&◌, Option, none, some, List, [], ◌∷◌,
  arith, ltb, ◌==◌, Bool-cases, Option-cases, refl, ◌∙◌, ==_iff, inl, inr, ◌≢◌, u64_mod, sub64,
  add64,
}
use bongos.Kva.{KvaExtent, KvaState, ok, first_fit, alloc, guard_size, page_size, max_extents}
use bongos.Kva.Order.{IsChain, IsValid, within, covers, covers-below, IsChain-weaken}

-- What the first-fit loop leaves, whichever extent it takes from.
record Fitted (lo hi need : ℕ) (es es' : List KvaExtent) (start : ℕ) : Type 0 where
  chain : IsChain lo es' hi
  above : lo ≤ start
  below : start + need ≤ hi
  was_free : (a : ℕ) → within start (start + need) a ≡ true → covers es a ≡ true
  left : (a : ℕ) → covers es' a ≡ (covers es a && not (within start (start + need) a))

abbrev Fits : ℕ → ℕ → ℕ → List KvaExtent → Option (List KvaExtent × ℕ) → Type 0
Fits lo hi need es none = Unit {0}
Fits lo hi need es (some (es', start)) = Fitted lo hi need es es' start

module _ (hi need : ℕ) (small : hi < u64_mod) (positive : 0 < need) where
  Fitted-cons :
      (lo : ℕ) (e : KvaExtent) (es : List KvaExtent) (r : Option (List KvaExtent × ℕ))
      → IsChain lo (e ∷ es) hi
      → Fits (e.end + 1) hi need es r
      → Fits lo hi need
          (e ∷ es)
          (elim r [ none ↦ none | some (es', start) ↦ some (e ∷ es', start) ])
  Fitted-cons lo e es none c f = tt
  Fitted-cons lo e es (some (es', start)) c f = record {
    chain = (c.0, c.1, c.2, f.chain);
    above = omega (arith, f.above);
    below = f.below;
    was_free = λ a h. ground (arith, f.was_free a h);
    left = λ a. ground (arith, f.left a, f.above);
  }

  module _ (lo : ℕ) (e : KvaExtent) (es : List KvaExtent) (c : IsChain lo (e ∷ es) hi) where
    Fitted-whole : e.start + need ≡ e.end → Fitted lo hi need (e ∷ es) es e.start
    Fitted-whole h = record {
      chain = IsChain-weaken (e.end + 1) lo hi es (omega arith) c.3;
      above = c.0;
      below = omega arith;
      was_free = λ a w. ground arith;
      left = λ a. ground (arith, covers-below (e.end + 1) hi a es c.3);
    }

    Fitted-front :
        e.start + need < e.end
        → Fitted lo hi need (e ∷ es) (record e { start = e.start + need } ∷ es) e.start
    Fitted-front h = record {
      chain = (omega arith, omega arith, c.2, c.3);
      above = c.0;
      below = omega arith;
      was_free = λ a w. ground arith;
      left = λ a. ground (arith, covers-below (e.end + 1) hi a es c.3);
    }

    no_wrap :
        ltb (sub64 e.end e.start) need ≡ false
        → (add64 e.start need ≡ e.start + need) × (e.start + need ≤ e.end)
    no_wrap h = ground arith

  first_fit-Fits :
      (lo : ℕ) (es : List KvaExtent) → IsChain lo es hi → Fits lo hi need es (first_fit need es)
  unfolding first_fit
  first_fit-Fits lo [] c = tt
  first_fit-Fits lo (e ∷ es) c = elim (Bool-cases (ltb (sub64 e.end e.start) need)) [
    | inl small_extent ↦
        rw small_extent
          (Fitted-cons lo e es (first_fit need es) c (first_fit-Fits (e.end + 1) es c.3))
    | inr enough ↦
        rw (enough, (no_wrap lo e es c enough).0)
          (elim (Bool-cases (e.start + need == e.end)) [
            | inl same ↦ rw same (Fitted-whole lo e es c ((==_iff _ _).0 same))
            | inr less ↦ rw less (Fitted-front lo e es c (ground (arith, no_wrap lo e es c enough)))
          ])
  ]

  run_past :
      (lo : ℕ) (e : KvaExtent) (es : List KvaExtent) (s : ℕ)
      → IsChain lo (e ∷ es) hi
      → ltb (sub64 e.end e.start) need ≡ true
      → ((a : ℕ) → within s (s + need) a ≡ true → covers (e ∷ es) a ≡ true)
      → (a : ℕ) → within s (s + need) a ≡ true
      → covers es a ≡ true
  run_past lo e es s c h run a w = ground (
    arith,
    run s,
    run a w,
    run e.end,
    covers-below (e.end + 1) hi s es c.3,
    covers-below (e.end + 1) hi e.end es c.3,
  )

  -- A run of `need` free addresses lies in one extent, which the loop does not pass by.
  first_fit_total :
      (lo : ℕ) (es : List KvaExtent) (s : ℕ)
      → IsChain lo es hi
      → ((a : ℕ) → within s (s + need) a ≡ true → covers es a ≡ true)
      → first_fit need es ≢ none
  unfolding first_fit
  first_fit_total lo [] s c run = λ e. cc (run s (ground arith))
  first_fit_total lo (e ∷ es) s c run = elim (Bool-cases (ltb (sub64 e.end e.start) need)) [
    | inl small_extent ↦
        let later = first_fit_total (e.end + 1) es s c.3 (run_past lo e es s c small_extent run) in
        λ h. ground arith
    | inr enough ↦ λ h. ground arith
  ]

-- What a successful kvaAlloc has done: the range with its two guard pages lies within the bounds,
-- it was free, and no other address has changed.
pub record Reserved (st : KvaState) (size va : ℕ) (st' : KvaState) : Type 0 where
  pub valid : IsValid st'
  pub bounds : (st'.base ≡ st.base) × (st'.end ≡ st.end)
  pub counted : st'.live_count ≡ st.live_count + 1
  pub inside : (st.base + guard_size ≤ va) × (va + size + guard_size ≤ st.end)
  pub was_free :
      (a : ℕ)
      → within (va - guard_size) (va + size + guard_size) a ≡ true
      → covers st.extents a ≡ true
  pub left :
      (a : ℕ)
      → covers st'.extents a
        ≡ (covers st.extents a && not (within (va - guard_size) (va + size + guard_size) a))

-- A size that kvaAlloc does not refuse as STATUS_ERR_INVALID.
abbrev pub IsSize : ℕ → Type 0
IsSize size = (0 < size) × (size % page_size ≡ 0) × (size + 2 * guard_size < u64_mod)

alloc-Fitted :
    (st : KvaState) (size va : ℕ) (st' : KvaState)
    → IsValid st
    → size < u64_mod
    → alloc st size ≡ (ok, some va, st')
    → IsSize size
      × Fitted st.base st.end (size + 2 * guard_size) st.extents st'.extents (va - guard_size)
      × (guard_size ≤ va)
      × (st' ≡ record st { extents = st'.extents; live_count = st.live_count + 1 })
      × (st.live_count < max_extents - 1)
unfolding alloc
alloc-Fitted st size va st' v s h = ground (
  arith,
  first_fit-Fits st.end (size + 2 * guard_size) v.fits (omega arith) st.base st.extents v.chain,
)

-- A successful kvaAlloc keeps the table valid and its bounds, adds one to the live count, and takes
-- from the free addresses exactly the range it returns with a guard page on each side, which lies
-- within the bounds and was free.
pub alloc-Reserved :
    (st : KvaState) (size va : ℕ) (st' : KvaState)
    → IsValid st
    → size < u64_mod
    → alloc st size ≡ (ok, some va, st')
    → Reserved st size va st'
alloc-Reserved st size va st' v s h =
    let (sized, f, above, e, live) = alloc-Fitted st size va st' v s h in
    let upper : va - guard_size + (size + 2 * guard_size) ≡ va + size + guard_size = omega arith in
    record {
      valid = rw e (record { chain = f.chain; fits = v.fits; capped = omega arith });
      bounds = rw e (refl, refl);
      counted = rw e refl;
      inside = (omega (arith, f.above), omega (arith, f.below));
      was_free = λ a w. f.was_free a (rw upper w);
      left = λ a. f.left a ∙ rw upper;
    }

-- Below the admission cap, kvaAlloc of a proper size succeeds whenever some run of free addresses
-- has room for it and its two guard pages.
pub alloc_total :
    (st : KvaState) (size s : ℕ)
    → IsValid st
    → IsSize size
    → st.live_count < max_extents - 1
    → ((a : ℕ) → within s (s + (size + 2 * guard_size)) a ≡ true → covers st.extents a ≡ true)
    → (va : ℕ) × (st' : KvaState) × (alloc st size ≡ (ok, some va, st'))
unfolding alloc
alloc_total st size s v z live run =
    let some_fit =
      first_fit_total st.end (size + 2 * guard_size) v.fits (omega arith) st.base st.extents s
        v.chain run in
    elim (Option-cases (first_fit (size + 2 * guard_size) st.extents)) [
      | inl e ↦ absurd (some_fit e)
      | inr ((es, start), e) ↦ (
        add64 start guard_size,
        record st { extents = es; live_count = st.live_count + 1 },
        ground arith,
      )
    ]

-- A kvaAlloc that does not succeed returns no address and changes nothing.
pub alloc_fails :
    (st : KvaState) (size : ℕ)
    → (alloc st size).0 ≢ ok
    → ((alloc st size).1 ≡ none) × ((alloc st size).2 ≡ st)
unfolding alloc
alloc_fails st size h = ground arith
