-- ===== src/Lockdep/Acquire/Release.antt =====
-- lockdepCoreCheckRelease and lockdepCoreCommitRelease: which entry a release takes off the stack.
use bongos.Common.{
  ℕ, zero, suc, ◌+◌, ◌<◌, ◌≡◌, ◌≢◌, ◌↔◌, refl, sym, ◌∙◌, ap, subst, Bool, true, false, none, some,
  some-injective, List, [], ◌∷◌, ◌++◌, ◌==◌, inl, inr, length, length-append, get_elem?, get_or,
  remove_at, arith, Bool-cases, Option-cases, ==_iff, lt→ltb,
}
use bongos.Lockdep.{LockdepHeld, LockdepGraph, report_not_held, max_held}
use bongos.Lockdep.Acquire.{
  held_find_from, held_find, check_release, commit_release, commit_acquire, finding,
}

-- No entry is for this lock.
abbrev pub Misses : ℕ → List LockdepHeld → Type 0
Misses lock [] = Unit {0}
Misses lock (h ∷ hs) = (h.lock ≢ lock) × Misses lock hs

module _ {ℓ} {A : Type ℓ} where
  get_elem-below :
      (xs : List A) (y : A) (ys : List A) → get_elem? (xs ++ y ∷ ys) (length xs) ≡ some y
  get_elem-below [] y ys = refl
  get_elem-below (x ∷ xs) y ys = get_elem-below xs y ys

  get_elem-above :
      (xs : List A) (y : A) (ys : List A) (k : ℕ)
      → get_elem? (xs ++ y ∷ ys) (suc (length xs + k)) ≡ get_elem? ys k
  get_elem-above [] y ys k = ground arith
  get_elem-above (x ∷ xs) y ys k =
      let n : suc (length xs) + k ≡ suc (length xs + k) = omega arith in
      rw n (get_elem-above xs y ys k)

  get_or-below : (xs : List A) (y d : A) (ys : List A) → get_or (xs ++ y ∷ ys) (length xs) d ≡ y
  get_or-below [] y d ys = refl
  get_or-below (x ∷ xs) y d ys = get_or-below xs y d ys

  remove_at-below :
      (xs : List A) (y : A) (ys : List A) → remove_at (xs ++ y ∷ ys) (length xs) ≡ xs ++ ys
  remove_at-below [] y ys = refl
  remove_at-below (x ∷ xs) y ys = ap (x ∷◌) (remove_at-below xs y ys)

  append-nil : (xs : List A) → xs ++ [] ≡ xs
  append-nil [] = refl
  append-nil (x ∷ xs) = ap (x ∷◌) (append-nil xs)

  get_elem-below_length : (xs : List A) (k : ℕ) (x : A) → get_elem? xs k ≡ some x → k < length xs
  get_elem-below_length [] k x e = absurd cc
  get_elem-below_length (y ∷ xs) zero x e = omega arith
  get_elem-below_length (y ∷ xs) (suc k) x e = omega (arith, get_elem-below_length xs k x e)

some_not_none : (n : ℕ) → some n ≢ none
some_not_none n e = cc

held_find-from :
    (held : List LockdepHeld) (lock : ℕ)
    → held_find held lock ≡ held_find_from held lock (length held)
unfolding held_find
held_find-from held lock = refl

module _ (lock : ℕ) where
  Misses-get_elem :
      (hs : List LockdepHeld) (k : ℕ) (h : LockdepHeld)
      → Misses lock hs
      → get_elem? hs k ≡ some h
      → (h.lock == lock) ≡ false
  Misses-get_elem [] k h m e = absurd cc
  Misses-get_elem (x ∷ hs) zero h m e = ground (arith, m.0)
  Misses-get_elem (x ∷ hs) (suc k) h m e = Misses-get_elem hs k h m.1 e

  held_find_from-missing :
      (hs : List LockdepHeld) (n : ℕ) → Misses lock hs → held_find_from hs lock n ≡ none
  unfolding held_find_from
  held_find_from-missing hs zero m = refl
  held_find_from-missing hs (suc n) m = elim (Option-cases (get_elem? hs n)) [
    | inl e ↦ rw (held_find_from, e) (held_find_from-missing hs n m)
    | inr (h, e) ↦
        rw (held_find_from, e, Misses-get_elem hs n h m e) (held_find_from-missing hs n m)
  ]

  Misses-intro :
      (hs : List LockdepHeld)
      → ((k : ℕ) (h : LockdepHeld) → get_elem? hs k ≡ some h → h.lock ≢ lock)
      → Misses lock hs
  Misses-intro [] all = tt
  Misses-intro (h ∷ hs) all = (all 0 h refl, Misses-intro hs (λ k. all (suc k)))

  held_find_from-step :
      (hs : List LockdepHeld) (n : ℕ)
      → held_find_from hs lock (suc n) ≡ none
      → (held_find_from hs lock n ≡ none)
        × ((h : LockdepHeld) → get_elem? hs n ≡ some h → h.lock ≢ lock)
  unfolding held_find_from
  held_find_from-step hs n e = elim (Option-cases (get_elem? hs n)) [
    | inl gone ↦ (rw (held_find_from, gone) at e, λ h there. absurd cc)
    | inr (g, there) ↦ elim (Bool-cases (g.lock == lock)) [
      | inl same ↦ absurd (some_not_none n (rw (held_find_from, there, same) at e))
      | inr other ↦ (
        rw (held_find_from, there, other) at e,
        λ h there' l. absurd (let same = some-injective g h (sym there ∙ there') in ground arith),
      )
    ]
  ]

  held_find_from-none :
      (hs : List LockdepHeld) (n k : ℕ) (h : LockdepHeld)
      → held_find_from hs lock n ≡ none
      → k < n
      → get_elem? hs k ≡ some h
      → h.lock ≢ lock
  unfolding held_find_from
  held_find_from-none hs zero k h e p at_k = absurd (omega arith)
  held_find_from-none hs (suc n) k h e p at_k =
      let (rest, miss) = held_find_from-step hs n e in
      elim (Bool-cases (k == n)) [
        | inl same ↦ miss h (subst (λ i. get_elem? hs i ≡ some h) ((==_iff k n).0 same) at_k)
        | inr other ↦ held_find_from-none hs n k h rest (ground arith) at_k
      ]

  held_find-Misses : (hs : List LockdepHeld) → held_find hs lock ≡ none → Misses lock hs
  unfolding held_find
  held_find-Misses hs e = Misses-intro hs (λ k h at_k.
      held_find_from-none hs (length hs) k h e (get_elem-below_length hs k h at_k) at_k)

module _ (xs : List LockdepHeld) (h : LockdepHeld) (ys : List LockdepHeld) where
  held_find_from-above :
      (k : ℕ)
      → Misses h.lock ys
      → held_find_from (xs ++ h ∷ ys) h.lock (suc (length xs + k)) ≡ some (length xs)
  unfolding held_find_from
  held_find_from-above zero m =
      let same : (h.lock == h.lock) ≡ true = (==_iff h.lock h.lock).1 refl in
      let zero_r : length xs + 0 ≡ length xs = omega arith in
      rw zero_r (rw (held_find_from, get_elem-below xs h ys, same) refl)
  held_find_from-above (suc k) m =
      let next : length xs + suc k ≡ suc (length xs + k) = omega arith in
      let ih = held_find_from-above k m in
      let above = get_elem-above xs h ys k in
      rw next (elim (Option-cases (get_elem? ys k)) [
        | inl e ↦ rw (held_find_from, above, e) ih
        | inr (g, e) ↦ rw (held_find_from, above, e, Misses-get_elem h.lock ys k g m e) ih
      ])

  held_find-topmost : Misses h.lock ys → held_find (xs ++ h ∷ ys) h.lock ≡ some (length xs)
  unfolding held_find
  held_find-topmost m =
      let n : length (xs ++ h ∷ ys) ≡ suc (length xs + length ys) =
        omega (arith, length-append xs (h ∷ ys)) in
      rw (held_find, n) (held_find_from-above (length ys) m)

  -- A release takes off the topmost entry for the lock, wherever in the stack it is, and no other.
  pub commit_release_lem :
      (g : LockdepGraph) (irqs_on : Bool)
      → Misses h.lock ys
      → (commit_release g (xs ++ h ∷ ys) h.lock irqs_on).1 ≡ xs ++ ys
  unfolding commit_release
  commit_release_lem g irqs_on m =
      rw (commit_release, held_find-topmost m) (remove_at-below xs h ys)

-- While the stack has room, releasing a lock just acquired gives the stack back as it was.
pub commit_release-commit_acquire :
    (g g' : LockdepGraph) (held : List LockdepHeld) (entry : LockdepHeld) (edges irqs_on : Bool)
    → length held < max_held
    → (commit_release g' (commit_acquire g held entry edges).2 entry.lock irqs_on).1 ≡ held
unfolding commit_acquire
commit_release-commit_acquire g g' held entry edges irqs_on room =
    rw (lt→ltb (length held) max_held room)
      (commit_release_lem held entry [] g' irqs_on tt ∙ append-nil held)

-- lockdepCoreCheckRelease reports LOCKDEP_REPORT_NOT_HELD exactly for a lock without an entry.
pub check_release-not_held :
    (g : LockdepGraph) (held : List LockdepHeld) (lock : ℕ) (irqs_on : Bool)
    → (check_release g held lock irqs_on ≡ some (finding report_not_held 0)) ↔ Misses lock held
unfolding check_release
check_release-not_held g held lock irqs_on = elim (Option-cases (held_find held lock)) [
  | inl gone ↦ (λ e. held_find-Misses lock held gone, λ m. rw (check_release, gone) refl)
  | inr (i, found) ↦ (
    λ e. absurd (ground arith),
    λ m. absurd (
        let gone = held_find_from-missing lock held (length held) m in
        some_not_none i (sym found ∙ held_find-from held lock ∙ gone)),
  )
]
