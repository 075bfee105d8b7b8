-- ===== src/Time/Timers/Hole.antt =====
-- A timer heap while one slot is being filled: the writes of heapPlace.
use bongos.Common.{
  same_or_not, ℕ, ◌+◌, ◌*◌, ◌^◌, ◌≤◌, ◌<◌, ◌≡◌, ◌≢◌, refl, sym, subst, ◌∙◌, ap, true, false, ◌==◌,
  arith, u64_mod, Bool-cases, inl, inr, ==_iff, ltb,
}
use bongos.Time.Timers.{TimerObj, TimerHeap, heap_place, before}

-- Deadline and arm order as one number.
abbrev pub key_of : TimerObj → ℕ
key_of o = o.deadline_ns * 2 ^ 64 + o.seq

pub before_lem :
    (a b : TimerObj) → a.seq < u64_mod → b.seq < u64_mod → before a b ≡ ltb (key_of a) (key_of b)
unfolding before
before_lem a b p q = ground arith

-- All slots but `i` hold timers that know their index and are not `t`; slots past the count are
-- NULL; `key` is the order of all timers.
pub record Places (key : ℕ → ℕ) (h : TimerHeap) (i t : ℕ) : Type 0 where
  pub inside : i < h.count
  pub back : (j : ℕ) → j < h.count → j ≢ i → (h.timers (h.slot j)).heap_index ≡ j
  pub other : (j : ℕ) → j < h.count → j ≢ i → h.slot j ≢ t
  pub real : (j : ℕ) → j < h.count → j ≢ i → h.slot j ≢ 0
  pub null : (j : ℕ) → h.count ≤ j → h.slot j ≡ 0
  pub keys : (x : ℕ) → key_of (h.timers x) ≡ key x
  pub seqs : (x : ℕ) → (h.timers x).seq < u64_mod

-- `x` is in a slot other than `i`.
abbrev pub Elsewhere : TimerHeap → ℕ → ℕ → Type 0
Elsewhere h i x = (j : ℕ) × (j < h.count) × (j ≢ i) × (h.slot j ≡ x)

module _ (h : TimerHeap) (i t : ℕ) where
  pub place_slot_self : (heap_place h i t).slot i ≡ t
  unfolding heap_place
  place_slot_self = ground arith

  pub place_slot_other : (j : ℕ) → j ≢ i → (heap_place h i t).slot j ≡ h.slot j
  unfolding heap_place
  place_slot_other j n = ground arith

  pub place_key : (x : ℕ) → key_of ((heap_place h i t).timers x) ≡ key_of (h.timers x)
  unfolding heap_place
  place_key x = elim (Bool-cases (x == t)) [
    | inl e ↦ rw e (ap (λ y. key_of (h.timers y)) (sym ((==_iff x t).0 e)))
    | inr e ↦ rw e refl
  ]

  pub place_seq : (x : ℕ) → ((heap_place h i t).timers x).seq ≡ (h.timers x).seq
  unfolding heap_place
  place_seq x = elim (Bool-cases (x == t)) [
    | inl e ↦ rw e (ap (λ y. (h.timers y).seq) (sym ((==_iff x t).0 e)))
    | inr e ↦ rw e refl
  ]

  pub place_index_self : ((heap_place h i t).timers t).heap_index ≡ i
  unfolding heap_place
  place_index_self = let e : (t == t) ≡ true = ground arith in rw e refl

  pub place_index_other :
      (x : ℕ) → x ≢ t → ((heap_place h i t).timers x).heap_index ≡ (h.timers x).heap_index
  unfolding heap_place
  place_index_other x n = let e : (x == t) ≡ false = ground arith in rw e refl

  pub place_count : (heap_place h i t).count ≡ h.count
  unfolding heap_place
  place_count = refl

  pub place_next_seq : (heap_place h i t).next_seq ≡ h.next_seq
  unfolding heap_place
  place_next_seq = refl

  -- What holds of the new entry and of all others holds of every slot.
  pub place_slots :
      (Q : ℕ → ℕ → Type 0)
      → Q i t
      → ((j : ℕ) → j < h.count → j ≢ i → Q j (h.slot j))
      → (j : ℕ) → j < h.count
      → Q j ((heap_place h i t).slot j)
  place_slots Q here there j q = elim (same_or_not j i) [
    | inl e ↦
        subst (λ k. Q k ((heap_place h i t).slot k)) (sym e)
          (subst (Q i) (sym place_slot_self) here)
    | inr n ↦ subst (Q j) (sym (place_slot_other j n)) (there j q n)
  ]

-- Two slots never hold the same timer.
pub Places-distinct :
    (key : ℕ → ℕ) (h : TimerHeap) (i t j k : ℕ)
    → Places key h i t
    → j < h.count
    → k < h.count
    → j ≢ i
    → k ≢ i
    → j ≢ k
    → h.slot j ≢ h.slot k
Places-distinct key h i t j k p q r ji ki jk same =
    jk (sym (p.back j q ji) ∙ ap (λ x. (h.timers x).heap_index) same ∙ p.back k r ki)

-- Moving the timer of slot `m` into the hole leaves a hole at `m`.
pub Places-move :
    (key : ℕ → ℕ) (h : TimerHeap) (i m t : ℕ)
    → Places key h i t
    → m < h.count
    → m ≢ i
    → Places key (heap_place h i (h.slot m)) m t
Places-move key h i m t p inside ne =
    let up = h.slot m in
    let h' = heap_place h i up in
    let size = place_count h i up in
    record {
      inside = omega (arith, inside, size);
      back = λ j q.
          place_slots h i up (λ j x. j ≢ m → (h'.timers x).heap_index ≡ j)
            (λ n. place_index_self h i up)
            (λ j q n n'.
              let apart = Places-distinct key h i t j m p q inside n ne n' in
              place_index_other h i up (h.slot j) apart ∙ p.back j q n)
            j (omega (arith, q, size));
      other = λ j q.
          place_slots h i up (λ j x. j ≢ m → x ≢ t) (λ n. p.other m inside ne)
            (λ j q n n'. p.other j q n) j (omega (arith, q, size));
      real = λ j q.
          place_slots h i up (λ j x. j ≢ m → x ≢ 0) (λ n. p.real m inside ne)
            (λ j q n n'. p.real j q n) j (omega (arith, q, size));
      null = λ j q.
          place_slot_other h i up j (omega (arith, q, size, p.inside))
          ∙ p.null j (omega (arith, q, size));
      keys = λ x. place_key h i up x ∙ p.keys x;
      seqs = λ x. omega (arith, place_seq h i up x, p.seqs x);
    }

-- It changes nothing of which timers are in the other slots.
pub Elsewhere-move :
    (h : TimerHeap) (i m x : ℕ)
    → i < h.count
    → m < h.count
    → m ≢ i
    → (Elsewhere h i x → Elsewhere (heap_place h i (h.slot m)) m x)
      × (Elsewhere (heap_place h i (h.slot m)) m x → Elsewhere h i x)
Elsewhere-move h i m x inside_i inside ne =
    let up = h.slot m in
    let size = place_count h i up in
    (
      λ (j, q, n, e). elim (same_or_not j m) [
        | inl same ↦ (
          i,
          omega (arith, inside_i, size),
          (λ c. ne (sym c)),
          place_slot_self h i up ∙ ap h.slot (sym same) ∙ e,
        )
        | inr n' ↦ (j, omega (arith, q, size), n', place_slot_other h i up j n ∙ e)
      ],
      λ (j, q, n, e). elim (same_or_not j i) [
        | inl same ↦ (
          m,
          inside,
          ne,
          sym (place_slot_self h i up) ∙ ap (heap_place h i up).slot (sym same) ∙ e,
        )
        | inr n' ↦ (j, omega (arith, q, size), n', sym (place_slot_other h i up j n') ∙ e)
      ],
    )
