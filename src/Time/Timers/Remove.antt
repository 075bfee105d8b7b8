-- ===== src/Time/Timers/Remove.antt =====
-- timerHeapRemove takes exactly one timer out of the heap.
use bongos.Common.{
  same_or_not, ℕ, ◌+◌, ◌-◌, ◌≤◌, ◌<◌, ◌≡◌, ◌≢◌, refl, sym, subst, ◌∙◌, ap, ◌&&◌, ◌==◌, put, some,
  arith, inl, inr, Bool-cases, ltb, ==_iff, if◌then◌else◌,
}
use bongos.Time.Timers.{TimerHeap, heap_place, parent, before, sift_up, sift_down, heap_remove}
use bongos.Time.Timers.Hole.{key_of, before_lem, Places, place_slot_other, place_key, place_seq}
use bongos.Time.Timers.Sift.{IsHeap, Bridges, Above, Below, Sifted, Holds}
use bongos.Time.Timers.Place.{place_sift_up, place_sift_down}

pub IsHeap-distinct :
    (key : ℕ → ℕ) (h : TimerHeap) (j k : ℕ)
    → IsHeap key h
    → j < h.count
    → k < h.count
    → h.slot j ≡ h.slot k
    → j ≡ k
IsHeap-distinct key h j k heap p q same =
    sym (heap.back j p) ∙ ap (λ x. (h.timers x).heap_index) same ∙ heap.back k q

-- `h'` is a heap of the timers of `h` but `t`.
pub record Removes (key : ℕ → ℕ) (h : TimerHeap) (t : ℕ) (h' : TimerHeap) : Type 0 where
  pub heap : IsHeap key h'
  pub count : h'.count + 1 ≡ h.count
  pub next_seq : h'.next_seq ≡ h.next_seq
  pub members : (x : ℕ) → (Holds h' x → Holds h x × (x ≢ t)) × (Holds h x × (x ≢ t) → Holds h' x)

module _ (key : ℕ → ℕ) (h : TimerHeap) (heap : IsHeap key h) (i : ℕ) (inside : i < h.count) where
  abbrev last : ℕ
  last = h.count - 1

  -- The heap without its last slot.
  abbrev shorter : TimerHeap
  shorter = record h { count = last; slot = put h.slot last 0 }

  kept : (j : ℕ) → j < last → shorter.slot j ≡ h.slot j
  kept j q = ground arith

  beyond : (j : ℕ) → last ≤ j → shorter.slot j ≡ 0
  beyond j q = elim (same_or_not j last) [
    | inl e ↦ ground arith
    | inr n ↦ let z = heap.null j (omega (arith, n, q)) in ground arith
  ]

  at_last : (i ≡ last) → Removes key h (h.slot i) shorter
  at_last e = record {
    heap = record {
      back = λ j q. rw (kept j q) (heap.back j (omega (arith, q)));
      real = λ j q. rw (kept j q) (heap.real j (omega (arith, q)));
      null = beyond;
      keys = heap.keys;
      seqs = heap.seqs;
      edges = λ c pos q.
          rw (kept (parent c) (omega (arith, q, pos)), kept c q)
            (heap.edges c pos (omega (arith, q)));
    };
    count = omega (arith, inside);
    next_seq = refl;
    members = λ x. (
      λ (j, q, s). (
        (j, omega (arith, q), sym (kept j q) ∙ s),
        λ same.
            let both =
              IsHeap-distinct key h j i heap (omega (arith, q)) inside
                (sym (kept j q) ∙ s ∙ same) in
            absurd (omega (arith, both, e, q)),
      ),
      λ ((j, q, s), n). elim (same_or_not j i) [
        | inl same ↦ absurd (n (sym s ∙ ap h.slot same))
        | inr ne ↦ let q' : j < last = omega (arith, q, ne, e) in (j, q', kept j q' ∙ s)
      ],
    );
  }

  module _ (ne : i ≢ last) where
    below_last : i < last
    below_last = omega (arith, inside, ne)

    moved-fresh : (j : ℕ) → j < last → h.slot j ≢ h.slot last
    moved-fresh j q same =
        let both =
          IsHeap-distinct key h j last heap (omega (arith, q)) (omega (arith, inside)) same in
        absurd (omega (arith, both, q))

    shorter-Places : Places key shorter i (h.slot last)
    shorter-Places = record {
      inside = below_last;
      back = λ j q n. rw (kept j q) (heap.back j (omega (arith, q)));
      other = λ j q n. rw (kept j q) (moved-fresh j q);
      real = λ j q n. rw (kept j q) (heap.real j (omega (arith, q)));
      null = beyond;
      keys = heap.keys;
      seqs = heap.seqs;
    }

    shorter-Bridges : Bridges key shorter i
    shorter-Bridges = record {
      edges = λ c pos q n n'.
          rw (kept (parent c) (omega (arith, q, pos)), kept c q)
            (heap.edges c pos (omega (arith, q)));
      bridged = λ c pos q par pos_i.
          let up = heap.edges i pos_i inside in
          let down : key (h.slot i) ≤ key (h.slot c) =
            subst (λ j. key (h.slot j) ≤ key (h.slot c)) par
              (heap.edges c pos (omega (arith, q))) in
          rw (kept (parent i) (omega (arith, below_last)), kept c q) (omega (arith, up, down));
    }

    Sifted-Removes :
        (h' : TimerHeap) → Sifted key shorter i (h.slot last) h' → Removes key h (h.slot i) h'
    Sifted-Removes h' s = record {
      heap = s.heap;
      count = omega (arith, s.count, inside);
      next_seq = s.next_seq;
      members = λ x.
          let (in_heap, holds) = s.members x in
          (
            λ y. elim (in_heap y) [
              | inl e ↦ (
                (last, omega (arith, inside), sym e),
                λ same. absurd (moved-fresh i below_last (sym same ∙ e)),
              )
              | inr (j, q, n, e) ↦ (
                (j, omega (arith, q), sym (kept j q) ∙ e),
                λ same. absurd (
                    n (
                      IsHeap-distinct key h j i heap (omega (arith, q)) inside
                        (sym (kept j q) ∙ e ∙ same))),
              )
            ],
            λ ((j, q, e), n). elim (same_or_not j last) [
              | inl same ↦ holds (inl (sym e ∙ ap h.slot same))
              | inr n' ↦
                  let q' : j < last = omega (arith, q, n') in
                  holds (inr (j, q', (λ same. n (sym e ∙ ap h.slot same)), kept j q' ∙ e))
            ],
          );
    }

    abbrev filled : TimerHeap
    filled = heap_place shorter i (h.slot last)

    -- The test that chooses the direction.
    rises_lem :
        0 < i
        → before (filled.timers (h.slot last)) (filled.timers (filled.slot (parent i)))
          ≡ ltb (key (h.slot last)) (key (shorter.slot (parent i)))
    rises_lem pos =
        let moved = h.slot last in
        let seq = λ (x : ℕ). place_seq shorter i moved x in
        let keys = λ (x : ℕ). place_key shorter i moved x ∙ heap.keys x in
        let up = filled.slot (parent i) in
        before_lem (filled.timers moved) (filled.timers up)
          (omega (arith, seq moved, heap.seqs moved)) (omega (arith, seq up, heap.seqs up))
        ∙ ap (λ k. ltb k (key_of (filled.timers up))) (keys moved)
        ∙ ap (λ k. ltb (key moved) k) (keys up)
        ∙ ap (λ x. ltb (key moved) (key x))
            (place_slot_other shorter i moved (parent i) (omega (arith, pos)))

    -- The branch that siftUp or siftDown ends.
    resift :
        (h' : TimerHeap) × ((if ltb 0 i
              && before (filled.timers (h.slot last)) (filled.timers (filled.slot (parent i)))
            then sift_up filled i
            else sift_down filled i)
          ≡ some h')
        × Removes key h (h.slot i) h'
    resift =
        let real = heap.real last (omega (arith, inside)) in
        let down : Above key shorter i (h.slot last)
            → (h' : TimerHeap) × (sift_down filled i ≡ some h') × Removes key h (h.slot i) h' =
          λ above.
            let (h', e, s) =
              place_sift_down key shorter i (h.slot last) real shorter-Places shorter-Bridges
                above in
            (h', e, Sifted-Removes h' s) in
        elim (Bool-cases (ltb 0 i)) [
          | inr root ↦ rw root (down (λ pos. absurd (ground arith)))
          | inl deep ↦
              let pos : 0 < i = ground arith in
              elim (Bool-cases (ltb (key (h.slot last)) (key (shorter.slot (parent i))))) [
                | inr sinks ↦ rw (deep, rises_lem pos, sinks) (down (λ _. ground arith))
                | inl goes_up ↦
                    let over : key (h.slot last) < key (shorter.slot (parent i)) = ground arith in
                    let below : Below key shorter i (h.slot last) = λ c pos' q par.
                      let b = shorter-Bridges.bridged c pos' q par pos in omega (arith, b, over) in
                    let (h', e, s) =
                      place_sift_up key shorter i (h.slot last) real shorter-Places shorter-Bridges
                        below in
                    rw (deep, rises_lem pos, goes_up) (h', e, Sifted-Removes h' s)
              ]
        ]

-- Removing a timer that is in the heap succeeds and leaves a heap of exactly the others.
pub heap_remove-Removes :
    (key : ℕ → ℕ) (h : TimerHeap) (t : ℕ)
    → IsHeap key h
    → Holds h t
    → (h' : TimerHeap) × (heap_remove h t ≡ some h') × Removes key h t h'
unfolding heap_remove
heap_remove-Removes key h t heap (j, q, e) =
    let index : (h.timers t).heap_index ≡ j =
      ap (λ x. (h.timers x).heap_index) (sym e) ∙ heap.back j q in
    elim (Bool-cases (j == h.count - 1)) [
      | inl top ↦
          let same : j ≡ h.count - 1 = (==_iff j (h.count - 1)).0 top in
          (
            shorter key h heap j q,
            rw (heap_remove, index, top) refl,
            subst (λ x. Removes key h x (shorter key h heap j q)) e (at_last key h heap j q same),
          )
      | inr inner ↦
          let ne : j ≢ h.count - 1 = λ s. absurd (ground (arith, s)) in
          let (h', r, s) = resift key h heap j q ne in
          (h', rw (heap_remove, index, inner) r, subst (λ x. Removes key h x h') e s)
    ]
