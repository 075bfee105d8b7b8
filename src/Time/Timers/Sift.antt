-- ===== src/Time/Timers/Sift.antt =====
-- What siftUp and siftDown give: the hole is filled and the heap in order.
use bongos.Common.{
  same_or_not, ℕ, ◌≤◌, ◌<◌, ◌≡◌, ◌≢◌, ◌⊎◌, sym, subst, ◌∙◌, ap, arith, u64_mod, inl, inr,
}
use bongos.Time.Timers.{TimerHeap, heap_place, parent}
use bongos.Time.Timers.Hole.{
  key_of, Places, Elsewhere, place_slot_self, place_slot_other, place_key, place_seq,
  place_index_self, place_index_other, place_count, place_next_seq, place_slots,
}

-- A heap: every timer knows its index, and none comes before its parent.
pub record IsHeap (key : ℕ → ℕ) (h : TimerHeap) : Type 0 where
  pub back : (j : ℕ) → j < h.count → (h.timers (h.slot j)).heap_index ≡ j
  pub real : (j : ℕ) → j < h.count → h.slot j ≢ 0
  pub null : (j : ℕ) → h.count ≤ j → h.slot j ≡ 0
  pub keys : (x : ℕ) → key_of (h.timers x) ≡ key x
  pub seqs : (x : ℕ) → (h.timers x).seq < u64_mod
  pub edges : (c : ℕ) → 0 < c → c < h.count → key (h.slot (parent c)) ≤ key (h.slot c)

-- The timer is in the heap.
abbrev pub Holds : TimerHeap → ℕ → Type 0
Holds h x = (j : ℕ) × (j < h.count) × (h.slot j ≡ x)

-- The order of the slots around the hole.
pub record Bridges (key : ℕ → ℕ) (h : TimerHeap) (i : ℕ) : Type 0 where
  pub edges :
      (c : ℕ)
      → 0 < c
      → c < h.count
      → c ≢ i
      → parent c ≢ i
      → key (h.slot (parent c)) ≤ key (h.slot c)
  pub bridged :
      (c : ℕ)
      → 0 < c
      → c < h.count
      → parent c ≡ i
      → 0 < i
      → key (h.slot (parent i)) ≤ key (h.slot c)

-- `t` fits in the hole from above, or from below.
abbrev pub Above : (ℕ → ℕ) → TimerHeap → ℕ → ℕ → Type 0
Above key h i t = 0 < i → key (h.slot (parent i)) ≤ key t

abbrev pub Below : (ℕ → ℕ) → TimerHeap → ℕ → ℕ → Type 0
Below key h i t = (c : ℕ) → 0 < c → c < h.count → parent c ≡ i → key t ≤ key (h.slot c)

-- What filling the hole with `t` gives.
pub record Sifted (key : ℕ → ℕ) (h : TimerHeap) (i t : ℕ) (h' : TimerHeap) : Type 0 where
  pub heap : IsHeap key h'
  pub count : h'.count ≡ h.count
  pub next_seq : h'.next_seq ≡ h.next_seq
  pub members :
      (x : ℕ) → (Holds h' x → (x ≡ t) ⊎ Elsewhere h i x) × ((x ≡ t) ⊎ Elsewhere h i x → Holds h' x)

module _ (key : ℕ → ℕ) (h : TimerHeap) (i t : ℕ) (p : Places key h i t) where
  parent_less : (c : ℕ) → 0 < c → parent c < c
  parent_less c h = omega arith

  fill_edges :
      Bridges key h i
      → Above key h i t
      → Below key h i t
      → (c : ℕ) → 0 < c
      → c < h.count
      → key ((heap_place h i t).slot (parent c)) ≤ key ((heap_place h i t).slot c)
  fill_edges b above below c pos q =
      let self = place_slot_self h i t in
      let elsewhere = place_slot_other h i t in
      elim (same_or_not c i) [
        | inl same ↦
            rw
              (
                elsewhere (parent c) (omega (arith, parent_less c pos)),
                ap (heap_place h i t).slot same ∙ self,
              )
              (subst (λ j. key (h.slot (parent j)) ≤ key t) (sym same)
                (above (omega (arith, pos, same))))
        | inr n ↦ elim (same_or_not (parent c) i) [
          | inl same ↦
              rw (ap (heap_place h i t).slot same ∙ self, elsewhere c n) (below c pos q same)
          | inr n' ↦ rw (elsewhere (parent c) n', elsewhere c n) (b.edges c pos q n n')
        ]
      ]

  pub fill-Sifted :
      t ≢ 0
      → Bridges key h i
      → Above key h i t
      → Below key h i t
      → Sifted key h i t (heap_place h i t)
  fill-Sifted real b above below =
      let size = place_count h i t in
      let h' = heap_place h i t in
      record {
        heap = record {
          back = λ j q.
              place_slots h i t (λ j x. (h'.timers x).heap_index ≡ j) (place_index_self h i t)
                (λ j q n. place_index_other h i t (h.slot j) (p.other j q n) ∙ p.back j q n) j
                (omega (arith, q, size));
          real = λ j q. place_slots h i t (λ j x. x ≢ 0) real p.real j (omega (arith, q, size));
          null = λ j q.
              place_slot_other h i t j (omega (arith, q, size, p.inside))
              ∙ p.null j (omega (arith, q, size));
          keys = λ x. place_key h i t x ∙ p.keys x;
          seqs = λ x. omega (arith, place_seq h i t x, p.seqs x);
          edges = λ c pos q. fill_edges b above below c pos (omega (arith, q, size));
        };
        count = size;
        next_seq = place_next_seq h i t;
        members = λ x. (
          λ (j, q, e). elim (same_or_not j i) [
            | inl same ↦ inl (sym e ∙ ap h'.slot same ∙ place_slot_self h i t)
            | inr n ↦ inr (j, omega (arith, q, size), n, sym (place_slot_other h i t j n) ∙ e)
          ],
          λ m. elim m [
            | inl same ↦ (i, omega (arith, p.inside, size), place_slot_self h i t ∙ sym same)
            | inr (j, q, n, e) ↦ (j, omega (arith, q, size), place_slot_other h i t j n ∙ e)
          ],
        );
      }
