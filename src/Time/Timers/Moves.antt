-- ===== src/Time/Timers/Moves.antt =====
-- One step of siftUp or siftDown keeps the order around the hole.
use bongos.Common.{same_or_not, ℕ, ◌≤◌, ◌<◌, ◌≡◌, ◌≢◌, ◌⊎◌, sym, subst, ◌∙◌, ap, arith, inl, inr}
use bongos.Time.Timers.{TimerHeap, heap_place, parent}
use bongos.Time.Timers.Hole.{Places, place_slot_self, place_slot_other, place_count}
use bongos.Time.Timers.Sift.{Bridges, Above, Below}

module _ (key : ℕ → ℕ) (h : TimerHeap) (i m t : ℕ) (p : Places key h i t) (inside : m < h.count)
    (b : Bridges key h i) where
  abbrev moved : TimerHeap
  moved = heap_place h i (h.slot m)

  slot_key :
      (j : ℕ)
      → (j ≡ i) × (key (moved.slot j) ≡ key (h.slot m))
        ⊎ (j ≢ i) × (key (moved.slot j) ≡ key (h.slot j))
  slot_key j = elim (same_or_not j i) [
    | inl same ↦ inl (same, ap key (ap moved.slot same ∙ place_slot_self h i (h.slot m)))
    | inr n ↦ inr (n, ap key (place_slot_other h i (h.slot m) j n))
  ]

  smaller : {c : ℕ} → c < moved.count → c < h.count
  smaller q = omega (arith, q, place_count h i (h.slot m))

  edge_to :
      (c : ℕ) → 0 < c → c < h.count → c ≢ i → parent c ≡ m → m ≢ i → key (h.slot m) ≤ key (h.slot c)
  edge_to c pos q n par ne =
      subst (λ j. key (h.slot j) ≤ key (h.slot c)) par (b.edges c pos q n (λ s. ne (sym par ∙ s)))

  module _ (pos : 0 < i) (is_parent : m ≡ parent i) (comes : key t < key (h.slot m)) where
    pub up-Bridges : Bridges key moved m
    up-Bridges = record {
      edges = λ c pos' q n n'. elim (slot_key (parent c)) [
        | inl (s, k) ↦ elim (slot_key c) [
          | inl (s', _) ↦ absurd (omega (arith, s, s', pos'))
          | inr (_, k') ↦
              let over = b.bridged c pos' (smaller q) s pos in
              let e : key (h.slot (parent i)) ≡ key (h.slot m) =
                ap (λ j. key (h.slot j)) (sym is_parent) in
              omega (arith, k, k', over, e)
        ]
        | inr (s, k) ↦ elim (slot_key c) [
          | inl (s', _) ↦ absurd (n' (ap parent s' ∙ sym is_parent))
          | inr (s', k') ↦ omega (arith, k, k', b.edges c pos' (smaller q) s' s)
        ]
      ];
      bridged = λ c pos' q par pos_m. elim (slot_key (parent m)) [
        | inl (s, _) ↦ absurd (omega (arith, s, is_parent, pos_m))
        | inr (s, k) ↦
            let ne : m ≢ i = λ e. absurd (omega (arith, e, is_parent, pos)) in
            let over = b.edges m pos_m inside ne s in
            elim (slot_key c) [
              | inl (_, k') ↦ omega (arith, k, k', over)
              | inr (s', k') ↦ omega (arith, k, k', over, edge_to c pos' (smaller q) s' par ne)
            ]
      ];
    }

    pub up-Below : Below key moved m t
    up-Below c pos' q par =
        let ne : m ≢ i = λ e. absurd (omega (arith, e, is_parent, pos)) in
        elim (slot_key c) [
          | inl (_, k) ↦ omega (arith, k, comes)
          | inr (s, k) ↦ omega (arith, k, comes, edge_to c pos' (smaller q) s par ne)
        ]

  module _ (pos : 0 < m) (is_child : parent m ≡ i)
      (least : (c : ℕ) → 0 < c → c < h.count → parent c ≡ i → key (h.slot m) ≤ key (h.slot c))
      (comes : key (h.slot m) < key t) where
    pub down-Bridges : Bridges key moved m
    down-Bridges = record {
      edges = λ c pos' q n n'. elim (slot_key (parent c)) [
        | inl (s, k) ↦ elim (slot_key c) [
          | inl (s', _) ↦ absurd (omega (arith, s, s', pos'))
          | inr (_, k') ↦ omega (arith, k, k', least c pos' (smaller q) s)
        ]
        | inr (s, k) ↦ elim (slot_key c) [
          | inl (s', k') ↦
              let over = b.bridged m pos inside is_child (omega (arith, s', pos')) in
              let e : key (h.slot (parent c)) ≡ key (h.slot (parent i)) =
                ap (λ j. key (h.slot (parent j))) s' in
              omega (arith, k, k', over, e)
          | inr (s', k') ↦ omega (arith, k, k', b.edges c pos' (smaller q) s' s)
        ]
      ];
      bridged = λ c pos' q par pos_m. elim (slot_key (parent m)) [
        | inr (s, _) ↦ absurd (s is_child)
        | inl (_, k) ↦
            let ne : m ≢ i = λ e. absurd (omega (arith, e, is_child, pos)) in
            elim (slot_key c) [
              | inl (s', _) ↦ absurd (omega (arith, s', par, is_child, pos, pos'))
              | inr (s', k') ↦ omega (arith, k, k', edge_to c pos' (smaller q) s' par ne)
            ]
      ];
    }

    pub down-Above : Above key moved m t
    down-Above pos_m = elim (slot_key (parent m)) [
      | inr (s, _) ↦ absurd (s is_child)
      | inl (_, k) ↦ omega (arith, k, comes)
    ]
