-- ===== src/Time/Timers/Loops.antt =====
-- The loops of siftUp and siftDown.
use bongos.Common.{
  same_or_not, ℕ, zero, suc, ◌+◌, ◌-◌, ◌*◌, ◌≤◌, ◌<◌, ◌≡◌, ◌≢◌, refl, sym, subst, ◌∙◌, ap, some,
  ◌==◌, arith, Bool-cases, inl, inr, ltb, leb,
}
use bongos.Time.Timers.{
  TimerHeap, heap_place, before, parent, sift_up_from, sift_up, sift_down_from, sift_down,
  smaller_child,
}
use bongos.Time.Timers.Hole.{
  key_of, before_lem, Places, place_count, place_next_seq, Places-move, Elsewhere-move,
}
use bongos.Time.Timers.Sift.{Bridges, Above, Below, Sifted, fill-Sifted}
use bongos.Time.Timers.Moves.{up-Bridges, up-Below, down-Bridges, down-Above}

module _ (key : ℕ → ℕ) (t : ℕ) (real : t ≢ 0) where
  Sifted-move :
      (h : TimerHeap) (i m : ℕ) (h' : TimerHeap)
      → i < h.count
      → m < h.count
      → m ≢ i
      → Sifted key (heap_place h i (h.slot m)) m t h'
      → Sifted key h i t h'
  Sifted-move h i m h' inside_i inside ne s = record {
    heap = s.heap;
    count = s.count ∙ place_count h i (h.slot m);
    next_seq = s.next_seq ∙ place_next_seq h i (h.slot m);
    members = λ x.
        let (to, from) = Elsewhere-move h i m x inside_i inside ne in
        let (in_heap, holds) = s.members x in
        (
          λ y. elim (in_heap y) [ inl e ↦ inl e | inr o ↦ inr (from o) ],
          λ y. elim y [ inl e ↦ holds (inl e) | inr o ↦ holds (inr (to o)) ],
        );
  }

  -- `before` compares the keys.
  before_key :
      (h : TimerHeap) (i x y : ℕ)
      → Places key h i t
      → before (h.timers x) (h.timers y) ≡ ltb (key x) (key y)
  before_key h i x y p =
      before_lem (h.timers x) (h.timers y) (p.seqs x) (p.seqs y)
      ∙ ap (λ k. ltb k (key_of (h.timers y))) (p.keys x)
      ∙ ap (λ k. ltb (key x) k) (p.keys y)

  sift_up_from_lem :
      (fuel : ℕ) (h : TimerHeap) (i : ℕ)
      → i < fuel
      → Places key h i t
      → Bridges key h i
      → Below key h i t
      → (h' : TimerHeap) × (sift_up_from fuel t h i ≡ some h') × Sifted key h i t h'
  unfolding sift_up_from
  sift_up_from_lem zero h i enough p b below = absurd (omega arith)
  sift_up_from_lem (suc fuel) h i enough p b below =
      let m = parent i in
      let compare = before_key h i t (h.slot m) p in
      elim (Bool-cases (i == 0)) [
        | inl root ↦
            let above : Above key h i t = λ pos. absurd (ground arith) in
            (
              heap_place h i t,
              rw (sift_up_from, root) refl,
              fill-Sifted key h i t p real b above below,
            )
        | inr deep ↦
            let pos : 0 < i = ground arith in
            let inside : m < h.count = omega (arith, p.inside, pos) in
            let ne : m ≢ i = λ e. absurd (omega (arith, e, pos)) in
            elim (Bool-cases (ltb (key t) (key (h.slot m)))) [
              | inr stays ↦
                  let above : Above key h i t = λ _. ground arith in
                  (
                    heap_place h i t,
                    rw (sift_up_from, deep, compare, stays) refl,
                    fill-Sifted key h i t p real b above below,
                  )
              | inl goes ↦
                  let comes : key t < key (h.slot m) = ground arith in
                  let (h', e, s) =
                    sift_up_from_lem fuel (heap_place h i (h.slot m)) m (omega (arith, pos))
                      (Places-move key h i m t p inside ne)
                      (up-Bridges key h i m t p inside b pos refl comes)
                      (up-Below key h i m t p inside b pos refl comes) in
                  (
                    h',
                    rw (sift_up_from, deep, compare, goes) e,
                    Sifted-move h i m h' p.inside inside ne s,
                  )
            ]
      ]

  -- The child that the loop of siftDown compares.
  record IsLeastChild (h : TimerHeap) (i m : ℕ) : Type 0 where
    pos : 0 < m
    inside : m < h.count
    is_child : parent m ≡ i
    least : (c : ℕ) → 0 < c → c < h.count → parent c ≡ i → key (h.slot m) ≤ key (h.slot c)

  -- What is least for both children is least.
  least_of_two :
      (h : TimerHeap) (i m : ℕ)
      → key (h.slot m) ≤ key (h.slot (2 * i + 1))
      → (2 * i + 2 < h.count → key (h.slot m) ≤ key (h.slot (2 * i + 1 + 1)))
      → (c : ℕ) → 0 < c
      → c < h.count
      → parent c ≡ i
      → key (h.slot m) ≤ key (h.slot c)
  least_of_two h i m l r c pos q par = elim (same_or_not c (2 * i + 1)) [
    | inl e ↦ subst (λ j. key (h.slot m) ≤ key (h.slot j)) (sym e) l
    | inr n ↦
        let e : c ≡ 2 * i + 1 + 1 = omega (arith, n, pos, par) in
        subst (λ j. key (h.slot m) ≤ key (h.slot j)) (sym e) (r (omega (arith, e, q)))
  ]

  smaller_child-IsLeastChild :
      (h : TimerHeap) (i : ℕ)
      → Places key h i t
      → 2 * i + 1 < h.count
      → IsLeastChild h i (smaller_child h i)
  unfolding smaller_child
  smaller_child-IsLeastChild h i p q =
      let left = 2 * i + 1 in
      let compare = before_key h i (h.slot (left + 1)) (h.slot left) p in
      elim (Bool-cases (ltb (left + 1) h.count)) [
        | inr only ↦
            rw (smaller_child, only)
              (record {
                pos = omega arith;
                inside = q;
                is_child = omega arith;
                least = least_of_two h i left (omega arith) (λ two. absurd (ground arith));
              })
        | inl both ↦ elim (Bool-cases (ltb (key (h.slot (left + 1))) (key (h.slot left)))) [
          | inl right ↦
              rw (smaller_child, both, compare, right)
                (record {
                  pos = omega arith;
                  inside = ground arith;
                  is_child = omega arith;
                  least = least_of_two h i (left + 1) (ground arith) (λ two. omega arith);
                })
          | inr left' ↦
              rw (smaller_child, both, compare, left')
                (record {
                  pos = omega arith;
                  inside = q;
                  is_child = omega arith;
                  least = least_of_two h i left (omega arith) (λ two. ground arith);
                })
        ]
      ]

  sift_down_from_lem :
      (fuel : ℕ) (h : TimerHeap) (i : ℕ)
      → h.count - i < fuel
      → Places key h i t
      → Bridges key h i
      → Above key h i t
      → (h' : TimerHeap) × (sift_down_from fuel t h i ≡ some h') × Sifted key h i t h'
  unfolding sift_down_from
  sift_down_from_lem zero h i enough p b above = absurd (omega arith)
  sift_down_from_lem (suc fuel) h i enough p b above =
      let m = smaller_child h i in
      let compare = before_key h i (h.slot m) t p in
      elim (Bool-cases (leb h.count (2 * i + 1))) [
        | inl leaf ↦
            let below : Below key h i t = λ c pos q par. absurd (ground arith) in
            (
              heap_place h i t,
              rw (sift_down_from, leaf) refl,
              fill-Sifted key h i t p real b above below,
            )
        | inr inner ↦
            let q : 2 * i + 1 < h.count = ground arith in
            let child = smaller_child-IsLeastChild h i p q in
            let ne : m ≢ i = λ e. absurd (omega (arith, e, child.is_child, child.pos)) in
            elim (Bool-cases (ltb (key (h.slot m)) (key t))) [
              | inr stays ↦
                  let below : Below key h i t =
                    λ c pos r par. ground (arith, child.least c pos r par) in
                  (
                    heap_place h i t,
                    rw (sift_down_from, inner, compare, stays) refl,
                    fill-Sifted key h i t p real b above below,
                  )
              | inl goes ↦
                  let comes : key (h.slot m) < key t = ground arith in
                  let (h', e, s) =
                    sift_down_from_lem fuel (heap_place h i (h.slot m)) m
                      (omega
                        (arith, child.is_child, child.pos, p.inside, place_count h i (h.slot m)))
                      (Places-move key h i m t p child.inside ne)
                      (down-Bridges key h i m t p child.inside b child.pos child.is_child
                        child.least comes)
                      (down-Above key h i m t p child.inside b child.pos child.is_child child.least
                        comes) in
                  (
                    h',
                    rw (sift_down_from, inner, compare, goes) e,
                    Sifted-move h i m h' p.inside child.inside ne s,
                  )
            ]
      ]

  pub sift_up_lem :
      (h : TimerHeap) (i : ℕ)
      → h.slot i ≡ t
      → Places key h i t
      → Bridges key h i
      → Below key h i t
      → (h' : TimerHeap) × (sift_up h i ≡ some h') × Sifted key h i t h'
  unfolding sift_up
  sift_up_lem h i e p b below =
      let (h', r, s) = sift_up_from_lem (i + 1) h i (omega arith) p b below in
      (h', rw (sift_up, e) r, s)

  pub sift_down_lem :
      (h : TimerHeap) (i : ℕ)
      → h.slot i ≡ t
      → Places key h i t
      → Bridges key h i
      → Above key h i t
      → (h' : TimerHeap) × (sift_down h i ≡ some h') × Sifted key h i t h'
  unfolding sift_down
  sift_down_lem h i e p b above =
      let (h', r, s) = sift_down_from_lem (h.count + 1) h i (omega arith) p b above in
      (h', rw (sift_down, e) r, s)
