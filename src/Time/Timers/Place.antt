-- ===== src/Time/Timers/Place.antt =====
-- Writing a timer to a slot and sifting it from there, as timerHeapInsert and timerHeapRemove do.
use bongos.Common.{ℕ, ◌<◌, ◌≡◌, ◌≢◌, sym, ◌∙◌, some, arith, inl, inr}
use bongos.Time.Timers.{TimerHeap, heap_place, parent, sift_up, sift_down}
use bongos.Time.Timers.Hole.{
  Places, place_slot_self, place_slot_other, place_key, place_seq, place_index_other, place_count,
  place_next_seq,
}
use bongos.Time.Timers.Sift.{Bridges, Above, Below, Sifted}
use bongos.Time.Timers.Loops.{sift_up_lem, sift_down_lem}

module _ (key : ℕ → ℕ) (h : TimerHeap) (i t : ℕ) (real : t ≢ 0) (p : Places key h i t)
    (b : Bridges key h i) where
  abbrev placed : TimerHeap
  placed = heap_place h i t

  size : placed.count ≡ h.count
  size = place_count h i t

  kept : (j : ℕ) → j ≢ i → placed.slot j ≡ h.slot j
  kept = place_slot_other h i t

  smaller : {j : ℕ} → j < placed.count → j < h.count
  smaller q = omega (arith, q, size)

  placed-Places : Places key placed i t
  placed-Places = record {
    inside = omega (arith, p.inside, size);
    back = λ j q n.
        rw (kept j n)
          (place_index_other h i t (h.slot j) (p.other j (smaller q) n) ∙ p.back j (smaller q) n);
    other = λ j q n. rw (kept j n) (p.other j (smaller q) n);
    real = λ j q n. rw (kept j n) (p.real j (smaller q) n);
    null = λ j q. kept j (omega (arith, q, size, p.inside)) ∙ p.null j (omega (arith, q, size));
    keys = λ x. place_key h i t x ∙ p.keys x;
    seqs = λ x. omega (arith, place_seq h i t x, p.seqs x);
  }

  placed-Bridges : Bridges key placed i
  placed-Bridges = record {
    edges = λ c pos q n n'. rw (kept (parent c) n', kept c n) (b.edges c pos (smaller q) n n');
    bridged = λ c pos q par pos_i.
        let n : c ≢ i = λ e. absurd (omega (arith, e, par, pos)) in
        let n' : parent i ≢ i = λ e. absurd (omega (arith, e, pos_i)) in
        rw (kept (parent i) n', kept c n) (b.bridged c pos (smaller q) par pos_i);
  }

  placed-Above : Above key h i t → Above key placed i t
  placed-Above a pos =
      let n' : parent i ≢ i = λ e. absurd (omega (arith, e, pos)) in rw (kept (parent i) n') (a pos)

  placed-Below : Below key h i t → Below key placed i t
  placed-Below a c pos q par =
      let n : c ≢ i = λ e. absurd (omega (arith, e, par, pos)) in
      rw (kept c n) (a c pos (smaller q) par)

  placed-Sifted : (h' : TimerHeap) → Sifted key placed i t h' → Sifted key h i t h'
  placed-Sifted h' s = record {
    heap = s.heap;
    count = s.count ∙ size;
    next_seq = s.next_seq ∙ place_next_seq h i t;
    members = λ x.
        let (in_heap, holds) = s.members x in
        (
          λ y. elim (in_heap y) [
            | inl e ↦ inl e
            | inr (j, q, n, e) ↦ inr (j, smaller q, n, sym (kept j n) ∙ e)
          ],
          λ y. elim y [
            | inl e ↦ holds (inl e)
            | inr (j, q, n, e) ↦ holds (inr (j, omega (arith, q, size), n, kept j n ∙ e))
          ],
        );
  }

  pub place_sift_up :
      Below key h i t → (h' : TimerHeap) × (sift_up placed i ≡ some h') × Sifted key h i t h'
  place_sift_up below =
      let (h', e, s) =
        sift_up_lem key t real placed i (place_slot_self h i t) placed-Places placed-Bridges
          (placed-Below below) in
      (h', e, placed-Sifted h' s)

  pub place_sift_down :
      Above key h i t → (h' : TimerHeap) × (sift_down placed i ≡ some h') × Sifted key h i t h'
  place_sift_down above =
      let (h', e, s) =
        sift_down_lem key t real placed i (place_slot_self h i t) placed-Places placed-Bridges
          (placed-Above above) in
      (h', e, placed-Sifted h' s)
