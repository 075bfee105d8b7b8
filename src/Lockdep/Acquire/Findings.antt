-- ===== src/Lockdep/Acquire/Findings.antt =====
-- What the findings of lockdepCoreCheckAcquire show of the graph and the stack.
use bongos.Common.{
  ℕ, zero, suc, ◌+◌, ◌≤◌, ◌<◌, ◌≡◌, ◌≢◌, refl, sym, ◌∙◌, subst, Bool, false, ◌||◌, some-injective,
  some, List, [], ◌∷◌, ◌==◌, get_elem?, drop, inl, inr, arith, Bool-cases,
}
use bongos.Lockdep.{
  LockdepHeld, LockdepGraph, LockdepFinding, Adjacency, build_path, report_inversion, max_classes,
}
use bongos.Lockdep.Search.{Walk, bfs_find_decides}
use bongos.Lockdep.Acquire.{
  segment, segment_base, find_inversion, check_class, check_acquire, finding,
}

-- An inversion, with the entry that stands `k` places above the index `base`: the graph leads from
-- the new class to the entry's, and the order the other way round is not recorded.
pub record Inverts (adj : Adjacency) (c base : ℕ) (hs : List LockdepHeld) (f : LockdepFinding)
    : Type 0 where
  pub new_class : f.new_class ≡ c
  pub place : ℕ
  pub entry : LockdepHeld
  pub index : f.held_index ≡ base + place
  pub there : get_elem? hs place ≡ some entry
  pub held_class : entry.class_id ≡ f.held_class
  pub other : f.held_class ≢ c
  pub unordered : adj f.held_class c ≡ false
  pub back : Walk adj c f.held_class

module _ (adj : Adjacency) (c : ℕ) (pos : 0 < c) (bound : c ≤ max_classes) where
  Inverts-cons :
      (i : ℕ) (h : LockdepHeld) (hs : List LockdepHeld) (f : LockdepFinding)
      → Inverts adj c (i + 1) hs f
      → Inverts adj c i (h ∷ hs) f
  Inverts-cons i h hs f inv = record {
    new_class = inv.new_class;
    place = suc inv.place;
    entry = inv.entry;
    index = omega (arith, inv.index);
    there = inv.there;
    held_class = inv.held_class;
    other = inv.other;
    unordered = inv.unordered;
    back = inv.back;
  }

  find_inversion-Inverts :
      (i : ℕ) (hs : List LockdepHeld) (f : LockdepFinding)
      → find_inversion adj c i hs ≡ some f
      → Inverts adj c i hs f
  unfolding find_inversion
  find_inversion-Inverts i [] f e = absurd cc
  find_inversion-Inverts i (h ∷ hs) f e =
      let (b, s, found, sound, none') = bfs_find_decides adj c h.class_id pos bound in
      let later : find_inversion adj c (i + 1) hs ≡ some f → Inverts adj c i (h ∷ hs) f =
        λ e'. Inverts-cons i h hs f (find_inversion-Inverts (i + 1) hs f e') in
      elim (Bool-cases (h.class_id == c || adj h.class_id c)) [
        | inl skip ↦ later (rw (find_inversion, skip) at e)
        | inr look ↦ elim (Bool-cases b) [
          | inr no' ↦ later (rw (find_inversion, look, found, no') at e)
          | inl yes' ↦
              let (path, cut) = build_path s.parent c h.class_id in
              let same : some (record (finding report_inversion c) {
                held_class = h.class_id;
                held_index = i;
                path_truncated = cut;
                path_class = path;
              })
                  ≡ some f =
                rw (find_inversion, look, found, yes') at e in
              subst (Inverts adj c i (h ∷ hs)) (some-injective _ _ same) (record {
                new_class = refl;
                place = 0;
                entry = h;
                index = omega arith;
                there = refl;
                held_class = refl;
                other = ground arith;
                unordered = ground arith;
                back = sound yes';
              })
        ]
      ]

get_elem-drop :
    {A : Type 0} (n : ℕ) (xs : List A) (k : ℕ) → get_elem? (drop n xs) k ≡ get_elem? xs (n + k)
get_elem-drop zero xs k = let e : zero + k ≡ k = omega arith in rw e refl
get_elem-drop (suc n) [] k = refl
get_elem-drop (suc n) (x ∷ xs) k =
    let e : suc n + k ≡ suc (n + k) = omega arith in rw e (get_elem-drop n xs k)

-- A finding of this kind comes from the last loop.
check_acquire-inversion :
    (g : LockdepGraph) (held : List LockdepHeld) (lock c irq_ctx : ℕ) (irqs_on trylock : Bool)
    (f : LockdepFinding)
    → check_acquire g held lock c irq_ctx irqs_on trylock ≡ some f
    → f.kind ≡ report_inversion
    → (trylock ≡ false)
      × (find_inversion g.adj c (segment_base held irq_ctx) (segment held irq_ctx) ≡ some f)
unfolding check_acquire check_class
check_acquire-inversion g held lock c irq_ctx irqs_on trylock f e k = ground arith

-- An inversion that lockdepCoreCheckAcquire reports is real.
pub check_acquire-Inverts :
    (g : LockdepGraph) (held : List LockdepHeld) (lock c irq_ctx : ℕ) (irqs_on trylock : Bool)
    (f : LockdepFinding)
    → 0 < c
    → c ≤ max_classes
    → check_acquire g held lock c irq_ctx irqs_on trylock ≡ some f
    → f.kind ≡ report_inversion
    → (trylock ≡ false) × Inverts g.adj c 0 held f
unfolding segment
check_acquire-Inverts g held lock c irq_ctx irqs_on trylock f p q e k =
    let (takes, found) = check_acquire-inversion g held lock c irq_ctx irqs_on trylock f e k in
    let base = segment_base held irq_ctx in
    let inv = find_inversion-Inverts g.adj c p q base (segment held irq_ctx) f found in
    (
      takes,
      record {
        new_class = inv.new_class;
        place = base + inv.place;
        entry = inv.entry;
        index = omega (arith, inv.index);
        there = sym (get_elem-drop base held inv.place) ∙ inv.there;
        held_class = inv.held_class;
        other = inv.other;
        unordered = inv.unordered;
        back = inv.back;
      },
    )
