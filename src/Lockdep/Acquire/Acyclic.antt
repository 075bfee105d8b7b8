-- ===== src/Lockdep/Acquire/Acyclic.antt =====
-- The order graph has no cycle as long as only acquires that the check has cleared add edges.
use bongos.Common.{
  ℕ, ◌+◌, ◌≤◌, ◌<◌, ◌≡◌, ◌≢◌, refl, sym, ◌∙◌, subst, Bool, true, false, ◌||◌, ◌⊎◌, inl, inr, none,
  some, List, [], ◌∷◌, ◌++◌, ◌==◌, length, get_or, arith, Bool-cases, Option-cases,
}
use bongos.Lockdep.{
  LockdepVerdict, lockdep_ok, lockdep_full, LockdepHeld, LockdepGraph, Adjacency, BfsState, adj_set,
  bfs_find, max_edges, max_classes, usage_irqs_on, class_of,
}
use bongos.Lockdep.Search.{Edge, Walk, here, step, bfs_find_decides}
use bongos.Lockdep.Acquire.{
  segment, segment_base, find_inversion, check_class, check_acquire, mark_usage, mark_acquire,
  add_edges, commit_acquire, commit_release, held_find, no_held,
}

-- No chain of edges leads back to where it starts.
abbrev pub Acyclic : Adjacency → Type 0
Acyclic adj = (v w : ℕ) → Edge adj v w → Walk adj w v → ⊥

-- An entry of this class is held.
abbrev HoldsClass : ℕ → List LockdepHeld → Type 0
HoldsClass c [] = ⊥
HoldsClass c (h ∷ hs) = (c ≡ h.class_id) ⊎ HoldsClass c hs

-- Edges that go from a held class to `c` and were not there before.
abbrev IsNew : Adjacency → ℕ → List LockdepHeld → ℕ → Type 0
IsNew adj c hs u = (u ≢ c) × (adj u c ≡ false) × HoldsClass u hs

-- `adj'` has the edges of `adj` and new ones to `c`.
abbrev Adds : Adjacency → ℕ → List LockdepHeld → Adjacency → Type 0
Adds adj c hs adj' = (u v : ℕ) → adj' u v ≡ true → (adj u v ≡ true) ⊎ (v ≡ c) × IsNew adj c hs u

module _ (adj adj' : Adjacency) (c : ℕ) (hs : List LockdepHeld) (adds : Adds adj c hs adj') where
  -- From `c` the new edges lead nowhere new.
  old-Walk : {x : ℕ} → Walk adj' c x → Walk adj c x
  old-Walk here = here
  old-Walk (step {v} {w} p e) = elim (adds v w e.0) [
    | inl old ↦ step (old-Walk p) (old, e.1, e.2)
    | inr (new, _) ↦ subst (Walk adj c) (sym new) here
  ]

  Walk-append : {u v w : ℕ} → Walk adj' u v → Walk adj' v w → Walk adj' u w
  Walk-append p here = p
  Walk-append p (step q e) = step (Walk-append p q) e

  split-Walk :
      {w v : ℕ}
      → Walk adj' w v
      → Walk adj w v ⊎ Walk adj' c v × ((u : ℕ) × IsNew adj c hs u × Walk adj' w u)
  split-Walk here = inl here
  split-Walk {w} (step {v = x} {w = y} p e) = elim (adds x y e.0) [
    | inl old ↦ elim (split-Walk p) [
      | inl q ↦ inl (step q (old, e.1, e.2))
      | inr (q, new) ↦ inr (step q e, new)
    ]
    | inr (to_c, new) ↦ inr (subst (Walk adj' c) (sym to_c) here, (x, new, p))
  ]

  Acyclic-adds : ((u : ℕ) → IsNew adj c hs u → Walk adj c u → ⊥) → Acyclic adj → Acyclic adj'
  Acyclic-adds no_back acyclic v w e p = elim (adds v w e.0) [
    | inr (to_c, new) ↦ no_back v new (old-Walk (subst (λ x. Walk adj' x v) to_c p))
    | inl old ↦ elim (split-Walk p) [
      | inl q ↦ acyclic v w (old, e.1, e.2) q
      | inr (q, (u, new, r)) ↦ no_back u new (old-Walk (Walk-append (step q e) r))
    ]
  ]

adj_set-cases :
    (adj : Adjacency) (from to u v : ℕ)
    → adj_set adj from to u v ≡ true
    → (adj u v ≡ true) ⊎ (u ≡ from) × (v ≡ to)
unfolding adj_set
adj_set-cases adj from to u v h = ground arith

adj_set-false :
    (adj : Adjacency) (from to u v : ℕ) → adj_set adj from to u v ≡ false → adj u v ≡ false
unfolding adj_set
adj_set-false adj from to u v h = ground arith

add_edges-Adds :
    (c : ℕ) (hs : List LockdepHeld) (result : LockdepVerdict) (g : LockdepGraph)
    → Adds g.adj c hs (add_edges c hs (result, g)).1.adj
unfolding add_edges
add_edges-Adds c [] result g = λ u v e. inl e
add_edges-Adds c (h ∷ hs) result g = elim (Bool-cases (h.class_id == c || g.adj h.class_id c)) [
  | inl old ↦
      rw (add_edges, old) (λ u v e. later h hs g.adj u v (add_edges-Adds c hs result g u v e))
  | inr fresh ↦ elim (Bool-cases (length g.edges == max_edges)) [
    | inl full ↦
        rw (add_edges, fresh, full)
          (λ u v e. later h hs g.adj u v (add_edges-Adds c hs lockdep_full g u v e))
    | inr room ↦
        let g' = record g {
          adj = adj_set g.adj h.class_id c;
          edges = g.edges ++ record { from = h.class_id; to = c } ∷ [];
        } in
        rw (add_edges, fresh, room)
          (λ u v e.
            added h hs g.adj u v (ground arith) (ground arith)
              (add_edges-Adds c hs result g' u v e))
  ]
]
  where
    later :
        (h : LockdepHeld) (hs : List LockdepHeld) (adj : Adjacency) (u v : ℕ)
        → (adj u v ≡ true) ⊎ (v ≡ c) × IsNew adj c hs u
        → (adj u v ≡ true) ⊎ (v ≡ c) × IsNew adj c (h ∷ hs) u
    later h hs adj u v (inl e) = inl e
    later h hs adj u v (inr (e, (ne, un, m))) = inr (e, (ne, un, inr m))

    added :
        (h : LockdepHeld) (hs : List LockdepHeld) (adj : Adjacency) (u v : ℕ)
        → h.class_id ≢ c
        → adj h.class_id c ≡ false
        → (adj_set adj h.class_id c u v ≡ true) ⊎ (v ≡ c) × IsNew (adj_set adj h.class_id c) c hs u
        → (adj u v ≡ true) ⊎ (v ≡ c) × IsNew adj c (h ∷ hs) u
    added h hs adj u v ne un (inl e) = elim (adj_set-cases adj h.class_id c u v e) [
      | inl old ↦ inl old
      | inr (this, to_c) ↦
          inr (to_c, (λ x. ne (sym this ∙ x), subst (λ x. adj x c ≡ false) (sym this) un, inl this))
    ]
    added h hs adj u v ne un (inr (e, (ne', un', m))) =
        inr (e, (ne', adj_set-false adj h.class_id c u c un', inr m))

-- The rest of the loop found none, and a search for this entry's class found nothing.
find_inversion-cons :
    (adj : Adjacency) (c i : ℕ) (h : LockdepHeld) (hs : List LockdepHeld) (b : Bool) (s : BfsState)
    → bfs_find adj c h.class_id ≡ some (b, s)
    → find_inversion adj c i (h ∷ hs) ≡ none
    → (find_inversion adj c (i + 1) hs ≡ none)
      × ((h.class_id ≡ c) ⊎ (adj h.class_id c ≡ true) ⊎ (b ≡ false))
unfolding find_inversion
find_inversion-cons adj c i h hs b s found e =
    elim (Bool-cases (h.class_id == c || adj h.class_id c)) [
      | inl skip ↦ (rw (find_inversion, skip) at e, ground arith)
      | inr look ↦ elim (Bool-cases b) [
        | inl yes' ↦ absurd (let e' = rw (find_inversion, look, found, yes') at e in cc)
        | inr no' ↦ (rw (find_inversion, look, found, no') at e, inr (inr no'))
      ]
    ]

-- The check clears an acquire only if no chain leads from the new class to a held one.
find_inversion-none :
    (adj : Adjacency) (c i : ℕ) (hs : List LockdepHeld)
    → 0 < c
    → c ≤ max_classes
    → find_inversion adj c i hs ≡ none
    → (u : ℕ) → IsNew adj c hs u
    → Walk adj c u
    → ⊥
find_inversion-none adj c i [] p q e u new w = new.2
find_inversion-none adj c i (h ∷ hs) p q e u (ne, un, held) w =
    let (b, s, found, sound, none') = bfs_find_decides adj c h.class_id p q in
    let (rest, this) = find_inversion-cons adj c i h hs b s found e in
    elim held [
      | inr later ↦ find_inversion-none adj c (i + 1) hs p q rest u (ne, un, later) w
      | inl same ↦ elim this [
        | inl recursive ↦ ne (same ∙ recursive)
        | inr (inl known) ↦
            let known' : adj u c ≡ true = subst (λ x. adj x c ≡ true) (sym same) known in cc
        | inr (inr unreached) ↦ none' unreached (subst (Walk adj c) same w)
      ]
    ]

adj-mark_usage : (g : LockdepGraph) (c usage : ℕ) → (mark_usage g c usage).adj ≡ g.adj
unfolding mark_usage
adj-mark_usage g c usage = ground arith

adj-mark_acquire :
    (g : LockdepGraph) (c irq_ctx : ℕ) (irqs_on : Bool)
    → (mark_acquire g c irq_ctx irqs_on).adj ≡ g.adj
unfolding mark_acquire
adj-mark_acquire g c irq_ctx irqs_on = ground (arith, adj-mark_usage g c 0, adj-mark_usage g c 1)

-- A cleared acquire that is not a trylock has no inversion in its segment.
check_acquire-none :
    (g : LockdepGraph) (held : List LockdepHeld) (lock c irq_ctx : ℕ) (irqs_on : Bool)
    → check_acquire g held lock c irq_ctx irqs_on false ≡ none
    → (base : ℕ) × (find_inversion g.adj c base (segment held irq_ctx) ≡ none)
unfolding check_acquire check_class
check_acquire-none g held lock c irq_ctx irqs_on e = (segment_base held irq_ctx, ground arith)

commit_acquire-Acyclic :
    (g : LockdepGraph) (held : List LockdepHeld) (entry : LockdepHeld)
    → 0 < entry.class_id
    → entry.class_id ≤ max_classes
    → check_acquire g held entry.lock entry.class_id entry.irq_ctx entry.irqs_on entry.trylock
      ≡ none
    → Acyclic g.adj
    → Acyclic (commit_acquire g held entry true).1.adj
unfolding commit_acquire
commit_acquire-Acyclic g held entry p q e acyclic =
    let hs = segment held entry.irq_ctx in
    let g' = mark_acquire g entry.class_id entry.irq_ctx entry.irqs_on in
    let same : g'.adj ≡ g.adj = adj-mark_acquire g entry.class_id entry.irq_ctx entry.irqs_on in
    let acyclic' : Acyclic g'.adj = subst Acyclic (sym same) acyclic in
    elim (Bool-cases entry.trylock) [
      | inl try' ↦ simp (commit_acquire, try') acyclic'
      | inr takes ↦
          let (base, cleared) =
            check_acquire-none g held entry.lock entry.class_id entry.irq_ctx entry.irqs_on
              (simp takes at e) in
          let cleared' : find_inversion g'.adj entry.class_id base hs ≡ none =
            subst (λ adj. find_inversion adj entry.class_id base hs ≡ none) (sym same) cleared in
          simp (commit_acquire, takes)
            (Acyclic-adds g'.adj (add_edges entry.class_id hs (lockdep_ok, g')).1.adj entry.class_id
              hs (add_edges-Adds entry.class_id hs lockdep_ok g')
              (find_inversion-none g'.adj entry.class_id base hs p q cleared') acyclic')
    ]

-- An acquire that was reported adds no edge.
adj-commit_acquire :
    (g : LockdepGraph) (held : List LockdepHeld) (entry : LockdepHeld)
    → (commit_acquire g held entry false).1.adj ≡ g.adj
unfolding commit_acquire
adj-commit_acquire g held entry =
    let same = adj-mark_acquire g entry.class_id entry.irq_ctx entry.irqs_on in
    elim (Bool-cases entry.trylock) [
      | inl t ↦ simp (commit_acquire, t) same
      | inr f ↦ simp (commit_acquire, f) same
    ]

adj-class_of : (g : LockdepGraph) (key name : ℕ) → (class_of g key name).1.adj ≡ g.adj
unfolding class_of
adj-class_of g key name = ground arith

adj-commit_release :
    (g : LockdepGraph) (held : List LockdepHeld) (lock : ℕ) (irqs_on : Bool)
    → (commit_release g held lock irqs_on).0.adj ≡ g.adj
unfolding commit_release
adj-commit_release g held lock irqs_on = elim (Option-cases (held_find held lock)) [
  | inl gone ↦ rw (commit_release, gone) refl
  | inr (i, e) ↦
      let c = (get_or held i no_held).class_id in
      rw (commit_release, e) (ground (arith, adj-mark_usage g c usage_irqs_on))
]

-- The graphs that a validator makes from the empty one: each CPU registers classes, acquires what
-- the check clears, with whatever stack it has, acquires without adding edges what the check
-- reports, and releases.
pub data Validated : LockdepGraph → Type 0 where
  empty : Validated (record { classes = []; adj = λ u v. false; edges = [] })
  registered : (g : LockdepGraph) (key name : ℕ) → Validated g → Validated (class_of g key name).1
  cleared :
      (g : LockdepGraph) (held : List LockdepHeld) (entry : LockdepHeld)
      → 0 < entry.class_id
      → entry.class_id ≤ max_classes
      → check_acquire g held entry.lock entry.class_id entry.irq_ctx entry.irqs_on entry.trylock
        ≡ none
      → Validated g
      → Validated (commit_acquire g held entry true).1
  reported :
      (g : LockdepGraph) (held : List LockdepHeld) (entry : LockdepHeld)
      → Validated g
      → Validated (commit_acquire g held entry false).1
  released :
      (g : LockdepGraph) (held : List LockdepHeld) (lock : ℕ) (irqs_on : Bool)
      → Validated g
      → Validated (commit_release g held lock irqs_on).0

-- Whatever locks are taken and released, on any number of CPUs, the recorded order has no cycle, as
-- long as edges are added only for acquires that lockdepCoreCheckAcquire clears.
pub Validated-Acyclic : (g : LockdepGraph) → Validated g → Acyclic g.adj
Validated-Acyclic _ empty = λ v w e p. cc
Validated-Acyclic _ (registered g key name r) =
    subst Acyclic (sym (adj-class_of g key name)) (Validated-Acyclic g r)
Validated-Acyclic _ (cleared g held entry p q e r) =
    commit_acquire-Acyclic g held entry p q e (Validated-Acyclic g r)
Validated-Acyclic _ (reported g held entry r) =
    subst Acyclic (sym (adj-commit_acquire g held entry)) (Validated-Acyclic g r)
Validated-Acyclic _ (released g held lock irqs_on r) =
    subst Acyclic (sym (adj-commit_release g held lock irqs_on)) (Validated-Acyclic g r)
