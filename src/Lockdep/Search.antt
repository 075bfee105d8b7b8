-- ===== src/Lockdep/Search.antt =====
-- The breadth-first search finds a class exactly if a chain of edges leads there.
use bongos.Common.{
  ℕ, zero, suc, ◌+◌, ◌≤◌, ◌<◌, ◌≡◌, ◌≢◌, refl, sym, ◌∙◌, ap, subst, Bool, true, false, ◌&&◌, ◌||◌,
  ◌⊎◌, inl, inr, Option, some, List, [], ◌∷◌, ltb, leb, ◌==◌, length, arith, Bool-cases, List-cases,
}
use bongos.Lockdep.{
  Adjacency, BfsState, scan, bfs_loop, bfs_start, bfs_find, bfs_found, max_classes,
}
use bongos.Lockdep.Scan.{
  Has, seen-scan, pending-seen-scan, pending-scan, pending-scan_new, unseen, unseen-put,
  scan_conserves,
}

abbrev pub Edge : Adjacency → ℕ → ℕ → Type 0
Edge adj u v = (adj u v ≡ true) × (0 < v) × (v ≤ max_classes)

-- A chain of edges, of any length.
pub data Walk (adj : Adjacency) (u : ℕ) : ℕ → Type 0 where
  here : Walk adj u u
  step : {v w : ℕ} → Walk adj u v → Edge adj v w → Walk adj u w

-- The state after `cur` left the head of the queue.
abbrev pub expand : Adjacency → BfsState → ℕ → List ℕ → BfsState
expand adj s cur rest = scan adj cur max_classes 1 (record s { pending = rest })

-- Where a loop ends, the invariant that its rounds keep still holds.
pub record Ends (P : BfsState → Type 0) (dst : ℕ) (b : Bool) (s' : BfsState) : Type 0 where
  pub last : BfsState
  pub holds : P last
  pub same_seen : s'.seen ≡ last.seen
  pub same_parent : s'.parent ≡ last.parent
  pub empty : b ≡ false → last.pending ≡ []
  pub at_dst : b ≡ true → Has dst last.pending

module _ (adj : Adjacency) (dst : ℕ) (P : BfsState → Type 0)
    (keep : (s : BfsState) (cur : ℕ) (rest : List ℕ)
      → s.pending ≡ cur ∷ rest
      → cur ≢ dst
      → P s
      → P (expand adj s cur rest)) where
  pub bfs_loop-Ends :
      (fuel : ℕ) (s : BfsState) (b : Bool) (s' : BfsState)
      → P s
      → bfs_loop adj dst fuel s ≡ some (b, s')
      → Ends P dst b s'
  unfolding bfs_loop
  bfs_loop-Ends zero s b s' p e = absurd (cc)
  bfs_loop-Ends (suc fuel) s b s' p e = elim (List-cases s.pending) [
    | inl empty ↦
        let r : Option (Bool × BfsState) = some (false, s) in
        let e' : r ≡ some (b, s') = simp (bfs_loop, empty) at e in
        let eb : b ≡ false = cc in
        let es : s' ≡ s = cc in
        record {
          last = s;
          holds = p;
          same_seen = ap (λ t. t.seen) es;
          same_parent = ap (λ t. t.parent) es;
          empty = λ _. empty;
          at_dst = λ t. absurd (cc);
        }
    | inr (cur, rest, more) ↦ elim (Bool-cases (cur == dst)) [
      | inl found ↦
          let r : Option (Bool × BfsState) = some (true, record s { pending = rest }) in
          let e' : r ≡ some (b, s') = simp (bfs_loop, more, found) at e in
          let eb : b ≡ true = cc in
          let es : s' ≡ record s { pending = rest } = cc in
          record {
            last = s;
            holds = p;
            same_seen = ap (λ t. t.seen) es;
            same_parent = ap (λ t. t.parent) es;
            empty = λ f. absurd (cc);
            at_dst = λ _. subst (Has dst) (sym more) (inl (ground arith));
          }
      | inr other ↦
          bfs_loop-Ends fuel (expand adj s cur rest) b s' (keep s cur rest more (ground arith) p)
            (simp (bfs_loop, more, other) at e)
    ]
  ]

pub bfs_loop_total :
    (adj : Adjacency) (dst fuel : ℕ) (s : BfsState)
    → unseen s.seen max_classes + length s.pending < fuel
    → (b : Bool) × (s' : BfsState) × (bfs_loop adj dst fuel s ≡ some (b, s'))
unfolding bfs_loop
bfs_loop_total adj dst zero s h = absurd (omega arith)
bfs_loop_total adj dst (suc fuel) s h = elim (List-cases s.pending) [
  | inl empty ↦ (false, s, simp (bfs_loop, empty))
  | inr (cur, rest, more) ↦ elim (Bool-cases (cur == dst)) [
    | inl found ↦ (true, record s { pending = rest }, simp (bfs_loop, more, found))
    | inr other ↦
        let kept = scan_conserves adj cur max_classes 1 max_classes (record s { pending = rest }) in
        let (b, s', ends) =
          bfs_loop_total adj dst fuel (expand adj s cur rest)
            (omega (arith, kept (omega arith) (omega arith), ap length more)) in
        let next : bfs_loop adj dst (suc fuel) s ≡ bfs_loop adj dst fuel (expand adj s cur rest) =
          simp (bfs_loop, more, other) in
        (b, s', next ∙ ends)
  ]
]

unseen_none : (n : ℕ) → unseen (λ v. false) n ≡ n
unfolding unseen
unseen_none zero = refl
unseen_none (suc n) = omega (arith, unseen_none n)

-- The search never runs out of fuel.
pub bfs_find_total :
    (adj : Adjacency) (src dst : ℕ)
    → 0 < src
    → src ≤ max_classes
    → (b : Bool) × (s : BfsState) × (bfs_find adj src dst ≡ some (b, s))
unfolding bfs_find
bfs_find_total adj src dst p h =
    bfs_loop_total adj dst (max_classes + 1) (bfs_start src)
      (omega (arith, unseen-put (λ v. false) max_classes src p h refl, unseen_none max_classes))

module _ (adj : Adjacency) (src dst : ℕ) where
  record Inv (s : BfsState) : Type 0 where
    source : s.seen src ≡ true
    queued : (v : ℕ) → Has v s.pending → s.seen v ≡ true
    sound : (v : ℕ) → s.seen v ≡ true → Walk adj src v
    closed : (u v : ℕ) → s.seen u ≡ true → Edge adj u v → Has u s.pending ⊎ (s.seen v ≡ true)
    waits : s.seen dst ≡ true → Has dst s.pending

  Inv-start : Inv (bfs_start src)
  Inv-start = record {
    source = ground arith;
    queued = λ v m. elim m [ inl e ↦ ground arith | inr n ↦ elim n [ ] ];
    sound = λ v m. let e : v ≡ src = ground arith in subst (Walk adj src) (sym e) here;
    closed = λ u v m edge. inl (inl (ground arith));
    waits = λ m. inl (ground arith);
  }

  module _ (s : BfsState) (cur : ℕ) (rest : List ℕ) (e : s.pending ≡ cur ∷ rest) (other : cur ≢ dst)
      (h : Inv s) where
    abbrev s0 : BfsState
    s0 = record s { pending = rest }

    flags :
        (w : ℕ)
        → (expand adj s cur rest).seen w
          ≡ (s.seen w || adj cur w && leb 1 w && ltb w (1 + max_classes))
    flags w = seen-scan adj cur max_classes 1 s0 w

    kept : (w : ℕ) → s.seen w ≡ true → (expand adj s cur rest).seen w ≡ true
    kept w m = ground (arith, flags w)

    in_rest : (w : ℕ) → Has w s.pending → w ≢ cur → Has w rest
    in_rest w m n = elim (subst (Has w) e m) [ inl c ↦ absurd (n c) | inr r ↦ r ]

    cur_seen : s.seen cur ≡ true
    cur_seen = h.queued cur (subst (Has cur) (sym e) (inl refl))

    Inv-expand : Inv (expand adj s cur rest)
    Inv-expand = record {
      source = kept src h.source;
      queued = λ v m. elim (pending-seen-scan adj cur max_classes 1 s0 v m) [
        | inl r ↦ kept v (h.queued v (subst (Has v) (sym e) (inr r)))
        | inr now ↦ now
      ];
      sound = λ v m. elim (Bool-cases (s.seen v)) [
        | inl old ↦ h.sound v old
        | inr new ↦
            step (h.sound cur cur_seen)
              (ground (arith, flags v), ground (arith, flags v), ground (arith, flags v))
      ];
      closed = λ u v m edge. elim (Bool-cases (s.seen u)) [
        | inr new ↦ inl (pending-scan_new adj cur max_classes 1 s0 u new m)
        | inl old ↦ elim (Bool-cases (u == cur)) [
          | inl this ↦
              let here' : u ≡ cur = ground arith in
              let edge' : adj cur v ≡ true = subst (λ w. adj w v ≡ true) here' edge.0 in
              inr (ground (arith, flags v, edge))
          | inr that ↦ elim (h.closed u v old edge) [
            | inl queued ↦
                inl (pending-scan adj cur max_classes 1 s0 u (in_rest u queued (λ c. ground arith)))
            | inr seen ↦ inr (kept v seen)
          ]
        ]
      ];
      waits = λ m. elim (Bool-cases (s.seen dst)) [
        | inl old ↦
            pending-scan adj cur max_classes 1 s0 dst
              (in_rest dst (h.waits old) (λ c. other (sym c)))
        | inr new ↦ pending-scan_new adj cur max_classes 1 s0 dst new m
      ];
    }

  -- Where the queue is empty, what the source reaches has been seen.
  complete : (s : BfsState) → Inv s → s.pending ≡ [] → {v : ℕ} → Walk adj src v → s.seen v ≡ true
  complete s h e here = h.source
  complete s h e (step {v} {w} p edge) = elim (h.closed v w (complete s h e p) edge) [
    | inl waiting ↦ absurd (subst (Has v) e waiting)
    | inr m ↦ m
  ]

-- The search returns, and says whether a chain of edges leads from `src` to `dst`.
pub bfs_find_decides :
    (adj : Adjacency) (src dst : ℕ)
    → 0 < src
    → src ≤ max_classes
    → (b : Bool) × (s : BfsState) × (bfs_find adj src dst ≡ some (b, s))
      × (b ≡ true → Walk adj src dst)
      × (b ≡ false → Walk adj src dst → ⊥)
unfolding bfs_find
bfs_find_decides adj src dst p q =
    let (b, s, e) = bfs_find_total adj src dst p q in
    let ends =
      bfs_loop-Ends adj dst (Inv adj src dst) (Inv-expand adj src dst) (max_classes + 1)
        (bfs_start src) b s (Inv-start adj src dst) e in
    let h = ends.holds in
    (
      b,
      s,
      e,
      λ t. h.sound dst (h.queued dst (ends.at_dst t)),
      λ f w.
          let empty = ends.empty f in
          absurd (subst (Has dst) empty (h.waits (complete adj src dst ends.last h empty w))),
    )

-- bfsFind returns true exactly if a chain of edges leads from one class to the other.
pub bfs_found_iff :
    (adj : Adjacency) (src dst : ℕ)
    → 0 < src
    → src ≤ max_classes
    → (bfs_found adj src dst ≡ true → Walk adj src dst)
      × (Walk adj src dst → bfs_found adj src dst ≡ true)
unfolding bfs_found
bfs_found_iff adj src dst p q =
    let (b, s, e, sound, none') = bfs_find_decides adj src dst p q in
    (
      λ t. sound (let t' : b ≡ true = rw (bfs_found, e) at t in t'),
      λ w. elim (Bool-cases b) [
        | inl yes' ↦ rw (bfs_found, e) yes'
        | inr no' ↦ absurd (none' no' w)
      ],
    )
