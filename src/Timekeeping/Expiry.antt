-- ===== src/Timekeeping/Expiry.antt =====
-- The timers that the interrupt handler collects.
use bongos.Common.{
  ℕ, zero, suc, ◌+◌, ◌*◌, ◌^◌, ◌≤◌, ◌<◌, ◌≡◌, ◌⊎◌, refl, sym, subst, ◌∙◌, ap, true, false, some,
  List, [], ◌∷◌, leb, ◌==◌, arith, inl, inr, Bool-cases, same_or_not, eq→==, ne→==, u64_mod,
}
use bongos.Time.Timers.{TimerObj, TimerHeap, TimerState, expired, heap_peek}
use bongos.Time.Timers.Hole.{key_of}
use bongos.Time.Timers.Sift.{IsHeap, Holds}
use bongos.Time.Timers.Remove.{Removes, heap_remove-Removes}
use bongos.Time.Timers.Heap.{IsValid, key_in, root_least_below, heap_peek-first, heap_peek-empty}
use bongos.Timekeeping.{set_state, collect, expire}

abbrev pub In : ℕ → List ℕ → Type 0
In x [] = ⊥
In x (y ∷ ys) = (x ≡ y) ⊎ In x ys

-- In the order of the keys.
abbrev pub IsSorted : (ℕ → ℕ) → List ℕ → Type 0
IsSorted key [] = Unit {0}
IsSorted key (x ∷ xs) = ((y : ℕ) → In y xs → key x ≤ key y) × IsSorted key xs

-- The keys of timers that are due.
abbrev pub due_below : ℕ → ℕ
due_below now = (now + 1) * 2 ^ 64

module _ (h : TimerHeap) (t : ℕ) (s : TimerState) (x : ℕ) where
  set_state-index : ((set_state h t s).timers x).heap_index ≡ (h.timers x).heap_index
  unfolding set_state
  set_state-index = elim (same_or_not x t) [
    | inl e ↦ let b = eq→== e in rw b (ap (λ y. (h.timers y).heap_index) (sym e))
    | inr n ↦ let b = ne→== n in rw b refl
  ]

  set_state-key : key_of ((set_state h t s).timers x) ≡ key_of (h.timers x)
  unfolding set_state
  set_state-key = elim (same_or_not x t) [
    | inl e ↦ let b = eq→== e in rw b (ap (λ y. key_of (h.timers y)) (sym e))
    | inr n ↦ let b = ne→== n in rw b refl
  ]

  set_state-seq : ((set_state h t s).timers x).seq ≡ (h.timers x).seq
  unfolding set_state
  set_state-seq = elim (same_or_not x t) [
    | inl e ↦ let b = eq→== e in rw b (ap (λ y. (h.timers y).seq) (sym e))
    | inr n ↦ let b = ne→== n in rw b refl
  ]

pub set_state-count : (h : TimerHeap) (t : ℕ) (s : TimerState) → (set_state h t s).count ≡ h.count
unfolding set_state
set_state-count h t s = refl

-- The state is not part of the order.
pub set_state-IsHeap :
    (key : ℕ → ℕ) (h : TimerHeap) (t : ℕ) (s : TimerState)
    → IsHeap key h
    → IsHeap key (set_state h t s)
unfolding set_state
set_state-IsHeap key h t s heap = record {
  back = λ j q. set_state-index h t s (h.slot j) ∙ heap.back j q;
  real = heap.real;
  null = heap.null;
  keys = λ x. set_state-key h t s x ∙ heap.keys x;
  seqs = λ x. omega (arith, set_state-seq h t s x, heap.seqs x);
  edges = heap.edges;
}

-- What the handler collects at the time `now`: the timers of the heap that are due, in order; the
-- others stay in the heap.
pub record Collects (key : ℕ → ℕ) (now : ℕ) (h : TimerHeap) (due : List ℕ) (h' : TimerHeap)
    : Type 0 where
  pub heap : IsHeap key h'
  pub members : (x : ℕ) → (Holds h x → In x due ⊎ Holds h' x) × (In x due ⊎ Holds h' x → Holds h x)
  pub are_due : (x : ℕ) → In x due → key x < due_below now
  pub rest : (x : ℕ) → Holds h' x → due_below now ≤ key x
  pub sorted : IsSorted key due

-- Nothing is due.
Collects-nothing :
    (key : ℕ → ℕ) (now : ℕ) (h : TimerHeap)
    → IsHeap key h
    → ((x : ℕ) → Holds h x → due_below now ≤ key x)
    → Collects key now h [] h
Collects-nothing key now h heap none_due = record {
  heap = heap;
  members = λ x. ((λ m. inr m), (λ m. elim m [ inl i ↦ absurd i | inr m' ↦ m' ]));
  are_due = λ x i. absurd i;
  rest = none_due;
  sorted = tt;
}

-- The earliest timer is due, and the others are collected from what is left.
Collects-first :
    (key : ℕ → ℕ) (now : ℕ) (h h1 : TimerHeap) (t : ℕ) (due : List ℕ) (h' : TimerHeap)
    → Holds h t
    → key t < due_below now
    → ((x : ℕ) → Holds h x → key t ≤ key x)
    → Removes key h t h1
    → Collects key now (set_state h1 t expired) due h'
    → Collects key now h (t ∷ due) h'
unfolding set_state
Collects-first key now h h1 t due h' held is_due least r c = record {
  heap = c.heap;
  members = λ x.
      let (to, from) = c.members x in
      let (old, new) = r.members x in
      (
        (λ m. elim (same_or_not x t) [
          | inl e ↦ inl (inl e)
          | inr n ↦ elim (to (new (m, n))) [ inl i ↦ inl (inr i) | inr m' ↦ inr m' ]
        ]),
        (λ m. elim m [
          | inl i ↦ elim i [
            | inl e ↦ subst (Holds h) (sym e) held
            | inr i' ↦ (old (from (inl i'))).0
          ]
          | inr m' ↦ (old (from (inr m'))).0
        ]),
      );
  are_due = λ x i. elim i [
    | inl e ↦ subst (λ y. key y < due_below now) (sym e) is_due
    | inr i' ↦ c.are_due x i'
  ];
  rest = c.rest;
  sorted = ((λ y i. least y (((r.members y).0 ((c.members y).1 (inl i))).0)), c.sorted);
}

-- Whether a timer is due is read off its key.
due_key :
    (o : TimerObj) (now : ℕ)
    → o.seq < u64_mod
    → leb o.deadline_ns now ≡ true
    → key_of o < due_below now
due_key o now p e = ground arith

not_due_key : (o : TimerObj) (now : ℕ) → leb o.deadline_ns now ≡ false → due_below now ≤ key_of o
not_due_key o now e = ground arith

collect-Collects :
    (fuel now : ℕ) (key : ℕ → ℕ) (h : TimerHeap)
    → h.count < fuel
    → IsHeap key h
    → (due : List ℕ) × (h' : TimerHeap) × (collect fuel now h ≡ some (due, h'))
      × Collects key now h due h'
unfolding collect
collect-Collects zero now key h enough heap = absurd (omega arith)
collect-Collects (suc fuel) now key h enough heap = elim (Bool-cases (h.count == 0)) [
  | inl empty ↦
      let none_held : h.count ≡ 0 = ground arith in
      let peek = heap_peek-empty h none_held in
      (
        [],
        h,
        rw (collect, peek) refl,
        Collects-nothing key now h heap (λ x (j, q, e). absurd (omega (arith, q, none_held))),
      )
  | inr some' ↦
      let pos : 0 < h.count = ground arith in
      let t = heap_peek h in
      let peek : h.slot 0 ≡ t = sym (heap_peek-first h pos) in
      let held : Holds h t = (0, pos, peek) in
      let real : (t == 0) ≡ false = ne→== (λ e. heap.real 0 pos (peek ∙ e)) in
      let least : (x : ℕ) → Holds h x → key t ≤ key x = λ x (j, q, e).
        subst (λ y. key y ≤ key x) peek
          (subst (λ y. key (h.slot 0) ≤ key y) e
            (root_least_below key h (suc j) j heap (omega arith) q)) in
      elim (Bool-cases (leb (h.timers t).deadline_ns now)) [
        | inr later ↦
            let late = not_due_key (h.timers t) now later in
            (
              [],
              h,
              rw (collect, real, later) refl,
              Collects-nothing key now h heap (λ x m. omega (arith, late, heap.keys t, least x m)),
            )
        | inl is_due ↦
            let (h1, e, r) = heap_remove-Removes key h t heap held in
            let (due, h', e', c) =
              collect-Collects fuel now key (set_state h1 t expired)
                (omega (arith, set_state-count h1 t expired, r.count))
                (set_state-IsHeap key h1 t expired r.heap) in
            let early = due_key (h.timers t) now (heap.seqs t) is_due in
            (
              t ∷ due,
              h',
              rw (collect, real, is_due, e, e') refl,
              Collects-first key now h h1 t due h' held (omega (arith, early, heap.keys t)) least r
                  c,
            )
      ]
]

-- The handler's first loop ends: it takes off a valid heap exactly the timers that are due, in the
-- order of their deadlines and, where these are equal, of arming, and leaves a heap of the others.
pub expire-Collects :
    (now : ℕ) (h : TimerHeap)
    → IsValid h
    → (due : List ℕ) × (h' : TimerHeap) × (expire now h ≡ some (due, h'))
      × Collects (key_in h) now h due h'
unfolding expire
expire-Collects now h v = collect-Collects (h.count + 1) now (key_in h) h (omega arith) v.heap
