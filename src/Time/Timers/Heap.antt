-- ===== src/Time/Timers/Heap.antt =====
-- timerHeapInit, timerHeapInsert, timerHeapPeek and timerHeapPop: a queue of timers by deadline,
-- then by the order of arming.
use bongos.Common.{
  ℕ, zero, suc, ◌+◌, ◌*◌, ◌^◌, ◌≤◌, ◌<◌, ◌≡◌, ◌≢◌, ◌⊎◌, refl, subst, ◌∙◌, ap, true, false, ◌==◌,
  put, some, arith, inl, inr, Bool-cases, leb, add64, u64_mod,
}
use bongos.Time.Timers.{
  TimerObj, TimerHeap, armed, parent, timer_heap_cap, heap_init, heap_insert, inserted, heap_peek,
  heap_pop,
}
use bongos.Time.Timers.Hole.{key_of, Places}
use bongos.Time.Timers.Sift.{IsHeap, Bridges, Below, Holds}
use bongos.Time.Timers.Place.{place_sift_up}
use bongos.Time.Timers.Remove.{Removes, heap_remove-Removes}

abbrev pub key_in : TimerHeap → ℕ → ℕ
key_in h x = key_of (h.timers x)

-- A valid heap: in order, within its capacity, all sequence numbers of 64 bits.
pub record IsValid (h : TimerHeap) : Type 0 where
  pub heap : IsHeap (key_in h) h
  pub room : h.count ≤ timer_heap_cap
  pub next : h.next_seq < u64_mod

-- A heap stays one when the order is read from its own memory.
pub own_key : (key : ℕ → ℕ) (h : TimerHeap) → IsHeap key h → IsHeap (key_in h) h
own_key key h heap = record {
  back = heap.back;
  real = heap.real;
  null = heap.null;
  keys = λ x. refl;
  seqs = heap.seqs;
  edges = λ c pos q.
      omega (arith, heap.keys (h.slot c), heap.keys (h.slot (parent c)), heap.edges c pos q);
}

-- `h'` holds the timers of `h` and `t`, armed with the next sequence number.
pub record Inserts (h : TimerHeap) (t : ℕ) (h' : TimerHeap) : Type 0 where
  pub valid : IsValid h'
  pub count : h'.count ≡ h.count + 1
  pub next_seq : h'.next_seq ≡ add64 h.next_seq 1
  pub members : (x : ℕ) → (Holds h' x → (x ≡ t) ⊎ Holds h x) × ((x ≡ t) ⊎ Holds h x → Holds h' x)
  pub own : key_in h' t ≡ (h.timers t).deadline_ns * 2 ^ 64 + h.next_seq
  pub others : (x : ℕ) → x ≢ t → key_in h' x ≡ key_in h x

module _ (h : TimerHeap) (t : ℕ) (v : IsValid h) (real : t ≢ 0) (idle : Holds h t → ⊥)
    (room : h.count < timer_heap_cap) where
  abbrev obj : TimerObj
  obj = record (h.timers t) { seq = h.next_seq; state = armed }

  abbrev larger : TimerHeap
  larger = record h {
    next_seq = add64 h.next_seq 1;
    count = h.count + 1;
    timers = put h.timers t obj;
  }

  self : larger.timers t ≡ obj
  self = let e : (t == t) ≡ true = ground arith in rw e refl

  unchanged : (x : ℕ) → x ≢ t → larger.timers x ≡ h.timers x
  unchanged x n = let e : (x == t) ≡ false = ground arith in rw e refl

  not_there : (j : ℕ) → j < h.count → h.slot j ≢ t
  not_there j q e = idle (j, q, e)

  slot_key : (j : ℕ) → j < h.count → key_in larger (h.slot j) ≡ key_in h (h.slot j)
  slot_key j q = ap key_of (unchanged (h.slot j) (not_there j q))

  larger-seqs : (x : ℕ) → (larger.timers x).seq < u64_mod
  larger-seqs x = elim (Bool-cases (x == t)) [ inl e ↦ rw e v.next | inr e ↦ rw e (v.heap.seqs x) ]

  larger-Places : Places (key_in larger) larger h.count t
  larger-Places = record {
    inside = omega arith;
    back = λ j q n.
        let q' : j < h.count = omega (arith, q, n) in
        ap (λ o. o.heap_index) (unchanged (h.slot j) (not_there j q')) ∙ v.heap.back j q';
    other = λ j q n. not_there j (omega (arith, q, n));
    real = λ j q n. v.heap.real j (omega (arith, q, n));
    null = λ j q. v.heap.null j (omega (arith, q));
    keys = λ x. refl;
    seqs = larger-seqs;
  }

  larger-Bridges : Bridges (key_in larger) larger h.count
  larger-Bridges = record {
    edges = λ c pos q n n'.
        let q' : c < h.count = omega (arith, q, n) in
        rw (slot_key c q', slot_key (parent c) (omega (arith, q', pos))) (v.heap.edges c pos q');
    bridged = λ c pos q par _. absurd (omega (arith, q, par, pos));
  }

  -- A timer that is not in the heap is added, if there is room.
  pub heap_insert-Inserts :
      (h' : TimerHeap) × (heap_insert h t ≡ inserted (some h')) × Inserts h t h'
  unfolding heap_insert
  heap_insert-Inserts =
      let below : Below (key_in larger) larger h.count t =
        λ c pos q par. absurd (omega (arith, q, par, pos)) in
      let (h', e, s) =
        place_sift_up (key_in larger) larger h.count t real larger-Places larger-Bridges below in
      let free : leb timer_heap_cap h.count ≡ false = ground arith in
      (
        h',
        rw (heap_insert, free, e) refl,
        record {
          valid = record {
            heap = own_key (key_in larger) h' s.heap;
            room = omega (arith, s.count, room);
            next = omega (arith, s.next_seq);
          };
          count = s.count;
          next_seq = s.next_seq;
          members = λ x.
              let (in_heap, holds) = s.members x in
              (
                λ y. elim (in_heap y) [
                  | inl same ↦ inl same
                  | inr (j, q, n, e') ↦ inr (j, omega (arith, q, n), e')
                ],
                λ y. elim y [
                  | inl same ↦ holds (inl same)
                  | inr (j, q, e') ↦ holds (inr (j, omega (arith, q), omega (arith, q), e'))
                ],
              );
          own = s.heap.keys t ∙ ap key_of self;
          others = λ x n. s.heap.keys x ∙ ap key_of (unchanged x n);
        },
      )

-- No timer in a heap comes before its first one.
pub root_least_below :
    (key : ℕ → ℕ) (h : TimerHeap) (k i : ℕ)
    → IsHeap key h
    → i < k
    → i < h.count
    → key (h.slot 0) ≤ key (h.slot i)
root_least_below key h zero i heap f q = absurd (omega arith)
root_least_below key h (suc k) i heap f q = elim (Bool-cases (i == 0)) [
  | inl e ↦ ground arith
  | inr e ↦
      let pos : 0 < i = ground arith in
      omega (
        arith,
        heap.edges i pos q,
        root_least_below key h k (parent i) heap (omega (arith, pos)) (omega (arith, pos, q)),
      )
]

-- What a pop gives: a timer of the heap that none comes before, and a heap of the others.
pub record Pops (h : TimerHeap) (t : ℕ) (h' : TimerHeap) : Type 0 where
  pub was_held : Holds h t
  pub least : (x : ℕ) → Holds h x → key_in h t ≤ key_in h x
  pub rest : Removes (key_in h) h t h'

pub heap_peek-empty : (h : TimerHeap) → h.count ≡ 0 → heap_peek h ≡ 0
unfolding heap_peek
heap_peek-empty h e = ground arith

pub heap_peek-first : (h : TimerHeap) → 0 < h.count → heap_peek h ≡ h.slot 0
unfolding heap_peek
heap_peek-first h some_timer = ground arith

-- timerHeapPop of a heap that is not empty returns its earliest timer, by arming order where the
-- deadlines are equal, and leaves exactly the others.
pub heap_pop-Pops :
    (h : TimerHeap)
    → IsValid h
    → 0 < h.count
    → (h' : TimerHeap) × (heap_pop h ≡ some (h.slot 0, h')) × Pops h (h.slot 0) h'
unfolding heap_pop
heap_pop-Pops h v some_timer =
    let t = h.slot 0 in
    let held : Holds h t = (0, some_timer, refl) in
    let (h', e, r) = heap_remove-Removes (key_in h) h t v.heap held in
    let nonnull : (t == 0) ≡ false = let n = v.heap.real 0 some_timer in ground arith in
    (
      h',
      rw (heap_pop, heap_peek-first h some_timer, nonnull, e)
          (ap (λ u. some (u, h')) (heap_peek-first h some_timer)),
      record {
        was_held = held;
        least = λ x (j, q, same).
            subst (λ y. key_in h t ≤ key_in h y) same
              (root_least_below (key_in h) h (suc j) j v.heap (omega arith) q);
        rest = r;
      },
    )

pub heap_init-IsValid :
    (timers : ℕ → TimerObj) → ((x : ℕ) → (timers x).seq < u64_mod) → IsValid (heap_init timers)
unfolding heap_init
heap_init-IsValid timers seqs = record {
  heap = record {
    back = λ j q. absurd (omega (arith, q));
    real = λ j q. absurd (omega (arith, q));
    null = λ j q. refl;
    keys = λ x. refl;
    seqs = seqs;
    edges = λ c pos q. absurd (omega (arith, q));
  };
  room = omega arith;
  next = omega arith;
}
