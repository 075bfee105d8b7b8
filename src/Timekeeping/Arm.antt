-- ===== src/Timekeeping/Arm.antt =====
-- timerArm queues a timer for its new deadline, whether it was queued before or not.
use bongos.Common.{
  ℕ, ◌+◌, ◌-◌, ◌*◌, ◌/◌, ◌^◌, ◌<◌, ◌≡◌, ◌≢◌, ◌⊎◌, refl, sym, ◌∙◌, ap, Bool, true, false, ◌==◌,
  arith, inl, inr, same_or_not, eq→==, ne→==,
}
use bongos.Time.Timers.{TimerHeap, idle, timer_heap_cap, heap_peek}
use bongos.Time.Timers.Hole.{key_of}
use bongos.Time.Timers.Sift.{Holds}
use bongos.Time.Timers.Remove.{Removes, heap_remove-Removes}
use bongos.Time.Timers.Heap.{IsValid, key_in, own_key, heap_insert-Inserts}
use bongos.Timekeeping.{
  TimerCpu, TimerCommand, ok, arm_command, invalid, set_state, set_deadline, is_armed, arm_insert,
  timer_arm,
}
use bongos.Timekeeping.Expiry.{set_state-IsHeap, set_state-count}

module _ (h : TimerHeap) (t d : ℕ) where
  set_deadline-other : (x : ℕ) → x ≢ t → (set_deadline h t d).timers x ≡ h.timers x
  unfolding set_deadline
  set_deadline-other x n = let b = ne→== n in rw b refl

  set_deadline-own : ((set_deadline h t d).timers t).deadline_ns ≡ d
  unfolding set_deadline
  set_deadline-own = let b : (t == t) ≡ true = eq→== refl in rw b refl

  set_deadline-seq : (x : ℕ) → ((set_deadline h t d).timers x).seq ≡ (h.timers x).seq
  unfolding set_deadline
  set_deadline-seq x = elim (same_or_not x t) [
    | inl e ↦ let b = eq→== e in rw b (ap (λ y. (h.timers y).seq) (sym e))
    | inr n ↦ let b = ne→== n in rw b refl
  ]

  -- The deadline of a timer that is not in the heap is not part of its order.
  set_deadline-IsValid : IsValid h → (Holds h t → ⊥) → IsValid (set_deadline h t d)
  unfolding set_deadline
  set_deadline-IsValid v absent =
      let other : (j : ℕ)
          → j < h.count
          → (set_deadline h t d).timers (h.slot j) ≡ h.timers (h.slot j) =
        λ j q. set_deadline-other (h.slot j) (λ e. absent (j, q, e)) in
      record {
        heap = record {
          back = λ j q. ap (λ o. o.heap_index) (other j q) ∙ v.heap.back j q;
          real = v.heap.real;
          null = v.heap.null;
          keys = λ x. refl;
          seqs = λ x. omega (arith, set_deadline-seq x, v.heap.seqs x);
          edges = λ c pos q. omega (
            arith,
            ap key_of (other c q),
            ap key_of (other ((c - 1) / 2) (omega (arith, pos, q))),
            v.heap.edges c pos q,
          );
        };
        room = v.room;
        next = v.next;
      }

-- The queue `h'` holds the timers of `h` and `t`, which has the deadline `d` and comes after all
-- timers armed before it with the same one.
pub record Arms (h : TimerHeap) (t d : ℕ) (h' : TimerHeap) : Type 0 where
  pub valid : IsValid h'
  pub members : (x : ℕ) → (Holds h' x → (x ≡ t) ⊎ Holds h x) × ((x ≡ t) ⊎ Holds h x → Holds h' x)
  pub own : key_in h' t ≡ d * 2 ^ 64 + h.next_seq

arm_insert-Arms :
    (cpu : TimerCpu) (now old_root t d : ℕ)
    → IsValid cpu.heap
    → t ≢ 0
    → (Holds cpu.heap t → ⊥)
    → cpu.heap.count < timer_heap_cap
    → (cpu' : TimerCpu) × (command : TimerCommand) × (arm_insert cpu now old_root t d
        ≡ ok cpu' command)
      × Arms cpu.heap t d cpu'.heap
unfolding arm_insert set_deadline
arm_insert-Arms cpu now old_root t d v real absent room =
    let h = cpu.heap in
    let (h', e, i) =
      heap_insert-Inserts (set_deadline h t d) t (set_deadline-IsValid h t d v absent) real absent
        room in
    let own = set_deadline-own h t d in
    (
      record cpu { heap = h' },
      arm_command (record cpu { heap = h' }) now old_root t,
      rw (arm_insert, e) refl,
      record { valid = i.valid; members = i.members; own = omega (arith, i.own, own) },
    )

pub set_state-IsValid :
    (h : TimerHeap) (t : ℕ) (h1 : TimerHeap)
    → IsValid h
    → Removes (key_in h) h t h1
    → IsValid (set_state h1 t idle)
unfolding set_state
set_state-IsValid h t h1 v r = record {
  heap = own_key (key_in h) (set_state h1 t idle) (set_state-IsHeap (key_in h) h1 t idle r.heap);
  room = omega (arith, r.count, v.room);
  next = omega (arith, r.next_seq, v.next);
}

gone : (h h1 : TimerHeap) (t : ℕ) → Removes (key_in h) h t h1 → Holds (set_state h1 t idle) t → ⊥
unfolding set_state
gone h h1 t r m = ((r.members t).0 m).1 refl

-- The queue without the timer, armed again.
Arms-again :
    (h h1 : TimerHeap) (t d : ℕ) (h' : TimerHeap)
    → Holds h t
    → Removes (key_in h) h t h1
    → Arms (set_state h1 t idle) t d h'
    → Arms h t d h'
unfolding set_state
Arms-again h h1 t d h' held r a = record {
  valid = a.valid;
  members = λ x.
      let (to, from) = a.members x in
      let (old, new) = r.members x in
      (
        (λ m. elim (to m) [ inl e ↦ inl e | inr m' ↦ inr (old m').0 ]),
        (λ m. elim m [
          | inl e ↦ from (inl e)
          | inr m' ↦ elim (same_or_not x t) [
            | inl e ↦ from (inl e)
            | inr n ↦ from (inr (new (m', n)))
          ]
        ]),
      );
  own = omega (arith, a.own, r.next_seq);
}

-- Once timers are ready, timerArm of a timer with a callback in a valid queue is not refused if the
-- timer is armed and queued, nor if it is neither and the queue has room: the queue stays valid and
-- holds the timer with the new deadline and the next sequence number, beside the timers it held.
pub timer_arm-Arms :
    (cpu : TimerCpu) (now t d : ℕ)
    → IsValid cpu.heap
    → t ≢ 0
    → (cpu.heap.timers t).fn ≢ 0
    → (is_armed (cpu.heap.timers t).state ≡ true) × Holds cpu.heap t
      ⊎ (is_armed (cpu.heap.timers t).state ≡ false)
        × (Holds cpu.heap t → ⊥)
        × (cpu.heap.count < timer_heap_cap)
    → (cpu' : TimerCpu) × (command : TimerCommand) × (timer_arm true cpu now t d ≡ ok cpu' command)
      × Arms cpu.heap t d cpu'.heap
unfolding timer_arm
timer_arm-Arms cpu now t d v real callback (inr (idle', absent, room)) =
    let real' = ne→== real in
    let callback' = ne→== callback in
    let (cpu', command, e, a) =
      arm_insert-Arms cpu now (heap_peek cpu.heap) t d v real absent room in
    (cpu', command, rw (timer_arm, real', callback', idle') e, a)
timer_arm-Arms cpu now t d v real callback (inl (armed', held)) =
    let h = cpu.heap in
    let real' = ne→== real in
    let callback' = ne→== callback in
    let (h1, e, r) = heap_remove-Removes (key_in h) h t v.heap held in
    let absent : Holds (set_state h1 t idle) t → ⊥ = gone h h1 t r in
    let (cpu', command, e', a) =
      arm_insert-Arms (record cpu { heap = set_state h1 t idle }) now (heap_peek h) t d
        (set_state-IsValid h t h1 v r) real absent
        (omega (arith, r.count, v.room, set_state-count h1 t idle)) in
    (
      cpu',
      command,
      rw (timer_arm, real', callback', armed', e) e',
      Arms-again h h1 t d cpu'.heap held r a,
    )

-- Before timers are ready, or for a timer without a callback, timerArm is refused.
timer_arm-invalid :
    (timers_ready : Bool) (cpu : TimerCpu) (now t d : ℕ)
    → (timers_ready ≡ false) ⊎ ((cpu.heap.timers t).fn ≡ 0)
    → timer_arm timers_ready cpu now t d ≡ invalid
unfolding timer_arm
timer_arm-invalid timers_ready cpu now t d h = ground arith
