-- ===== src/Time/Timers/Tests.antt =====
-- The timer heap with three timers.
use bongos.Common.{ℕ, ◌≡◌, refl, Option, some, arith, ◌==◌, if◌then◌else◌}
use bongos.Time.Timers.{
  TimerObj, TimerHeap, idle, armed, heap_init, heap_insert, inserted, heap_remove, heap_pop,
  heap_peek, sift_down, sift_down_from, heap_place,
}
use bongos.Time.Timers.Sift.{IsHeap, Holds}
use bongos.Time.Timers.Remove.{Removes, heap_remove-Removes}
use bongos.Time.Timers.Heap.{
  IsValid, key_in, Inserts, heap_insert-Inserts, Pops, heap_pop-Pops, heap_init-IsValid,
}

-- Timer 1 is due at 30 and timer 2, armed later, at 10; the others, due at 20, are idle.
abbrev memory : ℕ → TimerObj
memory x =
    if x == 1
    then record { deadline_ns = 30; seq = 0; fn = 4096; heap_index = 1; state = armed }
    else if x == 2
    then record { deadline_ns = 10; seq = 1; fn = 4096; heap_index = 0; state = armed }
    else record { deadline_ns = 20; seq = 0; fn = 4096; heap_index = 0; state = idle }

abbrev two_timers : TimerHeap
two_timers = record {
  slot = λ i. if i == 0 then 2 else if i == 1 then 1 else 0;
  count = 2;
  next_seq = 2;
  timers = memory;
}

two_timers-IsHeap : IsHeap (key_in two_timers) two_timers
two_timers-IsHeap = record {
  back = λ j q. ground arith;
  real = λ j q. ground arith;
  null = λ j q. ground arith;
  keys = λ x. refl;
  seqs = λ x. ground arith;
  edges = λ c pos q. let e : c ≡ 1 = omega (arith, pos, q) in rw e (omega arith);
}

two_timers-IsValid : IsValid two_timers
two_timers-IsValid = record { heap = two_timers-IsHeap; room = omega arith; next = omega arith }

three_absent : Holds two_timers 3 → ⊥
three_absent (j, q, e) = ground arith

abbrev popped : Option (ℕ × TimerHeap) → ℕ
popped mathlib.Core.Option.none = 0
popped (some (t, h)) = t

earliest : popped (heap_pop two_timers) ≡ 2
unfolding heap_pop heap_peek heap_remove heap_place sift_down sift_down_from
earliest = refl

heap_init-IsValid_example : IsValid (heap_init memory)
heap_init-IsValid_example = heap_init-IsValid memory (λ x. ground arith)

heap_insert-Inserts_example :
    (h' : TimerHeap) × (heap_insert two_timers 3 ≡ inserted (some h')) × Inserts two_timers 3 h'
heap_insert-Inserts_example =
    heap_insert-Inserts two_timers 3 two_timers-IsValid (omega arith) three_absent (omega arith)

heap_remove-Removes_example :
    (h' : TimerHeap) × (heap_remove two_timers 2 ≡ some h')
    × Removes (key_in two_timers) two_timers 2 h'
heap_remove-Removes_example =
    heap_remove-Removes (key_in two_timers) two_timers 2 two_timers-IsHeap (0, omega arith, refl)

heap_pop-Pops_example :
    (h' : TimerHeap) × (heap_pop two_timers ≡ some (2, h')) × Pops two_timers 2 h'
heap_pop-Pops_example = heap_pop-Pops two_timers two_timers-IsValid (omega arith)
