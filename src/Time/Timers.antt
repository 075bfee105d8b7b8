-- ===== src/Time/Timers.antt =====
-- The timer heap of kernel/core/time-core.c. A timer is an address, 0 is NULL, and `timers` is the
-- memory that holds the objects, since the heap writes each timer's index into it.
pub mod Hole
pub mod Sift
pub mod Moves
pub mod Loops
pub mod Place
pub mod Remove
pub mod Heap
pub mod Check
mod Tests
use bongos.Common.{
  ℕ, zero, suc, ◌+◌, ◌-◌, ◌*◌, ◌/◌, ◌%◌, Bool, true, false, not, ◌&&◌, ◌||◌, Option, none, some,
  ltb, leb, ◌==◌, if◌then◌else◌, add64, put,
}

abbrev pub timer_heap_cap : ℕ
timer_heap_cap = 256

pub data TimerState : Type 0 where
  idle armed expired : TimerState

-- The callback, its argument and the link of the expiry pass are left out: the heap never uses them.
pub record TimerObj : Type 0 where
  pub deadline_ns : ℕ
  pub seq : ℕ
  pub fn : ℕ
  pub heap_index : ℕ
  pub state : TimerState

pub record TimerHeap : Type 0 where
  pub slot : ℕ → ℕ
  pub count : ℕ
  pub next_seq : ℕ
  pub timers : ℕ → TimerObj

pub before : TimerObj → TimerObj → Bool
before a b = ltb a.deadline_ns b.deadline_ns || a.deadline_ns == b.deadline_ns && ltb a.seq b.seq

pub heap_place : TimerHeap → ℕ → ℕ → TimerHeap
heap_place h i t = record h {
  slot = put h.slot i t;
  timers = put h.timers t (record (h.timers t) { heap_index = i });
}

abbrev pub parent : ℕ → ℕ
parent i = (i - 1) / 2

-- The loop of siftUp and the write behind it; `none` is out of fuel.
pub sift_up_from : ℕ → ℕ → TimerHeap → ℕ → Option TimerHeap
sift_up_from zero t h i = none
sift_up_from (suc fuel) t h i =
    let up = h.slot (parent i) in
    let rest = sift_up_from fuel t (heap_place h i up) (parent i) in
    if i == 0
    then some (heap_place h i t)
    else if not (before (h.timers t) (h.timers up))
    then some (heap_place h i t)
    else rest

pub sift_up : TimerHeap → ℕ → Option TimerHeap
sift_up h i = sift_up_from (i + 1) (h.slot i) h i

pub smaller_child : TimerHeap → ℕ → ℕ
smaller_child h i =
    let child = 2 * i + 1 in
    if ltb (child + 1) h.count && before (h.timers (h.slot (child + 1))) (h.timers (h.slot child))
    then child + 1
    else child

-- The loop of siftDown and the write behind it.
pub sift_down_from : ℕ → ℕ → TimerHeap → ℕ → Option TimerHeap
sift_down_from zero t h i = none
sift_down_from (suc fuel) t h i =
    let child = smaller_child h i in
    let rest = sift_down_from fuel t (heap_place h i (h.slot child)) child in
    if leb h.count (2 * i + 1)
    then some (heap_place h i t)
    else if not (before (h.timers (h.slot child)) (h.timers t))
    then some (heap_place h i t)
    else rest

pub sift_down : TimerHeap → ℕ → Option TimerHeap
sift_down h i = sift_down_from (h.count + 1) (h.slot i) h i

-- `timers` is the memory as it was.
pub heap_init : (ℕ → TimerObj) → TimerHeap
heap_init timers = record { slot = λ i. 0; count = 0; next_seq = 0; timers = timers }

pub data InsertResult : Type 0 where
  inserted : Option TimerHeap → InsertResult
  err_no_memory : InsertResult

pub heap_insert : TimerHeap → ℕ → InsertResult
heap_insert h t =
    if leb timer_heap_cap h.count
    then err_no_memory
    else let obj = record (h.timers t) { seq = h.next_seq; state = armed } in
      let h' = record h {
        next_seq = add64 h.next_seq 1;
        count = h.count + 1;
        timers = put h.timers t obj;
      } in
      inserted (sift_up (heap_place h' h.count t) h.count)

pub heap_remove : TimerHeap → ℕ → Option TimerHeap
heap_remove h t =
    let i = (h.timers t).heap_index in
    let last = h.count - 1 in
    let moved = h.slot last in
    let h' = record h { count = last; slot = put h.slot last 0 } in
    let h'' = heap_place h' i moved in
    if i == last
    then some h'
    else if ltb 0 i && before (h''.timers moved) (h''.timers (h''.slot (parent i)))
    then sift_up h'' i
    else sift_down h'' i

pub heap_peek : TimerHeap → ℕ
heap_peek h = if h.count == 0 then 0 else h.slot 0

pub heap_pop : TimerHeap → Option (ℕ × TimerHeap)
heap_pop h =
    let t = heap_peek h in
    if t == 0 then some (0, h) else elim (heap_remove h t) [ none ↦ none | some h' ↦ some (t, h') ]

-- The two loops of timerHeapCheck.
pub slots_ok : TimerHeap → ℕ → ℕ → Bool
slots_ok h zero i = true
slots_ok h (suc k) i =
    let t = h.slot i in
    let rest = slots_ok h k (i + 1) in
    if t == 0 || not ((h.timers t).heap_index == i)
    then false
    else if ltb 0 i && before (h.timers t) (h.timers (h.slot (parent i)))
    then false
    else rest

pub slots_null : TimerHeap → ℕ → ℕ → Bool
slots_null h zero i = true
slots_null h (suc k) i = let rest = slots_null h k (i + 1) in if h.slot i == 0 then rest else false

pub heap_check : TimerHeap → Bool
heap_check h =
    if ltb timer_heap_cap h.count
    then false
    else slots_ok h h.count 0 && slots_null h (timer_heap_cap - h.count) h.count
