-- ===== src/Timekeeping.antt =====
-- kernel/core/timekeeping.c: the timer queue of a CPU, on the heap of Time.Timers. The monotonic
-- time and `timersReady` are arguments, and a command is what the interrupt timer is told. The run
-- of the callbacks, the clock setup and the masking of interrupts are left out.
pub mod Expiry
pub mod Arm
pub mod Cancel
mod Tests
use bongos.Common.{
  ℕ, zero, suc, ◌+◌, ◌-◌, ◌*◌, ◌^◌, Bool, true, false, not, ◌||◌, Option, none, some, List, [], ◌∷◌,
  ltb, leb, ◌==◌, if◌then◌else◌, put,
}
use bongos.Time.Timers.{
  TimerObj, TimerHeap, TimerState, idle, armed, expired, InsertResult, inserted, err_no_memory,
  heap_peek, heap_remove, heap_insert,
}

abbrev pub timer_max_delta_ns : ℕ
timer_max_delta_ns = 2 ^ 40

pub record TimerCpu : Type 0 where
  pub heap : TimerHeap
  pub expiring : Bool

pub data TimerCommand : Type 0 where
  keeps stops : TimerCommand
  fires_in : ℕ → TimerCommand

pub reprogram : TimerCpu → ℕ → TimerCommand
reprogram cpu now =
    let root = heap_peek cpu.heap in
    let deadline = (cpu.heap.timers root).deadline_ns in
    let delta = if leb deadline now then 0 else deadline - now in
    if cpu.expiring
    then keeps
    else if root == 0
    then stops
    else fires_in (if ltb timer_max_delta_ns delta then timer_max_delta_ns else delta)

pub set_state : TimerHeap → ℕ → TimerState → TimerHeap
set_state h t s = record h { timers = put h.timers t (record (h.timers t) { state = s }) }

pub set_deadline : TimerHeap → ℕ → ℕ → TimerHeap
set_deadline h t d = record h { timers = put h.timers t (record (h.timers t) { deadline_ns = d }) }

abbrev pub is_armed : TimerState → Bool
is_armed idle = false
is_armed armed = true
is_armed expired = false

-- Of the handler: the loop that takes all due timers off the heap, in the order of its FIFO; `none`
-- is out of fuel.
pub collect : ℕ → ℕ → TimerHeap → Option (List ℕ × TimerHeap)
collect zero now h = none
collect (suc fuel) now h =
    let t = heap_peek h in
    if t == 0 || not (leb (h.timers t).deadline_ns now)
    then some ([], h)
    else elim (heap_remove h t) [
      | none ↦ none
      | some h1 ↦ elim (collect fuel now (set_state h1 t expired)) [
        | none ↦ none
        | some (due, h') ↦ some (t ∷ due, h')
      ]
    ]

pub expire : ℕ → TimerHeap → Option (List ℕ × TimerHeap)
expire now h = collect (h.count + 1) now h

-- The status of a call, with the CPU's queue and the command after it.
pub data TimerResult : Type 0 where
  ok : TimerCpu → TimerCommand → TimerResult
  refused : TimerCpu → TimerResult
  invalid not_found out_of_fuel : TimerResult

-- A new root, or the old one with a new deadline, changes what the interrupt timer waits for.
pub arm_command : TimerCpu → ℕ → ℕ → ℕ → TimerCommand
arm_command cpu now old_root t =
    if not (heap_peek cpu.heap == old_root) || old_root == t then reprogram cpu now else keeps

-- The insertion of timerArm and the lines behind it.
pub arm_insert : TimerCpu → ℕ → ℕ → ℕ → ℕ → TimerResult
arm_insert cpu now old_root t deadline =
    let old_deadline = (cpu.heap.timers t).deadline_ns in
    elim (heap_insert (set_deadline cpu.heap t deadline) t) [
      | err_no_memory ↦
          refused
            (record cpu { heap = set_deadline (set_deadline cpu.heap t deadline) t old_deadline })
      | inserted o ↦ elim o [
        | none ↦ out_of_fuel
        | some h ↦ let cpu' = record cpu { heap = h } in ok cpu' (arm_command cpu' now old_root t)
      ]
    ]

-- `timers_ready` is the flag that timeInit sets last.
pub timer_arm : Bool → TimerCpu → ℕ → ℕ → ℕ → TimerResult
timer_arm timers_ready cpu now t deadline =
    let old_root = heap_peek cpu.heap in
    if t == 0 || (cpu.heap.timers t).fn == 0 || not timers_ready
    then invalid
    else if is_armed (cpu.heap.timers t).state
    then elim (heap_remove cpu.heap t) [
      | none ↦ out_of_fuel
      | some h ↦ arm_insert (record cpu { heap = set_state h t idle }) now old_root t deadline
    ]
    else arm_insert cpu now old_root t deadline

pub timer_cancel : TimerCpu → ℕ → ℕ → TimerResult
timer_cancel cpu now t =
    let was_root = heap_peek cpu.heap == t in
    if t == 0 then invalid else elim (cpu.heap.timers t).state [
      | armed ↦ elim (heap_remove cpu.heap t) [
        | none ↦ out_of_fuel
        | some h ↦
            let cpu' = record cpu { heap = set_state h t idle } in
            ok cpu' (if was_root then reprogram cpu' now else keeps)
      ]
      | expired ↦ ok (record cpu { heap = set_state cpu.heap t idle }) keeps
      | idle ↦ not_found
    ]
