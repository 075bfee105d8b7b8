-- ===== src/Timekeeping/Tests.antt =====
-- The queue with two timers.
use bongos.Common.{ℕ, ◌≡◌, refl, some, List, arith, inl, true, false, ◌==◌, if◌then◌else◌}
use bongos.Time.Timers.{TimerObj, TimerHeap, idle, armed}
use bongos.Time.Timers.Sift.{IsHeap}
use bongos.Time.Timers.Heap.{IsValid, key_in}
use bongos.Timekeeping.{TimerCpu, TimerCommand, ok, timer_arm, expire}
use bongos.Timekeeping.Arm.{Arms, timer_arm-Arms}
use bongos.Timekeeping.Expiry.{Collects, expire-Collects}

-- Timer 1 is due at 30 and timer 2 at 10.
abbrev memory : ℕ → TimerObj
memory x =
    if x == 1
    then record { deadline_ns = 30; seq = 0; fn = 4096; heap_index = 1; state = armed }
    else if x == 2
    then record { deadline_ns = 10; seq = 1; fn = 4096; heap_index = 0; state = armed }
    else record { deadline_ns = 20; seq = 0; fn = 4096; heap_index = 0; state = idle }

abbrev queue : TimerHeap
queue = record {
  slot = λ i. if i == 0 then 2 else if i == 1 then 1 else 0;
  count = 2;
  next_seq = 2;
  timers = memory;
}

queue-IsHeap : IsHeap (key_in queue) queue
queue-IsHeap = record {
  back = λ j q. ground arith;
  real = λ j q. ground arith;
  null = λ j q. ground arith;
  keys = λ x. refl;
  seqs = λ x. ground arith;
  edges = λ c pos q. let e : c ≡ 1 = omega (arith, pos, q) in rw e (omega arith);
}

queue-IsValid : IsValid queue
queue-IsValid = record { heap = queue-IsHeap; room = omega arith; next = omega arith }

expire-Collects_example :
    (due : List ℕ) × (h' : TimerHeap) × (expire 25 queue ≡ some (due, h'))
    × Collects (key_in queue) 25 queue due h'
expire-Collects_example = expire-Collects 25 queue queue-IsValid

abbrev cpu : TimerCpu
cpu = record { heap = queue; expiring = false }

timer_arm-Arms_example :
    (cpu' : TimerCpu) × (command : TimerCommand) × (timer_arm true cpu 5 1 8 ≡ ok cpu' command)
    × Arms queue 1 8 cpu'.heap
timer_arm-Arms_example =
    timer_arm-Arms cpu 5 1 8 queue-IsValid (omega arith) (omega arith)
      (inl (refl, (1, omega arith, refl)))
