-- ===== src/Timekeeping/Cancel.antt =====
-- timerCancel takes an armed timer out of the queue and stops a timer that waits for its callback.
use bongos.Common.{ℕ, ◌≡◌, ◌≢◌, refl, ◌==◌, if◌then◌else◌, ne→==}
use bongos.Time.Timers.{armed, expired, idle, heap_peek}
use bongos.Time.Timers.Sift.{Holds}
use bongos.Time.Timers.Remove.{heap_remove-Removes}
use bongos.Time.Timers.Heap.{IsValid, key_in}
use bongos.Timekeeping.{TimerCpu, TimerCommand, ok, keeps, reprogram, set_state, timer_cancel}
use bongos.Timekeeping.Arm.{set_state-IsValid}

-- timerCancel of an armed timer in a valid queue succeeds: the queue stays valid and holds just the
-- other timers.
timer_cancel-armed :
    (cpu : TimerCpu) (now t : ℕ)
    → IsValid cpu.heap
    → t ≢ 0
    → (cpu.heap.timers t).state ≡ armed
    → Holds cpu.heap t
    → (cpu' : TimerCpu) × (command : TimerCommand) × (timer_cancel cpu now t ≡ ok cpu' command)
      × IsValid cpu'.heap
      × ((x : ℕ)
          → (Holds cpu'.heap x → Holds cpu.heap x × (x ≢ t))
            × (Holds cpu.heap x × (x ≢ t) → Holds cpu'.heap x))
unfolding timer_cancel set_state
timer_cancel-armed cpu now t v real is held =
    let h = cpu.heap in
    let real' = ne→== real in
    let (h1, e, r) = heap_remove-Removes (key_in h) h t v.heap held in
    let cpu' = record cpu { heap = set_state h1 t idle } in
    (
      cpu',
      (if heap_peek h == t then reprogram cpu' now else keeps),
      rw (timer_cancel, real', is, e) refl,
      set_state-IsValid h t h1 v r,
      r.members,
    )

-- A timer that waits for its callback is only marked, and the interrupt timer is left alone.
timer_cancel-expired :
    (cpu : TimerCpu) (now t : ℕ)
    → t ≢ 0
    → (cpu.heap.timers t).state ≡ expired
    → timer_cancel cpu now t ≡ ok (record cpu { heap = set_state cpu.heap t idle }) keeps
unfolding timer_cancel
timer_cancel-expired cpu now t real is = let real' = ne→== real in rw (timer_cancel, real', is) refl
