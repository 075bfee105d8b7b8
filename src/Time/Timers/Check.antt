-- ===== src/Time/Timers/Check.antt =====
-- timerHeapCheck on heaps in order.
use bongos.Common.{
  ℕ, zero, suc, ◌+◌, ◌-◌, ◌≤◌, ◌<◌, ◌≡◌, refl, true, false, ◌||◌, ◌&&◌, not, ◌==◌, ltb, arith, inl,
  inr, Bool-cases,
}
use bongos.Time.Timers.{TimerHeap, before, parent, slots_ok, slots_null, heap_check, timer_heap_cap}
use bongos.Time.Timers.Hole.{before_lem}
use bongos.Time.Timers.Sift.{IsHeap}
use bongos.Time.Timers.Heap.{IsValid, key_in}

module _ (h : TimerHeap) (heap : IsHeap (key_in h) h) where
  slots_ok-IsHeap : (k i : ℕ) → i + k ≤ h.count → slots_ok h k i ≡ true
  unfolding slots_ok
  slots_ok-IsHeap zero i p = refl
  slots_ok-IsHeap (suc k) i p =
      let t = h.slot i in
      let up = h.slot (parent i) in
      let q : i < h.count = omega arith in
      let real = heap.real i q in
      let index = heap.back i q in
      let known : (t == 0 || not ((h.timers t).heap_index == i)) ≡ false = ground arith in
      let compare = before_lem (h.timers t) (h.timers up) (heap.seqs t) (heap.seqs up) in
      let edge = heap.edges i in
      let ordered : (ltb 0 i && before (h.timers t) (h.timers up)) ≡ false =
        elim (Bool-cases (ltb 0 i)) [
          | inr root ↦ rw root refl
          | inl deep ↦ rw (deep, compare) (let e = edge (ground arith) q in ground arith)
        ] in
      rw (slots_ok, known, ordered) (slots_ok-IsHeap k (i + 1) (omega arith))

  slots_null-IsHeap : (k i : ℕ) → h.count ≤ i → slots_null h k i ≡ true
  unfolding slots_null
  slots_null-IsHeap zero i p = refl
  slots_null-IsHeap (suc k) i p =
      let z = heap.null i p in
      let free : (h.slot i == 0) ≡ true = ground arith in
      rw (slots_null, free) (slots_null-IsHeap k (i + 1) (omega arith))

-- timerHeapCheck passes every valid heap.
pub heap_check-IsValid : (h : TimerHeap) → IsValid h → heap_check h ≡ true
unfolding heap_check
heap_check-IsValid h v =
    let room : ltb timer_heap_cap h.count ≡ false = let r = v.room in ground arith in
    rw
      (
        heap_check,
        room,
        slots_ok-IsHeap h v.heap h.count 0 (omega arith),
        slots_null-IsHeap h v.heap (timer_heap_cap - h.count) h.count (omega arith),
      )
      refl
