-- ===== src/Slab/Tests.antt =====
-- Slabs and layouts at small inputs.
use bongos.Common.{◌≡◌, refl, true, some, List, [], ◌∷◌, arith}
use bongos.Slab.{Slab, SlabLayout, align_up32, carve, compute_layout}
use bongos.Common.Bits.{and_bits}
use bongos.Slab.Layout.{Lays, compute_layout_total}
use bongos.Slab.FreeList.{Frees, carve-Frees, indices_from, carve-Frees}
use bongos.Slab.Refine.{SlotOp, pops, pushes, run_slots, run_stack, is_free, run_slots-Frees}

abbrev three_slots : Slab
three_slots = record { obj_count = 3; free_count = 0; free_head = 9; bufctl = λ i. 7 }

abbrev calls : List SlotOp
calls = pops ∷ pops ∷ pushes 0 ∷ pops ∷ []

calls_allowed :
    run_stack (carve three_slots).obj_count calls (indices_from 3 0) ≡ some (0 ∷ 1 ∷ 0 ∷ [], 2 ∷ [])
unfolding carve run_stack is_free
calls_allowed = refl

run_slots-Frees_example :
    ((run_slots calls (carve three_slots)).0 ≡ 0 ∷ 1 ∷ 0 ∷ [])
    × Frees (run_slots calls (carve three_slots)).1 (2 ∷ [])
run_slots-Frees_example =
    run_slots-Frees calls (carve three_slots) (indices_from 3 0) (0 ∷ 1 ∷ 0 ∷ []) (2 ∷ [])
      (carve-Frees three_slots (omega arith)) calls_allowed

-- The mask rounds up for a power of two only.
aligns : align_up32 100 64 ≡ 128
unfolding align_up32 and_bits
aligns = refl

does_not_align : align_up32 1 3 ≡ 1
unfolding align_up32 and_bits
does_not_align = refl

compute_layout_total_example :
    (l : SlabLayout) × (compute_layout 1024 64 true ≡ some l) × Lays 1024 64 true l
compute_layout_total_example =
    compute_layout_total 1024 64 6 true (omega arith) refl (omega arith) (omega arith)

abbrev small_layout : SlabLayout
small_layout = record { order = 0; objs_per_slab = 63; stride = 64; obj_offset = 192; rz_left = 0 }
