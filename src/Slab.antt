-- ===== src/Slab.antt =====
-- kernel/mm/slab-core.c: the layout of a slab and the free list in its bufctl array.
-- `bufctl` is a function of the index. The fields of Slab that this file of the kernel does not use
-- are left out.
pub mod Layout
pub mod Classes
pub mod FreeList
pub mod Refine
mod Tests
use bongos.Common.{
  ℕ, zero, suc, ◌+◌, ◌-◌, ◌*◌, ◌/◌, ◌%◌, ◌^◌, Bool, true, false, not, ◌&&◌, ◌||◌, Option, none,
  some, List, [], ◌∷◌, ltb, leb, ◌==◌, if◌then◌else◌, add32, sub32, not32, put,
}
use bongos.Common.Bits.{and_bits}

abbrev pub kmalloc_max_size : ℕ
kmalloc_max_size = 8192

abbrev pub slab_max_objects : ℕ
slab_max_objects = 1024

abbrev pub slab_max_order : ℕ
slab_max_order = 3

abbrev pub redzone_size : ℕ
redzone_size = 16

abbrev pub bufctl_end : ℕ
bufctl_end = 0xffff

abbrev pub bufctl_busy : ℕ
bufctl_busy = 0xfffe

-- `sizeof(Slab)`.
abbrev pub slab_header : ℕ
slab_header = 48

abbrev pub class_sizes : List ℕ
class_sizes = 16 ∷ 32 ∷ 64 ∷ 96 ∷ 128 ∷ 192 ∷ 256 ∷ 512 ∷ 1024 ∷ 2048 ∷ 4096 ∷ 8192 ∷ []

pub first_class : ℕ → ℕ → List ℕ → Option ℕ
first_class size i [] = none
first_class size i (c ∷ cs) =
    let rest = first_class size (i + 1) cs in if leb size c then some i else rest

-- `none` is UINT32_MAX.
pub class_index_for_size : ℕ → Option ℕ
class_index_for_size size =
    if size == 0 || ltb kmalloc_max_size size then none else first_class size 0 class_sizes

pub align_up32 : ℕ → ℕ → ℕ
align_up32 v a = and_bits 32 (add32 v (sub32 a 1)) (not32 (sub32 a 1))

pub min_obj_offset : ℕ → ℕ → ℕ → ℕ
min_obj_offset n rz_left align = align_up32 (add32 (add32 slab_header (n * 2)) rz_left) align

pub record SlabLayout : Type 0 where
  pub order : ℕ
  pub objs_per_slab : ℕ
  pub stride : ℕ
  pub obj_offset : ℕ
  pub rz_left : ℕ

-- The inner loop of slabComputeLayout: the greatest count up to `n` that fits.
pub fitting : ℕ → ℕ → ℕ → ℕ → ℕ → ℕ
fitting slab_bytes stride rz_left align zero = 0
fitting slab_bytes stride rz_left align (suc n) =
    let rest = fitting slab_bytes stride rz_left align n in
    if leb (min_obj_offset (suc n) rz_left align + suc n * stride) slab_bytes then suc n else rest

-- One order.
pub try_order : ℕ → ℕ → ℕ → ℕ → Option SlabLayout
try_order stride rz_left align order =
    let slab_bytes = 4096 * 2 ^ order in
    let fit = slab_bytes / stride in
    let n_max = if ltb slab_max_objects fit then slab_max_objects else fit in
    let n = fitting slab_bytes stride rz_left align n_max in
    if leb 1 n && (leb 4 n || order == slab_max_order)
    then some (record {
      order = order;
      objs_per_slab = n;
      stride = stride;
      obj_offset = min_obj_offset n rz_left align;
      rz_left = rz_left;
    })
    else none

-- `k` orders from `order` on; `none` leaves `*out` unset.
pub try_orders : ℕ → ℕ → ℕ → ℕ → ℕ → Option SlabLayout
try_orders stride rz_left align zero order = none
try_orders stride rz_left align (suc k) order =
    let rest = try_orders stride rz_left align k (order + 1) in
    elim (try_order stride rz_left align order) [ some l ↦ some l | none ↦ rest ]

pub rz_left_of : ℕ → Bool → ℕ
rz_left_of align debug = if debug then if ltb redzone_size align then align else redzone_size else 0

pub rz_right_of : Bool → ℕ
rz_right_of debug = if debug then redzone_size else 0

pub stride_of : ℕ → ℕ → Bool → ℕ
stride_of obj_size align debug =
    align_up32 (add32 (add32 (rz_left_of align debug) obj_size) (rz_right_of debug)) align

pub compute_layout : ℕ → ℕ → Bool → Option SlabLayout
compute_layout obj_size align debug =
    try_orders (stride_of obj_size align debug) (rz_left_of align debug) align (slab_max_order + 1)
      0

-- `none` is -1.
pub index_for_offset : SlabLayout → ℕ → Option ℕ
index_for_offset layout off =
    if layout.stride == 0 || not (off % layout.stride == 0)
    then none
    else if leb layout.objs_per_slab (off / layout.stride)
    then none
    else some (off / layout.stride)

pub record Slab : Type 0 where
  pub obj_count : ℕ
  pub free_count : ℕ
  pub free_head : ℕ
  pub bufctl : ℕ → ℕ

-- The loop of slabCarve: `k` entries from `i` on.
pub carve_from : ℕ → ℕ → ℕ → (ℕ → ℕ) → ℕ → ℕ
carve_from zero i n b = b
carve_from (suc k) i n b =
    carve_from k (i + 1) n (put b i (if ltb (i + 1) n then i + 1 else bufctl_end))

pub carve : Slab → Slab
carve s = record s {
  bufctl = carve_from s.obj_count 0 s.obj_count s.bufctl;
  free_head = if ltb 0 s.obj_count then 0 else bufctl_end;
  free_count = s.obj_count;
}

-- The index and the slab after. `freeCount` is a uint16_t.
pub free_list_pop : Slab → ℕ × Slab
free_list_pop s = (
  s.free_head,
  record s {
    free_head = s.bufctl s.free_head;
    bufctl = put s.bufctl s.free_head bufctl_busy;
    free_count = (s.free_count + 65535) % 65536;
  },
)

pub free_list_push : Slab → ℕ → Slab
free_list_push s index = record s {
  bufctl = put s.bufctl index s.free_head;
  free_head = index;
  free_count = (s.free_count + 1) % 65536;
}
