-- ===== src/Slab/Layout.antt =====
-- The layouts of slabComputeLayout, the size classes and the index of an offset.
use native.Mathlib.Nat.{mod-add-div', mod-lt, mod-eq_of_lt, mul-mod_left}
use bongos.Common.{
  ℕ, zero, suc, ◌+◌, ◌-◌, ◌*◌, ◌/◌, ◌%◌, ◌^◌, ◌≤◌, ◌<◌, ◌≡◌, ◌≢◌, refl, subst, ◌∙◌, ap, Bool, true,
  ◌&&◌, ◌||◌, none, some, some-injective, ltb, leb, ◌==◌, if◌then◌else◌, add32, sub32, not32, arith,
  Bool-cases, Option-cases, inl, inr, ==_iff,
}
use bongos.Common.Bits.{and_bits, and_bits-not_mask, pow2_pos, pow2-le}
use bongos.Slab.{
  align_up32, min_obj_offset, slab_header, slab_max_objects, slab_max_order, SlabLayout, fitting,
  try_order, try_orders, rz_left_of, rz_right_of, stride_of, compute_layout, kmalloc_max_size,
}

-- Where nothing wraps, rounding up gives the least multiple that is not below.
record RoundsUp (v a r : ℕ) : Type 0 where
  above : v ≤ r
  near : r < v + a
  multiple : r % a ≡ 0

align_up32-RoundsUp :
    (v k : ℕ) → k ≤ 32 → v + 2 ^ k ≤ 2 ^ 32 → RoundsUp v (2 ^ k) (align_up32 v (2 ^ k))
unfolding align_up32
align_up32-RoundsUp v k small room =
    let a = 2 ^ k in
    let pos : 0 < a = pow2_pos k in
    let w = v + (a - 1) in
    let below : sub32 a 1 ≡ a - 1 = omega arith in
    let fits : w % 2 ^ 32 ≡ w = mod-eq_of_lt (omega arith) in
    let masked : and_bits 32 w (not32 (a - 1)) ≡ w - w % a =
      and_bits-not_mask 32 k w (not32 (a - 1)) small (omega arith) (omega arith) in
    let split : w % a + w / a * a ≡ w = mod-add-div' w a in
    let whole : w - w % a ≡ w / a * a = omega (arith, split) in
    let less : w % a < a = mod-lt w pos in
    rw (below, fits, masked, whole)
      (record {
        above = omega (arith, split, less);
        near = omega (arith, split, less);
        multiple = mul-mod_left (w / a) a;
      })

none_not_some : (l : SlabLayout) → none ≢ some l
none_not_some l e = cc

fitting_lem :
    (bytes stride rz_left align n : ℕ)
    → (fitting bytes stride rz_left align n ≤ n)
      × (0 < fitting bytes stride rz_left align n
          → min_obj_offset (fitting bytes stride rz_left align n) rz_left align
              + fitting bytes stride rz_left align n * stride
            ≤ bytes)
unfolding fitting
fitting_lem bytes stride rz_left align zero = (omega arith, λ h. absurd (omega arith))
fitting_lem bytes stride rz_left align (suc n) =
    let (bound, fits) = fitting_lem bytes stride rz_left align n in
    elim (Bool-cases (leb (min_obj_offset (suc n) rz_left align + suc n * stride) bytes)) [
      | inl e ↦ rw (fitting, e) (omega arith, λ h. ground arith)
      | inr e ↦ rw (fitting, e) (omega (arith, bound), fits)
    ]

fitting_pos :
    (bytes stride rz_left align n : ℕ)
    → 0 < n
    → min_obj_offset 1 rz_left align + 1 * stride ≤ bytes
    → 0 < fitting bytes stride rz_left align n
unfolding fitting
fitting_pos bytes stride rz_left align zero pos room = absurd (omega arith)
fitting_pos bytes stride rz_left align (suc zero) pos room = ground arith
fitting_pos bytes stride rz_left align (suc (suc n)) pos room =
    elim (Bool-cases
      (leb (min_obj_offset (suc (suc n)) rz_left align + suc (suc n) * stride) bytes)) [
        | inl e ↦ rw (fitting, e) (omega arith)
        | inr e ↦
            rw (fitting, e) (fitting_pos bytes stride rz_left align (suc n) (omega arith) room)
      ]

-- What an order that is taken gives.
record Takes (stride rz_left align order : ℕ) (l : SlabLayout) : Type 0 where
  at_order : l.order ≡ order
  at_stride : l.stride ≡ stride
  at_rz_left : l.rz_left ≡ rz_left
  some_objects : 0 < l.objs_per_slab
  few_objects : l.objs_per_slab ≤ slab_max_objects
  offset : l.obj_offset ≡ min_obj_offset l.objs_per_slab rz_left align
  inside : l.obj_offset + l.objs_per_slab * stride ≤ 4096 * 2 ^ order

-- The greatest count that an order tries.
abbrev n_max : ℕ → ℕ → ℕ
n_max stride order =
    let fit = 4096 * 2 ^ order / stride in
    if ltb slab_max_objects fit then slab_max_objects else fit

n_max_bound : (stride order : ℕ) → n_max stride order ≤ slab_max_objects
n_max_bound stride order = ground arith

try_order-Takes :
    (stride rz_left align order : ℕ) (l : SlabLayout)
    → try_order stride rz_left align order ≡ some l
    → Takes stride rz_left align order l
unfolding try_order
try_order-Takes stride rz_left align order l e =
    let m = n_max stride order in
    let n = fitting (4096 * 2 ^ order) stride rz_left align m in
    let (bound, fits) = fitting_lem (4096 * 2 ^ order) stride rz_left align m in
    elim (Bool-cases (leb 1 n && (leb 4 n || order == slab_max_order))) [
      | inr no' ↦ absurd (none_not_some l (rw (try_order, no') at e))
      | inl yes' ↦
          let same : some (record {
            order = order;
            objs_per_slab = n;
            stride = stride;
            obj_offset = min_obj_offset n rz_left align;
            rz_left = rz_left;
          })
              ≡ some l =
            rw (try_order, yes') at e in
          subst (Takes stride rz_left align order) (some-injective _ _ same) (record {
            at_order = refl;
            at_stride = refl;
            at_rz_left = refl;
            some_objects = ground arith;
            few_objects = omega (arith, bound, n_max_bound stride order);
            offset = refl;
            inside = fits (ground arith);
          })
    ]

try_orders-Takes :
    (stride rz_left align k order : ℕ) (l : SlabLayout)
    → try_orders stride rz_left align k order ≡ some l
    → (o : ℕ) × (o < order + k) × Takes stride rz_left align o l
unfolding try_orders
try_orders-Takes stride rz_left align zero order l e = absurd cc
try_orders-Takes stride rz_left align (suc k) order l e =
    elim (Option-cases (try_order stride rz_left align order)) [
      | inl none' ↦
          let (o, below, t) =
            try_orders-Takes stride rz_left align k (order + 1) l (rw (try_orders, none') at e) in
          (o, omega arith, t)
      | inr (l', some') ↦
          let same : some l' ≡ some l = rw (try_orders, some') at e in
          (order, omega arith, try_order-Takes stride rz_left align order l (some' ∙ same))
    ]

try_orders_total :
    (stride rz_left align k order last : ℕ)
    → last ≡ order + k
    → ((l : SlabLayout) × (try_order stride rz_left align last ≡ some l))
    → (l : SlabLayout) × (try_orders stride rz_left align (suc k) order ≡ some l)
unfolding try_orders
try_orders_total stride rz_left align zero order last at_end (l, found) =
    let here : try_order stride rz_left align order ≡ some l =
      subst (λ o. try_order stride rz_left align o ≡ some l) (omega (arith, at_end)) found in
    (l, rw (try_orders, here) refl)
try_orders_total stride rz_left align (suc k) order last at_end at_last =
    elim (Option-cases (try_order stride rz_left align order)) [
      | inr (l, here) ↦ (l, rw (try_orders, here) refl)
      | inl none' ↦
          let (l, e) =
            try_orders_total stride rz_left align k (order + 1) last (omega (arith, at_end))
              at_last in
          (l, rw (try_orders, none') e)
    ]

quotient_pos : (n d : ℕ) → 0 < d → d ≤ n → 0 < n / d
quotient_pos n d pos h = elim (Bool-cases (n / d == 0)) [
  | inr e ↦ ground arith
  | inl e ↦
      let zero' : n / d * d ≡ 0 = ap (λ q. q * d) ((==_iff (n / d) 0).0 e) ∙ omega arith in
      absurd (omega (arith, zero', mod-add-div' n d, mod-lt n pos))
]

try_order_total :
    (stride rz_left align order : ℕ)
    → order ≡ slab_max_order
    → 0 < fitting (4096 * 2 ^ order) stride rz_left align (n_max stride order)
    → (l : SlabLayout) × (try_order stride rz_left align order ≡ some l)
unfolding try_order
try_order_total stride rz_left align order last fit =
    let n = fitting (4096 * 2 ^ order) stride rz_left align (n_max stride order) in
    let chosen : (leb 1 n && (leb 4 n || order == slab_max_order)) ≡ true = ground arith in
    (
      record {
        order = order;
        objs_per_slab = n;
        stride = stride;
        obj_offset = min_obj_offset n rz_left align;
        rz_left = rz_left;
      },
      rw (try_order, chosen) refl,
    )

-- The layout of a cache: every object lies with its red zones in a slot of `stride` bytes, the
-- slots lie behind the header and the bufctl array and within the slab, and what must be is aligned.
pub record Lays (obj_size align : ℕ) (debug : Bool) (l : SlabLayout) : Type 0 where
  pub some_objects : 0 < l.objs_per_slab
  pub few_objects : l.objs_per_slab ≤ slab_max_objects
  pub order_bound : l.order ≤ slab_max_order
  pub behind : slab_header + 2 * l.objs_per_slab + l.rz_left ≤ l.obj_offset
  pub slot : l.rz_left + obj_size + rz_right_of debug ≤ l.stride
  pub inside : l.obj_offset + l.objs_per_slab * l.stride ≤ 4096 * 2 ^ l.order
  pub aligned : (l.obj_offset % align ≡ 0) × (l.stride % align ≡ 0)

module _ (obj_size align k : ℕ) (debug : Bool) (size : obj_size ≤ kmalloc_max_size)
    (power : align ≡ 2 ^ k) (twelve : k ≤ 12) where
  small : align ≤ 4096
  small = omega (arith, power, pow2-le 12 k twelve)

  -- Both uses of alignUp32.
  aligned_up : (v : ℕ) → v ≤ 2 ^ 31 → RoundsUp v align (align_up32 v align)
  aligned_up v room =
      rw power (align_up32-RoundsUp v k (omega arith) (omega (arith, pow2-le 12 k twelve)))

  rz_left_bound : rz_left_of align debug ≤ 4096
  unfolding rz_left_of
  rz_left_bound = let a = small in ground arith

  rz_right_bound : rz_right_of debug ≤ 16
  unfolding rz_right_of
  rz_right_bound = ground arith

  stride-RoundsUp :
      RoundsUp
        (rz_left_of align debug + obj_size + rz_right_of debug)
        align
        (stride_of obj_size align debug)
  unfolding stride_of
  stride-RoundsUp =
      let a = rz_left_bound in
      let b = rz_right_bound in
      let one : add32 (rz_left_of align debug) obj_size ≡ rz_left_of align debug + obj_size =
        mod-eq_of_lt (omega arith) in
      let two : add32 (rz_left_of align debug + obj_size) (rz_right_of debug)
          ≡ rz_left_of align debug + obj_size + rz_right_of debug =
        mod-eq_of_lt (omega arith) in
      rw (one, two)
        (aligned_up (rz_left_of align debug + obj_size + rz_right_of debug) (omega arith))

  offset-RoundsUp :
      (n : ℕ)
      → n ≤ slab_max_objects
      → RoundsUp
          (slab_header + n * 2 + rz_left_of align debug)
          align
          (min_obj_offset n (rz_left_of align debug) align)
  unfolding min_obj_offset
  offset-RoundsUp n h =
      let a = rz_left_bound in
      let one : add32 slab_header (n * 2) ≡ slab_header + n * 2 = mod-eq_of_lt (omega arith) in
      let two : add32 (slab_header + n * 2) (rz_left_of align debug)
          ≡ slab_header + n * 2 + rz_left_of align debug =
        mod-eq_of_lt (omega arith) in
      rw (one, two) (aligned_up (slab_header + n * 2 + rz_left_of align debug) (omega arith))

  Takes-Lays :
      (o : ℕ) (l : SlabLayout)
      → o ≤ slab_max_order
      → Takes (stride_of obj_size align debug) (rz_left_of align debug) align o l
      → Lays obj_size align debug l
  Takes-Lays o l below t =
      let st = stride-RoundsUp in
      let off = offset-RoundsUp l.objs_per_slab t.few_objects in
      record {
        some_objects = t.some_objects;
        few_objects = t.few_objects;
        order_bound = omega (arith, t.at_order);
        behind = omega (arith, t.offset, off.above, t.at_rz_left);
        slot = omega (arith, st.above, t.at_stride, t.at_rz_left);
        inside = rw (t.at_stride, t.at_order) t.inside;
        aligned = (rw t.offset off.multiple, rw t.at_stride st.multiple);
      }

  -- The largest order always has room for one object.
  last_order :
      0 < obj_size
      → (l : SlabLayout) × (try_order
            (stride_of obj_size align debug)
            (rz_left_of align debug)
            align
            slab_max_order
          ≡ some l)
  last_order some_size =
      let stride = stride_of obj_size align debug in
      let rz = rz_left_of align debug in
      let st = stride-RoundsUp in
      let off = offset-RoundsUp 1 (omega arith) in
      let a = rz_left_bound in
      let b = rz_right_bound in
      let c = small in
      let quotient : 0 < 32768 / stride =
        quotient_pos 32768 stride (omega (arith, st.above)) (omega (arith, st.near)) in
      try_order_total stride rz align 3 refl (
        fitting_pos 32768 stride rz align (n_max stride 3) (ground arith)
          (omega (arith, st.near, off.near)))

  -- For an object of 1 to 8192 bytes and an alignment that is a power of two up to 4096,
  -- slabComputeLayout always fills in a layout, and the layout is sound.
  pub compute_layout_total :
      0 < obj_size
      → (l : SlabLayout) × (compute_layout obj_size align debug ≡ some l)
        × Lays obj_size align debug l
  unfolding compute_layout
  compute_layout_total some_size =
      let stride = stride_of obj_size align debug in
      let rz = rz_left_of align debug in
      let (l, e) = try_orders_total stride rz align 3 0 3 refl (last_order some_size) in
      let (o, below, t) = try_orders-Takes stride rz align 4 0 l e in
      (l, e, Takes-Lays o l (omega arith) t)
