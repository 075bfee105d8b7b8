-- ===== src/Irq/Vectors.antt =====
-- irqVectorMap*: the bitmap of interrupt vectors.
pub mod Marks
pub mod Laws
use bongos.Common.{
  ℕ, zero, suc, ◌+◌, ◌-◌, ◌/◌, ◌%◌, ◌≤◌, ◌<◌, ◌≡◌, ◌≢◌, refl, Bool, true, false, ◌||◌, Option, none,
  some, List, inl, inr, arith, ltb, ◌∙◌, ◌↔◌, ◌⊎◌, Option-cases, ◌==◌, if◌then◌else◌, length,
  get_or, set, Bool-cases, replicate, get_or-set_self, get_or-set_ne, length-set,
}
use bongos.Common.Bits.{
  test_bit, set_bit, clear_bit, test_bit-set_self, test_bit-set_ne, test_bit-clear_self,
  test_bit-clear_ne,
}

abbrev pub vector_first_dynamic : ℕ
vector_first_dynamic = 48

abbrev pub vector_last_dynamic : ℕ
vector_last_dynamic = 239

abbrev pub vector_count : ℕ
vector_count = 256

-- `used`, four words of 64 bits. A set bit means "not available".
pub record IrqVectorMap : Type 0 where
  pub used : List ℕ

pub data Status : Type 0 where
  ok err_invalid err_no_memory : Status

-- `(m->used[v / 64] & (1ULL << (v % 64))) != 0`
unfoldable pub is_used : IrqVectorMap → ℕ → Bool
is_used m v = test_bit (get_or m.used (v / 64) 0) (v % 64)

-- `m->used[v / 64] |= 1ULL << (v % 64)`
unfoldable pub mark : IrqVectorMap → ℕ → IrqVectorMap
mark m v = record { used = set m.used (v / 64) (set_bit (get_or m.used (v / 64) 0) (v % 64)) }

-- `m->used[v / 64] &= ~(1ULL << (v % 64))`
unfoldable pub unmark : IrqVectorMap → ℕ → IrqVectorMap
unmark m v = record { used = set m.used (v / 64) (clear_bit (get_or m.used (v / 64) 0) (v % 64)) }

-- `n` rounds of a loop that marks from `v` on.
unfoldable pub mark_from : ℕ → ℕ → IrqVectorMap → IrqVectorMap
mark_from zero v m = m
mark_from (suc n) v m = mark_from n (v + 1) (mark m v)

-- The words are set to 0 first, whatever they held.
unfoldable pub init : IrqVectorMap
init =
    mark_from (vector_count - (vector_last_dynamic + 1)) (vector_last_dynamic + 1)
      (mark_from vector_first_dynamic 0 (record { used = replicate 4 0 }))

-- `n` rounds of the search from `v` on.
unfoldable pub alloc_from : ℕ → ℕ → IrqVectorMap → Option ℕ
alloc_from zero v m = none
alloc_from (suc n) v m = let rest = alloc_from n (v + 1) m in if is_used m v then rest else some v

unfoldable pub alloc : IrqVectorMap → Status × Option ℕ × IrqVectorMap
alloc m =
    elim (alloc_from (vector_last_dynamic + 1 - vector_first_dynamic) vector_first_dynamic m) [
      | none ↦ (err_no_memory, none, m)
      | some v ↦ (ok, some v, mark m v)
    ]

unfoldable pub is_allocated : IrqVectorMap → ℕ → Bool
is_allocated m v =
    if ltb v vector_first_dynamic || ltb vector_last_dynamic v then false else is_used m v

unfoldable pub free : IrqVectorMap → ℕ → Status × IrqVectorMap
free m v = if is_allocated m v then (ok, unmark m v) else (err_invalid, m)

unfoldable pub count_from : ℕ → ℕ → IrqVectorMap → ℕ
count_from zero v m = 0
count_from (suc n) v m = (if is_used m v then 1 else 0) + count_from n (v + 1) m

unfoldable pub allocated_count : IrqVectorMap → ℕ
allocated_count m =
    count_from (vector_last_dynamic + 1 - vector_first_dynamic) vector_first_dynamic m
