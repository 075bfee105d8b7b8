-- ===== src/Early.antt =====
-- kernel/mm/early.c: the early bump allocator. A range carries its entry of each of the arrays
-- `map->usable`, `earlyCursor` and `earlyOriginalEndPfn`; the list has the ranges in ascending order.
-- The zeroing of the pages is left out: it writes memory that nothing here reads.
pub mod Bump
pub mod Seal
mod Tests
use bongos.Common.{
  ℕ, ◌+◌, ◌-◌, ◌*◌, Bool, true, false, ◌&&◌, Option, none, some, List, [], ◌∷◌, ltb, leb,
  if◌then◌else◌,
}

pub record EarlyRange : Type 0 where
  pub start_pfn : ℕ
  pub end_pfn : ℕ
  pub cursor : ℕ
  pub original_end : ℕ

-- The static variables of the file.
pub record EarlyState : Type 0 where
  pub ranges : List EarlyRange
  pub is_sealed : Bool
  pub used_pages : ℕ

pub data EarlyResult : Type 0 where
  panics err_no_memory : EarlyResult
  allocated : ℕ → EarlyState → EarlyResult

-- The loop of pmmEarlyInit over the entries of `usable`, each a start and an end.
pub init_ranges : List (ℕ × ℕ) → List EarlyRange
init_ranges [] = []
init_ranges ((start, end) ∷ usable) =
    record { start_pfn = start; end_pfn = end; cursor = end; original_end = end }
    ∷ init_ranges usable

pub early_init : List (ℕ × ℕ) → EarlyState
early_init usable = record { ranges = init_ranges usable; is_sealed = false; used_pages = 0 }

-- The loop of pmmEarlyAllocPages, which tries the last range first: the frame and the ranges after.
pub take_pages : ℕ → List EarlyRange → Option (ℕ × List EarlyRange)
take_pages count [] = none
take_pages count (r ∷ rs) = elim (take_pages count rs) [
  | some (pfn, rs') ↦ some (pfn, r ∷ rs')
  | none ↦
      if leb count (r.cursor - r.start_pfn)
      then some (r.cursor - count, record r { cursor = r.cursor - count } ∷ rs)
      else none
]

-- The address is the frame times 4096.
pub early_alloc_pages : EarlyState → ℕ → EarlyResult
early_alloc_pages s count = if s.is_sealed then panics else elim (take_pages count s.ranges) [
  | none ↦ err_no_memory
  | some (pfn, ranges) ↦
      allocated (pfn * 4096) (record s { ranges = ranges; used_pages = s.used_pages + count })
]

pub shrink : List EarlyRange → List EarlyRange
shrink [] = []
shrink (r ∷ rs) = record r { end_pfn = r.cursor } ∷ shrink rs

pub seal : EarlyState → EarlyState
seal s = if s.is_sealed then s else record s { is_sealed = true; ranges = shrink s.ranges }

pub in_consumed : ℕ → List EarlyRange → Bool
in_consumed pfn [] = false
in_consumed pfn (r ∷ rs) =
    let rest = in_consumed pfn rs in
    if leb r.end_pfn pfn && ltb pfn r.original_end then true else rest

-- `none` is the panic.
pub was_allocated : EarlyState → ℕ → Option Bool
was_allocated s pfn = if s.is_sealed then some (in_consumed pfn s.ranges) else none
