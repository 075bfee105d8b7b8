-- ===== src/Kva.antt =====
-- kernel/mm/kva.c, kernel/mm/kva-internal.h: the pure core of the kernel virtual area allocator.
-- `extents` holds the first `count` elements of the C array, so `count` is its length; the elements
-- behind them are never read. The pointer argument `outVa` is a result here, and never NULL.
pub mod Order
pub mod Alloc
pub mod Free
mod Tests
use bongos.Common.{
  ℕ, zero, suc, ◌+◌, ◌-◌, ◌*◌, ◌%◌, Bool, false, not, ◌&&◌, ◌||◌, Option, none, some, List, [], ◌∷◌,
  ltb, leb, ◌==◌, if◌then◌else◌, length, get_elem?, remove_at, insert_at, add64, sub32, sub64,
}

abbrev pub page_size : ℕ
page_size = 4096

abbrev pub guard_size : ℕ
guard_size = 4096

abbrev pub max_extents : ℕ
max_extents = 512

-- [start, end) is free.
pub record KvaExtent : Type 0 where
  pub start : ℕ
  pub end : ℕ

pub record KvaState : Type 0 where
  pub base : ℕ
  pub end : ℕ
  pub extents : List KvaExtent
  pub live_count : ℕ

pub data Status : Type 0 where
  ok err_invalid err_no_memory : Status

pub state_init : ℕ → ℕ → KvaState
state_init base end = record {
  base = base;
  end = end;
  extents = record { start = base; end = end } ∷ [];
  live_count = 0;
}

-- The first-fit loop: the extents left, and the start of the range taken.
pub first_fit : ℕ → List KvaExtent → Option (List KvaExtent × ℕ)
first_fit need [] = none
first_fit need (e ∷ es) =
    if ltb (sub64 e.end e.start) need
    then elim (first_fit need es) [ none ↦ none | some (es', start) ↦ some (e ∷ es', start) ]
    else if add64 e.start need == e.end
    then some (es, e.start)
    else some (record e { start = add64 e.start need } ∷ es, e.start)

pub alloc : KvaState → ℕ → Status × Option ℕ × KvaState
alloc st size =
    let need = add64 size (2 * guard_size) in
    if size == 0 || not (size % page_size == 0)
    then (err_invalid, none, st)
    else if ltb need size
    then (err_invalid, none, st)
    else if leb (max_extents - 1) st.live_count
    then (err_no_memory, none, st)
    else elim (first_fit need st.extents) [
      | none ↦ (err_no_memory, none, st)
      | some (es, start) ↦ (
        ok,
        some (add64 start guard_size),
        record st { extents = es; live_count = st.live_count + 1 },
      )
    ]

-- `while (idx < count && extents[idx].start < start) idx++;`
pub find_idx : ℕ → List KvaExtent → ℕ
find_idx start [] = 0
find_idx start (e ∷ es) = let rest = find_idx start es in if ltb e.start start then suc rest else 0

-- `extents[idx - 1]` under the guard `idx > 0`.
abbrev pub left_of : List KvaExtent → ℕ → Option KvaExtent
left_of es zero = none
left_of es (suc i) = get_elem? es i

abbrev pub ends_after : Option KvaExtent → ℕ → Bool
ends_after none a = false
ends_after (some e) a = ltb a e.end

abbrev pub starts_before : Option KvaExtent → ℕ → Bool
starts_before none a = false
starts_before (some e) a = ltb e.start a

abbrev pub ends_at : Option KvaExtent → ℕ → Bool
ends_at none a = false
ends_at (some e) a = e.end == a

abbrev pub starts_at : Option KvaExtent → ℕ → Bool
starts_at none a = false
starts_at (some e) a = e.start == a

abbrev pub set_end : List KvaExtent → ℕ → ℕ → List KvaExtent
set_end [] i a = []
set_end (e ∷ es) zero a = record e { end = a } ∷ es
set_end (e ∷ es) (suc i) a = e ∷ set_end es i a

abbrev pub set_start : List KvaExtent → ℕ → ℕ → List KvaExtent
set_start [] i a = []
set_start (e ∷ es) zero a = record e { start = a } ∷ es
set_start (e ∷ es) (suc i) a = e ∷ set_start es i a

-- `extents[idx].end`, read only under the guard `idx < count`.
abbrev pub end_of : Option KvaExtent → ℕ
end_of none = 0
end_of (some e) = e.end

-- The part of `free` behind the search, at the index found; `none` is a STATUS_ERR_INVALID.
pub release_at : List KvaExtent → ℕ → ℕ → ℕ → Option (List KvaExtent)
release_at es idx start end =
    let left = left_of es idx in
    let right = get_elem? es idx in
    let merge_left = ends_at left start in
    let merge_right = starts_at right end in
    if ends_after left start || starts_before right end
    then none
    else if merge_left && merge_right
    then some (remove_at (set_end es (idx - 1) (end_of right)) idx)
    else if merge_left
    then some (set_end es (idx - 1) end)
    else if merge_right
    then some (set_start es idx start)
    else if leb max_extents (length es)
    then none
    else some (insert_at es idx (record { start = start; end = end }))

pub free : KvaState → ℕ → ℕ → Status × KvaState
free st va size =
    let start = sub64 va guard_size in
    let end = add64 (add64 va size) guard_size in
    if size == 0 || not (size % page_size == 0) || ltb va guard_size
    then (err_invalid, st)
    else if ltb end va
    then (err_invalid, st)
    else if ltb start st.base || ltb st.end end
    then (err_invalid, st)
    else elim (release_at st.extents (find_idx start st.extents) start end) [
      | none ↦ (err_invalid, st)
      | some es ↦ (ok, record st { extents = es; live_count = sub32 st.live_count 1 })
    ]
