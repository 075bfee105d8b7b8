-- ===== src/Buddy.antt =====
-- kernel/mm/buddy.c: the buddy allocator of one zone. A page is its frame number, `pages` the Page
-- array. The lists through the pages' `lru` links are lists of frame numbers, head first.
pub mod Blocks
pub mod Links
pub mod Halves
pub mod Free
pub mod Alloc
mod Tests
use bongos.Common.{
  ℕ, zero, suc, ◌+◌, ◌-◌, ◌*◌, ◌^◌, Bool, true, false, not, ◌&&◌, ◌||◌, Option, none, some, List,
  [], ◌∷◌, ltb, leb, ◌==◌, if◌then◌else◌, put,
}
use bongos.Common.Bits.{test_bit, set_bit, clear_bit}

abbrev pub pmm_max_order : ℕ
pmm_max_order = 10

abbrev pub pmm_order_count : ℕ
pmm_order_count = 11

pub data PageState : Type 0 where
  reserved tail buddy pcp allocated : PageState

-- The fields that the buddy allocator uses.
pub record Page : Type 0 where
  pub state : PageState
  pub order : ℕ

abbrev pub is_buddy : PageState → Bool
is_buddy reserved = false
is_buddy tail = false
is_buddy buddy = true
is_buddy pcp = false
is_buddy allocated = false

-- A zone, and the Page array with it.
pub record PmmZone : Type 0 where
  pub free_list : ℕ → List ℕ
  pub free_blocks : ℕ → ℕ
  pub free_pages : ℕ
  pub managed_pages : ℕ
  pub start_pfn : ℕ
  pub end_pfn : ℕ
  pub name : ℕ
  pub pages : ℕ → Page

pub zone_init : (ℕ → Page) → ℕ → ℕ → ℕ → PmmZone
zone_init pages name start_pfn end_pfn = record {
  free_list = λ k. [];
  free_blocks = λ k. 0;
  free_pages = 0;
  managed_pages = 0;
  start_pfn = start_pfn;
  end_pfn = end_pfn;
  name = name;
  pages = pages;
}

-- `listRemove` of the node of a page.
pub list_remove : ℕ → List ℕ → List ℕ
list_remove p [] = []
list_remove p (q ∷ l) = let rest = list_remove p l in if q == p then l else q ∷ rest

-- The page becomes the head of a free block.
pub link_block : PmmZone → ℕ → ℕ → PmmZone
link_block z pfn order = record z {
  pages = put z.pages pfn (record { state = buddy; order = order });
  free_list = put z.free_list order (pfn ∷ z.free_list order);
  free_blocks = put z.free_blocks order (z.free_blocks order + 1);
}

-- The head of a free block becomes an inner page.
pub unlink_block : PmmZone → ℕ → ℕ → PmmZone
unlink_block z pfn order = record z {
  free_list = put z.free_list order (list_remove pfn (z.free_list order));
  free_blocks = put z.free_blocks order (z.free_blocks order - 1);
  pages = put z.pages pfn (record { state = tail; order = 0 });
}

-- `pfn ^ (1 << order)`.
pub buddy_of : ℕ → ℕ → ℕ
buddy_of pfn order = if test_bit pfn order then clear_bit pfn order else set_bit pfn order

-- The loop of buddyFreeBlock, `k` orders below the top, and the lines behind it.
pub merge : ℕ → PmmZone → ℕ → ℕ → PmmZone
merge zero z pfn order = link_block z pfn order
merge (suc k) z pfn order =
    let other = buddy_of pfn order in
    let page = z.pages other in
    let rest = merge k (unlink_block z other order) (clear_bit pfn order) (order + 1) in
    if not (is_buddy page.state) || not (page.order == order) then link_block z pfn order else rest

pub free_block : PmmZone → ℕ → ℕ → PmmZone
free_block z pfn order =
    merge (pmm_max_order - order) (record z { free_pages = z.free_pages + 2 ^ order }) pfn order

-- The first order from `order` on, of `n`, that has a free block, with its first page.
pub first_order : PmmZone → ℕ → ℕ → Option (ℕ × ℕ)
first_order z zero order = none
first_order z (suc n) order =
    let rest = first_order z n (order + 1) in
    elim (z.free_list order) [ [] ↦ rest | pfn ∷ l ↦ some (order, pfn) ]

-- The loop that splits `n` times, down to the order asked for.
pub split : ℕ → PmmZone → ℕ → ℕ → PmmZone
split zero z pfn order = z
split (suc n) z pfn order = split n (link_block z (pfn + 2 ^ (order + n)) (order + n)) pfn order

pub alloc_block : PmmZone → ℕ → Option (ℕ × PmmZone)
alloc_block z order = elim (first_order z (pmm_order_count - order) order) [
  | none ↦ none
  | some (k, pfn) ↦
      let z' = split (k - order) (unlink_block z pfn k) pfn order in
      some (pfn, record z' { free_pages = z'.free_pages - 2 ^ order })
]
