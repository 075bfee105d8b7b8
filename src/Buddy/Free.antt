-- ===== src/Buddy/Free.antt =====
-- buddyFreeBlock makes the frames of the block free, whatever it merges.
use bongos.Common.{
  ℕ, zero, suc, ◌+◌, ◌-◌, ◌^◌, ◌≤◌, ◌≡◌, refl, true, false, not, ◌||◌, ◌==◌, arith, inl, inr,
  Bool-cases, ==_iff,
}
use bongos.Common.Bits.{clear_bit}
use bongos.Buddy.{
  PmmZone, Page, zone_init, is_buddy, link_block, unlink_block, buddy_of, merge, free_block,
  pmm_max_order,
}
use bongos.Buddy.Blocks.{IsBlock, Within, IsFree, IsAligned, IsValid}
use bongos.Buddy.Links.{Links, link-Links, Unlinks, unlink-Unlinks}
use bongos.Buddy.Halves.{Halves, Halves-aligned}

-- No frame of the block is free.
abbrev pub IsBusy : PmmZone → ℕ → ℕ → Type 0
IsBusy z p k = (x : ℕ) → Within p k x → IsFree z x → ⊥

-- Linking the merged block after its buddy has been unlinked.
Links-merged :
    (z z' r : PmmZone) (p k : ℕ)
    → Halves p k
    → Unlinks z (buddy_of p k) k z'
    → Links z' (clear_bit p k) (k + 1) r
    → Links z p k r
Links-merged z z' r p k h u l = record {
  valid = l.valid;
  covers = λ x.
      let (from, to) = l.covers x in
      let (apart, together) = h.halves x in
      let (old, new) = u.covers x in
      (
        (λ f. elim (from f) [
          | inl f' ↦ inl (new (inl f'))
          | inr w ↦ elim (apart w) [ inl w' ↦ inr w' | inr w' ↦ inl (new (inr w')) ]
        ]),
        (λ m. elim m [
          | inl f ↦ elim (old f) [ inl f' ↦ to (inl f') | inr w ↦ to (inr (together (inr w))) ]
          | inr w ↦ to (inr (together (inl w)))
        ]),
      );
}

merge-Links :
    (n : ℕ) (z : PmmZone) (p k : ℕ)
    → k + n ≡ pmm_max_order
    → IsValid z
    → IsAligned p k
    → IsBusy z p k
    → Links z p k (merge n z p k)
unfolding merge
merge-Links zero z p k e v a busy = link-Links z p k v a (omega (arith, e)) busy
merge-Links (suc n) z p k e v a busy =
    let other = buddy_of p k in
    let page = z.pages other in
    let h = Halves-aligned p k a in
    elim (Bool-cases (not (is_buddy page.state) || not (page.order == k))) [
      | inl stop ↦ rw (merge, stop) (link-Links z p k v a (omega (arith, e)) busy)
      | inr go ↦
          let state : is_buddy page.state ≡ true = ground arith in
          let order : page.order ≡ k = ground (arith, ==_iff page.order k) in
          let u = unlink-Unlinks z other k v (state, order) in
          let busy' : IsBusy (unlink_block z other k) (clear_bit p k) (k + 1) = λ x w f.
            elim ((h.halves x).0 w) [
              | inl w' ↦ busy x w' ((u.covers x).1 (inl f))
              | inr w' ↦ u.taken x w' f
            ] in
          let rest =
            merge-Links n (unlink_block z other k) (clear_bit p k) (k + 1) (omega (arith, e))
              u.valid h.aligned busy' in
          rw (merge, go) (Links-merged z (unlink_block z other k) _ p k h u rest)
    ]

merge-free_pages : (n : ℕ) (z : PmmZone) (p k : ℕ) → (merge n z p k).free_pages ≡ z.free_pages
unfolding merge link_block unlink_block
merge-free_pages zero z p k = refl
merge-free_pages (suc n) z p k =
    let page = z.pages (buddy_of p k) in
    elim (Bool-cases (not (is_buddy page.state) || not (page.order == k))) [
      | inl stop ↦ rw (merge, stop) refl
      | inr go ↦
          rw (merge, go)
            (merge-free_pages n (unlink_block z (buddy_of p k) k) (clear_bit p k) (k + 1))
    ]

-- Freeing an aligned block of at most the top order, none of whose frames is free, keeps the zone
-- valid, makes exactly its frames free and counts them.
pub free_block-Links :
    (z : PmmZone) (p k : ℕ)
    → IsValid z
    → k ≤ pmm_max_order
    → IsAligned p k
    → IsBusy z p k
    → Links z p k (free_block z p k) × ((free_block z p k).free_pages ≡ z.free_pages + 2 ^ k)
unfolding free_block
free_block-Links z p k v low a busy =
    let counted = record z { free_pages = z.free_pages + 2 ^ k } in
    let v' : IsValid counted = record {
      listed = v.listed;
      once = v.once;
      counts = v.counts;
      top = v.top;
      aligned = v.aligned;
      apart = v.apart;
    } in
    let l = merge-Links (pmm_max_order - k) counted p k (omega (arith, low)) v' a busy in
    (
      record { valid = l.valid; covers = l.covers },
      merge-free_pages (pmm_max_order - k) counted p k,
    )

-- A fresh zone is valid while no page is the head of a free block.
pub zone_init-IsValid :
    (pages : ℕ → Page) (name start_pfn end_pfn : ℕ)
    → ((p : ℕ) → is_buddy (pages p).state ≡ false)
    → IsValid (zone_init pages name start_pfn end_pfn)
unfolding zone_init
zone_init-IsValid pages name start_pfn end_pfn none_free =
    let no_block : (p k : ℕ) → IsBlock (zone_init pages name start_pfn end_pfn) p k → ⊥ =
      λ p k b. let f = none_free p in cc in
    record {
      listed = λ k p. ((λ m. absurd m), (λ b. absurd (no_block p k b)));
      once = λ k. tt;
      counts = λ k. refl;
      top = λ p k b. absurd (no_block p k b);
      aligned = λ p k b. absurd (no_block p k b);
      apart = λ p k q j x b c u w. absurd (no_block p k b);
    }
