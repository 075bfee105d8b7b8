-- ===== src/MemMap/Overlay.antt =====
-- memMapCheckOverlay of boot/common/memmap.c.
use bongos.Common.{ℕ, ◌+◌, ◌≤◌, ◌<◌, ◌≡◌, ◌⊎◌, List, [], ◌∷◌, u64_mod}
use bongos.MemMap.{MemMapInput}

-- Some EFI region of type 1 or 2, the loader's code or data, holds all of [base, end).
abbrev pub Inside : ℕ → ℕ → List MemMapInput → Type 0
Inside base end [] = ⊥
Inside base end (r ∷ rs) =
    ((r.type ≡ 1) ⊎ (r.type ≡ 2))
      × (r.base ≤ base)
      × (end ≤ r.base + r.length)
      × (r.base + r.length < u64_mod)
    ⊎ Inside base end rs
