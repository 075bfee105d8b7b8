-- ===== src/MemMap/Total.antt =====
-- memMapNormalize has room where the output holds two regions for each input.
use bongos.Common.{
  ℕ, suc, ◌+◌, ◌*◌, ◌≤◌, ◌<◌, ◌≡◌, refl, false, ◌&&◌, inl, inr, some, List, [], ◌∷◌, arith, leb,
  ◌==◌, sub64, Bool-cases, Option-cases, reverse_onto, length, add64,
}
use bongos.MemMap.{
  MemMapInput, BootMemRegion, round_input, collect, insert_back, sort_onto, unique_after, unique,
  points, best, push_region, sweep, sweep_all, normalize,
}

length-collect : (rs : List MemMapInput) → length (collect rs) ≤ 2 * length rs
unfolding collect
length-collect [] = omega arith
length-collect (r ∷ rs) = elim (Option-cases (round_input r)) [
  | inl e ↦ rw (e, collect) (omega (arith, length-collect rs))
  | inr ((b, e), eq) ↦ rw (eq, collect) (omega (arith, length-collect rs))
]

length-insert_back : (key : ℕ) (xs : List ℕ) → length (insert_back key xs) ≡ suc (length xs)
unfolding insert_back
length-insert_back key [] = refl
length-insert_back key (x ∷ xs) = ground (arith, length-insert_back key xs)

length-sort_onto : (xs done : List ℕ) → length (sort_onto done xs) ≡ length done + length xs
unfolding sort_onto
length-sort_onto [] done = omega arith
length-sort_onto (x ∷ xs) done =
    omega (arith, length-sort_onto xs (insert_back x done), length-insert_back x done)

length-reverse_onto : (xs acc : List ℕ) → length (reverse_onto xs acc) ≡ length xs + length acc
length-reverse_onto [] acc = omega arith
length-reverse_onto (x ∷ xs) acc = omega (arith, length-reverse_onto xs (x ∷ acc))

length-unique_after : (k : ℕ) (xs : List ℕ) → length (unique_after k xs) ≤ length xs
unfolding unique_after
length-unique_after k [] = omega arith
length-unique_after k (x ∷ xs) = ground (arith, length-unique_after x xs)

length-unique : (xs : List ℕ) → length (unique xs) ≤ length xs
unfolding unique
length-unique [] = omega arith
length-unique (x ∷ xs) = omega (arith, length-unique_after x xs)

length-points : (rs : List MemMapInput) → length (points rs) ≤ 2 * length rs
unfolding points
length-points rs = omega (
  arith,
  length-unique (reverse_onto (sort_onto [] (collect rs)) []),
  length-reverse_onto (sort_onto [] (collect rs)) [],
  length-sort_onto (collect rs) [],
  length-collect rs,
)

push_region_total :
    (limit : ℕ) (out : List BootMemRegion) (start end type : ℕ)
    → length out < limit
    → (out' : List BootMemRegion) × (push_region limit out start end type ≡ some out')
      × (length out' ≤ suc (length out))
unfolding push_region
push_region_total limit [] start end type h =
    let new : BootMemRegion = record { base = start; length = sub64 end start; type = type } in
    (new ∷ [], ground arith, omega arith)
push_region_total limit (r ∷ out) start end type h =
    let new : BootMemRegion = record { base = start; length = sub64 end start; type = type } in
    let grown : BootMemRegion = record r { length = add64 r.length (sub64 end start) } in
    elim (Bool-cases (r.type == type && add64 r.base r.length == start)) [
      | inl grows ↦ (grown ∷ out, rw (push_region, grows) refl, omega arith)
      | inr fresh ↦
          let room : leb limit (suc (length out)) ≡ false = ground arith in
          (new ∷ r ∷ out, rw (push_region, fresh) (rw room refl), omega arith)
    ]

sweep_total :
    (inputs : List MemMapInput) (limit start : ℕ) (pts : List ℕ) (out : List BootMemRegion)
    → length out + length pts ≤ limit
    → (out' : List BootMemRegion) × (sweep inputs limit start pts out ≡ some out')
unfolding sweep
sweep_total inputs limit start [] out h = (out, refl)
sweep_total inputs limit start (end ∷ pts) out h =
    let found = best inputs start end (0, 0) in
    elim (Bool-cases (found.0 == 0)) [
      | inl hole ↦ rw (sweep, hole) (sweep_total inputs limit end pts out (omega arith))
      | inr region ↦
          let (mid, pushed, small) = push_region_total limit out start end found.1 (omega arith) in
          rw (sweep, region) (rw pushed (sweep_total inputs limit end pts mid (omega arith)))
    ]

sweep_all_total :
    (inputs : List MemMapInput) (limit : ℕ) (pts : List ℕ)
    → length pts ≤ limit
    → (out : List BootMemRegion) × (sweep_all inputs limit pts ≡ some out)
unfolding sweep_all
sweep_all_total inputs limit [] h = ([], refl)
sweep_all_total inputs limit (p ∷ pts) h = sweep_total inputs limit p pts [] (omega arith)

-- memMapNormalize succeeds where its output has room for two regions for each input.
pub normalize_total :
    (inputs : List MemMapInput) (limit : ℕ)
    → 2 * length inputs ≤ limit
    → (out : List BootMemRegion) × (normalize inputs limit ≡ some out)
unfolding normalize
normalize_total inputs limit h =
    let out = sweep_all_total inputs limit (points inputs) (omega (arith, length-points inputs)) in
    (reverse_onto out.0 [], rw (normalize, out.1) refl)
