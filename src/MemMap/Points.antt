-- ===== src/MemMap/Points.antt =====
-- The sorted points of memMapNormalize: strictly ascending, with both ends of every rounded input.
use bongos.Common.{
  ℕ, ◌-◌, ◌≤◌, ◌<◌, ◌≡◌, refl, ◌⊎◌, inl, inr, Option, none, some, List, [], ◌∷◌, arith, ltb, ◌==◌,
  Bool-cases, Option-cases, reverse_onto, ◌∙◌, u64_mod,
}
use bongos.MemMap.{
  MemMapInput, round_input, collect, insert_back, sort_onto, unique_after, unique, points,
}

abbrev pub Has : ℕ → List ℕ → Type 0
Has x [] = ⊥
Has x (y ∷ ys) = (x ≡ y) ⊎ Has x ys

-- Both ends of every rounded input satisfy `P`.
abbrev pub EndsSatisfy : (ℕ → Type 0) → Option (ℕ × ℕ) → Type 0
EndsSatisfy P none = Unit {0}
EndsSatisfy P (some (b, e)) = P b × P e × (b < e)

abbrev pub AllEnds : (ℕ → Type 0) → List MemMapInput → Type 0
AllEnds P [] = Unit {0}
AllEnds P (r ∷ rs) = EndsSatisfy P (round_input r) × AllEnds P rs

EndsSatisfy-map :
    (P Q : ℕ → Type 0) (o : Option (ℕ × ℕ))
    → ((x : ℕ) → P x → Q x)
    → EndsSatisfy P o
    → EndsSatisfy Q o
EndsSatisfy-map P Q none f h = tt
EndsSatisfy-map P Q (some (b, e)) f h = (f b h.0, f e h.1, h.2)

pub AllEnds-map :
    (P Q : ℕ → Type 0) (rs : List MemMapInput) → ((x : ℕ) → P x → Q x) → AllEnds P rs → AllEnds Q rs
AllEnds-map P Q [] f h = tt
AllEnds-map P Q (r ∷ rs) f h = (EndsSatisfy-map P Q (round_input r) f h.0, AllEnds-map P Q rs f h.1)

abbrev Asc : ℕ → List ℕ → Type 0
Asc lo [] = Unit {0}
Asc lo (x ∷ xs) = (lo ≤ x) × Asc x xs

abbrev Desc : List ℕ → ℕ → Type 0
Desc [] hi = Unit {0}
Desc (x ∷ xs) hi = (x ≤ hi) × Desc xs x

abbrev pub Strict : ℕ → List ℕ → Type 0
Strict lo [] = Unit {0}
Strict lo (x ∷ xs) = (lo < x) × Strict x xs

abbrev pub IsStrict : List ℕ → Type 0
IsStrict [] = Unit {0}
IsStrict (x ∷ xs) = Strict x xs

insert_back-Desc :
    (key : ℕ) (xs : List ℕ) (hi : ℕ) → Desc xs hi → key ≤ hi → Desc (insert_back key xs) hi
unfolding insert_back
insert_back-Desc key [] hi d h = (h, tt)
insert_back-Desc key (x ∷ xs) hi d h = ground (arith, insert_back-Desc key xs x d.1)

insert_back-Has : (key x : ℕ) (xs : List ℕ) → (x ≡ key) ⊎ Has x xs → Has x (insert_back key xs)
unfolding insert_back
insert_back-Has key x [] h = h
insert_back-Has key x (y ∷ ys) (inl e) = elim (Bool-cases (ltb key y)) [
  | inl lt ↦ rw (lt, Has) (inr (insert_back-Has key x ys (inl e)))
  | inr ge ↦ rw (ge, Has) (inl e)
]
insert_back-Has key x (y ∷ ys) (inr (inl e)) = elim (Bool-cases (ltb key y)) [
  | inl lt ↦ rw (lt, Has) (inl e)
  | inr ge ↦ rw (ge, Has) (inr (inl e))
]
insert_back-Has key x (y ∷ ys) (inr (inr m)) = elim (Bool-cases (ltb key y)) [
  | inl lt ↦ rw (lt, Has) (inr (insert_back-Has key x ys (inr m)))
  | inr ge ↦ rw (ge, Has) (inr (inr m))
]

sort_onto-Has : (x : ℕ) (xs done : List ℕ) → Has x xs ⊎ Has x done → Has x (sort_onto done xs)
unfolding sort_onto
sort_onto-Has x [] done (inl m) = elim m [ ]
sort_onto-Has x [] done (inr m) = m
sort_onto-Has x (y ∷ ys) done (inl (inl e)) =
    sort_onto-Has x ys (insert_back y done) (inr (insert_back-Has y x done (inl e)))
sort_onto-Has x (y ∷ ys) done (inl (inr m)) = sort_onto-Has x ys (insert_back y done) (inl m)
sort_onto-Has x (y ∷ ys) done (inr m) =
    sort_onto-Has x ys (insert_back y done) (inr (insert_back-Has y x done (inr m)))

abbrev pub Below : ℕ → List ℕ → Type 0
Below hi [] = Unit {0}
Below hi (x ∷ xs) = (x ≤ hi) × Below hi xs

sort_onto-Desc :
    (hi : ℕ) (xs done : List ℕ) → Below hi xs → Desc done hi → Desc (sort_onto done xs) hi
unfolding sort_onto
sort_onto-Desc hi [] done b d = d
sort_onto-Desc hi (x ∷ xs) done b d =
    sort_onto-Desc hi xs (insert_back x done) b.1 (insert_back-Desc x done hi d b.0)

reverse_onto-Asc :
    (xs acc : List ℕ) (hi : ℕ) → Desc xs hi → Asc hi acc → Asc 0 (reverse_onto xs acc)
reverse_onto-Asc [] [] hi d a = tt
reverse_onto-Asc [] (y ∷ ys) hi d a = (omega arith, a.1)
reverse_onto-Asc (x ∷ xs) [] hi d a = reverse_onto-Asc xs (x ∷ []) x d.1 (omega arith, tt)
reverse_onto-Asc (x ∷ xs) (y ∷ ys) hi d a =
    reverse_onto-Asc xs (x ∷ y ∷ ys) x d.1 (omega arith, (omega arith, a.1))

reverse_onto-Has : (x : ℕ) (xs acc : List ℕ) → Has x xs ⊎ Has x acc → Has x (reverse_onto xs acc)
reverse_onto-Has x [] acc (inl m) = elim m [ ]
reverse_onto-Has x [] acc (inr m) = m
reverse_onto-Has x (y ∷ ys) acc (inl (inl e)) = reverse_onto-Has x ys (y ∷ acc) (inr (inl e))
reverse_onto-Has x (y ∷ ys) acc (inl (inr m)) = reverse_onto-Has x ys (y ∷ acc) (inl m)
reverse_onto-Has x (y ∷ ys) acc (inr m) = reverse_onto-Has x ys (y ∷ acc) (inr (inr m))

unique_after-Strict : (k : ℕ) (xs : List ℕ) → Asc k xs → Strict k (unique_after k xs)
unfolding unique_after
unique_after-Strict k [] a = tt
unique_after-Strict k (x ∷ xs) a = elim (Bool-cases (x == k)) [
  | inl same ↦
      let e : x ≡ k = ground arith in rw (same, Strict) (rw (← e) (unique_after-Strict x xs a.1))
  | inr new ↦ rw (new, Strict) (ground arith, unique_after-Strict x xs a.1)
]

unique_after-Has :
    (x k : ℕ) (xs : List ℕ) → (x ≡ k) ⊎ Has x xs → (x ≡ k) ⊎ Has x (unique_after k xs)
unfolding unique_after
unique_after-Has x k xs (inl e) = inl e
unique_after-Has x k [] (inr m) = elim m [ ]
unique_after-Has x k (y ∷ ys) (inr m) = elim (Bool-cases (y == k)) [
  | inl same ↦
      let e : y ≡ k = ground arith in
      elim (unique_after-Has x y ys m) [
        | inl first ↦ inl (first ∙ e)
        | inr later ↦ rw (same, Has) (inr later)
      ]
  | inr new ↦ rw (new, Has) (inr (unique_after-Has x y ys m))
]

unique-Has : (x : ℕ) (xs : List ℕ) → Has x xs → Has x (unique xs)
unfolding unique
unique-Has x [] m = m
unique-Has x (y ∷ ys) m = unique_after-Has x y ys m

unique-IsStrict : (xs : List ℕ) → Asc 0 xs → IsStrict (unique xs)
unfolding unique
unique-IsStrict [] a = tt
unique-IsStrict (x ∷ xs) a = unique_after-Strict x xs a.1

-- Both ends of what an input is rounded to are numbers of 64 bits.
abbrev pub AreWords : List MemMapInput → Type 0
AreWords [] = Unit {0}
AreWords (r ∷ rs) = (r.base < u64_mod) × (r.length < u64_mod) × AreWords rs

round_input-EndsSatisfy :
    (r : MemMapInput) → r.base < u64_mod → EndsSatisfy (λ x. x < u64_mod) (round_input r)
unfolding round_input
round_input-EndsSatisfy r h = ground arith

pub AllEnds-words : (rs : List MemMapInput) → AreWords rs → AllEnds (λ x. x < u64_mod) rs
AllEnds-words [] w = tt
AllEnds-words (r ∷ rs) w = (round_input-EndsSatisfy r w.0, AllEnds-words rs w.2)

collect-none :
    (r : MemMapInput) (rs : List MemMapInput) → round_input r ≡ none → collect (r ∷ rs) ≡ collect rs
unfolding collect
collect-none r rs e = rw (e, collect)

collect-some :
    (r : MemMapInput) (rs : List MemMapInput) (b e : ℕ)
    → round_input r ≡ some (b, e)
    → collect (r ∷ rs) ≡ b ∷ e ∷ collect rs
unfolding collect
collect-some r rs b e eq = rw (eq, collect)

collect-AllEnds :
    (rs : List MemMapInput) → AllEnds (λ x. x < u64_mod) rs → AllEnds (λ x. Has x (collect rs)) rs
collect-AllEnds [] w = tt
collect-AllEnds (r ∷ rs) w = elim (Option-cases (round_input r)) [
  | inl e ↦ (
    rw (e, EndsSatisfy) tt,
    AllEnds-map (λ x. Has x (collect rs)) (λ x. Has x (collect (r ∷ rs))) rs
        (λ x m. rw (collect-none r rs e) m) (collect-AllEnds rs w.1),
  )
  | inr ((b, e), eq) ↦
      let order : b < e = (rw eq at w.0).2 in
      let more = collect-some r rs b e eq in
      (
        rw (eq, EndsSatisfy) (rw more (inl refl), rw more (inr (inl refl)), order),
        AllEnds-map (λ x. Has x (collect rs)) (λ x. Has x (collect (r ∷ rs))) rs
            (λ x m. rw more (inr (inr m))) (collect-AllEnds rs w.1),
      )
]

collect-Below :
    (rs : List MemMapInput) → AllEnds (λ x. x < u64_mod) rs → Below (u64_mod - 1) (collect rs)
unfolding collect
collect-Below [] w = tt
collect-Below (r ∷ rs) w = elim (Option-cases (round_input r)) [
  | inl e ↦ rw (e, Below) (collect-Below rs w.1)
  | inr ((b, e), eq) ↦
      let ends = rw eq at w.0 in
      rw (eq, Below) (omega (arith, ends.0), (omega (arith, ends.1), collect-Below rs w.1))
]

-- The points that memMapNormalize sweeps over are strictly ascending.
pub points-IsStrict : (rs : List MemMapInput) → AreWords rs → IsStrict (points rs)
unfolding points
points-IsStrict rs w =
    let sorted =
      sort_onto-Desc (u64_mod - 1) (collect rs) [] (collect-Below rs (AllEnds-words rs w)) tt in
    unique-IsStrict _ (reverse_onto-Asc (sort_onto [] (collect rs)) [] (u64_mod - 1) sorted tt)

pub points-AllEnds : (rs : List MemMapInput) → AreWords rs → AllEnds (λ x. Has x (points rs)) rs
unfolding points
points-AllEnds rs w =
    AllEnds-map (λ x. Has x (collect rs)) (λ x. Has x (points rs)) rs
      (λ x m. unique-Has x _ (
        reverse_onto-Has x (sort_onto [] (collect rs)) []
          (inl (sort_onto-Has x (collect rs) [] (inl m)))))
      (collect-AllEnds rs (AllEnds-words rs w))

insert_back-Below :
    (hi key : ℕ) (xs : List ℕ) → Below hi xs → key ≤ hi → Below hi (insert_back key xs)
unfolding insert_back
insert_back-Below hi key [] b h = (h, tt)
insert_back-Below hi key (x ∷ xs) b h = ground (arith, insert_back-Below hi key xs b.1)

sort_onto-Below :
    (hi : ℕ) (xs done : List ℕ) → Below hi xs → Below hi done → Below hi (sort_onto done xs)
unfolding sort_onto
sort_onto-Below hi [] done b d = d
sort_onto-Below hi (x ∷ xs) done b d =
    sort_onto-Below hi xs (insert_back x done) b.1 (insert_back-Below hi x done d b.0)

reverse_onto-Below :
    (hi : ℕ) (xs acc : List ℕ) → Below hi xs → Below hi acc → Below hi (reverse_onto xs acc)
reverse_onto-Below hi [] acc b d = d
reverse_onto-Below hi (x ∷ xs) acc b d = reverse_onto-Below hi xs (x ∷ acc) b.1 (b.0, d)

unique_after-Below : (hi k : ℕ) (xs : List ℕ) → Below hi xs → Below hi (unique_after k xs)
unfolding unique_after
unique_after-Below hi k [] b = tt
unique_after-Below hi k (x ∷ xs) b = ground (arith, unique_after-Below hi x xs b.1)

unique-Below : (hi : ℕ) (xs : List ℕ) → Below hi xs → Below hi (unique xs)
unfolding unique
unique-Below hi [] b = tt
unique-Below hi (x ∷ xs) b = (b.0, unique_after-Below hi x xs b.1)

pub points-Below : (rs : List MemMapInput) → AreWords rs → Below (u64_mod - 1) (points rs)
unfolding points
points-Below rs w = unique-Below (u64_mod - 1) _ (
    reverse_onto-Below (u64_mod - 1) (sort_onto [] (collect rs)) []
      (sort_onto-Below (u64_mod - 1) (collect rs) [] (collect-Below rs (AllEnds-words rs w)) tt) tt)
