-- ===== src/MemMap/Result.antt =====
-- The result of memMapNormalize, in order.
use bongos.Common.{
  ℕ, ◌+◌, ◌-◌, ◌≤◌, ◌<◌, ◌≡◌, ◌≢◌, refl, sym, true, inl, inr, Option, none, some, List, [], ◌∷◌,
  arith, ltb, if◌then◌else◌, Bool-cases, Option-cases, reverse_onto, ◌∙◌, subst, u64_mod, length,
}
use bongos.MemMap.{MemMapInput, BootMemRegion, round_input, sweep_all, normalize, points}
use bongos.MemMap.Points.{
  EndsSatisfy, AllEnds, AllEnds-map, Has, Strict, IsStrict, AreWords, points-IsStrict,
  points-AllEnds, points-Below, Below,
}
use bongos.MemMap.Sweep.{in_range, Upper, Winner}
use bongos.MemMap.Regions.{
  holds, type_at, Apart, IsStack, type_at-above, Known, Has-Strict, Upper-past, sweep-Swept,
}

abbrev ApartFrom : ℕ → ℕ → List BootMemRegion → Type 0
ApartFrom end type [] = Unit {0}
ApartFrom end type (q ∷ out) = q.base ≡ end → q.type ≢ type

-- Regions in ascending order from `lo` on: none empty, no two overlap, and two that touch differ
-- in type.
abbrev pub IsSorted : ℕ → List BootMemRegion → Type 0
IsSorted lo [] = Unit {0}
IsSorted lo (r ∷ out) =
    (lo ≤ r.base)
    × (0 < r.length)
    × ApartFrom (r.base + r.length) r.type out
    × IsSorted (r.base + r.length) out

pub IsSorted-lower :
    (lo hi : ℕ) (out : List BootMemRegion) → lo ≤ hi → IsSorted hi out → IsSorted lo out
IsSorted-lower lo hi [] h s = tt
IsSorted-lower lo hi (r ∷ out) h s = (omega arith, s.1, s.2, s.3)

pub type_at-below :
    (out : List BootMemRegion) (lo a : ℕ) → IsSorted lo out → a < lo → type_at out a ≡ none
type_at-below [] lo a s h = refl
type_at-below (r ∷ out) lo a s h = ground (arith, type_at-below out (r.base + r.length) a s.3)

-- The last region of `xs` and the first of `acc` do not touch with one type.
abbrev Joins : List BootMemRegion → List BootMemRegion → Type 0
Joins xs [] = Unit {0}
Joins xs (q ∷ acc) = Apart xs q.base q.type

Joins-ApartFrom :
    (r : BootMemRegion) (xs acc : List BootMemRegion)
    → Joins (r ∷ xs) acc
    → ApartFrom (r.base + r.length) r.type acc
Joins-ApartFrom r xs [] j = tt
Joins-ApartFrom r xs (q ∷ acc) j = λ touch t. j (sym touch) (sym t)

reverse_onto-IsSorted :
    (xs acc : List BootMemRegion) (hi : ℕ)
    → IsStack xs hi
    → IsSorted hi acc
    → Joins xs acc
    → IsSorted 0 (reverse_onto xs acc)
reverse_onto-IsSorted [] acc hi s o j = IsSorted-lower 0 hi acc (omega arith) o
reverse_onto-IsSorted (r ∷ xs) acc hi s o j =
    reverse_onto-IsSorted xs (r ∷ acc) r.base s.3
      (
        omega arith,
        s.1,
        Joins-ApartFrom r xs acc j,
        IsSorted-lower (r.base + r.length) hi acc s.0 o,
      )
      s.2

-- A region between two lists is looked up first from either side.
holds-order :
    (r : BootMemRegion) (hi a : ℕ) (left right : Option ℕ)
    → r.base + r.length ≤ hi
    → (r.base ≤ a → left ≡ none)
    → (a < hi → right ≡ none)
    → (if ltb a r.base then left else if holds r a then some r.type else right)
      ≡ (if ltb a hi then if holds r a then some r.type else left else right)
holds-order r hi a left right fits l h = elim (Bool-cases (ltb a r.base)) [
  | inl before ↦ ground arith
  | inr from ↦
      let gone : left ≡ none = l (ground arith) in
      rw gone (elim (Bool-cases (ltb a hi)) [
        | inl inside ↦ let gone' : right ≡ none = h (ground arith) in rw gone' (ground arith)
        | inr past ↦ ground arith
      ])
]

type_at-reverse_onto :
    (xs acc : List BootMemRegion) (hi a : ℕ)
    → IsStack xs hi
    → IsSorted hi acc
    → Joins xs acc
    → type_at (reverse_onto xs acc) a ≡ (if ltb a hi then type_at xs a else type_at acc a)
type_at-reverse_onto [] acc hi a s o j = ground (arith, type_at-below acc hi a o)
type_at-reverse_onto (r ∷ xs) acc hi a s o j =
    let later = IsSorted-lower (r.base + r.length) hi acc s.0 o in
    let ih =
      type_at-reverse_onto xs (r ∷ acc) r.base a s.3
        (omega arith, s.1, Joins-ApartFrom r xs acc j, later) s.2 in
    ih
    ∙ holds-order r hi a (type_at xs a) (type_at acc a) s.0 (type_at-above xs r.base a s.3)
        (type_at-below acc hi a o)

length-reverse_onto :
    (xs acc : List BootMemRegion) → length (reverse_onto xs acc) ≡ length xs + length acc
length-reverse_onto [] acc = omega arith
length-reverse_onto (x ∷ xs) acc = omega (arith, length-reverse_onto xs (x ∷ acc))

-- What memMapNormalize promises of its output.
pub record IsNormal (inputs : List MemMapInput) (limit : ℕ) (out : List BootMemRegion)
    : Type 0 where
  pub sorted : IsSorted 0 out
  pub fits : length out ≤ limit
  pub types : (a : ℕ) → Winner inputs a (type_at out a)

-- Before the first point no input covers an address.
Upper-before :
    (inputs : List MemMapInput) (p a : ℕ) → AllEnds (λ x. p ≤ x) inputs → a < p → Upper inputs a 0
Upper-before [] p a h lt = tt
Upper-before (r ∷ rs) p a h lt =
    (λ c. absurd (outside (round_input r) h.0 c), Upper-before rs p a h.1 lt)
  where
    outside : (o : Option (ℕ × ℕ)) → EndsSatisfy (λ x. p ≤ x) o → in_range o a ≡ true → ⊥
    outside none e c = cc
    outside (some (b, e)) ends c = ground (arith, ends.0)

sweep_all-IsStack :
    (inputs : List MemMapInput) (limit : ℕ) (pts : List ℕ) (out : List BootMemRegion)
    → IsStrict pts
    → Below (u64_mod - 1) pts
    → AllEnds (λ x. Has x pts) inputs
    → sweep_all inputs limit pts ≡ some out
    → (top : ℕ) × IsStack out top
      × (length out ≤ limit)
      × ((a : ℕ) → Winner inputs a (type_at out a))
unfolding sweep_all
sweep_all-IsStack inputs limit [] out st b h e =
    let empty : [] ≡ out = cc in
    let none_left = λ (a : ℕ).
      Upper-past inputs a (AllEnds-map (λ x. Has x []) (λ x. x ≤ a) inputs (λ x m. elim m [ ]) h) in
    subst
      (λ o.
        (top : ℕ) × IsStack o top × (length o ≤ limit) × ((a : ℕ) → Winner inputs a (type_at o a)))
      empty (0, tt, omega arith, none_left)
sweep_all-IsStack inputs limit (p ∷ pts) out st b h e =
    let known = AllEnds-map (λ x. Has x (p ∷ pts)) (Known p pts) inputs (first p pts) h in
    let least = AllEnds-map (λ x. Has x (p ∷ pts)) (λ x. p ≤ x) inputs (not_before p pts st) h in
    let w = sweep-Swept inputs limit pts p [] out st b.1 known tt (omega arith) e in
    (
      w.top,
      w.stack,
      w.small,
      λ a. elim (Bool-cases (ltb a p)) [
        | inl early ↦
            let lt : a < p = ground arith in
            subst (Winner inputs a) (sym (w.before a lt)) (Upper-before inputs p a least lt)
        | inr late ↦ w.from a (ground arith)
      ],
    )
  where
    first : (p : ℕ) (pts : List ℕ) (x : ℕ) → Has x (p ∷ pts) → Known p pts x
    first p pts x (inl e) = inl (omega arith)
    first p pts x (inr m) = inr m

    not_before : (p : ℕ) (pts : List ℕ) → Strict p pts → (x : ℕ) → Has x (p ∷ pts) → p ≤ x
    not_before p pts st x (inl e) = omega arith
    not_before p pts st x (inr m) = omega (arith, Has-Strict x p pts st m)

-- Where memMapNormalize succeeds on inputs whose bases and lengths have 64 bits, its regions fit,
-- are non-empty and sorted without overlap, two that touch differ in type, and the type of an
-- address is that of an input of the highest rank whose rounded range holds it (none if no input
-- with a rank does).
pub normalize-IsNormal :
    (inputs : List MemMapInput) (limit : ℕ) (out : List BootMemRegion)
    → AreWords inputs
    → normalize inputs limit ≡ some out
    → IsNormal inputs limit out
unfolding normalize
normalize-IsNormal inputs limit out w e =
    elim (Option-cases (sweep_all inputs limit (points inputs))) [
      | inl full ↦ absurd (ground arith)
      | inr (back, swept) ↦
          let same : reverse_onto back [] ≡ out = ground arith in
          let (top, stack, small, types) =
            sweep_all-IsStack inputs limit (points inputs) back (points-IsStrict inputs w)
              (points-Below inputs w) (points-AllEnds inputs w) swept in
          subst (IsNormal inputs limit) same (record {
            sorted = reverse_onto-IsSorted back [] top stack tt tt;
            fits = omega (arith, length-reverse_onto back []);
            types = λ a.
                let same_type : type_at (reverse_onto back []) a ≡ type_at back a = ground (
                  arith,
                  type_at-reverse_onto back [] top a stack tt tt,
                  type_at-above back top a stack,
                ) in
                subst (Winner inputs a) (sym same_type) (types a);
          })
    ]
