-- ===== src/MemMap/Regions.antt =====
-- The sweep of memMapNormalize over all its points.
use bongos.Common.{
  ℕ, ◌+◌, ◌-◌, ◌≤◌, ◌<◌, ◌≡◌, ◌≢◌, refl, sym, Bool, true, ◌&&◌, ◌⊎◌, inl, inr, Option, none, some,
  List, [], ◌∷◌, arith, ltb, leb, ◌==◌, if◌then◌else◌, Bool-cases, Option-cases, ◌∙◌, subst,
  u64_mod, add64, sub64, length,
}
use bongos.MemMap.{MemMapInput, BootMemRegion, round_input, best, push_region, sweep}
use bongos.MemMap.Points.{EndsSatisfy, AllEnds, AllEnds-map, Has, Strict, Below}
use bongos.MemMap.Sweep.{in_range, Upper, Winner, Outside, Picked, best-Picked}

abbrev pub holds : BootMemRegion → ℕ → Bool
holds r a = leb r.base a && ltb a (r.base + r.length)

-- The type that a list of regions gives to address `a`.
abbrev pub type_at : List BootMemRegion → ℕ → Option ℕ
type_at [] a = none
type_at (r ∷ out) a = if holds r a then some r.type else type_at out a

-- A region of this base and type follows directly on the last one only if their types differ.
abbrev pub Apart : List BootMemRegion → ℕ → ℕ → Type 0
Apart [] base type = Unit {0}
Apart (q ∷ out) base type = q.base + q.length ≡ base → q.type ≢ type

-- The output so far, last element first: none empty, no two overlap, none reaches past `hi`.
abbrev pub IsStack : List BootMemRegion → ℕ → Type 0
IsStack [] hi = Unit {0}
IsStack (r ∷ out) hi =
    (r.base + r.length ≤ hi) × (0 < r.length) × Apart out r.base r.type × IsStack out r.base

pub type_at-above :
    (out : List BootMemRegion) (hi a : ℕ) → IsStack out hi → hi ≤ a → type_at out a ≡ none
type_at-above [] hi a s h = refl
type_at-above (r ∷ out) hi a s h = ground (arith, type_at-above out r.base a s.3)

record Pushed (limit : ℕ) (out : List BootMemRegion) (start end type : ℕ)
    (out' : List BootMemRegion) : Type 0 where
  stack : IsStack out' end
  small : length out' ≤ limit
  types : (a : ℕ) → type_at out' a ≡ (if leb start a && ltb a end then some type else type_at out a)

module _ (limit : ℕ) (r : BootMemRegion) (out : List BootMemRegion) (start end type : ℕ)
    (s : IsStack (r ∷ out) start) (l : length (r ∷ out) ≤ limit) (o : start < end) where
  Pushed-grow :
      r.type ≡ type
      → r.base + r.length ≡ start
      → Pushed limit (r ∷ out) start end type (record r { length = r.length + (end - start) } ∷ out)
  Pushed-grow t touch = record {
    stack = (omega arith, omega arith, s.2, s.3);
    small = l;
    types = λ a. elim (Bool-cases (ltb a r.base)) [
      | inl low ↦ ground arith
      | inr high ↦ ground (arith, type_at-above out r.base a s.3)
    ];
  }

  Pushed-new :
      (r.base + r.length ≡ start → r.type ≢ type)
      → length (r ∷ out) < limit
      → Pushed limit
          (r ∷ out)
          start
          end
          type
          (record { base = start; length = end - start; type = type } ∷ r ∷ out)
  Pushed-new apart room = record {
    stack = (omega arith, omega arith, apart, s);
    small = omega arith;
    types = λ a. ground arith;
  }

push_region-Pushed :
    (limit : ℕ) (out : List BootMemRegion) (start end type : ℕ) (out' : List BootMemRegion)
    → IsStack out start
    → length out ≤ limit
    → start < end
    → end < u64_mod
    → push_region limit out start end type ≡ some out'
    → Pushed limit out start end type out'
unfolding push_region
push_region-Pushed limit [] start end type out' s l o h e = record {
  stack = ground arith;
  small = ground arith;
  types = λ a. ground arith;
}
push_region-Pushed limit (r ∷ out) start end type out' s l o h e =
    let sum : add64 r.base r.length ≡ r.base + r.length = omega arith in
    let size : sub64 end start ≡ end - start = omega arith in
    let grown : add64 r.length (end - start) ≡ r.length + (end - start) = omega arith in
    elim (Bool-cases (r.type == type && r.base + r.length == start)) [
      | inl grows ↦
          let same : record r { length = r.length + (end - start) } ∷ out ≡ out' = ground arith in
          subst (Pushed limit (r ∷ out) start end type) same
            (Pushed-grow limit r out start end type s l o (ground arith) (ground arith))
      | inr fresh ↦
          let same : record { base = start; length = end - start; type = type } ∷ r ∷ out ≡ out' =
            ground arith in
          subst (Pushed limit (r ∷ out) start end type) same
            (Pushed-new limit r out start end type s l o (λ touch t. ground arith) (ground arith))
    ]

-- From `start` on, the sweep has given every address the type of its winner.
pub record Swept (inputs : List MemMapInput) (limit start : ℕ) (out out' : List BootMemRegion)
    : Type 0 where
  pub top : ℕ
  pub stack : IsStack out' top
  pub small : length out' ≤ limit
  pub before : (a : ℕ) → a < start → type_at out' a ≡ type_at out a
  pub from : (a : ℕ) → start ≤ a → Winner inputs a (type_at out' a)

-- What holds where the points are used up, or where no region was added.
Winner-none :
    (inputs : List MemMapInput) (a k t : ℕ) → Picked inputs a 0 0 k t → k ≡ 0 → Winner inputs a none
Winner-none inputs a k t p e = subst (Upper inputs a) e p.upper

Winner-some :
    (inputs : List MemMapInput) (a k t : ℕ)
    → Picked inputs a 0 0 k t
    → 0 < k
    → Winner inputs a (some t)
Winner-some inputs a k t p h = elim p.from [
  | inl (e, _) ↦ absurd (omega arith)
  | inr (s, e) ↦ (s, subst (Upper inputs a) e p.upper, omega arith)
]

-- Past every end no input covers an address.
pub Upper-past :
    (inputs : List MemMapInput) (a : ℕ) → AllEnds (λ x. x ≤ a) inputs → Upper inputs a 0
Upper-past [] a h = tt
Upper-past (r ∷ rs) a h = (λ c. absurd (outside (round_input r) h.0 c), Upper-past rs a h.1)
  where
    outside : (o : Option (ℕ × ℕ)) → EndsSatisfy (λ x. x ≤ a) o → in_range o a ≡ true → ⊥
    outside none e c = cc
    outside (some (b, e)) ends c = ground (arith, ends.1)

-- An end is passed already or is one of the points to come.
abbrev pub Known : ℕ → List ℕ → ℕ → Type 0
Known start pts x = (x ≤ start) ⊎ Has x pts

pub Has-Strict : (x lo : ℕ) (pts : List ℕ) → Strict lo pts → Has x pts → lo < x
Has-Strict x lo [] s m = elim m [ ]
Has-Strict x lo (y ∷ ys) s (inl e) = omega arith
Has-Strict x lo (y ∷ ys) s (inr m) = omega (arith, Has-Strict x y ys s.1 m)

Known-Outside :
    (start end : ℕ) (pts : List ℕ) (x : ℕ)
    → start < end
    → Strict end pts
    → Known start (end ∷ pts) x
    → Outside start end x
Known-Outside start end pts x o s (inl p) = inl p
Known-Outside start end pts x o s (inr (inl e)) = inr (omega arith)
Known-Outside start end pts x o s (inr (inr m)) = inr (omega (arith, Has-Strict x end pts s m))

Known-next :
    (start end : ℕ) (pts : List ℕ) (x : ℕ)
    → start < end
    → Known start (end ∷ pts) x
    → Known end pts x
Known-next start end pts x o (inl p) = inl (omega arith)
Known-next start end pts x o (inr (inl e)) = inl (omega arith)
Known-next start end pts x o (inr (inr m)) = inr m

IsStack-raise : (out : List BootMemRegion) (lo hi : ℕ) → lo ≤ hi → IsStack out lo → IsStack out hi
IsStack-raise [] lo hi h s = tt
IsStack-raise (r ∷ out) lo hi h s = (omega arith, s.1, s.2, s.3)

module _ (inputs : List MemMapInput) (limit : ℕ) where
  Swept-nil :
      (start : ℕ) (out : List BootMemRegion)
      → AllEnds (Known start []) inputs
      → IsStack out start
      → length out ≤ limit
      → Swept inputs limit start out out
  Swept-nil start out known s l = record {
    top = start;
    stack = s;
    small = l;
    before = λ a h. refl;
    from = λ a h.
        subst (Winner inputs a) (sym (type_at-above out start a s h))
          (Upper-past inputs a (AllEnds-map (Known start []) (λ x. x ≤ a) inputs (past a h) known));
  }
    where
      past : (a : ℕ) → start ≤ a → (x : ℕ) → Known start [] x → x ≤ a
      past a h x (inl p) = omega arith
      past a h x (inr m) = elim m [ ]

  -- One segment, whether it added a region or not, and the rest of the sweep.
  Swept-cons :
      (start end : ℕ) (out mid out' : List BootMemRegion)
      → start < end
      → ((a : ℕ) → a < start → type_at mid a ≡ type_at out a)
      → ((a : ℕ) → start ≤ a → a < end → Winner inputs a (type_at mid a))
      → Swept inputs limit end mid out'
      → Swept inputs limit start out out'
  Swept-cons start end out mid out' o low seg w = record {
    top = w.top;
    stack = w.stack;
    small = w.small;
    before = λ a h. w.before a (omega arith) ∙ low a h;
    from = λ a h. elim (Bool-cases (ltb a end)) [
      | inl inside ↦
          let i : a < end = ground arith in subst (Winner inputs a) (sym (w.before a i)) (seg a h i)
      | inr past ↦ w.from a (ground arith)
    ];
  }

  pub sweep-Swept :
      (pts : List ℕ) (start : ℕ) (out out' : List BootMemRegion)
      → Strict start pts
      → Below (u64_mod - 1) pts
      → AllEnds (Known start pts) inputs
      → IsStack out start
      → length out ≤ limit
      → sweep inputs limit start pts out ≡ some out'
      → Swept inputs limit start out out'
  unfolding sweep
  sweep-Swept [] start out out' st b known s l e =
      let same : out ≡ out' = cc in
      subst (Swept inputs limit start out) same (Swept-nil start out known s l)
  sweep-Swept (end ∷ pts) start out out' st b known s l e =
      let found = best inputs start end (0, 0) in
      let outside =
        AllEnds-map (Known start (end ∷ pts)) (Outside start end) inputs
          (λ x. Known-Outside start end pts x st.0 st.1) known in
      let next =
        AllEnds-map (Known start (end ∷ pts)) (Known end pts) inputs
          (λ x. Known-next start end pts x st.0) known in
      let picked =
        λ (a : ℕ) (h : start ≤ a) (i : a < end). best-Picked start end a h i inputs 0 0 outside in
      elim (Bool-cases (found.0 == 0)) [
        | inl hole ↦
            Swept-cons start end out out out' st.0 (λ a h. refl)
              (λ a h i.
                subst (Winner inputs a) (sym (type_at-above out start a s h))
                  (Winner-none inputs a found.0 found.1 (picked a h i) (ground arith)))
              (sweep-Swept pts end out out' st.1 b.1 next
                (IsStack-raise out start end (omega (arith, st.0)) s) l (rw (sweep, hole) at e))
        | inr region ↦ elim (Option-cases (push_region limit out start end found.1)) [
          | inl full ↦ absurd (ground arith)
          | inr (mid, pushed) ↦
              let p =
                push_region-Pushed limit out start end found.1 mid s l st.0 (omega (arith, b.0))
                  pushed in
              Swept-cons start end out mid out' st.0 (λ a h. ground (arith, p.types a))
                (λ a h i.
                  let t : type_at mid a ≡ some found.1 = ground (arith, p.types a) in
                  subst (Winner inputs a) (sym t)
                    (Winner-some inputs a found.0 found.1 (picked a h i) (ground arith)))
                (sweep-Swept pts end mid out' st.1 b.1 next p.stack p.small (ground arith))
        ]
      ]
