-- ===== src/Slab/FreeList.antt =====
-- The free list of a slab is a stack of free indices.
use bongos.Common.{
  ℕ, zero, suc, ◌+◌, ◌≤◌, ◌<◌, ◌≡◌, ◌≢◌, refl, true, false, List, [], ◌∷◌, ltb, ◌==◌, if◌then◌else◌,
  length, put, arith, subst, sym, ◌∙◌, ap, ==_iff, Bool-cases, inl, inr,
}
use bongos.Slab.{
  Slab, carve_from, carve, free_list_pop, free_list_push, bufctl_end, bufctl_busy, slab_max_objects,
}

abbrev pub Misses : ℕ → List ℕ → Type 0
Misses i [] = Unit {0}
Misses i (j ∷ js) = (i ≢ j) × Misses i js

-- The list that starts at `head` runs over these indices, each once, and ends.
abbrev pub IsChain : ℕ → (ℕ → ℕ) → ℕ → List ℕ → Type 0
IsChain n b head [] = head ≡ bufctl_end
IsChain n b head (i ∷ is) = (head ≡ i) × (i < n) × Misses i is × IsChain n b (b i) is

-- The abstract view of a slab: the stack of its free indices. All others are busy.
pub record Frees (s : Slab) (is : List ℕ) : Type 0 where
  pub small : s.obj_count ≤ slab_max_objects
  pub chain : IsChain s.obj_count s.bufctl s.free_head is
  pub count : s.free_count ≡ length is
  pub busy : (i : ℕ) → i < s.obj_count → Misses i is → s.bufctl i ≡ bufctl_busy

module _ (n : ℕ) (b : ℕ → ℕ) (v w : ℕ) where
  -- A write to an index that is not on the list leaves the list.
  IsChain-put :
      (head : ℕ) (is : List ℕ) → Misses v is → IsChain n b head is → IsChain n (put b v w) head is
  IsChain-put head [] m c = c
  IsChain-put head (i ∷ is) m c =
      let other : (i == v) ≡ false = ground (arith, m.0) in
      (c.0, c.1, c.2, rw other (IsChain-put (b i) is m.1 c.3))

-- The list without the entries `n`.
abbrev without : ℕ → List ℕ → List ℕ
without n [] = []
without n (i ∷ is) = if i == n then without n is else i ∷ without n is

-- Indices below `n`, each once.
abbrev Distinct : ℕ → List ℕ → Type 0
Distinct n [] = Unit {0}
Distinct n (i ∷ is) = (i < n) × Misses i is × Distinct n is

Misses-without : (n i : ℕ) (is : List ℕ) → Misses i is → Misses i (without n is)
Misses-without n i [] m = tt
Misses-without n i (j ∷ is) m = elim (Bool-cases (j == n)) [
  | inl e ↦ rw e (Misses-without n i is m.1)
  | inr e ↦ rw e (m.0, Misses-without n i is m.1)
]

without-Misses : (n : ℕ) (is : List ℕ) → Misses n is → length is ≤ length (without n is)
without-Misses n [] m = omega arith
without-Misses n (j ∷ is) m =
    let e : (j == n) ≡ false = ground (arith, m.0) in rw e (omega (arith, without-Misses n is m.1))

without-Distinct :
    (n : ℕ) (is : List ℕ)
    → Distinct (suc n) is
    → Distinct n (without n is) × (length is ≤ suc (length (without n is)))
without-Distinct n [] d = (tt, omega arith)
without-Distinct n (i ∷ is) d =
    let (rest, less) = without-Distinct n is d.2 in
    elim (Bool-cases (i == n)) [
      | inl e ↦
          let fresh : Misses n is = subst (λ j. Misses j is) ((==_iff i n).0 e) d.1 in
          rw e (rest, omega (arith, without-Misses n is fresh))
      | inr e ↦
          let below : i < n = ground (arith, d.0) in
          rw e ((below, Misses-without n i is d.1, rest), omega (arith, less))
    ]

-- There are at most `n` of them.
Distinct-length : (n : ℕ) (is : List ℕ) → Distinct n is → length is ≤ n
Distinct-length zero [] d = omega arith
Distinct-length zero (i ∷ is) d = absurd (omega (arith, d.0))
Distinct-length (suc n) is d =
    let (rest, less) = without-Distinct n is d in
    omega (arith, less, Distinct-length n (without n is) rest)

IsChain-Distinct :
    (n : ℕ) (b : ℕ → ℕ) (head : ℕ) (is : List ℕ) → IsChain n b head is → Distinct n is
IsChain-Distinct n b head [] c = tt
IsChain-Distinct n b head (i ∷ is) c = (c.1, c.2, IsChain-Distinct n b (b i) is c.3)

IsChain-length : (n : ℕ) (b : ℕ → ℕ) (head : ℕ) (is : List ℕ) → IsChain n b head is → length is ≤ n
IsChain-length n b head is c = Distinct-length n is (IsChain-Distinct n b head is c)

-- A busy index is not on the list.
IsChain-busy :
    (n : ℕ) (b : ℕ → ℕ) (head i : ℕ) (is : List ℕ)
    → n ≤ slab_max_objects
    → b i ≡ bufctl_busy
    → IsChain n b head is
    → Misses i is
IsChain-busy n b head i [] small e c = tt
IsChain-busy n b head i (j ∷ []) small e c =
    (λ same. absurd (ground (arith, c.3, e, ap b same)), tt)
IsChain-busy n b head i (j ∷ k ∷ ks) small e c = (
  λ same. absurd (ground (arith, c.3.0, c.3.1, e, ap b same)),
  IsChain-busy n b (b j) i (k ∷ ks) small e c.3,
)

-- slabFreeListPop takes the top of the stack.
pub free_list_pop-Frees :
    (s : Slab) (i : ℕ) (is : List ℕ)
    → Frees s (i ∷ is)
    → ((free_list_pop s).0 ≡ i) × Frees (free_list_pop s).1 is
unfolding free_list_pop
free_list_pop-Frees s i is f =
    let (top, below, fresh, rest) = f.chain in
    (
      top,
      record {
        small = f.small;
        chain = rw top (IsChain-put s.obj_count s.bufctl i bufctl_busy (s.bufctl i) is fresh rest);
        count = omega (
          arith,
          f.count,
          f.small,
          IsChain-length s.obj_count s.bufctl s.free_head (i ∷ is) f.chain,
        );
        busy = λ j p m. elim (Bool-cases (j == s.free_head)) [
          | inl e ↦ rw e refl
          | inr e ↦ rw e (f.busy j p ((λ same. absurd (ground (arith, same, top))), m))
        ];
      },
    )

-- slabFreeListPush puts a busy index on top.
pub free_list_push-Frees :
    (s : Slab) (i : ℕ) (is : List ℕ)
    → Frees s is
    → i < s.obj_count
    → s.bufctl i ≡ bufctl_busy
    → Frees (free_list_push s i) (i ∷ is)
unfolding free_list_push
free_list_push-Frees s i is f p b =
    let fresh = IsChain-busy s.obj_count s.bufctl s.free_head i is f.small b f.chain in
    let self : (i == i) ≡ true = ground arith in
    record {
      small = f.small;
      chain = (
        refl,
        p,
        fresh,
        rw self (IsChain-put s.obj_count s.bufctl i s.free_head s.free_head is fresh f.chain),
      );
      count =
          omega
            (arith, f.count, f.small, IsChain-length s.obj_count s.bufctl s.free_head is f.chain);
      busy =
          λ j q m. let other : (j == i) ≡ false = ground (arith, m.0) in rw other (f.busy j q m.1);
    }

-- `k` indices from `i` on.
abbrev pub indices_from : ℕ → ℕ → List ℕ
indices_from zero i = []
indices_from (suc k) i = i ∷ indices_from k (i + 1)

carve_from-below : (k i n : ℕ) (b : ℕ → ℕ) (j : ℕ) → j < i → carve_from k i n b j ≡ b j
unfolding carve_from
carve_from-below zero i n b j h = refl
carve_from-below (suc k) i n b j h =
    let other : (j == i) ≡ false = ground arith in
    carve_from-below k (i + 1) n (put b i (if ltb (i + 1) n then i + 1 else bufctl_end)) j
      (omega arith)
    ∙ rw other refl

Misses-indices_from : (k i j : ℕ) → j < i → Misses j (indices_from k i)
Misses-indices_from zero i j h = tt
Misses-indices_from (suc k) i j h = (omega arith, Misses-indices_from k (i + 1) j (omega arith))

indices_from-full : (k i j : ℕ) → i ≤ j → j < i + k → Misses j (indices_from k i) → ⊥
indices_from-full zero i j p q m = omega arith
indices_from-full (suc k) i j p q m = elim (Bool-cases (j == i)) [
  | inl e ↦ m.0 ((==_iff j i).0 e)
  | inr e ↦ indices_from-full k (i + 1) j (ground arith) (omega arith) m.1
]

length-indices_from : (k i : ℕ) → length (indices_from k i) ≡ k
length-indices_from zero i = refl
length-indices_from (suc k) i = omega (arith, length-indices_from k (i + 1))

carve_from-IsChain :
    (k i n : ℕ) (b : ℕ → ℕ)
    → i + k ≡ n
    → IsChain n (carve_from k i n b) (if ltb i n then i else bufctl_end) (indices_from k i)
unfolding carve_from
carve_from-IsChain zero i n b e = ground arith
carve_from-IsChain (suc k) i n b e =
    let next = put b i (if ltb (i + 1) n then i + 1 else bufctl_end) in
    let first : ltb i n ≡ true = ground arith in
    let self : (i == i) ≡ true = ground arith in
    let link : carve_from k (i + 1) n next i ≡ (if ltb (i + 1) n then i + 1 else bufctl_end) =
      carve_from-below k (i + 1) n next i (omega arith) ∙ rw self refl in
    rw first (
      refl,
      omega arith,
      Misses-indices_from k (i + 1) i (omega arith),
      rw link (carve_from-IsChain k (i + 1) n next (omega arith)),
    )

-- After slabCarve every index is free, and the indices come off in ascending order.
pub carve-Frees :
    (s : Slab) → s.obj_count ≤ slab_max_objects → Frees (carve s) (indices_from s.obj_count 0)
unfolding carve
carve-Frees s h = record {
  small = h;
  chain = carve_from-IsChain s.obj_count 0 s.obj_count s.bufctl (omega arith);
  count = sym (length-indices_from s.obj_count 0);
  busy = λ i p m. absurd (indices_from-full s.obj_count 0 i (omega arith) (omega arith) m);
}
