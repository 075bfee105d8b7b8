-- ===== src/Slab/Refine.antt =====
-- Allocation and release of slots refine a stack of free indices.
use bongos.Common.{
  ℕ, ◌<◌, ◌≡◌, ◌≢◌, refl, subst, ◌∙◌, ap, Bool, true, false, not, ◌||◌, Option, none, some,
  some-injective, List, [], ◌∷◌, ltb, ◌==◌, if◌then◌else◌, arith, Bool-cases, Option-cases, inl,
  inr,
}
use bongos.Slab.{Slab, free_list_pop, free_list_push}
use bongos.Slab.FreeList.{Frees, Misses, free_list_pop-Frees, free_list_push-Frees}

pub data SlotOp : Type 0 where
  pops : SlotOp
  pushes : ℕ → SlotOp

-- The calls in order: the indices that the pops return, and the slab after.
pub run_slots : List SlotOp → Slab → List ℕ × Slab
run_slots [] s = ([], s)
run_slots (pops ∷ ops) s =
    let (i, s') = free_list_pop s in let (out, s'') = run_slots ops s' in (i ∷ out, s'')
run_slots (pushes i ∷ ops) s = run_slots ops (free_list_push s i)

unfoldable pub is_free : ℕ → List ℕ → Bool
is_free i [] = false
is_free i (j ∷ js) = i == j || is_free i js

-- The stack that a slab promises to be. `none` is a call that the callers do not make: a pop of an
-- empty stack, or a push of an index that is out of range or free.
unfoldable pub run_stack : ℕ → List SlotOp → List ℕ → Option (List ℕ × List ℕ)
run_stack n [] is = some ([], is)
run_stack n (pops ∷ ops) [] = none
run_stack n (pops ∷ ops) (i ∷ is) = elim (run_stack n ops is) [
  | none ↦ none
  | some (out, is') ↦ some (i ∷ out, is')
]
run_stack n (pushes i ∷ ops) is =
    let rest = run_stack n ops (i ∷ is) in if not (ltb i n) || is_free i is then none else rest

or_false : (a b : Bool) → (a || b) ≡ false → (a ≡ false) × (b ≡ false)
or_false true b e = absurd cc
or_false false b e = (refl, e)

is_free-Misses : (i : ℕ) (is : List ℕ) → is_free i is ≡ false → Misses i is
unfolding is_free
is_free-Misses i [] e = tt
is_free-Misses i (j ∷ is) e =
    let (other, rest) = or_false (i == j) (is_free i is) e in
    (λ same. absurd (ground (arith, same)), is_free-Misses i is rest)

pop_count : (s : Slab) → (free_list_pop s).1.obj_count ≡ s.obj_count
unfolding free_list_pop
pop_count s = refl

push_count : (s : Slab) (i : ℕ) → (free_list_push s i).obj_count ≡ s.obj_count
unfolding free_list_push
push_count s i = refl

none_not_some : (r : List ℕ × List ℕ) → none ≢ some r
none_not_some r e = cc

-- For every sequence of calls that the stack allows, slabFreeListPop returns the same indices as
-- the stack, and the slab's free list stays the stack.
pub run_slots-Frees :
    (ops : List SlotOp) (s : Slab) (is out is' : List ℕ)
    → Frees s is
    → run_stack s.obj_count ops is ≡ some (out, is')
    → ((run_slots ops s).0 ≡ out) × Frees (run_slots ops s).1 is'
unfolding run_slots run_stack
run_slots-Frees [] s is out is' f e =
    let same = some-injective ([], is) (out, is') e in
    (ap (λ r. r.0) same, subst (Frees s) (ap (λ r. r.1) same) f)
run_slots-Frees (pops ∷ ops) s [] out is' f e = absurd cc
run_slots-Frees (pops ∷ ops) s (i ∷ is) out is' f e =
    elim (Option-cases (run_stack s.obj_count ops is)) [
      | inl none' ↦ absurd (none_not_some (out, is') (rw (run_stack, none') at e))
      | inr ((out', last), found) ↦
          let (top, f') = free_list_pop-Frees s i is f in
          let s' = (free_list_pop s).1 in
          let (same, done) = run_slots-Frees ops s' is out' last f' (rw (pop_count s) found) in
          let result = some-injective (i ∷ out', last) (out, is') (rw (run_stack, found) at e) in
          (
            ap (λ j. j ∷ (run_slots ops s').0) top ∙ ap (i ∷◌) same ∙ ap (λ r. r.0) result,
            subst (Frees (run_slots ops s').1) (ap (λ r. r.1) result) done,
          )
    ]
run_slots-Frees (pushes i ∷ ops) s is out is' f e =
    elim (Bool-cases (not (ltb i s.obj_count) || is_free i is)) [
      | inl bad ↦ absurd (none_not_some (out, is') (rw (run_stack, bad) at e))
      | inr good ↦
          let (inside, fresh) = or_false (not (ltb i s.obj_count)) (is_free i is) good in
          let p : i < s.obj_count = ground arith in
          let busy = f.busy i p (is_free-Misses i is fresh) in
          run_slots-Frees ops (free_list_push s i) (i ∷ is) out is'
            (free_list_push-Frees s i is f p busy) (rw (push_count s i) (rw (run_stack, good) at e))
    ]
