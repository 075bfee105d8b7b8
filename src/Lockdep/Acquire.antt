-- ===== src/Lockdep/Acquire.antt =====
-- Acquiring and releasing a lock: the checks and the commits of lockdep-core.c.
-- `held` is the stack in the order of its array, the topmost entry last.
pub mod Acyclic
pub mod Findings
pub mod Release
mod Tests
use bongos.Common.{
  ℕ, zero, suc, ◌+◌, ◌-◌, Bool, true, false, not, ◌&&◌, ◌||◌, Option, none, some, List, [], ◌∷◌,
  ◌++◌, ltb, leb, ◌==◌, if◌then◌else◌, length, get_elem?, get_or, set, remove_at, drop,
}
use bongos.Common.Bits.{test_bit, set_bit}
use bongos.Lockdep.{
  LockdepVerdict, lockdep_ok, report_inversion, report_recursion, report_irq_inconsistent,
  report_not_held, report_held_overflow, lockdep_full, LockdepClass, LockdepEdge, LockdepHeld,
  LockdepGraph, LockdepFinding, Adjacency, adj_set, bfs_find, build_path, max_edges, max_held,
  max_classes, usage_in_hardirq, usage_irqs_on,
}

abbrev no_class : LockdepClass
no_class = record { key = 0; name = 0; usage_mask = 0 }

-- `classes[id - 1]`.
abbrev pub class_at : LockdepGraph → ℕ → LockdepClass
class_at g id = get_or g.classes (id - 1) no_class

-- The entries `held[0 .. base)` are looked at from the top.
pub segment_base_from : List LockdepHeld → ℕ → ℕ → ℕ
segment_base_from held irq_ctx zero = zero
segment_base_from held irq_ctx (suc base) =
    let below = segment_base_from held irq_ctx base in
    elim (get_elem? held base) [
      | none ↦ suc base
      | some h ↦ if h.irq_ctx == irq_ctx then below else suc base
    ]

pub segment_base : List LockdepHeld → ℕ → ℕ
segment_base held irq_ctx = segment_base_from held irq_ctx (length held)

-- `held[base .. depth)`.
pub segment : List LockdepHeld → ℕ → List LockdepHeld
segment held irq_ctx = drop (segment_base held irq_ctx) held

abbrev pub finding : LockdepVerdict → ℕ → LockdepFinding
finding kind new_class = record {
  kind = kind;
  new_class = new_class;
  held_class = 0;
  held_index = 0;
  usage_new = 0;
  usage_old = 0;
  same_instance = false;
  path_truncated = false;
  path_class = [];
}

-- The index of the first entry for the lock, counting from `i`.
pub find_lock : ℕ → ℕ → List LockdepHeld → Option ℕ
find_lock lock i [] = none
find_lock lock i (h ∷ hs) =
    let rest = find_lock lock (i + 1) hs in if h.lock == lock then some i else rest

pub find_class_held : ℕ → ℕ → List LockdepHeld → Option ℕ
find_class_held class_id i [] = none
find_class_held class_id i (h ∷ hs) =
    let rest = find_class_held class_id (i + 1) hs in
    if h.class_id == class_id then some i else rest

-- The last loop of lockdepCoreCheckAcquire: the first inversion, if there is one.
pub find_inversion : Adjacency → ℕ → ℕ → List LockdepHeld → Option LockdepFinding
find_inversion adj class_id i [] = none
find_inversion adj class_id i (h ∷ hs) =
    let rest = find_inversion adj class_id (i + 1) hs in
    if h.class_id == class_id || adj h.class_id class_id
    then rest
    else elim (bfs_find adj class_id h.class_id) [
      | none ↦ rest
      | some (found, s) ↦
          let (path, cut) = build_path s.parent class_id h.class_id in
          if found
          then some (record (finding report_inversion class_id) {
            held_class = h.class_id;
            held_index = i;
            path_truncated = cut;
            path_class = path;
          })
          else rest
    ]

-- The usage conflict of an acquire: the usage now, and the earlier one.
pub usage_conflict : LockdepClass → ℕ → Bool → Option (ℕ × ℕ)
usage_conflict cls irq_ctx irqs_on =
    if not (irq_ctx == 0) && test_bit cls.usage_mask usage_irqs_on
    then some (usage_in_hardirq, usage_irqs_on)
    else if irq_ctx == 0 && irqs_on && test_bit cls.usage_mask usage_in_hardirq
    then some (usage_irqs_on, usage_in_hardirq)
    else none

-- The checks after those for the same lock.
pub check_class : LockdepGraph → List LockdepHeld → ℕ → ℕ → Bool → Bool → Option LockdepFinding
check_class g held class_id irq_ctx irqs_on trylock =
    let base = segment_base held irq_ctx in
    elim (if trylock then none else find_class_held class_id base (segment held irq_ctx)) [
      | some i ↦
          some
            (record (finding report_recursion class_id) { held_class = class_id; held_index = i })
      | none ↦ elim (usage_conflict (class_at g class_id) irq_ctx irqs_on) [
        | some (now, old) ↦
            some (record (finding report_irq_inconsistent class_id) {
              usage_new = now;
              usage_old = old;
            })
        | none ↦ if trylock then none else find_inversion g.adj class_id base (segment held irq_ctx)
      ]
    ]

-- `none` is LOCKDEP_OK; otherwise the verdict is the finding's kind.
pub check_acquire :
    LockdepGraph → List LockdepHeld → ℕ → ℕ → ℕ → Bool → Bool → Option LockdepFinding
check_acquire g held lock class_id irq_ctx irqs_on trylock =
    if leb max_held (length held)
    then some (finding report_held_overflow class_id)
    else elim (find_lock lock 0 held) [
      | some i ↦ some (record (finding report_recursion class_id) {
        held_class = class_id;
        held_index = i;
        same_instance = true;
      })
      | none ↦ check_class g held class_id irq_ctx irqs_on trylock
    ]

pub mark_usage : LockdepGraph → ℕ → ℕ → LockdepGraph
mark_usage g class_id usage =
    let cls = class_at g class_id in
    if test_bit cls.usage_mask usage then g else record g {
      classes =
          set g.classes (class_id - 1) (record cls { usage_mask = set_bit cls.usage_mask usage });
    }

-- The loop of lockdepCoreCommitAcquire over the segment.
pub add_edges : ℕ → List LockdepHeld → LockdepVerdict × LockdepGraph → LockdepVerdict × LockdepGraph
add_edges class_id [] (result, g) = (result, g)
add_edges class_id (h ∷ hs) (result, g) = add_edges class_id hs (
    if h.class_id == class_id || g.adj h.class_id class_id
    then (result, g)
    else if length g.edges == max_edges
    then (lockdep_full, g)
    else (
      result,
      record g {
        adj = adj_set g.adj h.class_id class_id;
        edges = g.edges ++ record { from = h.class_id; to = class_id } ∷ [];
      },
    ))

pub mark_acquire : LockdepGraph → ℕ → ℕ → Bool → LockdepGraph
mark_acquire g class_id irq_ctx irqs_on =
    if not (irq_ctx == 0)
    then mark_usage g class_id usage_in_hardirq
    else if irqs_on
    then mark_usage g class_id usage_irqs_on
    else g

-- `entry` holds the arguments of the acquire.
pub commit_acquire :
    LockdepGraph
    → List LockdepHeld
    → LockdepHeld
    → Bool
    → LockdepVerdict × LockdepGraph × List LockdepHeld
commit_acquire g held entry edges =
    let g' = mark_acquire g entry.class_id entry.irq_ctx entry.irqs_on in
    let (result, g'') =
      if not entry.trylock && edges
      then add_edges entry.class_id (segment held entry.irq_ctx) (lockdep_ok, g')
      else (lockdep_ok, g') in
    (result, g'', if ltb (length held) max_held then held ++ entry ∷ [] else held)

-- The index of the topmost entry for the lock.
pub held_find_from : List LockdepHeld → ℕ → ℕ → Option ℕ
held_find_from held lock zero = none
held_find_from held lock (suc i) =
    let below = held_find_from held lock i in
    elim (get_elem? held i) [ none ↦ below | some h ↦ if h.lock == lock then some i else below ]

pub held_find : List LockdepHeld → ℕ → Option ℕ
held_find held lock = held_find_from held lock (length held)

abbrev pub no_held : LockdepHeld
no_held = record { lock = 0; class_id = 0; irq_ctx = 0; trylock = false; irqs_on = false; ip = 0 }

pub check_release : LockdepGraph → List LockdepHeld → ℕ → Bool → Option LockdepFinding
check_release g held lock irqs_on = elim (held_find held lock) [
  | none ↦ some (finding report_not_held 0)
  | some i ↦
      let h = get_or held i no_held in
      if h.irq_ctx == 0
        && not h.irqs_on
        && irqs_on
        && test_bit (class_at g h.class_id).usage_mask usage_in_hardirq
      then some (record (finding report_irq_inconsistent h.class_id) {
        held_index = i;
        usage_new = usage_irqs_on;
        usage_old = usage_in_hardirq;
      })
      else none
]

pub commit_release : LockdepGraph → List LockdepHeld → ℕ → Bool → LockdepGraph × List LockdepHeld
commit_release g held lock irqs_on = elim (held_find held lock) [
  | none ↦ (g, held)
  | some i ↦
      let h = get_or held i no_held in
      (
        if h.irq_ctx == 0 && irqs_on then mark_usage g h.class_id usage_irqs_on else g,
        remove_at held i,
      )
]
