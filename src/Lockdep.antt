-- ===== src/Lockdep.antt =====
-- kernel/sync/lockdep-core.c: the lock validator's classes, order graph and stack of held locks.
-- A key, a name and an instance are addresses, and 0 is NULL. The bit matrix `adj` is a function of
-- two class ids. The stack traces that `capture` takes are left out: nothing reads them here.
pub mod Scan
pub mod Search
pub mod Acquire
use bongos.Common.{
  ℕ, zero, suc, ◌+◌, ◌-◌, Bool, true, false, not, ◌&&◌, ◌||◌, Option, none, some, List, [], ◌∷◌,
  ◌++◌, ltb, leb, ◌==◌, if◌then◌else◌, length, get_elem?, get_or, set, remove_at, take, drop,
  reverse_onto, put,
}
use bongos.Common.Bits.{test_bit, set_bit}

abbrev pub max_classes : ℕ
max_classes = 256

abbrev pub max_edges : ℕ
max_edges = 512

abbrev pub max_held : ℕ
max_held = 16

abbrev pub max_path : ℕ
max_path = 16

-- The bits of `usage_mask`.
abbrev pub usage_in_hardirq : ℕ
usage_in_hardirq = 0

abbrev pub usage_irqs_on : ℕ
usage_irqs_on = 1

pub data LockdepVerdict : Type 0 where
  lockdep_ok report_inversion report_recursion report_irq_inconsistent : LockdepVerdict
  report_not_held report_held_overflow report_bad_init lockdep_full : LockdepVerdict

pub record LockdepClass : Type 0 where
  pub key : ℕ
  pub name : ℕ
  pub usage_mask : ℕ

pub record LockdepEdge : Type 0 where
  pub from : ℕ
  pub to : ℕ

pub record LockdepHeld : Type 0 where
  pub lock : ℕ
  pub class_id : ℕ
  pub irq_ctx : ℕ
  pub trylock : Bool
  pub irqs_on : Bool
  pub ip : ℕ

abbrev pub Adjacency : Type 0
Adjacency = ℕ → ℕ → Bool

pub record LockdepGraph : Type 0 where
  pub classes : List LockdepClass
  pub adj : Adjacency
  pub edges : List LockdepEdge

-- The part of a finding that the reports print; the fields that a kind does not fill are 0.
pub record LockdepFinding : Type 0 where
  pub kind : LockdepVerdict
  pub new_class : ℕ
  pub held_class : ℕ
  pub held_index : ℕ
  pub usage_new : ℕ
  pub usage_old : ℕ
  pub same_instance : Bool
  pub path_truncated : Bool
  pub path_class : List ℕ

-- `adjSet`.
pub adj_set : Adjacency → ℕ → ℕ → Adjacency
adj_set adj from to u v = if u == from && v == to then true else adj u v

pub find_class : ℕ → ℕ → List LockdepClass → Option ℕ
find_class key id [] = none
find_class key id (c ∷ cs) =
    let rest = find_class key (id + 1) cs in if c.key == key then some id else rest

-- The verdict, the graph and the id that is written where the verdict is `lockdep_ok`.
pub class_of : LockdepGraph → ℕ → ℕ → LockdepVerdict × LockdepGraph × ℕ
class_of g key name =
    if key == 0 || name == 0 then (report_bad_init, g, 0) else elim (find_class key 1 g.classes) [
      | some id ↦ (lockdep_ok, g, id)
      | none ↦ if length g.classes == max_classes then (lockdep_full, g, 0) else (
        lockdep_ok,
        record g { classes = g.classes ++ record { key = key; name = name; usage_mask = 0 } ∷ [] },
        length g.classes + 1,
      )
    ]

pub has_edge : LockdepGraph → ℕ → ℕ → Bool
has_edge g from to =
    if from == 0 || to == 0 || ltb (length g.classes) from || ltb (length g.classes) to
    then false
    else g.adj from to

pub edge_find : ℕ → ℕ → ℕ → List LockdepEdge → Option ℕ
edge_find from to i [] = none
edge_find from to i (e ∷ es) =
    let rest = edge_find from to (i + 1) es in if e.from == from && e.to == to then some i else rest

-- The scratch of the search: `pending` is bfsQueue[head .. tail).
pub record BfsState : Type 0 where
  pub seen : ℕ → Bool
  pub parent : ℕ → ℕ
  pub pending : List ℕ

-- One bit of `adj[cur] & ~seen`.
pub offer : Adjacency → ℕ → ℕ → BfsState → BfsState
offer adj cur next s =
    if adj cur next && not (s.seen next)
    then record {
      seen = put s.seen next true;
      parent = put s.parent next cur;
      pending = s.pending ++ next ∷ [];
    }
    else s

-- The two inner loops take the bits of the row in ascending order: `n` ids from `next` on.
pub scan : Adjacency → ℕ → ℕ → ℕ → BfsState → BfsState
scan adj cur zero next s = s
scan adj cur (suc n) next s = scan adj cur n (next + 1) (offer adj cur next s)

-- `none` is out of fuel.
pub bfs_loop : Adjacency → ℕ → ℕ → BfsState → Option (Bool × BfsState)
bfs_loop adj dst zero s = none
bfs_loop adj dst (suc fuel) s = elim s.pending [
  | [] ↦ some (false, s)
  | cur ∷ rest ↦
      let s' = record s { pending = rest } in
      let more = bfs_loop adj dst fuel (scan adj cur max_classes 1 s') in
      if cur == dst then some (true, s') else more
]

-- Only the parents of classes that this search has seen are read back, so all start at 0 here, not
-- at what the last search left.
abbrev pub bfs_start : ℕ → BfsState
bfs_start src = record {
  seen = put (λ v. false) src true;
  parent = put (λ v. 0) src 0;
  pending = src ∷ [];
}

-- Each class is taken from the queue at most once, and the queue is found empty once.
pub bfs_find : Adjacency → ℕ → ℕ → Option (Bool × BfsState)
bfs_find adj src dst = bfs_loop adj dst (max_classes + 1) (bfs_start src)

pub bfs_found : Adjacency → ℕ → ℕ → Bool
bfs_found adj src dst = elim (bfs_find adj src dst) [ none ↦ false | some (b, s) ↦ b ]

pub depends_on : LockdepGraph → ℕ → ℕ → Bool
depends_on g from to =
    if from == 0
      || to == 0
      || ltb (length g.classes) from
      || ltb (length g.classes) to
      || from == to
    then false
    else bfs_found g.adj from to

-- The classes from `x` back to `src` along the parents.
pub back_chain : (ℕ → ℕ) → ℕ → ℕ → ℕ → List ℕ
back_chain parent src zero x = []
back_chain parent src (suc fuel) x =
    let rest = back_chain parent src fuel (parent x) in
    if x == 0 then [] else if x == src then x ∷ [] else x ∷ rest

-- The path of a finding and whether it was cut. A chain has at most `max_classes` classes.
pub build_path : (ℕ → ℕ) → ℕ → ℕ → List ℕ × Bool
build_path parent src dst =
    let chain = back_chain parent src max_classes dst in
    let rev = take (max_path + 1) chain in (reverse_onto rev [], ltb (length rev) (length chain))
