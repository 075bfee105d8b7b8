-- ===== src/Lockdep/Acquire/Tests.antt =====
-- The lock validator on two classes.
use bongos.Common.{ℕ, ◌≡◌, refl, true, false, none, some, [], ◌∷◌, arith}
use bongos.Common.Bits.{test_bit, set_bit}
use bongos.Lockdep.{
  LockdepClass, LockdepHeld, LockdepGraph, LockdepFinding, lockdep_ok, report_inversion, class_of,
  find_class, bfs_found, bfs_find, bfs_loop, scan, offer, adj_set, build_path, back_chain,
}
use bongos.Lockdep.Search.{Walk, bfs_found_iff}
use bongos.Lockdep.Acquire.{
  find_lock, check_class, find_class_held, segment, segment_base, segment_base_from, usage_conflict,
  find_inversion, add_edges, mark_acquire, mark_usage, check_acquire, commit_acquire, finding,
}
use bongos.Lockdep.Acquire.Acyclic.{Acyclic, Validated-Acyclic, empty, registered, cleared}
use bongos.Lockdep.Acquire.Findings.{Inverts, check_acquire-Inverts}

abbrev entry : ℕ → ℕ → LockdepHeld
entry lock class_id = record {
  lock = lock;
  class_id = class_id;
  irq_ctx = 0;
  trylock = false;
  irqs_on = true;
  ip = 7;
}

abbrev class : ℕ → ℕ → LockdepClass
class key usage = record { key = key; name = 5; usage_mask = usage }

-- Two classes, the first taken before the second.
abbrev ordered : LockdepGraph
ordered = record {
  classes = class 100 2 ∷ class 200 2 ∷ [];
  adj = adj_set (λ u v. false) 1 2;
  edges = record { from = 1; to = 2 } ∷ [];
}

abbrev empty_graph : LockdepGraph
empty_graph = record { classes = []; adj = λ u v. false; edges = [] }

class_of_first :
    class_of empty_graph 100 5 ≡ (lockdep_ok, record empty_graph { classes = class 100 0 ∷ [] }, 1)
unfolding class_of find_class
class_of_first = refl

bfs_found_iff_example :
    (bfs_found ordered.adj 1 2 ≡ true → Walk ordered.adj 1 2)
    × (Walk ordered.adj 1 2 → bfs_found ordered.adj 1 2 ≡ true)
bfs_found_iff_example = bfs_found_iff ordered.adj 1 2 (omega arith) (omega arith)

-- The second class held, the first one acquired.
abbrev inversion : LockdepFinding
inversion = record (finding report_inversion 1) { held_class = 2; path_class = 1 ∷ 2 ∷ [] }

inversion_found : check_acquire ordered (entry 11 2 ∷ []) 10 1 0 true false ≡ some inversion
unfolding check_acquire find_lock check_class find_class_held segment segment_base segment_base_from
    usage_conflict test_bit find_inversion adj_set bfs_find bfs_loop scan offer build_path
    back_chain
inversion_found = refl

check_acquire-Inverts_example :
    (false ≡ false) × Inverts ordered.adj 1 0 (entry 11 2 ∷ []) inversion
check_acquire-Inverts_example =
    check_acquire-Inverts ordered (entry 11 2 ∷ []) 10 1 0 true false inversion (omega arith)
      (omega arith) inversion_found refl

abbrev registered_two : LockdepGraph
registered_two = (class_of (class_of empty_graph 100 5).1 200 5).1

in_order : check_acquire registered_two (entry 10 1 ∷ []) 11 2 0 true false ≡ none
unfolding check_acquire find_lock check_class find_class_held segment segment_base segment_base_from
    usage_conflict test_bit find_inversion adj_set bfs_find bfs_loop scan offer class_of find_class
in_order = refl

abbrev taken_in_order : LockdepGraph
taken_in_order = (commit_acquire registered_two (entry 10 1 ∷ []) (entry 11 2) true).1

Validated-Acyclic_example : Acyclic taken_in_order.adj
Validated-Acyclic_example = Validated-Acyclic taken_in_order (
    cleared registered_two (entry 10 1 ∷ []) (entry 11 2) (omega arith) (omega arith) in_order
      (registered (class_of empty_graph 100 5).1 200 5 (registered empty_graph 100 5 empty)))

edge_recorded : taken_in_order.adj 1 2 ≡ true
unfolding commit_acquire class_of find_class add_edges mark_acquire mark_usage test_bit set_bit
    segment segment_base segment_base_from adj_set
edge_recorded = refl
