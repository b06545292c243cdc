-- ===== src/PriorityQueue/Tests.antt =====
-- Runs of the queue of lib/priority-queue.js over the list heap.
use mathlib.Core.List.{not-mem-nil, mem-cons}
use mathlib.Core.List.Perm
use mathlib.Core.Logic.Or
use native.Mathlib.Bridge.{le_prop}
use node_newrelic.PriorityQueue.{
  Queue, create, priority_or, add, store, replace, set_limit, shrink, size, merge_events, drain,
  merge_queue, get_raw_events, to_array, raw_nodes, limit_or_default,
}
use node_newrelic.PriorityQueue.Kept.{entries}
use node_newrelic.PriorityQueue.ListHeap.{list_heap}
use node_newrelic.PriorityQueue.Merge.{AllPositive, merge_queue-KeepsBest}
use node_newrelic.PriorityQueue.TopK.{KeepsBest, add-KeepsBest}
use node_newrelic.Shared.{ℕ, ◌≡◌, refl, inl, some, [], ◌∷◌, ◌++◌, arith, true, false}

program : Unit {0}
unfolding create priority_or add store replace set_limit shrink size merge_events merge_queue drain
    raw_nodes get_raw_events to_array limit_or_default
program = tt

abbrev pub Q : Type 0
Q = Queue (list_heap {V = ℕ})

abbrev pub two : Q
two = record { limit = 2; seen = 2; heap = (5, 50) ∷ (3, 30) ∷ [] }

two-Keeps : KeepsBest list_heap 2 ((3, 30) ∷ (5, 50) ∷ []) two.heap
unfolding program
two-Keeps = (
  [],
  record {
    perm = Perm.swap (5, 50) (3, 30) [];
    best = λ x y mx my. absurd (not-mem-nil my);
    bounded = omega arith;
    full = inl refl;
  },
)

-- A better entry evicts the worst one; a worse one is refused; both are counted.
evicts :
    (add list_heap 40 (some 4) 9 two
      ≡ (record two { seen = 3; heap = (5, 50) ∷ (4, 40) ∷ [] }, true))
    × (add list_heap 20 (some 2) 9 two ≡ (record two { seen = 3 }, false))
unfolding program
evicts = (refl, refl)

add-KeepsBest_example :
    KeepsBest list_heap 2
      ((4, 40) ∷ (3, 30) ∷ (5, 50) ∷ [])
      (add list_heap 40 (some 4) 9 two).0.heap
unfolding priority_or
add-KeepsBest_example = add-KeepsBest list_heap two ((3, 30) ∷ (5, 50) ∷ []) 40 (some 4) 9 two-Keeps

abbrev pub three : Q
three = record { limit = 3; seen = 3; heap = (7, 70) ∷ (1, 10) ∷ (4, 40) ∷ [] }

pub three-AllPositive : AllPositive list_heap three.heap
unfolding raw_nodes
three-AllPositive x mx =
    Or.elim le_prop (mem-cons.0 mx) (λ e. rw e (omega arith))
      λ m.
        Or.elim le_prop (mem-cons.0 m) (λ e. rw e (omega arith))
          λ m'.
            Or.elim le_prop (mem-cons.0 m') (λ e. rw e (omega arith))
              (λ m''. absurd (not-mem-nil m''))

merge_queue-KeepsBest_example :
    KeepsBest list_heap 2
      (entries list_heap three.heap ++ (3, 30) ∷ (5, 50) ∷ [])
      (merge_queue list_heap (λ n. n) three two).0.heap
    × (entries list_heap (merge_queue list_heap (λ n. n) three two).1.heap ≡ [])
merge_queue-KeepsBest_example =
    merge_queue-KeepsBest list_heap (λ n. n) three two ((3, 30) ∷ (5, 50) ∷ []) three-AllPositive
      two-Keeps
