-- ===== src/Aggregators/Tests.antt =====
-- Runs of lib/aggregators/event-aggregator.js over the list heap.
use mathlib.Core.List.{not-mem-nil, mem-cons}
use mathlib.Core.Logic.Or
use native.Mathlib.Bridge.{le_prop}
use node_newrelic.Aggregators.Base
use node_newrelic.Aggregators.Event.{
  EventAggregator, MetricNames, add, merge_events, send, on_response, ◌>>=◌,
}
use node_newrelic.Aggregators.Event.Tallies.{AreDistinct, Counts, Splits}
use node_newrelic.Aggregators.Event.Counts.{add-Counts, merge_events-Counts}
use node_newrelic.Aggregators.Event.Cycles.{Happening, recorded, sent, answered, Cycle, run, start}
use node_newrelic.Aggregators.Event.Accounting.{offers}
use node_newrelic.Aggregators.Event.Conserved.{Conserved, run-Conserved}
use node_newrelic.Aggregators.Event.Harvest.{add_all, retained-KeepsBest}
use node_newrelic.Metrics
use node_newrelic.Metrics.{Metrics}
use node_newrelic.Metrics.Counting.{AllCountable}
use node_newrelic.PriorityQueue
use node_newrelic.PriorityQueue.{Queue}
use node_newrelic.PriorityQueue.Kept.{entries}
use node_newrelic.PriorityQueue.ListHeap.{list_heap}
use node_newrelic.PriorityQueue.Tests.{two, three, three-AllPositive}
use node_newrelic.PriorityQueue.TopK.{chosen, KeepsBest}
use node_newrelic.Shared.Int.{pos, sub_ℕ}
use node_newrelic.Shared.{
  ℕ, ◌≡◌, ◌<◌, Mem, arith, false, refl, true, Option, none, some, List, [], ◌∷◌, ◌++◌, map,
}

abbrev no_events : MetricNames
no_events = record { seen = "Events/Seen"; sent = "Events/Sent"; dropped = "Events/Dropped" }

no_events-AreDistinct : AreDistinct no_events
no_events-AreDistinct = record {
  seen_sent = refl;
  seen_dropped = refl;
  sent_seen = refl;
  sent_dropped = refl;
  dropped_seen = refl;
  dropped_sent = refl;
}

abbrev no_metrics : Metrics
no_metrics = Metrics.create (pos 100) 0

no_metrics-AllCountable : AllCountable no_metrics
unfolding Metrics.create Metrics.resolve
no_metrics-AllCountable name = tt

abbrev transactions : EventAggregator (Unit {0}) (list_heap {V = ℕ})
transactions = record {
  base =
      Base.create
        (record {
          period_ms = 60000;
          limit = 2;
          delay = none;
          duration = none;
          run_id = some "run";
          is_async = true;
        })
        none tt;
  items = three;
  metric_names = no_events;
  metrics = no_metrics;
}

add-Counts_example :
    (metrics : Metrics) × (add (Unit {0}) list_heap 20 (some 2) 9 transactions
      ≡ some (
        record transactions {
          items = (PriorityQueue.add list_heap 20 (some 2) 9 three).0;
          metrics = metrics;
        },
        (PriorityQueue.add list_heap 20 (some 2) 9 three).1,
      ))
    × Counts no_events (pos 1) no_metrics metrics
add-Counts_example =
    add-Counts (Unit {0}) list_heap 20 (some 2) 9 transactions no_events-AreDistinct
      no_metrics-AllCountable

merge_events-Counts_example :
    (metrics : Metrics) × (merge_events (Unit {0}) list_heap (λ n. n) two transactions
      ≡ some (
        record transactions {
          items = (PriorityQueue.merge_queue list_heap (λ n. n) two three).0;
          metrics = metrics;
        },
        (PriorityQueue.merge_queue list_heap (λ n. n) two three).1,
      ))
    × Splits no_events
        (pos (PriorityQueue.size list_heap two))
        (sub_ℕ transactions.base.limit (PriorityQueue.size list_heap three))
        no_metrics
        metrics
merge_events-Counts_example =
    merge_events-Counts (Unit {0}) list_heap (λ n. n) two transactions no_events-AreDistinct
      no_metrics-AllCountable

abbrev later : List (Option ℕ × ℕ × ℕ)
later = (none, 60, 6) ∷ (some 2, 20, 9) ∷ []

retained-KeepsBest_example :
    (a' : EventAggregator (Unit {0}) (list_heap {V = ℕ})) × ((add_all
          (Unit {0})
          list_heap
          later
          (send (Unit {0}) list_heap transactions).0
        >>= on_response
            (Unit {0})
            list_heap
            (λ n. n)
            (send (Unit {0}) list_heap transactions).1
            (some true))
      ≡ some a')
    × KeepsBest list_heap 3 (entries list_heap three.heap ++ map chosen later) a'.items.heap
retained-KeepsBest_example =
    retained-KeepsBest (Unit {0}) list_heap (λ n. n) later transactions no_events-AreDistinct
      no_metrics-AllCountable three-AllPositive

positive-cons :
    (e : ℕ × ℕ) (xs : List (ℕ × ℕ))
    → 0 < e.0
    → ((x : ℕ × ℕ) → Mem x xs → 0 < x.0)
    → (x : ℕ × ℕ) → Mem x (e ∷ xs)
    → 0 < x.0
positive-cons e xs above rest x mx =
    Or.elim le_prop (mem-cons.0 mx) (λ here. rw here above) (λ there. rest x there)

-- A send is answered by "retain" only after the next send went out.
abbrev two_sends : List (Happening (Unit {0}) (list_heap {V = ℕ}))
two_sends =
    recorded (some 3) 30 1
    ∷ recorded (some 7) 70 2
    ∷ sent
    ∷ recorded (some 5) 50 3
    ∷ sent
    ∷ answered 1 (some true) (λ n. n)
    ∷ answered 0 (some false) (λ n. n)
    ∷ []

run-Conserved_example :
    (s : Cycle (Unit {0}) (list_heap {V = ℕ})) × (run
        (Unit {0})
        list_heap
        two_sends
        (start (Unit {0}) list_heap transactions)
      ≡ some s)
    × Conserved (Unit {0}) list_heap 3 (offers (Unit {0}) list_heap two_sends) s
unfolding PriorityQueue.priority_or
run-Conserved_example =
    run-Conserved (Unit {0}) list_heap transactions two_sends no_events-AreDistinct
      no_metrics-AllCountable
      (positive-cons (3, 30) ((7, 70) ∷ (5, 50) ∷ []) (omega arith)
        (positive-cons (7, 70) ((5, 50) ∷ []) (omega arith)
          (positive-cons (5, 50) [] (omega arith) (λ x mx. absurd (not-mem-nil mx)))))
