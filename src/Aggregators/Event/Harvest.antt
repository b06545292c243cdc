-- ===== src/Aggregators/Event/Harvest.antt =====
-- lib/aggregators/event-aggregator.js and the harvest cycle of base-aggregator.js: what a failed
-- send leaves in the reservoir.
use mathlib.Core.List.{append-nil}
use node_newrelic.Aggregators.Event.{EventAggregator, add, clear_events, send, on_response, ◌>>=◌}
use node_newrelic.Aggregators.Event.Tallies.{AreDistinct}
use node_newrelic.Aggregators.Event.Counts.{add-Counts, merge_events-Counts}
use node_newrelic.Metrics.Counting.{AllCountable}
use node_newrelic.PriorityQueue
use node_newrelic.PriorityQueue.{HeapLib, Queue}
use node_newrelic.PriorityQueue.Kept.{entries}
use node_newrelic.PriorityQueue.Merge.{
  AllPositive, merge_events-KeepsBest, merge_queue-KeepsBest, at_limit, limit-merge_events,
}
use node_newrelic.PriorityQueue.TopK.{chosen, KeepsBest, create-KeepsBest}
use node_newrelic.Metrics.{Metrics}
use node_newrelic.Shared.{ℕ, ◌≡◌, refl, sym, subst, true, Option, some, List, [], ◌∷◌, ◌++◌, map}

module _ (Config : Type 0) {V : Type 0} (lib : HeapLib V) where
  -- Events recorded one after the other.
  pub add_all :
      List (Option ℕ × V × ℕ) → EventAggregator Config lib → Option (EventAggregator Config lib)
  add_all [] a = some a
  add_all ((priority, event, roll) ∷ events) a = do
    (a', did_add) ← add Config lib event priority roll a
    add_all events a'

  add_all-merge_events :
      (events : List (Option ℕ × V × ℕ)) (a : EventAggregator Config lib)
      → AreDistinct a.metric_names
      → AllCountable a.metrics
      → (metrics : Metrics) × (add_all events a
          ≡ some (record a {
            items = PriorityQueue.merge_events lib events a.items;
            metrics = metrics;
          }))
        × AllCountable metrics
  unfolding add_all PriorityQueue.merge_events
  add_all-merge_events [] a d h = (a.metrics, refl, h)
  add_all-merge_events ((priority, event, roll) ∷ events) a d h =
      let (m, added, counted) = add-Counts Config lib event priority roll a d h in
      let items = (PriorityQueue.add lib event priority roll a.items).0 in
      let (m', rest, countable) =
        add_all-merge_events events (record a { items = items; metrics = m }) d counted.countable in
      (m', rw added rest, countable)

  -- A send that the collector answers by "retain": whatever was recorded since, the reservoir then
  -- holds the best entries of those that were sent and of the new ones, at the limit it had.
  pub retained-KeepsBest :
      (rolls : ℕ → ℕ) (added : List (Option ℕ × V × ℕ)) (a : EventAggregator Config lib)
      → AreDistinct a.metric_names
      → AllCountable a.metrics
      → AllPositive lib a.items.heap
      → (a' : EventAggregator Config lib) × ((add_all added (send Config lib a).0
            >>= on_response Config lib rolls (send Config lib a).1 (some true))
          ≡ some a')
        × KeepsBest lib a.items.limit (entries lib a.items.heap ++ map chosen added) a'.items.heap
  unfolding send on_response clear_events PriorityQueue.create
  retained-KeepsBest rolls added a d h positive =
      let fresh = clear_events Config lib a in
      let (m, recorded, countable) = add_all-merge_events added fresh d h in
      let items = PriorityQueue.merge_events lib added fresh.items in
      let (m', merged, counted) =
        merge_events-Counts Config lib rolls a.items (record a { items = items; metrics = m }) d
          countable in
      (
        record a { items = (PriorityQueue.merge_queue lib rolls a.items items).0; metrics = m' },
        rw (recorded, merged),
        at_limit lib _ _ _ _ (limit-merge_events lib added fresh.items)
            (merge_queue-KeepsBest lib rolls a.items items (map chosen added) positive (
              subst (λ l. KeepsBest lib items.limit l items.heap) (append-nil (map chosen added))
                (at_limit lib _ _ _ _ (sym (limit-merge_events lib added fresh.items)) (
                  merge_events-KeepsBest lib fresh.items [] added
                    (create-KeepsBest lib (some a.items.limit)))))).0,
      )
