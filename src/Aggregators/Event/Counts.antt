-- ===== src/Aggregators/Event/Counts.antt =====
-- lib/aggregators/event-aggregator.js: the supportability counts of events seen, sent and dropped.
use node_newrelic.Aggregators.Event.{EventAggregator, add, to_merge, count_merged, merge_events}
use node_newrelic.Metrics.{Metrics}
use node_newrelic.Metrics.Counting.{AllCountable, after_count, increment-after_count}
use node_newrelic.PriorityQueue
use node_newrelic.PriorityQueue.{HeapLib, Queue}
use node_newrelic.Shared.Int.{pos, sub_ℕ, ◌≤ℤ◌}
use node_newrelic.Shared.{ℕ, ◌≡◌, inl, inr, Bool, ◌&&◌, Option, none, some, ◌==◌, arith, Bool-cases}
use node_newrelic.Aggregators.Event.Tallies.{
  AreDistinct, Counts, Splits, seen_m, seen_m-AllCountable, sent_m, split_m, count_dropped-split_m,
  split, sent-split_m, dropped-split_m, all_sent, all_dropped,
}

module _ (Config : Type 0) {V : Type 0} (lib : HeapLib V) where
  -- Whether `add` counts the event as sent: it was stored, and nothing has overflowed.
  abbrev pub counts_as_sent : V → Option ℕ → ℕ → EventAggregator Config lib → Bool
  counts_as_sent event priority roll a =
      let (items, did_add) = PriorityQueue.add lib event priority roll a.items in
      did_add && (PriorityQueue.overflow lib items == 0)

  to_merge-le :
      (incoming : ℕ) (a : EventAggregator Config lib)
      → to_merge Config lib incoming a ≤ℤ pos incoming
  unfolding to_merge
  to_merge-le incoming a = ground arith

  -- Adding an event always succeeds on countable metrics: the event goes to the reservoir, and it
  -- is counted once as seen and once as either sent or dropped.
  pub add-Counts :
      (event : V) (priority : Option ℕ) (roll : ℕ) (a : EventAggregator Config lib)
      → AreDistinct a.metric_names
      → AllCountable a.metrics
      → (metrics : Metrics) × (add Config lib event priority roll a
          ≡ some (
            record a {
              items = (PriorityQueue.add lib event priority roll a.items).0;
              metrics = metrics;
            },
            (PriorityQueue.add lib event priority roll a.items).1,
          ))
        × Counts a.metric_names (pos 1) a.metrics metrics
  unfolding add sent_m seen_m
  add-Counts event priority roll a d h =
      let n = a.metric_names in
      let m = a.metrics in
      elim (Bool-cases (counts_as_sent event priority roll a)) [
        | inl kept ↦ (
          sent_m n m none d h none,
          rw (increment-after_count n.seen none m (h n.seen), kept)
              (rw (
                increment-after_count n.sent none (after_count n.seen none m)
                  (seen_m-AllCountable n m none d h n.sent))),
          all_sent n m none d h,
        )
        | inr lost ↦ (
          after_count n.dropped none (seen_m n m none d h),
          rw (increment-after_count n.seen none m (h n.seen), lost)
              (rw (
                increment-after_count n.dropped none (after_count n.seen none m)
                  (seen_m-AllCountable n m none d h n.dropped))),
          all_dropped n m none d h,
        )
      ]

  count_merged-split_m :
      (incoming : ℕ) (a : EventAggregator Config lib) (d : AreDistinct a.metric_names)
      (h : AllCountable a.metrics)
      → count_merged Config lib incoming a
        ≡ some (
            split_m a.metric_names a.metrics
              (some (pos incoming))
              d
              h
              (to_merge Config lib incoming a)
              (to_merge-le incoming a))
  unfolding count_merged sent_m seen_m
  count_merged-split_m incoming a d h =
      let n = a.metric_names in
      let m = a.metrics in
      let sent = to_merge Config lib incoming a in
      rw (increment-after_count n.seen (some (pos incoming)) m (h n.seen)) (
        rw
          (increment-after_count n.sent (some sent) (after_count n.seen (some (pos incoming)) m)
            (seen_m-AllCountable n m (some (pos incoming)) d h n.sent))
          (count_dropped-split_m n m (some (pos incoming)) d h sent (to_merge-le incoming a)))

  -- Taking events back always succeeds on countable metrics: the reservoirs are merged, and the events
  -- taken back are counted as seen. Counted as sent are as many as fit between the reservoir's size and
  -- the aggregator's limit, at most all of them, and as dropped the others; where the reservoir is
  -- larger than that limit, what fits is a negative number, and more are counted as dropped than come.
  pub merge_events-Counts :
      (rolls : ℕ → ℕ) (events : Queue lib) (a : EventAggregator Config lib)
      → AreDistinct a.metric_names
      → AllCountable a.metrics
      → (metrics : Metrics) × (merge_events Config lib rolls events a
          ≡ some (
            record a {
              items = (PriorityQueue.merge_queue lib rolls events a.items).0;
              metrics = metrics;
            },
            (PriorityQueue.merge_queue lib rolls events a.items).1,
          ))
        × Splits a.metric_names
            (pos (PriorityQueue.size lib events))
            (sub_ℕ a.base.limit (PriorityQueue.size lib a.items))
            a.metrics
            metrics
  unfolding merge_events to_merge
  merge_events-Counts rolls events a d h =
      let n = a.metric_names in
      let m = a.metrics in
      let incoming : ℕ = PriorityQueue.size lib events in
      let sent = to_merge Config lib incoming a in
      let le : sent ≤ℤ pos incoming = to_merge-le incoming a in
      (
        split_m n m (some (pos incoming)) d h sent le,
        rw (count_merged-split_m incoming a d h),
        record {
          counts = split n m (some (pos incoming)) d h sent le;
          sent = sent-split_m n m (some (pos incoming)) d h sent le;
          dropped = dropped-split_m n m (some (pos incoming)) d h sent le;
        },
      )
