-- ===== src/Trace/Again.antt =====
-- lib/transaction/trace/index.js, `_computeTotalTime` called again on the trace that it has updated.
use node_newrelic.Trace.{
  Range, Segment, Forest, nil, node, visit, Trace, compute_total_time, calculate_exclusive_duration,
  merge_sorted_ranges, sort_by_start,
}
use node_newrelic.Trace.Totals.{raw_ranges, with_own_times, own_times, IsTimely, visit-IsVisit}
use node_newrelic.Shared.Int.{pos}
use node_newrelic.Shared.{ℕ, ◌≡◌, refl, sym, ap, ◌∙◌, inr, List, arith}

-- A pass over the segments of a trace whose root was passed before.
compute_total_time-segments :
    (trace : Trace)
    → IsTimely trace.root.start trace.segments
    → ((compute_total_time trace).0.segments ≡ with_own_times trace.segments)
      × ((compute_total_time trace).1 ≡ pos (own_times trace.segments))
unfolding compute_total_time
compute_total_time-segments trace timely =
    let below = visit-IsVisit trace.root.start trace.segments timely in (below.nodes, below.total)

calculate-start :
    (pairs : List Range) (segment : Segment)
    → (calculate_exclusive_duration pairs segment).start ≡ segment.start
unfolding calculate_exclusive_duration
calculate-start pairs segment = ground arith

-- The pass moves no start.
root-start : (trace : Trace) → (compute_total_time trace).0.root.start ≡ trace.root.start
unfolding compute_total_time
root-start trace = ground (
  arith,
  calculate-start (merge_sorted_ranges (sort_by_start (visit trace.segments).ranges)) trace.root,
)

raw_ranges-with_own_times :
    (forest : Forest) → raw_ranges (with_own_times forest) ≡ raw_ranges forest
unfolding raw_ranges with_own_times
raw_ranges-with_own_times nil = refl
raw_ranges-with_own_times (node segment children siblings) =
    rw (raw_ranges-with_own_times children, raw_ranges-with_own_times siblings) refl

with_own_times-twice :
    (forest : Forest) → with_own_times (with_own_times forest) ≡ with_own_times forest
unfolding with_own_times
with_own_times-twice nil = refl
with_own_times-twice (node segment children siblings) =
    rw
      (
        raw_ranges-with_own_times children,
        with_own_times-twice children,
        with_own_times-twice siblings,
      )
      refl

own_times-with_own_times : (forest : Forest) → own_times (with_own_times forest) ≡ own_times forest
unfolding own_times with_own_times
own_times-with_own_times nil = refl
own_times-with_own_times (node segment children siblings) =
    rw
      (
        raw_ranges-with_own_times children,
        own_times-with_own_times children,
        own_times-with_own_times siblings,
      )
      refl

with_own_times-IsTimely :
    (b : ℕ) (forest : Forest) → IsTimely b forest → IsTimely b (with_own_times forest)
unfolding with_own_times
with_own_times-IsTimely b nil timely = tt
with_own_times-IsTimely b (node segment children siblings) timely = (
  timely.0,
  (
    inr (rw (raw_ranges-with_own_times children) refl),
    (
      with_own_times-IsTimely segment.start children timely.1.1.0,
      with_own_times-IsTimely b siblings timely.1.1.1,
    ),
  ),
)

-- When the total is asked for again, it is the same, and so is every segment under the root.
pub compute_total_time-twice :
    (trace : Trace)
    → IsTimely trace.root.start trace.segments
    → ((compute_total_time (compute_total_time trace).0).1 ≡ (compute_total_time trace).1)
      × ((compute_total_time (compute_total_time trace).0).0.segments
          ≡ (compute_total_time trace).0.segments)
compute_total_time-twice trace timely =
    let once = compute_total_time-segments trace timely in
    let again = compute_total_time-segments (compute_total_time trace).0 (
      rw (once.0, root-start trace)
        (with_own_times-IsTimely trace.root.start trace.segments timely)) in
    (
      again.1 ∙ ap pos (ap own_times once.0 ∙ own_times-with_own_times trace.segments) ∙ sym once.1,
      again.0 ∙ ap with_own_times once.0 ∙ with_own_times-twice trace.segments ∙ sym once.0,
    )
