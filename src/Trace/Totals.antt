-- ===== src/Trace/Totals.antt =====
-- lib/transaction/trace/index.js: the backward pass of `_computeTotalTime`.
use node_newrelic.Trace.{
  Range, Segment, end_of, to_range, Forest, nil, node, Visited, visit, Trace, compute_total_time,
  sort_by_start, merge_sorted_ranges, calculate_exclusive_duration, merge_ranges, is_set,
}
use node_newrelic.Trace.Ranges.{
  covers, holds, IsFrom, IsSeparated-IsFrom, IsFrom-append, IsFrom-later, covers-append, or_assoc,
}
use node_newrelic.Trace.Merging.{IsMerge, merge_ranges-IsMerge, sorted_pairs-IsMerge}
use node_newrelic.Trace.FreeTime.{free, count-same, calculate_exclusive_duration-free}
use node_newrelic.Shared.Int.{pos, ◌+ℤ◌, int_laws}
use node_newrelic.Shared.{
  ℕ, ◌+◌, ◌-◌, ◌≤◌, ◌≡◌, refl, sym, ap, ap₂, ◌∙◌, ◌⊎◌, inl, inr, Bool, false, not, ◌||◌, List, [],
  ◌∷◌, ◌++◌, none, some, max, arith, ltb, if◌then◌else◌, Bool-cases,
}

-- The times at which the segments under one parent run.
unfoldable pub raw_ranges : Forest → List Range
raw_ranges nil = []
raw_ranges (node segment children siblings) =
    to_range segment ∷ (raw_ranges children ++ raw_ranges siblings)

-- The time of a segment in which none under it runs.
abbrev pub own_time : Segment → Forest → ℕ
own_time segment children = free segment.start segment.duration (raw_ranges children)

-- What the pass has to compute: each segment's own time in its place, and their sum.
unfoldable pub with_own_times : Forest → Forest
with_own_times nil = nil
with_own_times (node segment children siblings) =
    node (record segment { exclusive = some (pos (own_time segment children)) })
      (with_own_times children) (with_own_times siblings)

unfoldable pub own_times : Forest → ℕ
own_times nil = 0
own_times (node segment children siblings) =
    own_time segment children + own_times children + own_times siblings

unfoldable pub last_end : Forest → ℕ
last_end nil = 0
last_end (node segment children siblings) =
    max (end_of segment) (max (last_end children) (last_end siblings))

-- What a segment keeps of earlier passes: nothing, or its own time.
abbrev pub IsOwn : Segment → Forest → Type 0
IsOwn segment children =
    (segment.exclusive ≡ none) ⊎ (segment.exclusive ≡ some (pos (own_time segment children)))

-- No segment starts before its parent, and no wrong time was kept.
abbrev pub IsTimely : (parent_start : ℕ) → Forest → Type 0
IsTimely parent_start nil = Unit
IsTimely parent_start (node segment children siblings) =
    (parent_start ≤ segment.start)
    × (IsOwn segment children × (IsTimely segment.start children × IsTimely parent_start siblings))

-- `visited` is what the pass has to give for `forest`.
pub record IsVisit (parent_start : ℕ) (forest : Forest) (visited : Visited) : Type 0 where
  pub nodes : visited.nodes ≡ with_own_times forest
  pub total : visited.total ≡ pos (own_times forest)
  pub max_end : visited.max_end ≡ last_end forest
  pub from : IsFrom parent_start visited.ranges
  pub same : (t : ℕ) → covers t visited.ranges ≡ covers t (raw_ranges forest)

sum_three : (a b c : ℕ) → pos b +ℤ pos a +ℤ pos c ≡ pos (a + b + c)
sum_three a b c = omega int_laws

module _ (segment : Segment) (children : Forest) (kept : IsOwn segment children) where
  abbrev pairs_of : Visited → List Range
  pairs_of below = merge_sorted_ranges (sort_by_start below.ranges)

  -- The disjoint ranges under a segment.
  pairs-IsMerge :
      (below : Visited)
      → IsVisit segment.start children below
      → IsMerge segment.start (pairs_of below) (λ t. covers t (raw_ranges children))
  pairs-IsMerge below v =
      let merged = sorted_pairs-IsMerge segment.start below.ranges v.from in
      (merged.0, λ t. merged.1 t ∙ v.same t)

  calculated :
      (below : Visited)
      → IsVisit segment.start children below
      → calculate_exclusive_duration (pairs_of below) segment
        ≡ record segment { exclusive = some (pos (own_time segment children)) }
  unfolding free calculate_exclusive_duration
  calculated below v =
      let merged = pairs-IsMerge below v in
      let fresh = λ (unset : is_set segment.exclusive ≡ false).
        calculate_exclusive_duration-free (pairs_of below) segment unset merged.0
        ∙ ap (λ duration. record segment { exclusive = some (pos duration) })
            (count-same _ _ segment.start segment.duration (λ t. ap not (merged.1 t))) in
      elim (Bool-cases (is_set segment.exclusive)) [
        | inl set ↦ elim kept [
          | inl nothing ↦ absurd (let e = rw nothing at set in cc)
          | inr own ↦
              rw (calculate_exclusive_duration, set)
                (ap (λ duration. record segment { exclusive = duration }) own)
        ]
        | inr unset ↦ fresh unset
      ]

  -- What a node gives to its parent.
  propagated-IsMerge :
      (below : Visited)
      → IsVisit segment.start children below
      → IsMerge segment.start
          (merge_ranges (pairs_of below) (to_range segment ∷ []))
          (λ t. covers t (to_range segment ∷ raw_ranges children))
  unfolding covers
  propagated-IsMerge below v =
      let pairs = pairs-IsMerge below v in
      let merged =
        merge_ranges-IsMerge segment.start (pairs_of below) (to_range segment ∷ []) pairs.0
          (omega arith, omega arith, tt) in
      (
        merged.0,
        λ t.
            merged.1 t
            ∙ ap (λ c. c || (holds t (to_range segment) || false)) (pairs.1 t)
            ∙ or_flip (covers t (raw_ranges children)) (holds t (to_range segment)),
      )
    where
      or_flip : (a b : Bool) → (a || (b || false)) ≡ (b || a)
      or_flip a b = ground arith

pub visit-IsVisit : (b : ℕ) (forest : Forest) → IsTimely b forest → IsVisit b forest (visit forest)
unfolding visit with_own_times own_times last_end raw_ranges covers
visit-IsVisit b nil timely = record {
  nodes = refl;
  total = refl;
  max_end = refl;
  from = tt;
  same = λ t. refl;
}
visit-IsVisit b (node segment children siblings) timely =
    let below = visit-IsVisit segment.start children timely.1.1.0 in
    let beside = visit-IsVisit b siblings timely.1.1.1 in
    let own = calculated segment children timely.1.0 (visit children) below in
    let gives = propagated-IsMerge segment children timely.1.0 (visit children) below in
    record {
      nodes = rw (own, below.nodes, beside.nodes) refl;
      total =
          rw (own, below.total, beside.total)
            (sum_three (own_time segment children) (own_times children) (own_times siblings));
      max_end = rw (below.max_end, beside.max_end) refl;
      from =
          IsFrom-append b _ _
            (IsFrom-later b segment.start _ timely.0 (IsSeparated-IsFrom segment.start _ gives.0))
            beside.from;
      same = λ t.
          covers-append t _ (visit siblings).ranges
          ∙ ap₂ ◌||◌ (gives.1 t) (beside.same t)
          ∙ or_assoc (holds t (to_range segment)) (covers t (raw_ranges children))
              (covers t (raw_ranges siblings))
          ∙ ap (λ c. holds t (to_range segment) || c)
              (sym (covers-append t (raw_ranges children) (raw_ranges siblings)));
    }

-- With the trace's own root: its duration grows to the last end in the trace.
unfoldable pub with_root : Trace → Trace
unfolding with_own_times last_end
with_root trace =
    let last = max (end_of trace.root) (last_end trace.segments) in
    record {
      root = record trace.root {
        duration = max trace.root.duration (last - trace.root.start);
        exclusive = some (pos (own_time trace.root trace.segments));
      };
      segments = with_own_times trace.segments;
    }

root-longer :
    (segment : Segment) (duration : ℕ)
    → (if ltb segment.duration duration then record segment { duration = duration } else segment)
      ≡ record segment { duration = max segment.duration duration }
root-longer segment duration = elim (Bool-cases (ltb segment.duration duration)) [
  | inl longer ↦
      let grown : duration ≡ max segment.duration duration = ground arith in
      rw longer (ap (λ d. record segment { duration = d }) grown)
  | inr shorter ↦
      let stays : segment.duration ≡ max segment.duration duration = ground arith in
      rw shorter (ap (λ d. record segment { duration = d }) stays)
]

-- In a trace in which no segment starts before its parent, the pass gives every segment, the root
-- included, the number of its instants in which no segment under it runs; the total is the sum over
-- the segments other than the root, and the root's duration grows to the last end in the trace.
pub compute_total_time-own_times :
    (trace : Trace)
    → IsOwn trace.root trace.segments
    → IsTimely trace.root.start trace.segments
    → compute_total_time trace ≡ (with_root trace, pos (own_times trace.segments))
unfolding compute_total_time with_root
compute_total_time-own_times trace kept timely =
    let below = visit-IsVisit trace.root.start trace.segments timely in
    let own = calculated trace.root trace.segments kept (visit trace.segments) below in
    rw (own, below.nodes, below.total, below.max_end)
      (ap
        (λ root. (
          record { root = root; segments = with_own_times trace.segments },
          pos (own_times trace.segments),
        ))
        (root-longer
          (record trace.root { exclusive = some (pos (own_time trace.root trace.segments)) })
          (max (end_of trace.root) (last_end trace.segments) - trace.root.start)))
