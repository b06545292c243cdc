-- ===== src/Trace.antt =====
-- lib/transaction/trace: the tree of segments (segment-tree.js), the exclusive time of a segment
-- (segment.js), and the total time of a trace (index.js). Times are whole numbers of one fixed
-- fraction of a millisecond, and durations are read at one instant.
use node_newrelic.Shared.Int.{ℤ, pos, sub_ℕ, ◌+ℤ◌, ◌-ℤ◌, ltb_ℤ}
use node_newrelic.Shared.{
  ℕ, zero, suc, ◌+◌, ◌-◌, ◌≡◌, Bool, true, false, Option, none, some, if◌then◌else◌, List, [], ◌∷◌,
  ◌++◌, length, leb, ltb, max, min,
}
pub mod Ranges
pub mod Merging
pub mod FreeTime
pub mod Totals
mod Again
mod Tests

-- `[start, end]`
abbrev pub Range : Type 0
Range = ℕ × ℕ

abbrev pub extend : Range → Range → Range
extend last current = (last.0, max last.1 current.1)

-- The loop of `_mergeSortedRanges`, with the range that `res` ends in.
unfoldable pub merge_after : Range → List Range → List Range
merge_after last [] = last ∷ []
merge_after last (current ∷ ranges) = elim (leb current.0 last.1) [
  | true ↦ merge_after (extend last current) ranges
  | false ↦ last ∷ merge_after current ranges
]

unfoldable pub merge_sorted_ranges : List Range → List Range
unfolding merge_after
merge_sorted_ranges [] = []
merge_sorted_ranges (range ∷ ranges) = merge_after range ranges

-- The end of `_mergeRanges`: what is left of one list, from the current interval on.
unfoldable pub absorb : Range → List Range → List Range
absorb current [] = current ∷ []
absorb current (range ∷ remainder) = elim (leb range.0 current.1) [
  | true ↦ absorb (extend current range) remainder
  | false ↦ current ∷ range ∷ remainder
]

-- The main loop of `_mergeRanges`; it takes one range in each round.
unfoldable pub merge_loop : (fuel : ℕ) (current : Range) (first second : List Range) → List Range
unfolding absorb
merge_loop zero current first second = absorb current (first ++ second)
merge_loop (suc fuel) current [] second = absorb current second
merge_loop (suc fuel) current (f ∷ first) [] = absorb current (f ∷ first)
merge_loop (suc fuel) current (f ∷ first) (s ∷ second) = elim (ltb f.0 s.0) [
  | true ↦ elim (leb f.0 current.1) [
    | true ↦ merge_loop fuel (extend current f) first (s ∷ second)
    | false ↦ current ∷ merge_loop fuel f first (s ∷ second)
  ]
  | false ↦ elim (leb s.0 current.1) [
    | true ↦ merge_loop fuel (extend current s) (f ∷ first) second
    | false ↦ current ∷ merge_loop fuel s (f ∷ first) second
  ]
]

unfoldable pub merge_ranges : List Range → List Range → List Range
unfolding merge_loop
merge_ranges [] second = second
merge_ranges (f ∷ first) [] = f ∷ first
merge_ranges (f ∷ first) (s ∷ second) =
    let rounds = length (f ∷ first) + length (s ∷ second) in
    if ltb f.0 s.0
    then merge_loop rounds f first (s ∷ second)
    else merge_loop rounds s (f ∷ first) second

-- `allRanges.sort((a, b) => a[0] - b[0])`, which is stable.
unfoldable pub insert_by_start : Range → List Range → List Range
insert_by_start range [] = range ∷ []
insert_by_start range (r ∷ ranges) = elim (leb range.0 r.0) [
  | true ↦ range ∷ r ∷ ranges
  | false ↦ r ∷ insert_by_start range ranges
]

unfoldable pub sort_by_start : List Range → List Range
unfolding insert_by_start
sort_by_start [] = []
sort_by_start (range ∷ ranges) = insert_by_start range (sort_by_start ranges)

-- A segment, with its timer's start and duration.
pub record Segment : Type 0 where
  pub start : ℕ
  pub duration : ℕ
  pub exclusive : Option ℤ

abbrev pub end_of : Segment → ℕ
end_of segment = segment.start + segment.duration

abbrev pub to_range : Segment → Range
to_range segment = (segment.start, end_of segment)

-- The loop of `calculateExclusiveDuration`.
unfoldable pub subtract_children : (end : ℕ) (exclusive : ℤ) (pairs : List Range) → ℤ
subtract_children end exclusive [] = exclusive
subtract_children end exclusive (child ∷ pairs) = elim (leb end child.0) [
  | true ↦ exclusive
  | false ↦ subtract_children end (exclusive -ℤ sub_ℕ (min child.1 end) child.0) pairs
]

-- `if (this._exclusiveDuration)`: a duration that is not 0 was calculated before.
abbrev pub is_set : Option ℤ → Bool
is_set none = false
is_set (some (pos zero)) = false
is_set (some duration) = true

unfoldable pub calculate_exclusive_duration : List Range → Segment → Segment
unfolding subtract_children
calculate_exclusive_duration pairs segment =
    if is_set segment.exclusive then segment else record segment {
      exclusive = some (subtract_children (end_of segment) (pos segment.duration) pairs);
    }

-- The nodes under one parent: the first, with its own children, and its next siblings.
pub data Forest : Type 0 where
  nil : Forest
  node : Segment → Forest → Forest → Forest

-- What `_computeTotalTime` has done when it has passed some nodes.
pub record Visited : Type 0 where
  pub nodes : Forest
  pub ranges : List Range
  pub total : ℤ
  pub max_end : ℕ

abbrev pub or_zero : Option ℤ → ℤ
or_zero none = pos 0
or_zero (some duration) = duration

-- The loop of `_computeTotalTime` over the nodes under one parent. It goes backwards over a list in
-- which every child comes after its parent, so a node is passed after all nodes under it.
unfoldable pub visit : Forest → Visited
unfolding sort_by_start merge_sorted_ranges calculate_exclusive_duration merge_ranges
visit nil = record { nodes = nil; ranges = []; total = pos 0; max_end = 0 }
visit (node segment children siblings) =
    let below = visit children in
    let beside = visit siblings in
    let pairs = merge_sorted_ranges (sort_by_start below.ranges) in
    let segment' = calculate_exclusive_duration pairs segment in
    record {
      nodes = node segment' below.nodes beside.nodes;
      ranges = merge_ranges pairs (to_range segment ∷ []) ++ beside.ranges;
      total = below.total +ℤ or_zero segment'.exclusive +ℤ beside.total;
      max_end = max (end_of segment) (max below.max_end beside.max_end);
    }

pub record Trace : Type 0 where
  pub root : Segment
  pub segments : Forest

-- `_computeTotalTime`: the root's own exclusive time is not part of the total.
unfoldable pub compute_total_time : Trace → Trace × ℤ
unfolding visit sort_by_start merge_sorted_ranges calculate_exclusive_duration
compute_total_time trace =
    let below = visit trace.segments in
    let pairs = merge_sorted_ranges (sort_by_start below.ranges) in
    let root = calculate_exclusive_duration pairs trace.root in
    let max_end = max (end_of trace.root) below.max_end in
    let root_duration = max_end - trace.root.start in
    let longer = ltb trace.root.duration root_duration in
    (
      record {
        root = if longer then record root { duration = root_duration } else root;
        segments = below.nodes;
      },
      below.total,
    )
