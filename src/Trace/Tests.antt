-- ===== src/Trace/Tests.antt =====
-- lib/transaction/trace: a trace with a segment that outlives its parent.
use node_newrelic.Trace.{Range, Segment, Forest, nil, node, Trace, compute_total_time, merge_ranges}
use node_newrelic.Trace.Totals.{own_times, with_root, IsTimely, compute_total_time-own_times}
use node_newrelic.Trace.Again.{compute_total_time-twice}
use node_newrelic.Shared.Int.{pos, ◌+ℤ◌, ◌-ℤ◌}
use node_newrelic.Shared.{ℕ, ◌≡◌, refl, inl, none, some, List, [], ◌∷◌, arith}

abbrev segment : ℕ → ℕ → Segment
segment start duration = record { start = start; duration = duration; exclusive = none }

abbrev early : List Range
early = (1, 3) ∷ (5, 8) ∷ []

abbrev late : List Range
late = (2, 4) ∷ (6, 12) ∷ []

merged : merge_ranges early late ≡ (1, 4) ∷ (5, 12) ∷ []
unfolding merge_ranges
merged = refl

-- The last segment ends two instants after the root.
abbrev async_segments : Forest
async_segments = node (segment 1 5) (node (segment 2 1) nil nil) (node (segment 4 8) nil nil)

abbrev async_trace : Trace
async_trace = record { root = segment 0 10; segments = async_segments }

async_total : (compute_total_time async_trace).1 ≡ pos 13
unfolding compute_total_time ◌+ℤ◌ ◌-ℤ◌
async_total = refl

async_root :
    (compute_total_time async_trace).0.root
    ≡ record { start = 0; duration = 12; exclusive = some (pos 1) }
unfolding compute_total_time ◌-ℤ◌
async_root = refl

async_IsTimely : IsTimely 0 async_segments
async_IsTimely = (
  omega arith,
  (inl refl, ((omega arith, (inl refl, (tt, tt))), (omega arith, (inl refl, (tt, tt))))),
)

compute_total_time-own_times_example :
    compute_total_time async_trace ≡ (with_root async_trace, pos (own_times async_segments))
compute_total_time-own_times_example =
    compute_total_time-own_times async_trace (inl refl) async_IsTimely

compute_total_time-twice_example :
    ((compute_total_time (compute_total_time async_trace).0).1 ≡ (compute_total_time async_trace).1)
    × ((compute_total_time (compute_total_time async_trace).0).0.segments
        ≡ (compute_total_time async_trace).0.segments)
compute_total_time-twice_example = compute_total_time-twice async_trace async_IsTimely
