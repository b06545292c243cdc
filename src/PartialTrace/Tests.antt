-- ===== src/PartialTrace/Tests.antt =====
-- lib/transaction/trace/partial-trace.js: one trace of each kind.
use node_newrelic.PartialTrace.Spans.{SpanEvent}
use node_newrelic.PartialTrace.Rules.{PartialType, reduced, compact, PartialTrace, create, add_span}
use node_newrelic.PartialTrace.Compaction.{apply_compaction, sort_by_timestamp}
use node_newrelic.PartialTrace.Finalizing.{finalize}
use node_newrelic.PartialTrace.Durations.{ranges_of}
use node_newrelic.PartialTrace.Ids.{ids_of, after_first, apply_compaction-busy, own_id_listed}
use node_newrelic.PartialTrace.Groups.{IsGrouped, add_span-IsGrouped}
use node_newrelic.PartialTrace.Reparenting.{climb, maybe_reparent_span}
use node_newrelic.PartialTrace.Rooted.{AllClimb, AllReparented, finalize-AllReparented}
use node_newrelic.Trace.FreeTime.{busy}
use node_newrelic.Shared.Dict.{Dict}
use node_newrelic.Shared.{
  ℕ, ◌+◌, ◌≡◌, refl, String, Bool, true, false, Option, none, some, List, [], ◌∷◌, length, take,
  arith,
}

abbrev span : String → Option String → Bool → ℕ → ℕ → Dict String → SpanEvent
span id parent_id is_exit timestamp duration entity_attrs = record {
  id = id;
  parent_id = parent_id;
  is_exit_span = is_exit;
  is_llm_span = false;
  timestamp = timestamp;
  duration = duration;
  entity_attrs = entity_attrs;
  error_attrs = [];
  other_attrs = [];
  custom_attributes = [];
  is_pg = false;
  nr_ids = none;
  nr_durations = none;
}

abbrev entry : SpanEvent
entry = span "entry" none false 0 100 []

abbrev inner : SpanEvent
inner = span "inner" (some "entry") false 10 50 []

abbrev deeper : SpanEvent
deeper = span "deeper" (some "inner") false 20 20 []

abbrev query : SpanEvent
query = span "query" (some "deeper") true 30 10 (("db.instance", "orders") ∷ [])

abbrev second_query : SpanEvent
second_query = span "second" (some "entry") true 25 10 (("db.instance", "orders") ∷ [])

abbrev of_type : PartialType → PartialTrace
of_type t = add_span false second_query (
    add_span false query
      (add_span false deeper (add_span false inner (add_span true entry (create t)))))

-- The spans between the query and the entry are dropped.
reduced_dropped :
    (of_type reduced).dropped_spans ≡ ("inner", some "entry") ∷ ("deeper", some "inner") ∷ []
unfolding add_span create
reduced_dropped = refl

abbrev reduced_trace : PartialTrace
reduced_trace = record {
  partial_type = reduced;
  spans = entry ∷ query ∷ [];
  dropped_spans = ("inner", some "entry") ∷ ("deeper", some "inner") ∷ [];
  compact_span_groups = [];
  instrumented = 4;
  kept = 2;
  dropped_ids = 0;
}

abbrev reduced_climbs : AllClimb reduced_trace.dropped_spans reduced_trace.spans
reduced_climbs = (
  (0, none, (tt, refl), refl),
  (
    (
      2,
      some "entry",
      ("deeper", some "inner", refl, refl, ("inner", some "entry", refl, refl, (refl, refl))),
      refl,
    ),
    tt,
  ),
)

finalize-AllReparented_example :
    AllReparented reduced_trace.dropped_spans reduced_trace.spans
      (finalize "entry" reduced_trace).1
      reduced_climbs
finalize-AllReparented_example =
    finalize-AllReparented "entry" reduced_trace reduced_climbs refl (refl, (refl, tt))

abbrev compact_groups : Dict (List SpanEvent)
compact_groups = ("query", query ∷ second_query ∷ []) ∷ []

compact_grouped : (of_type compact).compact_span_groups ≡ compact_groups
unfolding add_span create
compact_grouped = refl

-- Both queries together run from 25 to 40.
apply_compaction-busy_example :
    ((apply_compaction "entry" compact_groups query).0.nr_durations
      ≡ some (busy 20 30 (ranges_of (query ∷ second_query ∷ []))))
    × ((apply_compaction "entry" compact_groups query).0.nr_ids
        ≡ some (take 63 (ids_of (after_first (sort_by_timestamp (query ∷ second_query ∷ []))))))
    × (length (take 63 (ids_of (after_first (sort_by_timestamp (query ∷ second_query ∷ [])))))
          + (apply_compaction "entry" compact_groups query).1
        ≡ length (after_first (sort_by_timestamp (query ∷ second_query ∷ []))))
apply_compaction-busy_example =
    apply_compaction-busy "entry" compact_groups query (query ∷ second_query ∷ []) 20 30 refl
      (omega arith) (omega arith, omega arith, (omega arith, omega arith, tt))
      (omega arith, (omega arith, tt))

both_queries : (apply_compaction "entry" compact_groups query).0.nr_durations ≡ some 15
unfolding apply_compaction
both_queries = refl

own_id_listed_example :
    (apply_compaction "entry" compact_groups query).0.nr_ids ≡ some ("query" ∷ [])
own_id_listed_example = own_id_listed "entry" compact_groups query second_query refl (omega arith)

add_span-IsGrouped_example :
    IsGrouped
      (add_span false second_query (record reduced_trace {
        partial_type = compact;
        compact_span_groups = ("query", query ∷ []) ∷ [];
      })).compact_span_groups
add_span-IsGrouped_example =
    add_span-IsGrouped false second_query
      (record reduced_trace {
        partial_type = compact;
        compact_span_groups = ("query", query ∷ []) ∷ [];
      })
      refl (refl, tt, tt, refl, tt)

-- Over the last dropped span there is no other: the query keeps its dropped parent.
no_way_up : maybe_reparent_span (("deeper", some "inner") ∷ ("inner", none) ∷ []) query ≡ query
unfolding climb maybe_reparent_span
no_way_up = refl
