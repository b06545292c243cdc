-- ===== src/PartialTrace/Compaction.antt =====
-- lib/transaction/trace/partial-trace.js: what a kept exit span takes over from the spans that talk to
-- the same entity.
use node_newrelic.PartialTrace.Spans.{SpanEvent, is_empty}
use node_newrelic.Shared.Dict.{Dict, lookup, insert}
use node_newrelic.Shared.{
  ℕ, ◌+◌, ◌-◌, String, Bool, true, false, not, Option, none, some, if◌then◌else◌, List, [], ◌∷◌,
  ◌++◌, length, leb, ltb, max, str_eq,
}

-- What `applyCompaction` gathers over the spans of a group.
pub record Meta : Type 0 where
  pub ids : List String
  pub dropped_ids : ℕ
  pub total_duration : ℕ
  pub current : Option (ℕ × ℕ)
  pub error_span : Option SpanEvent

unfoldable pub compaction_error : SpanEvent → Meta → Meta
compaction_error span meta = if is_empty span.error_attrs then meta else elim meta.error_span [
  | none ↦ record meta { error_span = some span }
  | some earlier ↦
      if ltb earlier.timestamp span.timestamp then record meta { error_span = some span } else meta
]

unfoldable pub calculate_duration : SpanEvent → Meta → Meta
calculate_duration span meta =
    let start = span.timestamp in
    let end = start + span.duration in
    elim meta.current [
      | none ↦ record meta { current = some (start, end) }
      | some (current_start, current_end) ↦
          if leb start current_end
          then record meta { current = some (current_start, max current_end end) }
          else record meta {
            total_duration = meta.total_duration + (current_end - current_start);
            current = some (start, end);
          }
    ]

unfoldable pub push_id : SpanEvent → Meta → Meta
push_id span meta =
    if ltb (length meta.ids) 63
    then record meta { ids = meta.ids ++ span.id ∷ [] }
    else record meta { dropped_ids = meta.dropped_ids + 1 }

abbrev pub gather_span : SpanEvent → Meta → Meta
gather_span span meta = calculate_duration span (compaction_error span meta)

-- The loop over the sorted spans after the first, which gives no id.
unfoldable pub gather_rest : List SpanEvent → Meta → Meta
unfolding calculate_duration compaction_error push_id
gather_rest [] meta = meta
gather_rest (span ∷ spans) meta = gather_rest spans (gather_span span (push_id span meta))

abbrev pub no_meta : Meta
no_meta = record {
  ids = [];
  dropped_ids = 0;
  total_duration = 0;
  current = none;
  error_span = none;
}

unfoldable pub gather : List SpanEvent → Meta
unfolding gather_rest
gather [] = no_meta
gather (span ∷ spans) = gather_rest spans (gather_span span no_meta)

-- `sameEntitySpans.sort` by the timestamp, which is stable.
unfoldable pub insert_by_timestamp : SpanEvent → List SpanEvent → List SpanEvent
insert_by_timestamp span [] = span ∷ []
insert_by_timestamp span (s ∷ spans) = elim (leb span.timestamp s.timestamp) [
  | true ↦ span ∷ s ∷ spans
  | false ↦ s ∷ insert_by_timestamp span spans
]

unfoldable pub sort_by_timestamp : List SpanEvent → List SpanEvent
unfolding insert_by_timestamp
sort_by_timestamp [] = []
sort_by_timestamp (span ∷ spans) = insert_by_timestamp span (sort_by_timestamp spans)

-- With the last interval, which `assignCompactAttrs` adds.
abbrev pub whole_duration : Meta → ℕ
whole_duration meta = elim meta.current [
  | none ↦ meta.total_duration
  | some (current_start, current_end) ↦ meta.total_duration + (current_end - current_start)
]

-- Every error attribute passes the filter of the span.
abbrev pub set_each : Dict String → Dict String → Dict String
set_each [] attrs = attrs
set_each ((key, value) ∷ more) attrs = set_each more (insert key value attrs)

abbrev pub errors_of : Option SpanEvent → Dict String
errors_of none = []
errors_of (some span) = span.error_attrs

abbrev pub assign_compact_attrs : Meta → SpanEvent → SpanEvent
assign_compact_attrs meta span = record span {
  nr_ids = some meta.ids;
  nr_durations = some (whole_duration meta);
  error_attrs = set_each (errors_of meta.error_span) span.error_attrs;
}

abbrev pub is_truthy : Option String → Bool
is_truthy none = false
is_truthy (some text) = not (str_eq text "")

-- `applyCompaction`: the span, and how many ids did not fit.
unfoldable pub apply_compaction :
    (base_id : String) → Dict (List SpanEvent) → SpanEvent → SpanEvent × ℕ
unfolding gather sort_by_timestamp
apply_compaction base_id groups span =
    let own = if is_truthy span.parent_id then record span { parent_id = some base_id } else span in
    elim (lookup span.id groups) [
      | none ↦ (own, 0)
      | some same_entity_spans ↦
          if ltb (length same_entity_spans) 2
          then (own, 0)
          else let meta = gather (sort_by_timestamp same_entity_spans) in
            (assign_compact_attrs meta own, meta.dropped_ids)
    ]
