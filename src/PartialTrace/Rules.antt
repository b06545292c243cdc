-- ===== src/PartialTrace/Rules.antt =====
-- lib/transaction/trace/partial-trace.js and the rules of lib/spans/span-event.js that it applies:
-- which spans are kept.
use node_newrelic.PartialTrace.Spans.{SpanEvent, is_empty, has_same_entity_attrs}
use node_newrelic.Shared.Dict.{Dict, insert}
use node_newrelic.Shared.{
  ℕ, ◌+◌, String, Bool, true, false, not, Option, none, some, if◌then◌else◌, List, [], ◌∷◌, ◌++◌,
}

pub data PartialType : Type 0 where
  reduced : PartialType
  essential : PartialType
  compact : PartialType

abbrev pub is_compact : PartialType → Bool
is_compact compact = true
is_compact other = false

pub record PartialTrace : Type 0 where
  pub partial_type : PartialType
  pub spans : List SpanEvent
  pub dropped_spans : Dict (Option String)
  pub compact_span_groups : Dict (List SpanEvent)
  pub instrumented : ℕ
  pub kept : ℕ
  pub dropped_ids : ℕ

unfoldable pub create : PartialType → PartialTrace
create partial_type = record {
  partial_type = partial_type;
  spans = [];
  dropped_spans = [];
  compact_span_groups = [];
  instrumented = 0;
  kept = 0;
  dropped_ids = 0;
}

-- The key of the first group whose first span talks to the same entity.
unfoldable pub get_entity_group :
    SpanEvent → Dict (List SpanEvent) → Option (String × List SpanEvent)
unfolding has_same_entity_attrs
get_entity_group span [] = none
get_entity_group span ((key, []) ∷ groups) = get_entity_group span groups
get_entity_group span ((key, first ∷ group) ∷ groups) =
    if has_same_entity_attrs span first
    then some (key, first ∷ group)
    else get_entity_group span groups

abbrev pub only_filtered : SpanEvent → SpanEvent
only_filtered span = record span { other_attrs = []; custom_attributes = [] }

-- The end of the rules, for an exit span with entity attributes in a compact trace.
unfoldable pub group_span : SpanEvent → PartialTrace → Option SpanEvent × PartialTrace
unfolding get_entity_group
group_span span trace = elim (get_entity_group span trace.compact_span_groups) [
  | none ↦ (
    some span,
    record trace { compact_span_groups = insert span.id (span ∷ []) trace.compact_span_groups },
  )
  | some (key, group) ↦ (
    none,
    record trace {
      compact_span_groups = insert key (group ++ span ∷ []) trace.compact_span_groups;
    },
  )
]

abbrev pub entity_rules : SpanEvent → PartialTrace → Option SpanEvent × PartialTrace
entity_rules span trace = elim trace.partial_type [
  | reduced ↦ (some span, trace)
  | essential ↦ (some (only_filtered span), trace)
  | compact ↦ group_span (only_filtered span) trace
]

unfoldable pub apply_partial_trace_rules :
    (is_entry : Bool) → SpanEvent → PartialTrace → Option SpanEvent × PartialTrace
unfolding group_span
apply_partial_trace_rules is_entry span trace =
    if is_entry
    then (some (record span { is_pg = true }), trace)
    else if span.is_llm_span
    then (some span, trace)
    else if not span.is_exit_span
    then (none, trace)
    else if is_empty span.entity_attrs
    then (none, trace)
    else entity_rules span trace

abbrev pub create_metrics : Bool → PartialTrace → PartialTrace
create_metrics span_kept trace = record trace {
  instrumented = trace.instrumented + 1;
  kept = if span_kept then trace.kept + 1 else trace.kept;
}

unfoldable pub add_span : (is_entry : Bool) → SpanEvent → PartialTrace → PartialTrace
unfolding apply_partial_trace_rules
add_span is_entry span trace =
    let (ruled, trace') = apply_partial_trace_rules is_entry span trace in
    elim ruled [
      | some own ↦
          let counted = create_metrics true trace' in
          record counted { spans = counted.spans ++ own ∷ [] }
      | none ↦
          let counted = create_metrics false trace' in
          if is_compact counted.partial_type then counted else record counted {
            dropped_spans = insert span.id span.parent_id counted.dropped_spans;
          }
    ]
