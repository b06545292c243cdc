-- ===== src/PartialTrace/Finalizing.antt =====
-- lib/transaction/trace/partial-trace.js: the spans that go to the aggregator, and the reset.
use node_newrelic.PartialTrace.Spans.{SpanEvent}
use node_newrelic.PartialTrace.Rules.{compact, PartialTrace}
use node_newrelic.PartialTrace.Reparenting.{maybe_reparent_span}
use node_newrelic.PartialTrace.Compaction.{apply_compaction}
use node_newrelic.Shared.{ℕ, ◌+◌, String, List, [], ◌∷◌}

-- The loop of `finalize`: what goes to the aggregator, and the ids that did not fit.
unfoldable pub finalize_spans :
    (base_id : String) → PartialTrace → List SpanEvent → List SpanEvent × ℕ
unfolding apply_compaction maybe_reparent_span
finalize_spans base_id trace [] = ([], 0)
finalize_spans base_id trace (span ∷ spans) =
    let (sent, more) = finalize_spans base_id trace spans in
    elim trace.partial_type [
      | compact ↦
          let (own, lost) = apply_compaction base_id trace.compact_span_groups span in
          (own ∷ sent, lost + more)
      | other ↦ (maybe_reparent_span trace.dropped_spans span ∷ sent, more)
    ]

abbrev pub reset : PartialTrace → PartialTrace
reset trace = record trace { spans = []; dropped_spans = []; compact_span_groups = [] }

unfoldable pub finalize : (base_id : String) → PartialTrace → PartialTrace × List SpanEvent
unfolding finalize_spans
finalize base_id trace =
    let (sent, lost) = finalize_spans base_id trace trace.spans in
    (reset (record trace { dropped_ids = trace.dropped_ids + lost }), sent)
