-- ===== src/PartialTrace/Reparenting.antt =====
-- lib/transaction/trace/partial-trace.js: a span whose parent was dropped gets another parent.
use node_newrelic.PartialTrace.Spans.{SpanEvent}
use node_newrelic.Shared.Dict.{Dict, lookup}
use node_newrelic.Shared.{ℕ, zero, suc, String, Option, none, some, if◌then◌else◌, length, str_eq}

-- `droppedSpans.get`, where a missing key and a parent that is null come to the same.
abbrev pub get_parent : Option String → Dict (Option String) → Option String
get_parent none dropped = none
get_parent (some id) dropped = elim (lookup id dropped) [ none ↦ none | some parent ↦ parent ]

-- The loop of `maybeReparentSpan`, with as many rounds as there are dropped spans.
unfoldable pub climb : (rounds : ℕ) → Dict (Option String) → Option String → Option String
climb zero dropped result = result
climb (suc rounds) dropped none = none
climb (suc rounds) dropped (some id) = elim (lookup id dropped) [
  | none ↦ some id
  | some parent ↦ climb rounds dropped parent
]

unfoldable pub maybe_reparent_span : Dict (Option String) → SpanEvent → SpanEvent
unfolding climb
maybe_reparent_span dropped span =
    elim (climb (length dropped) dropped (get_parent span.parent_id dropped)) [
      | none ↦ span
      | some result ↦ if str_eq result "" then span else record span { parent_id = some result }
    ]
