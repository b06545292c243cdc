-- ===== src/PartialTrace/Rooted.antt =====
-- lib/transaction/trace/partial-trace.js: the parents of the spans that `finalize` gives in a trace that is
-- not compact.
use node_newrelic.PartialTrace.Spans.{SpanEvent}
use node_newrelic.PartialTrace.Rules.{
  PartialType, reduced, essential, compact, is_compact, PartialTrace,
}
use node_newrelic.PartialTrace.Reparenting.{maybe_reparent_span}
use node_newrelic.PartialTrace.Finalizing.{finalize_spans, finalize}
use node_newrelic.PartialTrace.Ancestors.{
  IsTop, Climbs, reparented, is_blank, maybe_reparent_span-top,
}
use node_newrelic.Shared.Dict.{Dict, lookup, IsDistinct}
use node_newrelic.Shared.{
  ℕ, zero, suc, ◌≡◌, refl, ap, subst, String, false, Option, none, some, List, [], ◌∷◌,
}

-- From every span's parent the way up over dropped spans ends, and not at a blank id.
abbrev pub AllClimb : Dict (Option String) → List SpanEvent → Type 0
AllClimb dropped [] = Unit
AllClimb dropped (span ∷ spans) =
    ((steps : ℕ) × (top : Option String) × Climbs dropped steps span.parent_id top
      × (is_blank top ≡ false))
    × AllClimb dropped spans

-- Where the way ends at a span, the span is under it, and it is one that was not dropped.
abbrev pub IsUnder : Dict (Option String) → (top : Option String) → SpanEvent → Type 0
IsUnder dropped none own = Unit
IsUnder dropped (some id) own = (own.parent_id ≡ some id) × (lookup id dropped ≡ none)

-- The same spans, each under the ancestor at which its way ends, or as it was where it ends at none.
abbrev pub AllReparented :
    (dropped : Dict (Option String)) (spans sent : List SpanEvent) → AllClimb dropped spans → Type 0
AllReparented dropped [] sent climbs = sent ≡ []
AllReparented dropped (span ∷ spans) [] climbs = ⊥
AllReparented dropped (span ∷ spans) (own ∷ sent) climbs =
    (own ≡ reparented climbs.0.1 span)
    × IsUnder dropped climbs.0.1 own
    × AllReparented dropped spans sent climbs.1

Climbs-IsTop :
    (dropped : Dict (Option String)) (steps : ℕ) (from top : Option String)
    → Climbs dropped steps from top
    → IsTop dropped top
Climbs-IsTop dropped zero from top p = subst (IsTop dropped) p.1 p.0
Climbs-IsTop dropped (suc steps) from top p = Climbs-IsTop dropped steps p.1 top p.4

reparented-IsUnder :
    (dropped : Dict (Option String)) (top : Option String) (span own : SpanEvent)
    → own ≡ reparented top span
    → IsTop dropped top
    → IsUnder dropped top own
reparented-IsUnder dropped none span own e t = tt
reparented-IsUnder dropped (some id) span own e t = (ap (λ o. o.parent_id) e, t)

finalize_spans-AllReparented :
    (base_id : String) (trace : PartialTrace) (spans : List SpanEvent)
    (climbs : AllClimb trace.dropped_spans spans)
    → is_compact trace.partial_type ≡ false
    → IsDistinct trace.dropped_spans
    → AllReparented trace.dropped_spans spans (finalize_spans base_id trace spans).0 climbs
unfolding finalize_spans
finalize_spans-AllReparented base_id trace [] climbs e d = refl
finalize_spans-AllReparented base_id trace (span ∷ spans) climbs e d =
    let up =
      maybe_reparent_span-top trace.dropped_spans span climbs.0.0 climbs.0.1 d climbs.0.2
        climbs.0.3 in
    of_type trace.partial_type refl (
      up,
      reparented-IsUnder trace.dropped_spans climbs.0.1 span _ up
          (Climbs-IsTop trace.dropped_spans climbs.0.0 span.parent_id climbs.0.1 climbs.0.2),
      finalize_spans-AllReparented base_id trace spans climbs.1 e d,
    )
  where
    of_type :
        (t : PartialType)
        → trace.partial_type ≡ t
        → (maybe_reparent_span trace.dropped_spans span ≡ reparented climbs.0.1 span)
          × IsUnder trace.dropped_spans climbs.0.1 (maybe_reparent_span trace.dropped_spans span)
          × AllReparented trace.dropped_spans spans (finalize_spans base_id trace spans).0 climbs.1
        → AllReparented trace.dropped_spans
            (span ∷ spans)
            (finalize_spans base_id trace (span ∷ spans)).0
            climbs
    of_type compact e' r = absurd (let e'' = rw e' at e in cc)
    of_type reduced e' r = rw (finalize_spans, e') r
    of_type essential e' r = rw (finalize_spans, e') r

-- In a trace that is not compact, whose dropped spans have different ids, and where from every span's
-- parent the way up over them ends, and not at a blank id, finalize gives the same spans in their order:
-- where the way from a span ends at an ancestor, the span is under that ancestor, which was not dropped;
-- where it ends without one, over the last dropped span, the span is left as it was.
pub finalize-AllReparented :
    (base_id : String) (trace : PartialTrace) (climbs : AllClimb trace.dropped_spans trace.spans)
    → is_compact trace.partial_type ≡ false
    → IsDistinct trace.dropped_spans
    → AllReparented trace.dropped_spans trace.spans (finalize base_id trace).1 climbs
unfolding finalize
finalize-AllReparented base_id trace climbs e d =
    finalize_spans-AllReparented base_id trace trace.spans climbs e d
