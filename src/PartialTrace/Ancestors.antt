-- ===== src/PartialTrace/Ancestors.antt =====
-- lib/transaction/trace/partial-trace.js: the way up of `maybeReparentSpan` over dropped spans.
use node_newrelic.PartialTrace.Spans.{SpanEvent}
use node_newrelic.PartialTrace.Reparenting.{get_parent, climb, maybe_reparent_span}
use node_newrelic.Shared.Dict.{
  Dict, lookup, remove, IsDistinct, remove-lookup, remove-IsDistinct, length-remove,
}
use node_newrelic.Shared.{
  ℕ, zero, suc, ◌≤◌, ◌≡◌, refl, sym, ap, ◌∙◌, inl, inr, String, Bool, false, Option, none, some,
  length, arith, str_eq, eq_iff, Bool-cases, Option-cases, subst,
}

-- No dropped span, or no span at all.
abbrev pub IsTop : Dict (Option String) → Option String → Type 0
IsTop dropped none = Unit
IsTop dropped (some id) = lookup id dropped ≡ none

-- From one span over so many dropped ones up to `top`.
abbrev pub Climbs : Dict (Option String) → ℕ → (from top : Option String) → Type 0
Climbs dropped zero from top = IsTop dropped from × (from ≡ top)
Climbs dropped (suc steps) from top =
    (id : String) × (parent : Option String) × (from ≡ some id)
    × (lookup id dropped ≡ some parent)
    × Climbs dropped steps parent top

top_not_dropped :
    (dropped : Dict (Option String)) (from parent : Option String) (id : String) {A : Type 0}
    → IsTop dropped from
    → from ≡ some id
    → lookup id dropped ≡ some parent
    → A
top_not_dropped dropped from parent id t e found = absurd (let t' = subst (IsTop dropped) e t in cc)

steps_unique :
    (dropped : Dict (Option String)) (a b : ℕ) (from top top' : Option String)
    → Climbs dropped a from top
    → Climbs dropped b from top'
    → a ≡ b
steps_unique dropped zero zero from top top' p q = refl
steps_unique dropped zero (suc b) from top top' p q =
    top_not_dropped dropped from q.1 q.0 p.0 q.2 q.3
steps_unique dropped (suc a) zero from top top' p q =
    top_not_dropped dropped from p.1 p.0 q.0 p.2 p.3
steps_unique dropped (suc a) (suc b) from top top' p q =
    let same : q.1 ≡ p.1 = cc in
    ap suc
      (steps_unique dropped a b p.1 top top' p.4 (subst (λ r. Climbs dropped b r top') same q.4))

-- The way up from an ancestor does not come back to the span below it.
climb-removed :
    (dropped : Dict (Option String)) (id : String) (k j : ℕ) (parent from top : Option String)
    → IsDistinct dropped
    → lookup id dropped ≡ some parent
    → Climbs dropped k parent top
    → Climbs dropped j from top
    → j ≤ k
    → Climbs (remove id dropped) j from top
climb-removed dropped id k zero parent none top d found p q le = q
climb-removed dropped id k zero parent (some other) top d found p q le =
    (ground (arith, remove-lookup id other dropped d, q.0), q.1)
climb-removed dropped id k (suc j) parent from top d found p q le =
    elim (Bool-cases (str_eq id q.0)) [
      | inl same ↦
          let e : q.0 ≡ id = sym ((eq_iff id q.0).0 same) in
          absurd (
            omega (
              arith,
              steps_unique dropped (suc j) (suc k) from top top q
                  (id, parent, q.2 ∙ ap some e, found, p),
            ))
      | inr differs ↦ (
        q.0,
        q.1,
        q.2,
        remove-lookup id q.0 dropped d ∙ rw differs q.3,
        climb-removed dropped id k j parent q.1 top d found p q.4 (omega arith),
      )
    ]

-- A way that ends passes each dropped span at most once.
steps_bounded :
    (dropped : Dict (Option String)) (k : ℕ) (from top : Option String)
    → IsDistinct dropped
    → Climbs dropped k from top
    → k ≤ length dropped
steps_bounded dropped zero from top d p = omega arith
steps_bounded dropped (suc k) from top d p = omega (
  arith,
  length-remove p.0 p.1 dropped p.3,
  steps_bounded (remove p.0 dropped) k p.1 top (remove-IsDistinct p.0 dropped d)
      (climb-removed dropped p.0 k k p.1 p.1 top d p.3 p.4 p.4 (omega arith)),
)

climb-top :
    (rounds k : ℕ) (dropped : Dict (Option String)) (from top : Option String)
    → k ≤ rounds
    → Climbs dropped k from top
    → climb rounds dropped from ≡ top
unfolding climb
climb-top zero zero dropped from top le p = p.1
climb-top zero (suc k) dropped from top le p = absurd (omega arith)
climb-top (suc rounds) zero dropped none top le p = p.1
climb-top (suc rounds) zero dropped (some id) top le p = rw (climb, p.0) p.1
climb-top (suc rounds) (suc k) dropped from top le p =
    rw (p.2, climb, p.3) (climb-top rounds k dropped p.1 top (omega arith) p.4)

-- The span with the nearest kept ancestor as its parent, if there is one.
abbrev pub reparented : Option String → SpanEvent → SpanEvent
reparented none span = span
reparented (some id) span = record span { parent_id = some id }

abbrev pub is_blank : Option String → Bool
is_blank none = false
is_blank (some id) = str_eq id ""

get_parent_top :
    (dropped : Dict (Option String)) (from : Option String)
    → IsTop dropped from
    → get_parent from dropped ≡ none
get_parent_top dropped none t = refl
get_parent_top dropped (some id) t = rw (get_parent, t) refl

get_parent_dropped :
    (dropped : Dict (Option String)) (from parent : Option String) (id : String)
    → from ≡ some id
    → lookup id dropped ≡ some parent
    → get_parent from dropped ≡ parent
get_parent_dropped dropped from parent id e found = rw (e, get_parent, found) refl

climb-none : (rounds : ℕ) (dropped : Dict (Option String)) → climb rounds dropped none ≡ none
unfolding climb
climb-none zero dropped = refl
climb-none (suc rounds) dropped = refl

reparented_same : (span : SpanEvent) → reparented span.parent_id span ≡ span
reparented_same span = elim (Option-cases span.parent_id) [
  | inl e ↦ ap (λ parent. reparented parent span) e
  | inr (id, e) ↦
      ap (λ parent. reparented parent span) e
      ∙ ap (λ parent. record span { parent_id = parent }) (sym e)
]

reparented_by :
    (dropped : Dict (Option String)) (span : SpanEvent) (top : Option String)
    → is_blank top ≡ false
    → climb (length dropped) dropped (get_parent span.parent_id dropped) ≡ top
    → maybe_reparent_span dropped span ≡ reparented top span
unfolding maybe_reparent_span
reparented_by dropped span none named e = rw (maybe_reparent_span, e) refl
reparented_by dropped span (some id) named e = rw (maybe_reparent_span, e, named) refl

-- If the way up from the parent of a span over dropped spans ends, however long it is, the span gets
-- the kept ancestor at which it ends as its parent; it stays as it was if there is none.
pub maybe_reparent_span-top :
    (dropped : Dict (Option String)) (span : SpanEvent) (k : ℕ) (top : Option String)
    → IsDistinct dropped
    → Climbs dropped k span.parent_id top
    → is_blank top ≡ false
    → maybe_reparent_span dropped span ≡ reparented top span
maybe_reparent_span-top dropped span zero top d p named =
    reparented_by dropped span none refl (
      ap (climb (length dropped) dropped) (get_parent_top dropped span.parent_id p.0)
      ∙ climb-none (length dropped) dropped)
    ∙ sym (ap (λ t. reparented t span) (sym p.1) ∙ reparented_same span)
maybe_reparent_span-top dropped span (suc k) top d p named = reparented_by dropped span top named (
    ap (climb (length dropped) dropped) (get_parent_dropped dropped span.parent_id p.1 p.0 p.2 p.3)
    ∙ climb-top (length dropped) k dropped p.1 top
        (omega (arith, steps_bounded dropped (suc k) span.parent_id top d p)) p.4)
