-- ===== src/PartialTrace/Groups.antt =====
-- lib/spans/span-event.js: `getEntityGroup` and the end of `applyPartialTraceRules`.
use node_newrelic.PartialTrace.Spans.{SpanEvent, is_empty, has_same_entity_attrs}
use node_newrelic.PartialTrace.Rules.{
  PartialType, reduced, essential, compact, PartialTrace, get_entity_group, group_span,
  apply_partial_trace_rules, add_span, only_filtered, entity_rules, is_compact,
}
use node_newrelic.Shared.Dict.{Dict, lookup, insert, lookup-insert}
use node_newrelic.Shared.{
  ◌≡◌, refl, sym, ap, ◌∙◌, inl, inr, String, Bool, true, false, not, Option, none, some, List, [],
  ◌∷◌, ◌++◌, arith, str_eq, eq_iff, Bool-cases, Option-cases, if◌then◌else◌, subst,
}

-- Each span talks to the entity of the first.
abbrev pub AllSame : SpanEvent → List SpanEvent → Type 0
AllSame first [] = Unit
AllSame first (span ∷ spans) = (has_same_entity_attrs span first ≡ true) × AllSame first spans

abbrev pub HeadDiffers : SpanEvent → List SpanEvent → Type 0
HeadDiffers first [] = Unit
HeadDiffers first (other ∷ group) = has_same_entity_attrs other first ≡ false

-- The first spans of later groups talk to other entities.
abbrev pub OthersDiffer : SpanEvent → Dict (List SpanEvent) → Type 0
OthersDiffer first [] = Unit
OthersDiffer first ((key, group) ∷ groups) = HeadDiffers first group × OthersDiffer first groups

-- Each group stands under the id of the span that was kept for it and holds only spans that talk to
-- its entity, and no two groups are for the same entity.
abbrev pub IsGrouped : Dict (List SpanEvent) → Type 0
IsGrouped [] = Unit
IsGrouped ((key, []) ∷ groups) = ⊥
IsGrouped ((key, first ∷ group) ∷ groups) =
    (key ≡ first.id)
    × AllSame first group
    × OthersDiffer first groups
    × (lookup key groups ≡ none)
    × IsGrouped groups

AllSame-append :
    (first span : SpanEvent) (group : List SpanEvent)
    → has_same_entity_attrs span first ≡ true
    → AllSame first group
    → AllSame first (group ++ span ∷ [])
AllSame-append first span [] e s = (e, tt)
AllSame-append first span (other ∷ group) e s = (s.0, AllSame-append first span group e s.1)

-- A new group at the end.
OthersDiffer-new :
    (first span : SpanEvent) (groups : Dict (List SpanEvent))
    → lookup span.id groups ≡ none
    → has_same_entity_attrs span first ≡ false
    → OthersDiffer first groups
    → OthersDiffer first (insert span.id (span ∷ []) groups)
OthersDiffer-new first span [] fresh e d = (e, tt)
OthersDiffer-new first span ((key, group) ∷ groups) fresh e d =
    elim (Bool-cases (str_eq key span.id)) [
      | inl same ↦ absurd (let e' = rw same at fresh in cc)
      | inr differs ↦
          rw differs (d.0, OthersDiffer-new first span groups (rw differs at fresh) e d.1)
    ]

-- A span added to a group.
OthersDiffer-joined :
    (first f span : SpanEvent) (key : String) (group : List SpanEvent)
    (groups : Dict (List SpanEvent))
    → lookup key groups ≡ some (f ∷ group)
    → OthersDiffer first groups
    → OthersDiffer first (insert key (f ∷ group ++ span ∷ []) groups)
OthersDiffer-joined first f span key group [] found d = absurd cc
OthersDiffer-joined first f span key group ((k, g) ∷ groups) found d =
    elim (Bool-cases (str_eq k key)) [
      | inl same ↦
          let here : g ≡ f ∷ group = (let e = rw same at found in cc) in
          rw same (subst (HeadDiffers first) here d.0, d.1)
      | inr differs ↦
          rw differs
            (d.0, OthersDiffer-joined first f span key group groups (rw differs at found) d.1)
    ]

-- A key of later groups is not the first one.
elsewhere :
    (k key : String) (f : SpanEvent) (own : List SpanEvent) (groups : Dict (List SpanEvent))
    (group : List SpanEvent)
    → lookup k groups ≡ none
    → lookup key groups ≡ some group
    → lookup key ((k, f ∷ own) ∷ groups) ≡ some group
elsewhere k key f own groups group fresh found = elim (Bool-cases (str_eq k key)) [
  | inl same ↦ absurd (let at_key = (eq_iff k key).0 same in let e = rw at_key at fresh in cc)
  | inr differs ↦ rw differs found
]

-- What the search finds is the group of the entity.
get_entity_group-found :
    (span : SpanEvent) (groups : Dict (List SpanEvent)) (key : String) (group : List SpanEvent)
    → IsGrouped groups
    → get_entity_group span groups ≡ some (key, group)
    → (first : SpanEvent) × (rest : List SpanEvent) × (group ≡ first ∷ rest)
      × (lookup key groups ≡ some group)
      × (has_same_entity_attrs span first ≡ true)
unfolding get_entity_group
get_entity_group-found span [] key group g e = absurd cc
get_entity_group-found span ((k, []) ∷ groups) key group g e = absurd g
get_entity_group-found span ((k, f ∷ own) ∷ groups) key group g e =
    elim (Bool-cases (has_same_entity_attrs span f)) [
      | inl same ↦
          let e' : some (k, f ∷ own) ≡ some (key, group) = rw (get_entity_group, same) at e in
          let at_key : k ≡ key = cc in
          let whole : group ≡ f ∷ own = cc in
          let true_key : str_eq k key ≡ true = (eq_iff k key).1 at_key in
          (f, own, whole, rw true_key (ap some (sym whole)), same)
      | inr differs ↦
          let (first, rest, whole, found, alike) =
            get_entity_group-found span groups key group g.4
              (rw (get_entity_group, differs) at e) in
          (first, rest, whole, elsewhere k key f own groups group g.3 found, alike)
    ]

-- An entity without a group is not that of any first span.
get_entity_group-none :
    (span : SpanEvent) (groups : Dict (List SpanEvent))
    → IsGrouped groups
    → lookup span.id groups ≡ none
    → get_entity_group span groups ≡ none
    → IsGrouped (insert span.id (span ∷ []) groups)
unfolding get_entity_group
get_entity_group-none span [] g fresh e = (refl, tt, tt, refl, tt)
get_entity_group-none span ((k, []) ∷ groups) g fresh e = absurd g
get_entity_group-none span ((k, f ∷ own) ∷ groups) g fresh e =
    elim (Bool-cases (str_eq k span.id)) [
      | inl taken ↦ absurd (let e' = rw taken at fresh in cc)
      | inr differs ↦ elim (Bool-cases (has_same_entity_attrs span f)) [
        | inl same ↦ absurd (let e' = rw (get_entity_group, same) at e in cc)
        | inr other ↦
            let fresh' = rw differs at fresh in
            rw differs (
              g.0,
              g.1,
              OthersDiffer-new f span groups fresh' other g.2,
              ground (
                arith,
                lookup-insert span.id k (span ∷ []) groups,
                eq_iff k span.id,
                eq_iff span.id k,
                g.3,
              ),
              get_entity_group-none span groups g.4 fresh' (rw (get_entity_group, other) at e),
            )
      ]
    ]

joined-IsGrouped :
    (span f : SpanEvent) (key : String) (rest : List SpanEvent) (groups : Dict (List SpanEvent))
    → IsGrouped groups
    → lookup key groups ≡ some (f ∷ rest)
    → has_same_entity_attrs span f ≡ true
    → IsGrouped (insert key (f ∷ rest ++ span ∷ []) groups)
joined-IsGrouped span f key rest [] g found same = absurd cc
joined-IsGrouped span f key rest ((k, []) ∷ groups) g found same = absurd g
joined-IsGrouped span f key rest ((k, first ∷ own) ∷ groups) g found same =
    elim (Bool-cases (str_eq k key)) [
      | inl at_key ↦
          let e : some (first ∷ own) ≡ some (f ∷ rest) = rw at_key at found in
          let here : first ∷ own ≡ f ∷ rest = cc in
          let head : f ≡ first = cc in
          let alike = subst (λ x. has_same_entity_attrs span x ≡ true) head same in
          rw at_key (
            subst (λ l. IsGrouped ((k, l ++ span ∷ []) ∷ groups)) here
              (g.0, AllSame-append first span own alike g.1, g.2, g.3, g.4))
      | inr differs ↦
          let found' = rw differs at found in
          rw differs (
            g.0,
            g.1,
            OthersDiffer-joined first f span key rest groups found' g.2,
            ground (
              arith,
              lookup-insert key k (f ∷ rest ++ span ∷ []) groups,
              eq_iff k key,
              eq_iff key k,
              g.3,
            ),
            joined-IsGrouped span f key rest groups g.4 found' same,
          )
    ]

group_span-IsGrouped :
    (span : SpanEvent) (trace : PartialTrace)
    → lookup span.id trace.compact_span_groups ≡ none
    → IsGrouped trace.compact_span_groups
    → IsGrouped (group_span span trace).1.compact_span_groups
unfolding group_span
group_span-IsGrouped span trace fresh g =
    elim (Option-cases (get_entity_group span trace.compact_span_groups)) [
      | inl alone ↦
          rw (group_span, alone)
            (get_entity_group-none span trace.compact_span_groups g fresh alone)
      | inr ((key, group), found) ↦
          let (first, rest, whole, there, same) =
            get_entity_group-found span trace.compact_span_groups key group g found in
          rw (group_span, found)
            (subst (λ l. IsGrouped (insert key (l ++ span ∷ []) trace.compact_span_groups))
              (sym whole)
              (joined-IsGrouped span first key rest trace.compact_span_groups g
                (there ∙ ap some whole) same))
    ]

entity_rules-IsGrouped :
    (span : SpanEvent) (trace : PartialTrace)
    → lookup span.id trace.compact_span_groups ≡ none
    → IsGrouped trace.compact_span_groups
    → IsGrouped (entity_rules span trace).1.compact_span_groups
entity_rules-IsGrouped span trace fresh g = of_type trace.partial_type refl
  where
    of_type :
        (t : PartialType)
        → trace.partial_type ≡ t
        → IsGrouped (entity_rules span trace).1.compact_span_groups
    of_type reduced e = rw (entity_rules, e) g
    of_type essential e = rw (entity_rules, e) g
    of_type compact e =
        rw (entity_rules, e) (group_span-IsGrouped (only_filtered span) trace fresh g)

rules-IsGrouped :
    (is_entry : Bool) (span : SpanEvent) (trace : PartialTrace)
    → lookup span.id trace.compact_span_groups ≡ none
    → IsGrouped trace.compact_span_groups
    → IsGrouped (apply_partial_trace_rules is_entry span trace).1.compact_span_groups
unfolding apply_partial_trace_rules
rules-IsGrouped true span trace fresh g = g
rules-IsGrouped false span trace fresh g = both span.is_llm_span _ _ g (
    both (not span.is_exit_span) _ _ g
      (both (is_empty span.entity_attrs) _ _ g (entity_rules-IsGrouped span trace fresh g)))
  where
    both :
        (b : Bool) (x y : Option SpanEvent × PartialTrace)
        → IsGrouped x.1.compact_span_groups
        → IsGrouped y.1.compact_span_groups
        → IsGrouped (if b then x else y).1.compact_span_groups
    both true x y p q = p
    both false x y p q = q

groups-add_span :
    (is_entry : Bool) (span : SpanEvent) (trace : PartialTrace)
    → (add_span is_entry span trace).compact_span_groups
      ≡ (apply_partial_trace_rules is_entry span trace).1.compact_span_groups
unfolding add_span
groups-add_span is_entry span trace =
    elim (Option-cases (apply_partial_trace_rules is_entry span trace).0) [
      | inl dropped ↦
          elim (Bool-cases
            (is_compact (apply_partial_trace_rules is_entry span trace).1.partial_type)) [
              | inl c ↦ rw (add_span, dropped, c) refl
              | inr c ↦ rw (add_span, dropped, c) refl
            ]
      | inr (own, kept) ↦ rw (add_span, kept) refl
    ]

-- In a trace of any type, adding a span with a new id keeps this: each group stands under the id of
-- the span that was kept for it and holds only spans that talk to its entity, and no two groups are
-- for the same entity.
pub add_span-IsGrouped :
    (is_entry : Bool) (span : SpanEvent) (trace : PartialTrace)
    → lookup span.id trace.compact_span_groups ≡ none
    → IsGrouped trace.compact_span_groups
    → IsGrouped (add_span is_entry span trace).compact_span_groups
add_span-IsGrouped is_entry span trace fresh g =
    subst IsGrouped (sym (groups-add_span is_entry span trace))
      (rules-IsGrouped is_entry span trace fresh g)
