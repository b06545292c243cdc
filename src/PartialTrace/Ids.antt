-- ===== src/PartialTrace/Ids.antt =====
-- lib/transaction/trace/partial-trace.js, `applyCompaction`: what a retained exit span takes over from
-- the spans that talk to its entity.
use mathlib.Core.List.{append_assoc, append-nil}
use node_newrelic.PartialTrace.Spans.{SpanEvent}
use node_newrelic.PartialTrace.Compaction.{
  Meta, compaction_error, calculate_duration, push_id, gather_span, gather_rest, gather, no_meta,
  insert_by_timestamp, sort_by_timestamp, apply_compaction, assign_compact_attrs, is_truthy,
}
use node_newrelic.PartialTrace.Durations.{ranges_of, EndBy, whole_duration-busy}
use node_newrelic.Trace.Ranges.{IsFrom}
use node_newrelic.Trace.FreeTime.{busy}
use node_newrelic.Shared.Dict.{Dict, lookup}
use node_newrelic.Shared.{
  ℕ, zero, suc, ◌+◌, ◌≤◌, ◌<◌, ◌≡◌, refl, sym, ap, ap₂, ◌∙◌, inl, inr, String, true, false, some,
  List, [], ◌∷◌, ◌++◌, length, take, length-append, arith, leb, ltb, Bool-cases, if◌then◌else◌,
}

abbrev pub ids_of : List SpanEvent → List String
ids_of [] = []
ids_of (span ∷ spans) = span.id ∷ ids_of spans

abbrev pub after_first : List SpanEvent → List SpanEvent
after_first [] = []
after_first (span ∷ spans) = spans

take-append_full : {A : Type 0} (n : ℕ) (xs ys : List A) → n ≡ length xs → take n (xs ++ ys) ≡ xs
take-append_full zero [] ys e = refl
take-append_full zero (x ∷ xs) ys e = absurd (omega arith)
take-append_full (suc n) [] ys e = absurd (omega arith)
take-append_full (suc n) (x ∷ xs) ys e = ap (◌∷◌ x) (take-append_full n xs ys (omega arith))

take-short : {A : Type 0} (n : ℕ) (xs : List A) → length xs ≤ n → take n xs ≡ xs
take-short zero [] h = refl
take-short zero (x ∷ xs) h = absurd (omega arith)
take-short (suc n) [] h = refl
take-short (suc n) (x ∷ xs) h = ap (◌∷◌ x) (take-short n xs (omega arith))

gather_span-ids :
    (span : SpanEvent) (meta : Meta)
    → ((gather_span span meta).ids ≡ meta.ids)
      × ((gather_span span meta).dropped_ids ≡ meta.dropped_ids)
unfolding calculate_duration compaction_error
gather_span-ids span meta = ground arith

-- What one span of a group does to the ids.
abbrev with_id : SpanEvent → Meta → Meta
with_id span meta = gather_span span (push_id span meta)

with_id-room :
    (span : SpanEvent) (meta : Meta)
    → ltb (length meta.ids) 63 ≡ true
    → ((with_id span meta).ids ≡ meta.ids ++ span.id ∷ [])
      × ((with_id span meta).dropped_ids ≡ meta.dropped_ids)
unfolding push_id
with_id-room span meta room =
    let (ids, dropped) = gather_span-ids span (push_id span meta) in
    (ids ∙ rw (push_id, room) refl, dropped ∙ rw (push_id, room) refl)

with_id-full :
    (span : SpanEvent) (meta : Meta)
    → ltb (length meta.ids) 63 ≡ false
    → ((with_id span meta).ids ≡ meta.ids)
      × ((with_id span meta).dropped_ids ≡ meta.dropped_ids + 1)
unfolding push_id
with_id-full span meta full =
    let (ids, dropped) = gather_span-ids span (push_id span meta) in
    (ids ∙ rw (push_id, full) refl, dropped ∙ rw (push_id, full) refl)

gather_rest-ids :
    (spans : List SpanEvent) (meta : Meta)
    → length meta.ids ≤ 63
    → ((gather_rest spans meta).ids ≡ take 63 (meta.ids ++ ids_of spans))
      × (length (gather_rest spans meta).ids + (gather_rest spans meta).dropped_ids
          ≡ length meta.ids + meta.dropped_ids + length spans)
unfolding gather_rest
gather_rest-ids [] meta h =
    (sym (ap (take 63) (append-nil meta.ids) ∙ take-short 63 meta.ids h), omega arith)
gather_rest-ids (span ∷ spans) meta h = elim (Bool-cases (ltb (length meta.ids) 63)) [
  | inl room ↦
      let (ids, dropped) = with_id-room span meta room in
      let longer : length (with_id span meta).ids ≡ length meta.ids + 1 =
        ap length ids ∙ length-append meta.ids (span.id ∷ []) in
      let rest = gather_rest-ids spans (with_id span meta) (ground arith) in
      (
        rest.0
            ∙ ap (λ l. take 63 (l ++ ids_of spans)) ids
            ∙ ap (take 63) (append_assoc meta.ids (span.id ∷ []) (ids_of spans)),
        omega (arith, rest.1),
      )
  | inr full ↦
      let (ids, dropped) = with_id-full span meta full in
      let same : length (with_id span meta).ids ≡ length meta.ids = ap length ids in
      let rest = gather_rest-ids spans (with_id span meta) (omega arith) in
      let at_limit : 63 ≡ length meta.ids = ground arith in
      (
        rest.0
            ∙ ap (λ l. take 63 (l ++ ids_of spans)) ids
            ∙ take-append_full 63 meta.ids (ids_of spans) at_limit
            ∙ sym (take-append_full 63 meta.ids (span.id ∷ ids_of spans) at_limit),
        omega (arith, rest.1),
      )
]

gather-ids :
    (spans : List SpanEvent)
    → ((gather spans).ids ≡ take 63 (ids_of (after_first spans)))
      × (length (gather spans).ids + (gather spans).dropped_ids ≡ length (after_first spans))
unfolding gather
gather-ids [] = (refl, refl)
gather-ids (span ∷ spans) =
    let (ids, dropped) = gather_span-ids span no_meta in
    let none_yet : length (gather_span span no_meta).ids ≡ 0 = ap length ids in
    let rest = gather_rest-ids spans (gather_span span no_meta) (omega arith) in
    (rest.0 ∙ ap (λ l. take 63 (l ++ ids_of spans)) ids, omega (arith, rest.1))

-- A retained span with a group of two spans or more.
compacted :
    (base_id : String) (groups : Dict (List SpanEvent)) (span : SpanEvent) (group : List SpanEvent)
    → lookup span.id groups ≡ some group
    → 2 ≤ length group
    → (own : SpanEvent) × (apply_compaction base_id groups span ≡ (
      assign_compact_attrs (gather (sort_by_timestamp group)) own,
      (gather (sort_by_timestamp group)).dropped_ids,
    ))
unfolding apply_compaction
compacted base_id groups span group found many =
    let enough : ltb (length group) 2 ≡ false = ground arith in
    (
      if is_truthy span.parent_id then record span { parent_id = some base_id } else span,
      rw (found, apply_compaction, enough) refl,
    )

-- A retained exit span whose group has two spans or more gets the number of instants at which one
-- of the group runs, if all of them run within a time from `start` on; and the ids of the spans of
-- the group after the one that starts first, 63 at most, where the others are counted.
pub apply_compaction-busy :
    (base_id : String) (groups : Dict (List SpanEvent)) (span : SpanEvent) (group : List SpanEvent)
    (start duration : ℕ)
    → lookup span.id groups ≡ some group
    → 2 ≤ length group
    → IsFrom start (ranges_of group)
    → EndBy (start + duration) (ranges_of group)
    → ((apply_compaction base_id groups span).0.nr_durations
        ≡ some (busy start duration (ranges_of group)))
      × ((apply_compaction base_id groups span).0.nr_ids
          ≡ some (take 63 (ids_of (after_first (sort_by_timestamp group)))))
      × (length (take 63 (ids_of (after_first (sort_by_timestamp group))))
            + (apply_compaction base_id groups span).1
          ≡ length (after_first (sort_by_timestamp group)))
apply_compaction-busy base_id groups span group start duration found many from ends =
    let (own, made) = compacted base_id groups span group found many in
    let (ids, all) = gather-ids (sort_by_timestamp group) in
    (
      ap (λ r. r.0.nr_durations) made
          ∙ ap some (whole_duration-busy start duration group from ends),
      ap (λ r. r.0.nr_ids) made ∙ ap some ids,
      ap₂ ◌+◌ (ap length (sym ids)) (ap (λ r. r.1) made) ∙ all,
    )

-- If the only other span of the group starts before the retained one, then the retained span lists
-- its own id and not that of the other.
pub own_id_listed :
    (base_id : String) (groups : Dict (List SpanEvent)) (retained other : SpanEvent)
    → lookup retained.id groups ≡ some (retained ∷ other ∷ [])
    → other.timestamp < retained.timestamp
    → (apply_compaction base_id groups retained).0.nr_ids ≡ some (retained.id ∷ [])
unfolding sort_by_timestamp
own_id_listed base_id groups retained other found earlier =
    let (own, made) =
      compacted base_id groups retained (retained ∷ other ∷ []) found (omega arith) in
    let (ids, all) = gather-ids (sort_by_timestamp (retained ∷ other ∷ [])) in
    let late : leb retained.timestamp other.timestamp ≡ false = ground arith in
    ap (λ r. r.0.nr_ids) made
    ∙ ap some (ids ∙ rw (sort_by_timestamp, insert_by_timestamp, late) refl)
