-- ===== src/PartialTrace/Durations.antt =====
-- lib/transaction/trace/partial-trace.js, `calculateDuration`: the intervals of the spans that talk to
-- one entity, overlaps counted once.
use node_newrelic.PartialTrace.Spans.{SpanEvent}
use node_newrelic.PartialTrace.Compaction.{
  Meta, compaction_error, calculate_duration, push_id, gather_span, gather_rest, gather, no_meta,
  insert_by_timestamp, sort_by_timestamp, whole_duration,
}
use node_newrelic.Trace.{
  Range, extend, merge_after, merge_sorted_ranges, insert_by_start, sort_by_start,
}
use node_newrelic.Trace.Ranges.{IsSeparated, IsSeparated-later, IsFrom}
use node_newrelic.Trace.Merging.{sorted_pairs-IsMerge}
use node_newrelic.Trace.FreeTime.{busy, busy-nil, busy-before, busy-first, count-same}
use node_newrelic.Shared.{
  ℕ, suc, ◌+◌, ◌-◌, ◌≤◌, ◌≡◌, refl, sym, ap, ◌∙◌, inl, inr, true, false, some, List, [], ◌∷◌, arith,
  leb, min, leb→le, Bool-cases,
}

abbrev pub range_of : SpanEvent → Range
range_of span = (span.timestamp, span.timestamp + span.duration)

abbrev pub ranges_of : List SpanEvent → List Range
ranges_of [] = []
ranges_of (span ∷ spans) = range_of span ∷ ranges_of spans

abbrev lengths : List Range → ℕ
lengths [] = 0
lengths (range ∷ ranges) = (range.1 - range.0) + lengths ranges

-- Every range ends in time.
abbrev pub EndBy : (end : ℕ) → List Range → Type 0
EndBy end [] = Unit
EndBy end (range ∷ ranges) = (range.1 ≤ end) × EndBy end ranges

kept_times :
    (span : SpanEvent) (meta : Meta)
    → ((compaction_error span (push_id span meta)).total_duration ≡ meta.total_duration)
      × ((compaction_error span (push_id span meta)).current ≡ meta.current)
unfolding compaction_error push_id
kept_times span meta = ground arith

joined :
    (span : SpanEvent) (meta : Meta) (current : Range)
    → meta.current ≡ some current
    → leb span.timestamp current.1 ≡ true
    → ((calculate_duration span meta).total_duration ≡ meta.total_duration)
      × ((calculate_duration span meta).current ≡ some (extend current (range_of span)))
unfolding calculate_duration
joined span meta current e meets = rw (calculate_duration, e, meets) (refl, refl)

started :
    (span : SpanEvent) (meta : Meta) (current : Range)
    → meta.current ≡ some current
    → leb span.timestamp current.1 ≡ false
    → ((calculate_duration span meta).total_duration
        ≡ meta.total_duration + (current.1 - current.0))
      × ((calculate_duration span meta).current ≡ some (range_of span))
unfolding calculate_duration
started span meta current e apart = rw (calculate_duration, e, apart) (refl, refl)

whole-gather_rest :
    (spans : List SpanEvent) (meta : Meta) (current : Range)
    → meta.current ≡ some current
    → whole_duration (gather_rest spans meta)
      ≡ meta.total_duration + lengths (merge_after current (ranges_of spans))
unfolding gather_rest merge_after
whole-gather_rest [] meta current e = rw (whole_duration, e) (omega arith)
whole-gather_rest (span ∷ spans) meta current e =
    let (same_total, same_current) = kept_times span meta in
    let before = compaction_error span (push_id span meta) in
    elim (Bool-cases (leb span.timestamp current.1)) [
      | inl meets ↦
          let (total, now) = joined span before current (same_current ∙ e) meets in
          whole-gather_rest spans (calculate_duration span before) (extend current (range_of span))
            now
          ∙ rw (merge_after, meets)
              (ap
                (λ t. t + lengths (merge_after (extend current (range_of span)) (ranges_of spans)))
                (total ∙ same_total))
      | inr apart ↦
          let (total, now) = started span before current (same_current ∙ e) apart in
          whole-gather_rest spans (calculate_duration span before) (range_of span) now
          ∙ rw (merge_after, apart) (omega (arith, total, same_total))
    ]

first_span :
    (span : SpanEvent)
    → ((gather_span span no_meta).total_duration ≡ 0)
      × ((gather_span span no_meta).current ≡ some (range_of span))
unfolding calculate_duration compaction_error
first_span span = ground arith

whole-gather :
    (spans : List SpanEvent)
    → whole_duration (gather spans) ≡ lengths (merge_sorted_ranges (ranges_of spans))
unfolding gather merge_sorted_ranges
whole-gather [] = refl
whole-gather (span ∷ spans) =
    let (total, now) = first_span span in
    whole-gather_rest spans (gather_span span no_meta) (range_of span) now ∙ omega (arith, total)

ranges_of-insert :
    (span : SpanEvent) (spans : List SpanEvent)
    → ranges_of (insert_by_timestamp span spans) ≡ insert_by_start (range_of span) (ranges_of spans)
unfolding insert_by_timestamp insert_by_start
ranges_of-insert span [] = refl
ranges_of-insert span (s ∷ spans) = elim (Bool-cases (leb span.timestamp s.timestamp)) [
  | inl first ↦ rw (insert_by_timestamp, insert_by_start, first) refl
  | inr later ↦
      rw (insert_by_timestamp, insert_by_start, later)
        (ap (◌∷◌ (range_of s)) (ranges_of-insert span spans))
]

ranges_of-sort :
    (spans : List SpanEvent) → ranges_of (sort_by_timestamp spans) ≡ sort_by_start (ranges_of spans)
unfolding sort_by_timestamp sort_by_start
ranges_of-sort [] = refl
ranges_of-sort (span ∷ spans) =
    ranges_of-insert span (sort_by_timestamp spans)
    ∙ ap (insert_by_start (range_of span)) (ranges_of-sort spans)

merge_after-EndBy :
    (end : ℕ) (last : Range) (ranges : List Range)
    → last.1 ≤ end
    → EndBy end ranges
    → EndBy end (merge_after last ranges)
unfolding merge_after
merge_after-EndBy end last [] h e = (h, tt)
merge_after-EndBy end last (current ∷ ranges) h e = elim (Bool-cases (leb current.0 last.1)) [
  | inl meets ↦
      rw (merge_after, meets)
        (merge_after-EndBy end (extend last current) ranges (omega (arith, e.0)) e.1)
  | inr apart ↦ rw (merge_after, apart) (h, merge_after-EndBy end current ranges e.0 e.1)
]

merge_sorted_ranges-EndBy :
    (end : ℕ) (ranges : List Range) → EndBy end ranges → EndBy end (merge_sorted_ranges ranges)
unfolding merge_sorted_ranges
merge_sorted_ranges-EndBy end [] e = tt
merge_sorted_ranges-EndBy end (range ∷ ranges) e = merge_after-EndBy end range ranges e.0 e.1

insert_by_start-EndBy :
    (end : ℕ) (range : Range) (ranges : List Range)
    → range.1 ≤ end
    → EndBy end ranges
    → EndBy end (insert_by_start range ranges)
unfolding insert_by_start
insert_by_start-EndBy end range [] h e = (h, tt)
insert_by_start-EndBy end range (r ∷ ranges) h e = elim (Bool-cases (leb range.0 r.0)) [
  | inl first ↦ rw (insert_by_start, first) (h, (e.0, e.1))
  | inr later ↦ rw (insert_by_start, later) (e.0, insert_by_start-EndBy end range ranges h e.1)
]

sort_by_start-EndBy :
    (end : ℕ) (ranges : List Range) → EndBy end ranges → EndBy end (sort_by_start ranges)
unfolding sort_by_start
sort_by_start-EndBy end [] e = tt
sort_by_start-EndBy end (range ∷ ranges) e =
    insert_by_start-EndBy end range (sort_by_start ranges) e.0 (sort_by_start-EndBy end ranges e.1)

lengths_past :
    (bound end : ℕ) (ranges : List Range)
    → end ≤ bound
    → IsSeparated bound ranges
    → EndBy end ranges
    → lengths ranges ≡ 0
lengths_past bound end [] h s e = refl
lengths_past bound end (range ∷ ranges) h s e =
    omega (arith, s.0, s.1, e.0, lengths_past (suc range.1) end ranges (omega arith) s.2 e.1)

-- The lengths of disjoint ranges add up to the instants that they cover.
lengths-busy :
    (start duration end : ℕ) (ranges : List Range)
    → IsSeparated start ranges
    → EndBy end ranges
    → end ≡ start + duration
    → lengths ranges ≡ busy start duration ranges
lengths-busy start duration end [] s e at_end = sym (busy-nil start duration)
lengths-busy start duration end (range ∷ ranges) s e at_end = elim (Bool-cases (leb end range.0)) [
  | inl past ↦
      let reached = leb→le end range.0 past in
      lengths_past end end (range ∷ ranges) (omega arith) (reached, s.1, s.2) e
      ∙ sym (busy-before start duration end range ranges s at_end reached)
  | inr inside ↦
      let clipped : min range.1 end ≡ range.1 = omega (arith, e.0) in
      let rest =
        lengths-busy range.1 (end - range.1) end ranges
          (IsSeparated-later range.1 (suc range.1) ranges (omega arith) s.2) e.1
          (omega (arith, e.0)) in
      ap (λ l. (range.1 - range.0) + l) rest
      ∙ sym (
          busy-first start duration end range ranges s at_end (ground arith)
          ∙ ap (λ m. (m - range.0) + busy m (end - m) ranges) clipped)
]

-- The durations given to a retained span are the instants at which one of the spans that talk to its
-- entity runs, if all of them run within a time from `start` on.
pub whole_duration-busy :
    (start duration : ℕ) (spans : List SpanEvent)
    → IsFrom start (ranges_of spans)
    → EndBy (start + duration) (ranges_of spans)
    → whole_duration (gather (sort_by_timestamp spans)) ≡ busy start duration (ranges_of spans)
unfolding busy
whole_duration-busy start duration spans from ends =
    let sorted = sorted_pairs-IsMerge start (ranges_of spans) from in
    whole-gather (sort_by_timestamp spans)
    ∙ ap (λ ranges. lengths (merge_sorted_ranges ranges)) (ranges_of-sort spans)
    ∙ lengths-busy start duration (start + duration) _ sorted.0
        (merge_sorted_ranges-EndBy (start + duration) _
          (sort_by_start-EndBy (start + duration) _ ends))
        refl
    ∙ count-same _ _ start duration sorted.1
