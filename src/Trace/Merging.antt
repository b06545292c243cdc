-- ===== src/Trace/Merging.antt =====
-- lib/transaction/trace/index.js: `_mergeRanges` on two lists of disjoint ranges.
use node_newrelic.Trace.{
  Range, merge_after, absorb, merge_loop, merge_ranges, extend, merge_sorted_ranges, sort_by_start,
}
use node_newrelic.Trace.Ranges.{
  covers, holds, IsSeparated, IsSorted, IsFrom, IsSeparated-later, IsSorted-later,
  merge_after-IsSeparated, covers-merge_after, holds-extend, or_assoc, or_swap,
  merge_sorted_ranges-IsSeparated, covers-merge_sorted_ranges, sort_by_start-IsSorted,
  covers-sort_by_start,
}
use node_newrelic.Shared.{
  ℕ, zero, suc, ◌+◌, ◌≤◌, ◌<◌, ◌≡◌, refl, sym, ap, ◌∙◌, inl, inr, Bool, true, false, ◌||◌, List, [],
  ◌∷◌, length, leb, ltb, arith, Bool-cases, leb→le, ltb→lt,
}

IsSeparated-IsSorted : (b : ℕ) (ranges : List Range) → IsSeparated b ranges → IsSorted b ranges
IsSeparated-IsSorted b [] s = tt
IsSeparated-IsSorted b (range ∷ ranges) s = (
  s.0,
  s.1,
  IsSorted-later range.0 (suc range.1) ranges (omega arith)
      (IsSeparated-IsSorted (suc range.1) ranges s.2),
)

-- Nothing is left to merge in a list of disjoint ranges.
merge_after-same :
    (range : Range) (ranges : List Range)
    → IsSeparated (suc range.1) ranges
    → merge_after range ranges ≡ range ∷ ranges
unfolding merge_after
merge_after-same range [] s = refl
merge_after-same range (r ∷ ranges) s = elim (Bool-cases (leb r.0 range.1)) [
  | inl meets ↦ absurd (omega (arith, leb→le r.0 range.1 meets))
  | inr apart ↦ rw (merge_after, apart) (ap (◌∷◌ range) (merge_after-same r ranges s.2))
]

absorb-merge_after :
    (current : Range) (ranges : List Range)
    → IsSeparated current.0 ranges
    → absorb current ranges ≡ merge_after current ranges
unfolding absorb merge_after
absorb-merge_after current [] s = refl
absorb-merge_after current (r ∷ ranges) s = elim (Bool-cases (leb r.0 current.1)) [
  | inl meets ↦
      rw (absorb, merge_after, meets)
        (absorb-merge_after (extend current r) ranges
          (IsSeparated-later current.0 (suc r.1) ranges (omega arith) s.2))
  | inr apart ↦
      rw (absorb, merge_after, apart) (ap (◌∷◌ current) (sym (merge_after-same r ranges s.2)))
]

-- `merged` holds disjoint ranges from `bound` on, which cover what `covered` says.
abbrev pub IsMerge : (bound : ℕ) (merged : List Range) (covered : ℕ → Bool) → Type 0
IsMerge bound merged covered = IsSeparated bound merged × ((t : ℕ) → covers t merged ≡ covered t)

absorb-IsMerge :
    (b : ℕ) (current : Range) (ranges : List Range)
    → b ≤ current.0
    → current.0 ≤ current.1
    → IsSeparated current.0 ranges
    → IsMerge b (absorb current ranges) (λ t. holds t current || covers t ranges)
absorb-IsMerge b current ranges h v s = rw (absorb-merge_after current ranges s) (
  merge_after-IsSeparated b current ranges h v sorted,
  λ t. covers-merge_after t current ranges sorted,
)
  where
    sorted : IsSorted current.0 ranges
    sorted = IsSeparated-IsSorted current.0 ranges s

IsMerge-same :
    (b : ℕ) (merged : List Range) (covered covered' : ℕ → Bool)
    → ((t : ℕ) → covered t ≡ covered' t)
    → IsMerge b merged covered
    → IsMerge b merged covered'
IsMerge-same b merged covered covered' same m = (m.0, λ t. m.1 t ∙ same t)

-- One round of the loop takes the range `next`; `go` is the loop after it.
round-IsMerge :
    (b : ℕ) (current next : Range) (go : Range → List Range) (rest : ℕ → Bool)
    → b ≤ current.0
    → current.0 ≤ current.1
    → current.0 ≤ next.0
    → (next.0 ≤ current.1
        → IsMerge b (go (extend current next)) (λ t. holds t (extend current next) || rest t))
    → (current.1 < next.0 → IsMerge (suc current.1) (go next) (λ t. holds t next || rest t))
    → IsMerge b
        (elim (leb next.0 current.1) [
          | true ↦ go (extend current next)
          | false ↦ current ∷ go next
        ])
        (λ t. holds t current || (holds t next || rest t))
unfolding covers
round-IsMerge b current next go rest h v n meeting distant =
    elim (Bool-cases (leb next.0 current.1)) [
      | inl meets ↦ rw meets (
          let m = meeting (leb→le next.0 current.1 meets) in
          (
            m.0,
            λ t.
                m.1 t
                ∙ ap (λ c. c || rest t)
                    (holds-extend t current next n (leb→le next.0 current.1 meets))
                ∙ or_assoc (holds t current) (holds t next) (rest t),
          ))
      | inr apart ↦ rw apart (
          let m = distant (ground arith) in
          ((h, v, m.0), λ t. ap (λ c. holds t current || c) (m.1 t)))
    ]

or_none : (a b : Bool) → (a || b) ≡ (a || (b || false))
or_none a b = ground arith

or_late : (a b c d : Bool) → (a || (c || (b || d))) ≡ (a || (b || (c || d)))
or_late a b c d = ground arith

merge_loop-IsMerge :
    (fuel b : ℕ) (current : Range) (first second : List Range)
    → length first + length second ≤ fuel
    → b ≤ current.0
    → current.0 ≤ current.1
    → IsSeparated current.0 first
    → IsSeparated current.0 second
    → IsMerge b
        (merge_loop fuel current first second)
        (λ t. holds t current || (covers t first || covers t second))
unfolding merge_loop covers
merge_loop-IsMerge zero b current [] [] enough h v p q = ((h, v, tt), λ t. refl)
merge_loop-IsMerge zero b current (f ∷ first) second enough h v p q = absurd (omega arith)
merge_loop-IsMerge zero b current [] (s ∷ second) enough h v p q = absurd (omega arith)
merge_loop-IsMerge (suc fuel) b current [] second enough h v p q =
    absorb-IsMerge b current second h v q
merge_loop-IsMerge (suc fuel) b current (f ∷ first) [] enough h v p q =
    IsMerge-same b (absorb current (f ∷ first)) (λ t. holds t current || covers t (f ∷ first))
      (λ t. holds t current || (covers t (f ∷ first) || false))
      (λ t. or_none (holds t current) (covers t (f ∷ first)))
      (absorb-IsMerge b current (f ∷ first) h v p)
merge_loop-IsMerge (suc fuel) b current (f ∷ first) (s ∷ second) enough h v p q =
    elim (Bool-cases (ltb f.0 s.0)) [
      | inl before ↦
          rw (merge_loop, before)
            (let earlier = ltb→lt f.0 s.0 before in
              IsMerge-same b _
                (λ t. holds t current || (holds t f || (covers t first || covers t (s ∷ second))))
                (λ t. holds t current || (covers t (f ∷ first) || covers t (s ∷ second)))
                (λ t.
                  ap (λ c. holds t current || c)
                    (sym (or_assoc (holds t f) (covers t first) (covers t (s ∷ second)))))
                (round-IsMerge b current f (λ c. merge_loop fuel c first (s ∷ second))
                  (λ t. covers t first || covers t (s ∷ second)) h v p.0
                  (λ m.
                    merge_loop-IsMerge fuel b (extend current f) first (s ∷ second) (omega arith) h
                      (ground arith) (IsSeparated-later current.0 (suc f.1) first (omega arith) p.2)
                      (q.0, q.1, q.2))
                  (λ m.
                    merge_loop-IsMerge fuel (suc current.1) f first (s ∷ second) (omega arith) m p.1
                      (IsSeparated-later f.0 (suc f.1) first (omega arith) p.2)
                      (omega arith, q.1, q.2))))
      | inr other ↦
          rw (merge_loop, other)
            (IsMerge-same b _
              (λ t. holds t current || (holds t s || (covers t (f ∷ first) || covers t second)))
              (λ t. holds t current || (covers t (f ∷ first) || covers t (s ∷ second)))
              (λ t. or_late (holds t current) (covers t (f ∷ first)) (holds t s) (covers t second))
              (round-IsMerge b current s (λ c. merge_loop fuel c (f ∷ first) second)
                (λ t. covers t (f ∷ first) || covers t second) h v q.0
                (λ m.
                  merge_loop-IsMerge fuel b (extend current s) (f ∷ first) second (omega arith) h
                    (ground arith) (p.0, p.1, p.2)
                    (IsSeparated-later current.0 (suc s.1) second (omega arith) q.2))
                (λ m.
                  merge_loop-IsMerge fuel (suc current.1) s (f ∷ first) second (omega arith) m q.1
                    (ground arith, p.1, p.2)
                    (IsSeparated-later s.0 (suc s.1) second (omega arith) q.2))))
    ]

-- The merge of two lists of disjoint ranges is a list of disjoint ranges, none of them before
-- the first of both, and it covers exactly the instants that one of the two covers.
pub merge_ranges-IsMerge :
    (b : ℕ) (first second : List Range)
    → IsSeparated b first
    → IsSeparated b second
    → IsMerge b (merge_ranges first second) (λ t. covers t first || covers t second)
unfolding merge_ranges covers
merge_ranges-IsMerge b [] second p q = (q, λ t. refl)
merge_ranges-IsMerge b (f ∷ first) [] p q = (p, λ t. or_nothing (holds t f) (covers t first))
  where
    or_nothing : (x y : Bool) → (x || y) ≡ (x || y || false)
    or_nothing x y = ground arith
merge_ranges-IsMerge b (f ∷ first) (s ∷ second) p q = elim (Bool-cases (ltb f.0 s.0)) [
  | inl before ↦ rw before (
      let earlier = ltb→lt f.0 s.0 before in
      IsMerge-same b _ (λ t. holds t f || (covers t first || covers t (s ∷ second))) _
        (λ t. sym (or_assoc (holds t f) (covers t first) (covers t (s ∷ second))))
        (merge_loop-IsMerge _ b f first (s ∷ second) (omega arith) p.0 p.1
          (IsSeparated-later f.0 (suc f.1) first (omega arith) p.2) (omega arith, q.1, q.2)))
  | inr other ↦ rw other (
      IsMerge-same b _ (λ t. holds t s || (covers t (f ∷ first) || covers t second)) _
        (λ t. or_swap (holds t s) (covers t (f ∷ first)) (covers t second))
        (merge_loop-IsMerge _ b s (f ∷ first) second (omega arith) q.0 q.1 (ground arith, p.1, p.2)
          (IsSeparated-later s.0 (suc s.1) second (omega arith) q.2)))
]

-- The ranges under a segment, which may come in any order: sorted and merged they are disjoint,
-- and cover the same instants.
pub sorted_pairs-IsMerge :
    (b : ℕ) (ranges : List Range)
    → IsFrom b ranges
    → IsMerge b (merge_sorted_ranges (sort_by_start ranges)) (λ t. covers t ranges)
sorted_pairs-IsMerge b ranges from = (
  merge_sorted_ranges-IsSeparated b (sort_by_start ranges) sorted,
  λ t. covers-merge_sorted_ranges t b (sort_by_start ranges) sorted ∙ covers-sort_by_start t ranges,
)
  where
    sorted : IsSorted b (sort_by_start ranges)
    sorted = sort_by_start-IsSorted b ranges from
