-- ===== src/Trace/Ranges.antt =====
-- lib/transaction/trace/index.js: the ranges of `_mergeSortedRanges` and `_mergeRanges`.
use node_newrelic.Trace.{
  Range, merge_after, merge_sorted_ranges, insert_by_start, sort_by_start, extend,
}
use node_newrelic.Shared.{
  ℕ, suc, ◌≤◌, ◌<◌, ◌≡◌, refl, inl, inr, Bool, false, ◌&&◌, ◌||◌, List, [], ◌∷◌, ◌++◌, leb, ltb,
  arith, Bool-cases, leb→le,
}

-- A range holds the instants from its start on, up to its end.
abbrev pub holds : ℕ → Range → Bool
holds t range = leb range.0 t && ltb t range.1

unfoldable pub covers : ℕ → List Range → Bool
covers t [] = false
covers t (range ∷ ranges) = holds t range || covers t ranges

-- Disjoint ranges in their order, none before `bound`; neighbours do not touch.
abbrev pub IsSeparated : (bound : ℕ) → List Range → Type 0
IsSeparated bound [] = Unit
IsSeparated bound (range ∷ ranges) =
    (bound ≤ range.0) × (range.0 ≤ range.1) × IsSeparated (suc range.1) ranges

-- Ranges by their start.
abbrev pub IsSorted : (bound : ℕ) → List Range → Type 0
IsSorted bound [] = Unit
IsSorted bound (range ∷ ranges) = (bound ≤ range.0) × (range.0 ≤ range.1) × IsSorted range.0 ranges

-- Ranges in any order, none before `bound`.
abbrev pub IsFrom : (bound : ℕ) → List Range → Type 0
IsFrom bound [] = Unit
IsFrom bound (range ∷ ranges) = (bound ≤ range.0) × (range.0 ≤ range.1) × IsFrom bound ranges

pub IsSeparated-later :
    (a b : ℕ) (ranges : List Range) → a ≤ b → IsSeparated b ranges → IsSeparated a ranges
IsSeparated-later a b [] h s = tt
IsSeparated-later a b (range ∷ ranges) h s = (omega arith, s.1, s.2)

pub IsSorted-later : (a b : ℕ) (ranges : List Range) → a ≤ b → IsSorted b ranges → IsSorted a ranges
IsSorted-later a b [] h s = tt
IsSorted-later a b (range ∷ ranges) h s = (omega arith, s.1, s.2)

pub IsFrom-later : (a b : ℕ) (ranges : List Range) → a ≤ b → IsFrom b ranges → IsFrom a ranges
IsFrom-later a b [] h s = tt
IsFrom-later a b (range ∷ ranges) h s = (omega arith, s.1, IsFrom-later a b ranges h s.2)

pub IsSeparated-IsFrom : (b : ℕ) (ranges : List Range) → IsSeparated b ranges → IsFrom b ranges
IsSeparated-IsFrom b [] s = tt
IsSeparated-IsFrom b (range ∷ ranges) s = (
  s.0,
  s.1,
  IsFrom-later b (suc range.1) ranges (omega arith) (IsSeparated-IsFrom (suc range.1) ranges s.2),
)

pub IsFrom-append : (b : ℕ) (xs ys : List Range) → IsFrom b xs → IsFrom b ys → IsFrom b (xs ++ ys)
IsFrom-append b [] ys p q = q
IsFrom-append b (range ∷ xs) ys p q = (p.0, p.1, IsFrom-append b xs ys p.2 q)

pub covers-append :
    (t : ℕ) (xs ys : List Range) → covers t (xs ++ ys) ≡ (covers t xs || covers t ys)
unfolding covers
covers-append t [] ys = refl
covers-append t (range ∷ xs) ys = ground (arith, covers-append t xs ys)

-- Before the first start nothing is covered.
pub covers-before :
    (t b : ℕ) (ranges : List Range) → t < b → IsSeparated b ranges → covers t ranges ≡ false
unfolding covers
covers-before t b [] h s = refl
covers-before t b (range ∷ ranges) h s =
    ground (arith, covers-before t (suc range.1) ranges (omega arith) s.2)

pub or_assoc : (a b c : Bool) → (a || b || c) ≡ (a || (b || c))
or_assoc a b c = ground arith

pub or_swap : (a b c : Bool) → (a || (b || c)) ≡ (b || (a || c))
or_swap a b c = ground arith

-- Two ranges that meet are covered by the extended one.
pub holds-extend :
    (t : ℕ) (last current : Range)
    → last.0 ≤ current.0
    → current.0 ≤ last.1
    → holds t (extend last current) ≡ (holds t last || holds t current)
holds-extend t last current h k = ground arith

pub merge_after-IsSeparated :
    (b : ℕ) (last : Range) (ranges : List Range)
    → b ≤ last.0
    → last.0 ≤ last.1
    → IsSorted last.0 ranges
    → IsSeparated b (merge_after last ranges)
unfolding merge_after
merge_after-IsSeparated b last [] h v s = (h, v, tt)
merge_after-IsSeparated b last (current ∷ ranges) h v s = elim (Bool-cases (leb current.0 last.1)) [
  | inl meets ↦
      rw (merge_after, meets)
        (merge_after-IsSeparated b (extend last current) ranges h (ground arith)
          (IsSorted-later last.0 current.0 ranges s.0 s.2))
  | inr apart ↦
      rw (merge_after, apart)
        (h, v, merge_after-IsSeparated (suc last.1) current ranges (ground arith) s.1 s.2)
]

pub covers-merge_after :
    (t : ℕ) (last : Range) (ranges : List Range)
    → IsSorted last.0 ranges
    → covers t (merge_after last ranges) ≡ (holds t last || covers t ranges)
unfolding merge_after covers
covers-merge_after t last [] s = refl
covers-merge_after t last (current ∷ ranges) s = elim (Bool-cases (leb current.0 last.1)) [
  | inl meets ↦
      rw
        (
          merge_after,
          meets,
          covers-merge_after t (extend last current) ranges
              (IsSorted-later last.0 current.0 ranges s.0 s.2),
          holds-extend t last current s.0 (leb→le current.0 last.1 meets),
        )
        (or_assoc (holds t last) (holds t current) (covers t ranges))
  | inr apart ↦ rw (merge_after, apart, covers, covers-merge_after t current ranges s.2) refl
]

pub merge_sorted_ranges-IsSeparated :
    (b : ℕ) (ranges : List Range) → IsSorted b ranges → IsSeparated b (merge_sorted_ranges ranges)
unfolding merge_sorted_ranges
merge_sorted_ranges-IsSeparated b [] s = tt
merge_sorted_ranges-IsSeparated b (range ∷ ranges) s =
    merge_after-IsSeparated b range ranges s.0 s.1 s.2

pub covers-merge_sorted_ranges :
    (t b : ℕ) (ranges : List Range)
    → IsSorted b ranges
    → covers t (merge_sorted_ranges ranges) ≡ covers t ranges
unfolding merge_sorted_ranges covers
covers-merge_sorted_ranges t b [] s = refl
covers-merge_sorted_ranges t b (range ∷ ranges) s = covers-merge_after t range ranges s.2

insert_by_start-IsSorted :
    (b : ℕ) (range : Range) (ranges : List Range)
    → b ≤ range.0
    → range.0 ≤ range.1
    → IsSorted b ranges
    → IsSorted b (insert_by_start range ranges)
unfolding insert_by_start
insert_by_start-IsSorted b range [] h v s = (h, v, tt)
insert_by_start-IsSorted b range (r ∷ ranges) h v s = elim (Bool-cases (leb range.0 r.0)) [
  | inl first ↦ rw (insert_by_start, first) (h, v, (leb→le range.0 r.0 first, s.1, s.2))
  | inr later ↦
      rw (insert_by_start, later)
        (s.0, s.1, insert_by_start-IsSorted r.0 range ranges (ground arith) v s.2)
]

covers-insert_by_start :
    (t : ℕ) (range : Range) (ranges : List Range)
    → covers t (insert_by_start range ranges) ≡ (holds t range || covers t ranges)
unfolding insert_by_start covers
covers-insert_by_start t range [] = refl
covers-insert_by_start t range (r ∷ ranges) = elim (Bool-cases (leb range.0 r.0)) [
  | inl first ↦ rw (insert_by_start, first) refl
  | inr later ↦
      rw (insert_by_start, later, covers, covers-insert_by_start t range ranges)
        (or_swap (holds t r) (holds t range) (covers t ranges))
]

pub sort_by_start-IsSorted :
    (b : ℕ) (ranges : List Range) → IsFrom b ranges → IsSorted b (sort_by_start ranges)
unfolding sort_by_start
sort_by_start-IsSorted b [] s = tt
sort_by_start-IsSorted b (range ∷ ranges) s =
    insert_by_start-IsSorted b range (sort_by_start ranges) s.0 s.1
      (sort_by_start-IsSorted b ranges s.2)

pub covers-sort_by_start :
    (t : ℕ) (ranges : List Range) → covers t (sort_by_start ranges) ≡ covers t ranges
unfolding sort_by_start covers
covers-sort_by_start t [] = refl
covers-sort_by_start t (range ∷ ranges) =
    rw (covers-insert_by_start t range (sort_by_start ranges), covers-sort_by_start t ranges) refl
