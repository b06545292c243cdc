-- ===== src/Trace/FreeTime.antt =====
-- lib/transaction/trace/segment.js: the exclusive duration and the instants that it counts.
use node_newrelic.Trace.{
  Range, Segment, end_of, subtract_children, calculate_exclusive_duration, is_set,
}
use node_newrelic.Trace.Ranges.{covers, IsSeparated, IsSeparated-later, covers-before}
use node_newrelic.Shared.Int.{ℤ, pos, sub_ℕ, ◌-ℤ◌, int_laws, eq_of_parts}
use node_newrelic.Shared.{
  leb→le, ℕ, zero, suc, ◌+◌, ◌-◌, ◌≤◌, ◌<◌, ◌≡◌, refl, sym, ap, ap₂, ◌∙◌, inl, inr, Bool, true,
  false, not, List, [], ◌∷◌, some, leb, min, arith, Bool-cases, if◌then◌else◌,
}

-- How many of the `n` instants from `start` on pass the test.
unfoldable pub count : (test : ℕ → Bool) (start n : ℕ) → ℕ
count test start zero = 0
count test start (suc n) = (if test start then 1 else 0) + count test (suc start) n

-- The instants of a segment that no range covers.
unfoldable pub free : (start duration : ℕ) → List Range → ℕ
unfolding count
free start duration ranges = count (λ t. not (covers t ranges)) start duration

-- The instants of a time that some range covers.
unfoldable pub busy : (start duration : ℕ) → List Range → ℕ
unfolding count
busy start duration ranges = count (λ t. covers t ranges) start duration

pub count-same : (p q : ℕ → Bool) (s n : ℕ) → ((t : ℕ) → p t ≡ q t) → count p s n ≡ count q s n
unfolding count
count-same p q s zero h = refl
count-same p q s (suc n) h = rw (h s, count-same p q (suc s) n h) refl

count-within :
    (p q : ℕ → Bool) (s n : ℕ)
    → ((t : ℕ) → s ≤ t → t < s + n → p t ≡ q t)
    → count p s n ≡ count q s n
unfolding count
count-within p q s zero h = refl
count-within p q s (suc n) h =
    rw
      (
        h s (omega arith) (omega arith),
        count-within p q (suc s) n (λ t k l. h t (omega arith) (omega arith)),
      )
      refl

count-split :
    (p : ℕ → Bool) (s m e n k : ℕ) → e ≡ s + m → k ≡ m + n → count p s k ≡ count p s m + count p e n
unfolding count
count-split p s zero e n k at_e at_k =
    let length_eq : k ≡ n = omega arith in
    let start_eq : s ≡ e = omega arith in
    let moved = ap (λ i. count p s i) length_eq ∙ ap (λ i. count p i n) start_eq in
    omega (arith, moved)
count-split p s (suc m) e n zero at_e at_k = absurd (omega arith)
count-split p s (suc m) e n (suc k) at_e at_k =
    omega (arith, count-split p (suc s) m e n k (omega arith) (omega arith))

count-not : (p : ℕ → Bool) (s n : ℕ) → count p s n + count (λ t. not (p t)) s n ≡ n
unfolding count
count-not p s zero = refl
count-not p s (suc n) = elim (Bool-cases (p s)) [
  | inl e ↦ rw e (omega (arith, count-not p (suc s) n))
  | inr e ↦ rw e (omega (arith, count-not p (suc s) n))
]

pub free-le : (s n : ℕ) (ranges : List Range) → free s n ranges ≤ n
unfolding free
free-le s n ranges = omega (arith, count-not (λ t. covers t ranges) s n)

count-none :
    (p : ℕ → Bool) (s n : ℕ) → ((t : ℕ) → s ≤ t → t < s + n → p t ≡ false) → count p s n ≡ 0
unfolding count
count-none p s zero h = refl
count-none p s (suc n) h =
    rw (h s (omega arith) (omega arith))
      (omega (arith, count-none p (suc s) n (λ t k l. h t (omega arith) (omega arith))))

count-all : (p : ℕ → Bool) (s n : ℕ) → ((t : ℕ) → s ≤ t → t < s + n → p t ≡ true) → count p s n ≡ n
unfolding count
count-all p s zero h = refl
count-all p s (suc n) h =
    rw (h s (omega arith) (omega arith))
      (omega (arith, count-all p (suc s) n (λ t k l. h t (omega arith) (omega arith))))

minus_twice : (x : ℤ) (m r k : ℕ) → r ≤ m → x -ℤ sub_ℕ m r -ℤ pos k ≡ x -ℤ pos ((m - r) + k)
minus_twice x m r k h =
    let gap : sub_ℕ m r ≡ pos (m - r) = ground arith in
    ap (λ d. x -ℤ d -ℤ pos k) gap ∙ omega int_laws

minus_nothing : (x : ℤ) → x ≡ x -ℤ pos 0
minus_nothing x = omega int_laws

pub busy-nil : (s n : ℕ) → busy s n [] ≡ 0
unfolding busy covers
busy-nil s n = count-none (λ t. false) s n (λ t k l. refl)

-- Nothing is covered up to the first range.
pub busy-before :
    (s n e : ℕ) (r : Range) (ranges : List Range)
    → IsSeparated s (r ∷ ranges)
    → e ≡ s + n
    → e ≤ r.0
    → busy s n (r ∷ ranges) ≡ 0
unfolding busy
busy-before s n e r ranges h at_e past =
    count-none (λ t. covers t (r ∷ ranges)) s n
      (λ t k l. covers-before t r.0 (r ∷ ranges) (omega arith) (omega arith, h.1, h.2))

pub busy-first :
    (s n e : ℕ) (r : Range) (ranges : List Range)
    → IsSeparated s (r ∷ ranges)
    → e ≡ s + n
    → r.0 < e
    → busy s n (r ∷ ranges) ≡ (min r.1 e - r.0) + busy (min r.1 e) (e - min r.1 e) ranges
unfolding busy covers
busy-first s n e r ranges h at_e inside =
    count-split under s (r.0 - s) r.0 (e - r.0) n (omega arith) (omega arith)
    ∙ ap₂ ◌+◌ (count-none under s (r.0 - s) before) (
        count-split under r.0 (min r.1 e - r.0) (min r.1 e) (e - min r.1 e) (e - r.0) (omega arith)
          (omega arith)
        ∙ ap₂ ◌+◌ (count-all under r.0 (min r.1 e - r.0) held)
            (count-within under (λ t. covers t ranges) (min r.1 e) (e - min r.1 e) after))
    ∙ omega arith
  where
    under : ℕ → Bool
    under = λ t. covers t (r ∷ ranges)

    before : (t : ℕ) → s ≤ t → t < s + (r.0 - s) → covers t (r ∷ ranges) ≡ false
    before t k l = covers-before t r.0 (r ∷ ranges) (omega arith) (omega arith, h.1, h.2)

    held : (t : ℕ) → r.0 ≤ t → t < r.0 + (min r.1 e - r.0) → covers t (r ∷ ranges) ≡ true
    held t k l = ground arith

    after :
        (t : ℕ)
        → min r.1 e ≤ t
        → t < min r.1 e + (e - min r.1 e)
        → covers t (r ∷ ranges) ≡ covers t ranges
    after t k l = ground arith

-- The loop takes off the instants that the ranges cover.
subtract_children-busy :
    (s n e : ℕ) (x : ℤ) (ranges : List Range)
    → IsSeparated s ranges
    → e ≡ s + n
    → subtract_children e x ranges ≡ x -ℤ pos (busy s n ranges)
unfolding subtract_children busy covers
subtract_children-busy s n e x [] h at_e =
    minus_nothing x ∙ ap (λ b. x -ℤ pos b) (sym (busy-nil s n))
subtract_children-busy s n e x (r ∷ ranges) h at_e = elim (Bool-cases (leb e r.0)) [
  | inl past ↦
      rw (subtract_children, past)
        (minus_nothing x
          ∙ ap (λ b. x -ℤ pos b) (sym (busy-before s n e r ranges h at_e (leb→le e r.0 past))))
  | inr inside ↦
      rw (subtract_children, inside)
        (subtract_children-busy (min r.1 e) (e - min r.1 e) e (x -ℤ sub_ℕ (min r.1 e) r.0) ranges
            (IsSeparated-later (min r.1 e) (suc r.1) ranges (omega arith) h.2) (ground arith)
          ∙ minus_twice x (min r.1 e) r.0 (busy (min r.1 e) (e - min r.1 e) ranges) (ground arith)
          ∙ ap (λ b. x -ℤ pos b) (sym (busy-first s n e r ranges h at_e (ground arith))))
]

-- The exclusive duration of a segment with disjoint ranges under it, none of which starts before
-- it, is the number of its instants that no range covers.
pub calculate_exclusive_duration-free :
    (pairs : List Range) (segment : Segment)
    → is_set segment.exclusive ≡ false
    → IsSeparated segment.start pairs
    → calculate_exclusive_duration pairs segment
      ≡ record segment { exclusive = some (pos (free segment.start segment.duration pairs)) }
unfolding calculate_exclusive_duration free busy
calculate_exclusive_duration-free pairs segment fresh h = rw fresh (
    ap (λ duration. record segment { exclusive = some duration })
      (subtract_children-busy segment.start segment.duration (end_of segment) (pos segment.duration)
          pairs h refl
        ∙ eq_of_parts _ _
            (omega (int_laws, count-not (λ t. covers t pairs) segment.start segment.duration))))
