-- ===== src/Stats/Laws.antt =====
-- lib/stats/index.js: merging two summaries and recording measurements.
use node_newrelic.Shared.Int.{ℤ, pos, ◌+ℤ◌, ◌*ℤ◌, ◌≤ℤ◌, +ℤ_parts, int_laws, +ℤ_assoc}
use node_newrelic.Shared.{◌≡◌, sym, ap, ◌∙◌, Option, List, [], ◌∷◌, arith}
use node_newrelic.Stats.{Stats, init, math_max, or_else, record_value, merge}

-- A summary whose count never fell below 0, and whose maximum starts at 0 as the source has it.
pub record IsValid (s : Stats) : Type 0 where
  pub counted : pos 0 ≤ℤ s.call_count
  pub above : pos 0 ≤ℤ s.max

pub init-IsValid : IsValid init
init-IsValid = omega arith

pub record_value-IsValid : (t e : Option ℤ) (s : Stats) → IsValid s → IsValid (record_value t e s)
unfolding record_value
record_value-IsValid t e s v = record {
  counted = omega (int_laws, v.counted);
  above = ground (arith, v.above);
}

pub merge-IsValid : (a b : Stats) → IsValid a → IsValid b → IsValid (merge b a)
unfolding merge
merge-IsValid a b v w = record {
  counted = omega (int_laws, v.counted, w.counted);
  above = ground (arith, v.above, w.above);
}

math_max_assoc : (a b c : ℤ) → math_max a (math_max b c) ≡ math_max (math_max a b) c
math_max_assoc a b c = ground arith

math_max_comm : (a b : ℤ) → math_max a b ≡ math_max b a
math_max_comm a b = ground arith

-- Recording on a merged summary is merging with the measurement recorded before.
module _ (t e : Option ℤ) (a b : Stats) (va : IsValid a) (vb : IsValid b) where
  merge-record_value_min : (merge (record_value t e b) a).min ≡ (record_value t e (merge b a)).min
  unfolding record_value merge
  merge-record_value_min = ground (
    arith,
    va.counted,
    vb.counted,
    +ℤ_parts b.call_count (pos 1),
    +ℤ_parts a.call_count b.call_count,
  )

  merge-record_value_max : (merge (record_value t e b) a).max ≡ (record_value t e (merge b a)).max
  unfolding record_value merge
  merge-record_value_max = ground arith

  pub merge-record_value : merge (record_value t e b) a ≡ record_value t e (merge b a)
  unfolding record_value merge
  merge-record_value = λ i. record {
    total = sym (+ℤ_assoc a.total b.total total) i;
    total_exclusive = sym (+ℤ_assoc a.total_exclusive b.total_exclusive exclusive) i;
    min = merge-record_value_min i;
    max = merge-record_value_max i;
    sum_of_squares = sym (+ℤ_assoc a.sum_of_squares b.sum_of_squares (total *ℤ total)) i;
    call_count = sym (+ℤ_assoc a.call_count b.call_count (pos 1)) i;
  }
    where
      total : ℤ
      total = or_else t (pos 0)

      exclusive : ℤ
      exclusive = or_else e total

+ℤ_zero : (a : ℤ) → a +ℤ pos 0 ≡ a
+ℤ_zero a = omega int_laws

pub merge-init : (a : Stats) → IsValid a → merge init a ≡ a
unfolding merge
merge-init a va = λ i. record {
  total = +ℤ_zero a.total i;
  total_exclusive = +ℤ_zero a.total_exclusive i;
  min = a.min;
  max = highest i;
  sum_of_squares = +ℤ_zero a.sum_of_squares i;
  call_count = +ℤ_zero a.call_count i;
}
  where
    highest : math_max a.max (pos 0) ≡ a.max
    highest = ground (arith, va.above)

-- The summary after a list of measurements, each a total and an exclusive time.
unfoldable pub record_all : List (Option ℤ × Option ℤ) → Stats → Stats
record_all [] s = s
record_all ((t, e) ∷ xs) s = record_value t e (record_all xs s)

pub record_all-IsValid :
    (xs : List (Option ℤ × Option ℤ)) (s : Stats) → IsValid s → IsValid (record_all xs s)
unfolding record_all
record_all-IsValid [] s v = v
record_all-IsValid ((t, e) ∷ xs) s v = record_value-IsValid t e _ (record_all-IsValid xs s v)

-- Merging the summary of some measurements into a summary whose count and maximum are not negative
-- gives, in every field, what recording them in place gives.
pub merge-record_all :
    (xs : List (Option ℤ × Option ℤ)) (a : Stats)
    → IsValid a
    → merge (record_all xs init) a ≡ record_all xs a
unfolding record_all
merge-record_all [] a v = merge-init a v
merge-record_all ((t, e) ∷ xs) a v =
    merge-record_value t e a (record_all xs init) v (record_all-IsValid xs init init-IsValid)
    ∙ ap (record_value t e) (merge-record_all xs a v)
