-- ===== src/Metrics/Counting.antt =====
-- lib/metrics/index.js: counting calls on a named metric, as the aggregators do.
use node_newrelic.Metrics.{
  Metric, summary, apdex, nan, Metrics, resolve, write, get_or_create_metric, count_call,
  increment_call_count,
}
use node_newrelic.Metrics.Merging.{found, resolve-write}
use node_newrelic.Metrics.Measuring.{or_fresh, found-get_or_create_metric}
use node_newrelic.Shared.Dict.{insert, lookup-insert}
use node_newrelic.Shared.Int.{ℤ, pos, ◌+ℤ◌}
use node_newrelic.Stats
use node_newrelic.Stats.{Stats, init, or_else}
use node_newrelic.Shared.{
  String, ◌≡◌, refl, subst, inl, inr, false, Option, none, some, if◌then◌else◌, arith, str_eq,
  eq_iff, eq_refl, Bool-cases,
}

-- Nothing yet, or a summary: a metric on which calls can be counted.
abbrev pub IsCountable : Option Metric → Type 0
IsCountable none = Unit
IsCountable (some (summary s)) = Unit
IsCountable (some (apdex a)) = ⊥
IsCountable (some nan) = ⊥

abbrev pub calls_of : Option Metric → ℤ
calls_of none = pos 0
calls_of (some (summary s)) = s.call_count
calls_of (some (apdex a)) = pos 0
calls_of (some nan) = pos 0

-- The call count of an unscoped metric.
abbrev pub calls : String → Metrics → ℤ
calls name m = calls_of (found name none m)

abbrev counted : Option ℤ → Option Metric → Metric
counted count metric = summary (Stats.increment_call_count count (summary_of metric))
  where
    summary_of : Option Metric → Stats
    summary_of (some (summary s)) = s
    summary_of _ = init

count_call-counted :
    (count : Option ℤ) (metric : Option Metric)
    → IsCountable metric
    → count_call count (or_fresh metric) ≡ some (counted count metric)
count_call-counted count none h = refl
count_call-counted count (some (summary s)) h = refl
count_call-counted count (some (apdex a)) h = absurd h
count_call-counted count (some nan) h = absurd h

calls_of-counted :
    (count : Option ℤ) (metric : Option Metric)
    → IsCountable metric
    → calls_of (some (counted count metric)) ≡ calls_of metric +ℤ or_else count (pos 1)
unfolding Stats.increment_call_count
calls_of-counted count none h = refl
calls_of-counted count (some (summary s)) h = refl
calls_of-counted count (some (apdex a)) h = absurd h
calls_of-counted count (some nan) h = absurd h

abbrev pub AllCountable : Metrics → Type 0
AllCountable m = (k : String) → IsCountable (found k none m)

-- The collection after one count, which succeeds on a countable metric.
pub after_count : String → Option ℤ → Metrics → Metrics
unfolding get_or_create_metric
after_count name count m =
    let m' = (get_or_create_metric name none m).0 in
    write none (insert name (counted count (found name none m)) (resolve none m')) m'

pub increment-after_count :
    (name : String) (count : Option ℤ) (m : Metrics)
    → IsCountable (found name none m)
    → increment_call_count name count m ≡ some (after_count name count m)
unfolding increment_call_count after_count
increment-after_count name count m h = ground (
  arith,
  (found-get_or_create_metric name none m).0,
  count_call-counted count (found name none m) h,
)

pub found-after_count :
    (name k : String) (count : Option ℤ) (m : Metrics)
    → found k none (after_count name count m)
      ≡ (if str_eq name k then some (counted count (found name none m)) else found k none m)
unfolding after_count
found-after_count name k count m =
    let m' = (get_or_create_metric name none m).0 in
    let metric = counted count (found name none m) in
    ground (
      arith,
      resolve-write none none (insert name metric (resolve none m')) m',
      lookup-insert name k metric (resolve none m'),
      (found-get_or_create_metric name none m).1 k none,
    )

pub calls-after_count :
    (name k : String) (count : Option ℤ) (m : Metrics)
    → IsCountable (found name none m)
    → calls k (after_count name count m)
      ≡ (if str_eq name k then calls k m +ℤ or_else count (pos 1) else calls k m)
calls-after_count name k count m h = elim (Bool-cases (str_eq name k)) [
  | inl hit ↦
      rw (found-after_count name k count m, hit)
        (subst
          (λ j.
            calls_of (some (counted count (found name none m)))
            ≡ calls j m +ℤ or_else count (pos 1))
          ((eq_iff name k).0 hit) (calls_of-counted count (found name none m) h))
  | inr miss ↦ rw (found-after_count name k count m, miss)
]

pub after_count-AllCountable :
    (name : String) (count : Option ℤ) (m : Metrics)
    → AllCountable m
    → AllCountable (after_count name count m)
after_count-AllCountable name count m h k = ground (arith, found-after_count name k count m, h k)

pub calls-after_count_self :
    (name : String) (count : Option ℤ) (m : Metrics)
    → IsCountable (found name none m)
    → calls name (after_count name count m) ≡ calls name m +ℤ or_else count (pos 1)
calls-after_count_self name count m h =
    ground (arith, calls-after_count name name count m h, eq_refl name)

pub calls-after_count_ne :
    (name k : String) (count : Option ℤ) (m : Metrics)
    → str_eq name k ≡ false
    → IsCountable (found name none m)
    → calls k (after_count name count m) ≡ calls k m
calls-after_count_ne name k count m e h = ground (arith, calls-after_count name k count m h)
