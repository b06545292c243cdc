-- ===== src/Metrics/Measuring.antt =====
-- lib/metrics/index.js: measuring on a transaction's own collection and on the agent's.
use node_newrelic.Metrics.{
  Metric, summary, apdex, nan, Metrics, create, scope_of, names_at, resolve, get_or_create_metric,
  record_millis, measure_milliseconds, merge,
}
use node_newrelic.Metrics.Merging.{
  same_scope, IsValid, resolve-write, combine, found, found-merge, write-IsValid,
  resolve-IsDistinct,
}
use node_newrelic.Shared.Dict.{lookup, insert, lookup-insert, insert-IsDistinct}
use node_newrelic.Shared.Int.{ℤ}
use node_newrelic.Stats
use node_newrelic.Stats.Laws
use node_newrelic.Stats.{Stats, Units, init}
use node_newrelic.Shared.{
  ℕ, String, ◌≡◌, refl, ap, ◌∙◌, subst, inl, inr, Bool, true, false, ◌&&◌, Option, none, some,
  if◌then◌else◌, List, [], ◌∷◌, arith, str_eq, eq_iff, eq_refl, Bool-cases, Option-cases,
}

abbrev pub or_fresh : Option Metric → Metric
or_fresh none = summary init
or_fresh (some metric) = metric

same_scope_self : (o : Option String) → same_scope o o ≡ true
same_scope_self none = refl
same_scope_self (some s) = eq_refl s

resolve_empty :
    (scope : Option String) (m : Metrics) (b : Bool)
    → resolve scope (record m { empty = b }) ≡ resolve scope m
unfolding resolve
resolve_empty scope m b = go (scope_of scope)
  where
    go : (o : Option String) → names_at o (record m { empty = b }) ≡ names_at o m
    go none = refl
    go (some s) = refl

resolve_same :
    (a b : Option String) (m : Metrics)
    → same_scope (scope_of a) (scope_of b) ≡ true
    → resolve a m ≡ resolve b m
unfolding resolve
resolve_same a b m = go (scope_of a) (scope_of b)
  where
    go : (o o' : Option String) → same_scope o o' ≡ true → names_at o m ≡ names_at o' m
    go none none h = refl
    go none (some y) h = cc
    go (some x) none h = cc
    go (some x) (some y) h = ap (λ t. names_at (some t) m) ((eq_iff x y).0 h)

same_found :
    (name k : String) (a b : Option String) (m : Metrics)
    → same_scope (scope_of a) (scope_of b) && str_eq name k ≡ true
    → found name a m ≡ found k b m
same_found name k a b m h = ground (arith, resolve_same a b m, eq_iff name k)

-- The collection after `getOrCreateMetric`, and what it returns.
pub found-get_or_create_metric :
    (name : String) (scope : Option String) (m : Metrics)
    → ((get_or_create_metric name scope m).1 ≡ or_fresh (found name scope m))
      × ((k : String) (other : Option String)
          → found k other (get_or_create_metric name scope m).0 ≡ (
              if same_scope (scope_of scope) (scope_of other) && str_eq name k
              then some (or_fresh (found name scope m))
              else found k other m))
unfolding get_or_create_metric
found-get_or_create_metric name scope m = elim (Option-cases (lookup name (resolve scope m))) [
  | inl e ↦
      rw (e, get_or_create_metric)
        (
          refl,
          λ k other. ground (
            arith,
            resolve-write scope other (insert name (summary init) (resolve scope m))
                (record m { empty = false }),
            lookup-insert name k (summary init) (resolve scope m),
            resolve_empty other m false,
            resolve_same scope other m,
          ),
        )
  | inr (x, e) ↦
      rw (e, get_or_create_metric)
        (
          refl,
          λ k other. ground (
            arith,
            resolve-write scope other (resolve scope m) m,
            resolve_same scope other m,
            eq_iff name k,
          ),
        )
]

found-measure :
    (u : Units) (name : String) (scope : Option String) (duration : ℤ) (exclusive : Option ℤ)
    (m : Metrics) (k : String) (other : Option String)
    → found k other (measure_milliseconds u name scope duration exclusive m) ≡ (
        if same_scope (scope_of scope) (scope_of other) && str_eq name k
        then some (record_millis u duration exclusive (or_fresh (found name scope m)))
        else found k other m)
unfolding measure_milliseconds
found-measure u name scope duration exclusive m k other =
    let (m', stats) = get_or_create_metric name scope m in
    let metric = record_millis u duration exclusive stats in
    let (e, after) = found-get_or_create_metric name scope m in
    ground (
      arith,
      resolve-write scope other (insert name metric (resolve scope m')) m',
      lookup-insert name k metric (resolve scope m'),
      e,
      after k other,
      resolve_same scope other m',
    )

-- No apdex metric and no NaN, and a summary that counts up.
abbrev pub IsSummary : Option Metric → Type 0
IsSummary none = Unit
IsSummary (some (summary s)) = Laws.IsValid s
IsSummary (some (apdex a)) = ⊥
IsSummary (some nan) = ⊥

abbrev pub AllSummary : Metrics → Type 0
AllSummary m = (k : String) (scope : Option String) → IsSummary (found k scope m)

abbrev seconds : Units → ℤ → Option ℤ
seconds u d = some (u.from_millis d)

abbrev exclusive_seconds : Units → Option ℤ → Option ℤ
exclusive_seconds u e = Stats.scale u.from_millis (Stats.non_negative e)

get_or_create_metric-IsValid :
    (name : String) (scope : Option String) (m : Metrics)
    → IsValid m
    → IsValid (get_or_create_metric name scope m).0
unfolding get_or_create_metric
get_or_create_metric-IsValid name scope m v = elim (Option-cases (lookup name (resolve scope m))) [
  | inl e ↦
      rw (e, get_or_create_metric)
        (write-IsValid scope _ (record m { empty = false })
          (insert-IsDistinct name (summary init) (resolve scope m) (resolve-IsDistinct scope m v))
          (record { names = v.names; scopes = v.scopes; inner = v.inner }))
  | inr (x, e) ↦
      rw (e, get_or_create_metric)
        (write-IsValid scope (resolve scope m) m (resolve-IsDistinct scope m v) v)
]

module _ (u : Units) where
  record_millis-IsSummary :
      (d : ℤ) (e : Option ℤ) (x : Option Metric)
      → IsSummary x
      → IsSummary (some (record_millis u d e (or_fresh x)))
  unfolding record_millis Stats.record_value_in_millis
  record_millis-IsSummary d e none h =
      Laws.record_value-IsValid (seconds u d) (exclusive_seconds u e) init Laws.init-IsValid
  record_millis-IsSummary d e (some (summary s)) h =
      Laws.record_value-IsValid (seconds u d) (exclusive_seconds u e) s h
  record_millis-IsSummary d e (some (apdex a)) h = absurd h
  record_millis-IsSummary d e (some nan) h = absurd h

  record_millis-combine :
      (d : ℤ) (e : Option ℤ) (x own : Option Metric)
      → IsSummary x
      → IsSummary own
      → combine (some (record_millis u d e (or_fresh x))) own
        ≡ some (record_millis u d e (or_fresh (combine x own)))
  unfolding record_millis Stats.record_value_in_millis
  record_millis-combine d e none none hx ho = refl
  record_millis-combine d e (some x) none hx ho = refl
  record_millis-combine d e none (some (summary a)) hx ho =
      ap (λ s. some (summary s))
        (Laws.merge-record_value (seconds u d) (exclusive_seconds u e) a init ho Laws.init-IsValid
          ∙ ap (Stats.record_value (seconds u d) (exclusive_seconds u e)) (Laws.merge-init a ho))
  record_millis-combine d e (some (summary b)) (some (summary a)) hx ho =
      ap (λ s. some (summary s))
        (Laws.merge-record_value (seconds u d) (exclusive_seconds u e) a b ho hx)
  record_millis-combine d e (some (summary b)) (some (apdex a)) hx ho = absurd ho
  record_millis-combine d e (some (summary b)) (some nan) hx ho = absurd ho
  record_millis-combine d e (some (apdex b)) (some a) hx ho = absurd hx
  record_millis-combine d e (some nan) (some a) hx ho = absurd hx
  record_millis-combine d e none (some (apdex a)) hx ho = absurd ho
  record_millis-combine d e none (some nan) hx ho = absurd ho

  -- A transaction's measurements: name, scope, duration and exclusive time, the last one first.
  pub measure_all : List (String × Option String × ℤ × Option ℤ) → Metrics → Metrics
  measure_all [] m = m
  measure_all ((name, scope, d, e) ∷ xs) m =
      measure_milliseconds u name scope d e (measure_all xs m)

  measure-IsValid :
      (name : String) (scope : Option String) (d : ℤ) (e : Option ℤ) (m : Metrics)
      → IsValid m
      → IsValid (measure_milliseconds u name scope d e m)
  unfolding measure_milliseconds
  measure-IsValid name scope d e m v =
      let (m', stats) = get_or_create_metric name scope m in
      let v' = get_or_create_metric-IsValid name scope m v in
      write-IsValid scope (insert name (record_millis u d e stats) (resolve scope m')) m'
        (insert-IsDistinct name _ (resolve scope m') (resolve-IsDistinct scope m' v')) v'

  measure-AllSummary :
      (name : String) (scope : Option String) (d : ℤ) (e : Option ℤ) (m : Metrics)
      → AllSummary m
      → AllSummary (measure_milliseconds u name scope d e m)
  measure-AllSummary name scope d e m h k other =
      elim (Bool-cases (same_scope (scope_of scope) (scope_of other) && str_eq name k)) [
        | inl hit ↦
            rw (found-measure u name scope d e m k other, hit)
              (record_millis-IsSummary d e (found name scope m) (h name scope))
        | inr miss ↦ rw (found-measure u name scope d e m k other, miss) (h k other)
      ]

  measure_all-AllSummary :
      (xs : List (String × Option String × ℤ × Option ℤ)) (m : Metrics)
      → AllSummary m
      → AllSummary (measure_all xs m)
  unfolding measure_all
  measure_all-AllSummary [] m h = h
  measure_all-AllSummary ((name, scope, d, e) ∷ xs) m h =
      measure-AllSummary name scope d e (measure_all xs m) (measure_all-AllSummary xs m h)

  measure_all-IsValid :
      (xs : List (String × Option String × ℤ × Option ℤ)) (m : Metrics)
      → IsValid m
      → IsValid (measure_all xs m)
  unfolding measure_all
  measure_all-IsValid [] m v = v
  measure_all-IsValid ((name, scope, d, e) ∷ xs) m v =
      measure-IsValid name scope d e (measure_all xs m) (measure_all-IsValid xs m v)

  found-create :
      (t : ℤ) (now : ℕ) (k : String) (scope : Option String) → found k scope (create t now) ≡ none
  unfolding create resolve
  found-create t now k scope = go (scope_of scope)
    where
      go : (o : Option String) → lookup k (names_at o (create t now)) ≡ none
      go none = refl
      go (some s) = refl

  combine-measure_all :
      (xs : List (String × Option String × ℤ × Option ℤ)) (fresh m : Metrics)
      → ((k : String) (scope : Option String) → found k scope fresh ≡ none)
      → AllSummary fresh
      → AllSummary m
      → (k : String) (scope : Option String)
      → combine (found k scope (measure_all xs fresh)) (found k scope m)
        ≡ found k scope (measure_all xs m)
  unfolding measure_all
  combine-measure_all [] fresh m nothing hf hm k scope = rw (nothing k scope)
  combine-measure_all ((name, sc, d, e) ∷ xs) fresh m nothing hf hm k scope =
      let mine = measure_all xs fresh in
      let ours = measure_all xs m in
      let here = combine-measure_all xs fresh m nothing hf hm name sc in
      elim (Bool-cases (same_scope (scope_of sc) (scope_of scope) && str_eq name k)) [
        | inl hit ↦
            rw
              (
                found-measure u name sc d e mine k scope,
                found-measure u name sc d e ours k scope,
                hit,
              )
              (subst
                (λ own.
                  combine (some (record_millis u d e (or_fresh (found name sc mine)))) own
                  ≡ some (record_millis u d e (or_fresh (found name sc ours))))
                (same_found name k sc scope m hit)
                (record_millis-combine d e (found name sc mine) (found name sc m)
                    (measure_all-AllSummary xs fresh hf name sc) (hm name sc)
                  ∙ ap (λ x. some (record_millis u d e (or_fresh x))) here))
        | inr miss ↦
            rw
              (
                found-measure u name sc d e mine k scope,
                found-measure u name sc d e ours k scope,
                miss,
              )
              (combine-measure_all xs fresh m nothing hf hm k scope)
      ]

  pub found_nothing :
      (t : ℤ) (now : ℕ) (k : String) (scope : Option String)
      → IsSummary (found k scope (create t now))
  found_nothing t now k scope = rw (found-create t now k scope) tt

  create-IsValid : (t : ℤ) (now : ℕ) → IsValid (create t now)
  unfolding create
  create-IsValid t now = record { names = tt; scopes = tt; inner = tt }

  -- For every name and scope, what the agent's collection stores after it merges a transaction's
  -- own collection is what it would store had each measurement been made on it, in the same order,
  -- provided that it held no apdex metric, NaN, negative count or negative maximum.
  pub merge-measure_all :
      (t : ℤ) (now : ℕ) (adjust : Bool) (xs : List (String × Option String × ℤ × Option ℤ))
      (m : Metrics)
      → AllSummary m
      → (k : String) (scope : Option String)
      → found k scope (merge (measure_all xs (create t now)) adjust m)
        ≡ found k scope (measure_all xs m)
  merge-measure_all t now adjust xs m h k scope =
      found-merge k scope adjust (measure_all xs (create t now)) m
        (measure_all-IsValid xs (create t now) (create-IsValid t now))
      ∙ combine-measure_all xs (create t now) m (found-create t now) (found_nothing t now) h k scope
