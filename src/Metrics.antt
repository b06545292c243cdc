-- ===== src/Metrics.antt =====
-- lib/metrics/index.js: the collection of metrics by name, or by scope and name, which a
-- transaction fills and the agent merges and harvests.
use node_newrelic.Shared.{
  ℕ, String, ◌≡◌, Bool, true, false, ◌&&◌, not, Option, none, some, if◌then◌else◌, List, [], ◌∷◌,
  ◌++◌, str_eq,
}
use node_newrelic.Shared.Dict.{Dict, lookup, insert}
use node_newrelic.Shared.Int.{ℤ, pos, ltb_ℤ}
use node_newrelic.Stats
use node_newrelic.Stats.{Stats, Units}
use node_newrelic.Stats.Apdex
use node_newrelic.Stats.Apdex.{ApdexStats}
pub mod Merging
pub mod Measuring
pub mod Counting
mod Tests

-- `nan` stands for an object whose fields have become NaN: a merge of the two kinds reads fields
-- that are not there.
pub data Metric : Type 0 where
  summary : Stats → Metric
  apdex : ApdexStats → Metric
  nan : Metric

abbrev pub merge_metric : Metric → Metric → Metric
merge_metric (summary other) (summary s) = summary (Stats.merge other s)
merge_metric (apdex other) (apdex a) = apdex (Apdex.merge other a)
merge_metric _ _ = nan

pub record Metrics : Type 0 where
  pub empty : Bool
  pub started : ℕ
  pub apdex_t : ℤ
  pub unscoped : Dict Metric
  pub scoped : Dict (Dict Metric)

unfoldable pub create : ℤ → ℕ → Metrics
create apdex_t now = record {
  empty = true;
  started = now;
  apdex_t = apdex_t;
  unscoped = [];
  scoped = [];
}

-- A scope is set if it is given and not the empty text.
abbrev pub scope_of : Option String → Option String
scope_of none = none
scope_of (some scope) = if str_eq scope "" then none else some scope

abbrev pub or_empty : Option (Dict Metric) → Dict Metric
or_empty none = []
or_empty (some names) = names

abbrev pub names_at : Option String → Metrics → Dict Metric
names_at none m = m.unscoped
names_at (some scope) m = or_empty (lookup scope m.scoped)

abbrev pub write_at : Option String → Dict Metric → Metrics → Metrics
write_at none names m = record m { unscoped = names }
write_at (some scope) names m = record m { scoped = insert scope names m.scoped }

-- What `_resolve` returns. It also creates the scope: `write` keeps that.
unfoldable pub resolve : Option String → Metrics → Dict Metric
resolve scope m = names_at (scope_of scope) m

-- The namespace of a scope is an object that the source changes in place.
unfoldable pub write : Option String → Dict Metric → Metrics → Metrics
write scope names m = write_at (scope_of scope) names m

unfoldable pub get_or_create_metric : String → Option String → Metrics → Metrics × Metric
unfolding resolve write
get_or_create_metric name scope m =
    let resolved = resolve scope m in
    elim (lookup name resolved) [
      | some stats ↦ (write scope resolved m, stats)
      | none ↦ (
        write scope (insert name (summary Stats.init) resolved) (record m { empty = false }),
        summary Stats.init,
      )
    ]

abbrev pub apdex_name : String
apdex_name = "Apdex"

-- The threshold of a new apdex metric: a positive override, but for the global one.
unfoldable pub new_threshold : Units → String → Option ℤ → ℤ → ℤ
new_threshold u name none own = own
new_threshold u name (some t) own =
    if not (str_eq name apdex_name) && ltb_ℤ (pos 0) t then u.from_millis t else own

abbrev pub new_apdex : ℤ → Metric
new_apdex t = apdex (record { apdex_t = t; satisfying = 0; tolerating = 0; frustrating = 0 })

-- `none` is the error that metrics must be named.
unfoldable pub get_or_create_apdex_metric :
    Units → String → Option String → Option ℤ → Metrics → Option (Metrics × Metric)
unfolding resolve write new_threshold
get_or_create_apdex_metric u name scope override_apdex m =
    if str_eq name ""
    then none
    else let resolved = resolve scope m in
      let fresh = new_apdex (new_threshold u name override_apdex m.apdex_t) in
      elim (lookup name resolved) [
        | some stats ↦ some (write scope resolved m, stats)
        | none ↦ some (write scope (insert name fresh resolved) (record m { empty = false }), fresh)
      ]

-- The lookup creates the scope, as the source notes; a name that is not there is `none` inside.
unfoldable pub get_metric : String → Option String → Metrics → Option (Metrics × Option Metric)
unfolding resolve write
get_metric name scope m =
    if str_eq name ""
    then none
    else some (write scope (resolve scope m) m, lookup name (resolve scope m))

-- `recordValueInMillis` of either kind.
unfoldable pub record_millis : Units → ℤ → Option ℤ → Metric → Metric
record_millis u duration exclusive (summary s) =
    summary (Stats.record_value_in_millis u duration exclusive s)
record_millis u duration exclusive (apdex a) =
    apdex (Apdex.record_value_in_millis u duration exclusive a)
record_millis u duration exclusive nan = nan

-- The metric that is got is an object of the collection, so recording on it changes the collection.
unfoldable pub measure_milliseconds :
    Units → String → Option String → ℤ → Option ℤ → Metrics → Metrics
unfolding get_or_create_metric record_millis resolve write
measure_milliseconds u name scope duration exclusive m =
    let (m', stats) = get_or_create_metric name scope m in
    write scope (insert name (record_millis u duration exclusive stats) (resolve scope m')) m'

-- `recordValueInBytes`, which apdex metrics do not have: `none` is the TypeError.
unfoldable pub record_bytes : Units → ℤ → Option ℤ → Bool → Metric → Option Metric
record_bytes u size exclusive_size exact (summary s) =
    some (summary (Stats.record_value_in_bytes u size exclusive_size exact s))
record_bytes u size exclusive_size exact (apdex a) = none
record_bytes u size exclusive_size exact nan = some nan

abbrev pub put_back : Option String → String → Metrics → Option Metric → Option Metrics
put_back scope name m none = none
put_back scope name m (some metric) = some (write scope (insert name metric (resolve scope m)) m)

unfoldable pub measure_bytes : Units → String → ℤ → Option ℤ → Bool → Metrics → Option Metrics
unfolding get_or_create_metric record_bytes resolve write
measure_bytes u name size exclusive_size exact m =
    let (m', stats) = get_or_create_metric name none m in
    put_back none name m' (record_bytes u size exclusive_size exact stats)

abbrev pub count_call : Option ℤ → Metric → Option Metric
count_call count (summary s) = some (summary (Stats.increment_call_count count s))
count_call count (apdex a) = none
count_call count nan = some nan

-- `incrementCallCount` on the metric of a name, as the aggregators do for their supportability
-- metrics.
unfoldable pub increment_call_count : String → Option ℤ → Metrics → Option Metrics
unfolding get_or_create_metric resolve write
increment_call_count name count m =
    let (m', stats) = get_or_create_metric name none m in
    put_back none name m' (count_call count stats)

abbrev pub merge_into : Metric → Option Metric → Metric
merge_into metric none = metric
merge_into metric (some own) = merge_metric metric own

-- `_merge(a, b)`: each metric of `b` into `a`.
unfoldable pub merge_names : Dict Metric → Dict Metric → Dict Metric
merge_names [] a = a
merge_names ((name, metric) ∷ b) a =
    merge_names b (insert name (merge_into metric (lookup name a)) a)

-- The loop over the scopes of the other collection. A scope that is a property is never empty text
-- there, and `_resolve` would take the empty text for the unscoped metrics.
unfoldable pub merge_scopes : Dict (Dict Metric) → Metrics → Metrics
unfolding merge_names resolve write
merge_scopes [] m = m
merge_scopes ((scope, names) ∷ scopes) m =
    merge_scopes scopes (write (some scope) (merge_names names (resolve (some scope) m)) m)

abbrev pub earlier : ℕ → ℕ → ℕ
earlier a b = Prim.Native.Nat.min a b

unfoldable pub merge : Metrics → Bool → Metrics → Metrics
unfolding merge_scopes merge_names
merge other adjust_start_time m = merge_scopes other.scoped (record m {
  empty = m.empty && other.empty;
  started = if adjust_start_time then earlier m.started other.started else m.started;
  unscoped = merge_names other.unscoped m.unscoped;
})

-- The name normalizer and the mapper, which other parts of the agent implement: a name may be
-- ignored or become empty, and a name and its scope may be mapped to an id.
pub record Naming (Key : Type 0) : Type 0 where
  pub normalize : String → Bool × Option String
  pub map_name : String → Option String → Key

module _ {Key : Type 0} (naming : Naming Key) where
  -- `_getUnscopedData` and `_getScopedData`: the metric under its mapped name, if it is kept.
  abbrev pub kept_name : Bool × Option String → Option String
  kept_name (true, value) = none
  kept_name (false, none) = none
  kept_name (false, some value) = if str_eq value "" then none else some value

  abbrev pub named : Option String → Metric → Option String → List (Key × Metric)
  named none metric scope = []
  named (some value) metric scope = (naming.map_name value scope, metric) ∷ []

  -- `_toUnscopedData`, and the inner loop of `_toScopedData`.
  unfoldable pub to_data : Option String → Dict Metric → List (Key × Metric)
  to_data scope [] = []
  to_data scope ((name, metric) ∷ names) =
      named (kept_name (naming.normalize name)) metric scope ++ to_data scope names

  unfoldable pub to_scoped_data : Dict (Dict Metric) → List (Key × Metric)
  unfolding to_data
  to_scoped_data [] = []
  to_scoped_data ((scope, names) ∷ scopes) = to_data (some scope) names ++ to_scoped_data scopes

  unfoldable pub to_json : Metrics → List (Key × Metric)
  unfolding to_data to_scoped_data
  to_json m = to_data none m.unscoped ++ to_scoped_data m.scoped
