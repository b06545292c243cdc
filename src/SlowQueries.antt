-- ===== src/SlowQueries.antt =====
-- lib/db/query-trace-aggregator.js and lib/db/query-sample.js: the slow queries of a harvest, one
-- sample for each normalized query. A Map is a dictionary in the order of insertion.
use node_newrelic.Shared.Dict.{Dict, lookup, insert, remove}
use node_newrelic.Shared.Int.{pos}
use node_newrelic.Stats
use node_newrelic.Stats.{Stats, init, record_value}
use node_newrelic.Shared.{
  ℕ, String, ◌≡◌, Bool, true, false, Option, none, some, if◌then◌else◌, List, [], ◌∷◌, leb, ltb,
  length,
}
pub mod Samples
pub mod Shortest
pub mod Bounded
pub mod Merging
mod Tests

-- lib/db/slow-query.js, with the fields that the aggregator reads. `V` is what it carries along.
pub record SlowQuery (V : Type 0) : Type 0 where
  pub normalized : String
  pub duration : ℕ
  pub carried : V

pub record QuerySample (V : Type 0) : Type 0 where
  pub stats : Stats
  pub trace : SlowQuery V

pub data RecordSql : Type 0 where
  raw obfuscated off : RecordSql

pub record Config : Type 0 where
  pub record_sql : RecordSql
  pub explain_threshold : ℕ
  pub slow_sql_enabled : Bool
  pub max_samples : ℕ

-- The attributes that `add` sets on the segment.
pub data Attribute : Type 0 where
  sql sql_obfuscated backtrace : Attribute

abbrev pub sql_attribute : RecordSql → Option Attribute
sql_attribute raw = some sql
sql_attribute obfuscated = some sql_obfuscated
sql_attribute off = none

module _ {V : Type 0} where
  -- `aggregate`: the trace of the longest query is kept, the earlier one of two that are equal.
  unfoldable pub aggregate : SlowQuery V → QuerySample V → QuerySample V
  unfolding record_value
  aggregate q sample =
      let recorded : QuerySample V = record sample {
        stats = record_value (some (pos q.duration)) none sample.stats;
      } in
      if leb q.duration sample.trace.duration then recorded else record recorded { trace = q }

  unfoldable pub new_sample : SlowQuery V → QuerySample V
  unfolding aggregate
  new_sample q = aggregate q (record { stats = init; trace = q })

  unfoldable pub merge_sample : QuerySample V → QuerySample V → QuerySample V
  unfolding Stats.merge
  merge_sample other sample = record {
    stats = Stats.merge other.stats sample.stats;
    trace = if ltb sample.trace.duration other.trace.duration then other.trace else sample.trace;
  }

  -- The loop of `removeShortest`, with the shortest trace so far.
  unfoldable pub shortest_from : SlowQuery V → Dict (QuerySample V) → SlowQuery V
  shortest_from shortest [] = shortest
  shortest_from shortest ((key, sample) ∷ samples) =
      shortest_from (if ltb sample.trace.duration shortest.duration then sample.trace else shortest)
        samples

  -- Without samples `removeShortest` throws a TypeError: `none`.
  unfoldable pub remove_shortest : Dict (QuerySample V) → Option (Dict (QuerySample V))
  unfolding shortest_from
  remove_shortest [] = none
  remove_shortest ((key, sample) ∷ samples) =
      some (remove (shortest_from sample.trace samples).normalized ((key, sample) ∷ samples))

  -- `_merge`
  unfoldable pub merge : Dict (QuerySample V) → Dict (QuerySample V) → Dict (QuerySample V)
  unfolding merge_sample
  merge [] samples = samples
  merge ((key, sample) ∷ others) samples = elim (lookup sample.trace.normalized samples) [
    | some own ↦ merge others (insert sample.trace.normalized (merge_sample sample own) samples)
    | none ↦ merge others (insert sample.trace.normalized sample samples)
  ]

  -- The end of `add`, for a query that is sampled.
  unfoldable pub add_sample :
      Config → Bool → SlowQuery V → Dict (QuerySample V) → Option (Dict (QuerySample V))
  unfolding aggregate new_sample remove_shortest
  add_sample config serverless_mode q samples = elim (lookup q.normalized samples) [
    | some own ↦ some (insert q.normalized (aggregate q own) samples)
    | none ↦
        let added = insert q.normalized (new_sample q) samples in
        let fewer = remove_shortest added in
        if serverless_mode
        then some added
        else if ltb config.max_samples (length added)
        then fewer
        else some added
  ]

  -- `add`, with the attributes that it set.
  unfoldable pub add :
      Config
      → Bool
      → SlowQuery V
      → Dict (QuerySample V)
      → List Attribute × Option (Dict (QuerySample V))
  unfolding add_sample
  add config serverless_mode q samples =
      let sampled = add_sample config serverless_mode q samples in
      elim (sql_attribute config.record_sql) [
        | none ↦ ([], some samples)
        | some attribute ↦
            if ltb q.duration config.explain_threshold
            then (attribute ∷ [], some samples)
            else if config.slow_sql_enabled
            then (attribute ∷ backtrace ∷ [], sampled)
            else (attribute ∷ backtrace ∷ [], some samples)
      ]
