-- ===== src/SlowQueries/Tests.antt =====
-- Runs of lib/db/query-trace-aggregator.js.
use node_newrelic.SlowQueries.{
  SlowQuery, QuerySample, Config, obfuscated, aggregate, new_sample, shortest_from, remove_shortest,
  merge, add_sample, add,
}
use node_newrelic.SlowQueries.Bounded.{Bounded, add-Bounded}
use node_newrelic.SlowQueries.Merging.{length-merge}
use node_newrelic.SlowQueries.Samples.{new_sample-IsLongest}
use node_newrelic.SlowQueries.Shortest.{IsSound}
use node_newrelic.Shared.Dict.{Dict}
use node_newrelic.Shared.{ℕ, String, ◌+◌, ◌≡◌, refl, true, false, some, [], ◌∷◌, length, arith}

abbrev config : Config
config = record {
  record_sql = obfuscated;
  explain_threshold = 500;
  slow_sql_enabled = true;
  max_samples = 2;
}

abbrev query : String → ℕ → SlowQuery ℕ
query normalized duration = record { normalized = normalized; duration = duration; carried = 0 }

abbrev two : Dict (QuerySample ℕ)
two =
    ("select?", new_sample (query "select?" 900))
    ∷ ("insert?", new_sample (query "insert?" 600))
    ∷ []

two-IsSound : IsSound two
unfolding new_sample aggregate
two-IsSound = (
  refl,
  (
    new_sample-IsLongest (query "select?" 900),
    (refl, (refl, (new_sample-IsLongest (query "insert?" 600), (refl, tt)))),
  ),
)

-- A third query evicts the shortest, which may be itself.
evicts :
    ((add config false (query "update?" 700) two).1
      ≡ some (
          ("select?", new_sample (query "select?" 900))
          ∷ ("update?", new_sample (query "update?" 700))
          ∷ []))
    × ((add config false (query "update?" 501) two).1 ≡ some two)
unfolding add add_sample remove_shortest shortest_from new_sample aggregate
evicts = (refl, refl)

add-Bounded_example :
    (samples' : Dict (QuerySample ℕ)) × ((add config false (query "update?" 700) two).1
      ≡ some samples')
    × Bounded 2 samples'
add-Bounded_example =
    add-Bounded config (query "update?" 700) two
      (record { sound = two-IsSound; within = omega arith })

abbrev own : Dict (QuerySample ℕ)
own = ("delete?", new_sample (query "delete?" 800)) ∷ []

length-merge_example : length (merge two own) ≡ length two + length own
length-merge_example = length-merge two own two-IsSound (refl, (refl, tt))
