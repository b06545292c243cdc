-- ===== src/Metrics/Tests.antt =====
-- Runs of lib/metrics/index.js.
use node_newrelic.Metrics.{summary, Metrics, create, merge}
use node_newrelic.Metrics.Measuring.{found_nothing, measure_all, merge-measure_all}
use node_newrelic.Metrics.Merging.{IsValid, found, found-merge, combine}
use node_newrelic.Shared.Int.{ℤ, pos}
use node_newrelic.Stats.{Units, init}
use node_newrelic.Shared.{String, ◌≡◌, refl, true, false, Option, none, some, List, [], ◌∷◌}

abbrev units : Units
units = record { from_millis = λ x. x; to_megabytes = λ x. x }

abbrev measured : List (String × Option String × ℤ × Option ℤ)
measured =
    ("Datastore/all", none, pos 12, none)
    ∷ ("Datastore/all", some "WebTransaction/a", pos 12, some (pos 3))
    ∷ ("Datastore/all", none, pos 5, none)
    ∷ []

abbrev other : Metrics
other = record {
  empty = false;
  started = 4;
  apdex_t = pos 100;
  unscoped = ("Errors/all", summary init) ∷ [];
  scoped = ("WebTransaction/a", ("Errors/all", summary init) ∷ []) ∷ [];
}

other-IsValid : IsValid other
other-IsValid = record { names = (refl, tt); scopes = (refl, tt); inner = (refl, (refl, tt), tt) }

found-merge_example :
    found "Errors/all" (some "WebTransaction/a") (merge other true (create (pos 100) 9))
    ≡ combine
        (found "Errors/all" (some "WebTransaction/a") other)
        (found "Errors/all" (some "WebTransaction/a") (create (pos 100) 9))
found-merge_example =
    found-merge "Errors/all" (some "WebTransaction/a") true other (create (pos 100) 9) other-IsValid

abbrev agent : Metrics
agent = create (pos 100) 2

merge-measure_all_example :
    found "Datastore/all" none (merge (measure_all units measured (create (pos 100) 9)) true agent)
    ≡ found "Datastore/all" none (measure_all units measured agent)
merge-measure_all_example =
    merge-measure_all units (pos 100) 9 true measured agent (found_nothing units (pos 100) 2)
      "Datastore/all" none
