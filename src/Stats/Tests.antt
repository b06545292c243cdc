-- ===== src/Stats/Tests.antt =====
-- Runs of lib/stats.
use node_newrelic.Stats.Apdex
use node_newrelic.Stats.Laws
use node_newrelic.Stats.{Stats, init, record_value, merge, to_json}
use node_newrelic.Shared.Int.{ℤ, pos, ◌+ℤ◌, ◌*ℤ◌}
use node_newrelic.Shared.{◌≡◌, refl, Option, none, some, List, [], ◌∷◌, arith}

abbrev measured : List (Option ℤ × Option ℤ)
measured = (some (pos 5), some (pos 2)) ∷ (none, none) ∷ (some (pos 9), none) ∷ []

abbrev earlier : Stats
earlier = record {
  total = pos 7;
  total_exclusive = pos 7;
  min = pos 3;
  max = pos 4;
  sum_of_squares = pos 25;
  call_count = pos 2;
}

totals :
    to_json (Laws.record_all measured init) ≡ pos 3 ∷ pos 14 ∷ pos 11 ∷ pos 0 ∷ pos 9 ∷ pos 106 ∷ []
unfolding to_json Laws.record_all record_value ◌+ℤ◌ ◌*ℤ◌
totals = refl

merge-record_all_example :
    merge (Laws.record_all measured init) earlier ≡ Laws.record_all measured earlier
merge-record_all_example = Laws.merge-record_all measured earlier (omega arith)

abbrev zones : Apdex.ApdexStats
zones = record { apdex_t = pos 100; satisfying = 1; tolerating = 0; frustrating = 2 }

abbrev requests : List (ℤ × Option ℤ)
requests = (pos 100, none) ∷ (pos 101, none) ∷ (pos 401, some (pos 0)) ∷ []
