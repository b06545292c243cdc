-- ===== src/SlowTraces/Tests.antt =====
-- lib/transaction/trace/aggregator.js: a few transactions of one name.
use node_newrelic.SlowTraces.{
  Transaction, Config, Aggregator, create, add, clear, get_merge_data, merge, has_met_guarantee,
  is_better,
}
use node_newrelic.SlowTraces.Retained.{merge-retained}
use node_newrelic.SlowTraces.Slowest.{IsSlowest, add_all, add_all-IsSlowest}
use node_newrelic.Shared.{
  ℕ, ◌≡◌, refl, true, false, none, some, if◌then◌else◌, List, [], ◌∷◌, arith,
}

abbrev timed : ℕ → Transaction
timed duration = record {
  name = "WebTransaction/Uri/";
  duration = duration;
  apdex_t = 100;
  is_synthetics = false;
  has_metrics = true;
}

abbrev config : Config
config = record {
  collect_traces = true;
  transaction_tracer = some (record { enabled = true; top_n = 20; transaction_threshold = none });
}

abbrev old_hand : Aggregator
old_hand = record {
  config = config;
  reported = 5;
  capacity = 20;
  trace = none;
  synthetics_traces = [];
  request_times = [];
  no_trace_submitted = 0;
}

is_kept : is_better (timed 900).name 900 100 old_hand ≡ true
unfolding is_better
is_kept = refl

merge-retained_example :
    (merge (get_merge_data (add (timed 900) old_hand)) (clear (add (timed 900) old_hand))).trace
    ≡ (if has_met_guarantee old_hand then none else some (timed 900))
merge-retained_example = merge-retained (timed 900) old_hand refl refl (omega arith) is_kept

abbrev three_requests : List Transaction
three_requests = timed 500 ∷ timed 900 ∷ timed 300 ∷ []

add_all-IsSlowest_example :
    IsSlowest config three_requests (add_all three_requests (create config)).trace
unfolding create
add_all-IsSlowest_example = add_all-IsSlowest three_requests (create config) refl refl
