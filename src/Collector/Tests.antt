-- ===== src/Collector/Tests.antt =====
-- Runs of lib/collector/api.js.
use node_newrelic.Collector.{Answer, done, handle_response_code, connect, is_in, failure_save_data}
use node_newrelic.Collector.Codes.{run_after, handle_response_code-run_after}
use node_newrelic.Collector.Connecting.{schedule, verdict, connect-schedule}
use node_newrelic.Shared.{ℕ, ◌≡◌, refl, true, false, none, some, [], ◌∷◌, ◌++◌, ◌==◌, map}

handle_response_code-run_after_example :
    ((handle_response_code {P = ℕ} 503 (some 7)).0.retain_data ≡ is_in 503 failure_save_data)
    × ((handle_response_code {P = ℕ} 503 (some 7)).0.agent_run ≡ run_after 503)
    × ((handle_response_code {P = ℕ} 503 (some 7)).0.retry_after ≡ 0)
    × ((handle_response_code {P = ℕ} 503 (some 7)).1 ≡ (503 == 410))
handle_response_code-run_after_example = handle_response_code-run_after {P = ℕ} 503 (some 7)

abbrev unreachable : Answer ℕ
unreachable = record { proxy_misconfigured = false; failed = true; response = none }

abbrev overloaded : Answer ℕ
overloaded = record {
  proxy_misconfigured = false;
  failed = false;
  response = some (record { status = some 503; run = none; payload = none });
}

abbrev accepted : Answer ℕ
accepted = record {
  proxy_misconfigured = false;
  failed = false;
  response = some (record { status = some 200; run = none; payload = some 1 });
}

connect-schedule_example :
    (map (λ b. b.interval) (connect ((unreachable ∷ overloaded ∷ []) ++ accepted ∷ [])).0
      ≡ schedule 1 (unreachable ∷ overloaded ∷ []))
    × ((connect ((unreachable ∷ overloaded ∷ []) ++ accepted ∷ [])).1
        ≡ some (done (verdict accepted)))
connect-schedule_example =
    connect-schedule (unreachable ∷ overloaded ∷ []) accepted [] ((refl, refl), ((refl, refl), tt))
      refl
