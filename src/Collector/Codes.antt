-- ===== src/Collector/Codes.antt =====
-- lib/collector/api.js: what each status code does.
use node_newrelic.Collector.{
  AgentRun, shutdown, preserve, restart, is_in, restart_codes, failure_save_data, success, discard,
  error, fatal, reconnect, handle_response_code,
}
use node_newrelic.Shared.{ℕ, ◌≡◌, true, Option, if◌then◌else◌, ◌==◌, arith}

-- What a code means, without an order of tests.
abbrev pub run_after : ℕ → AgentRun
run_after code =
    if code == 410 then shutdown else if is_in code restart_codes then restart else preserve

eq_of : (a b : ℕ) → (a == b) ≡ true → a ≡ b
eq_of a b h = ground arith

-- For any status code: the data are retained exactly on the codes of a failure to save from, the run
-- is shut down exactly on 410, on which alone the agent is stopped, and restarted exactly on the
-- codes for it; every other code preserves it. No delay is asked for. The order of the tests plays no part.
pub handle_response_code-run_after :
    {P : Type 0} (code : ℕ) (payload : Option P)
    → ((handle_response_code code payload).0.retain_data ≡ is_in code failure_save_data)
      × ((handle_response_code code payload).0.agent_run ≡ run_after code)
      × ((handle_response_code code payload).0.retry_after ≡ 0)
      × ((handle_response_code code payload).1 ≡ (code == 410))
unfolding handle_response_code success discard error fatal reconnect
handle_response_code-run_after code payload =
    (ground arith, ground arith, ground arith, ground arith)
