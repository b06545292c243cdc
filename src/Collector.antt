-- ===== src/Collector.antt =====
-- lib/collector/response.js, and the reading of a status code in lib/collector/api.js: what the agent
-- does with its data and its run after the collector answered.
use node_newrelic.Shared.{
  ℕ, zero, suc, ◌+◌, ◌-◌, not, ◌&&◌, ◌≡◌, Bool, true, false, ◌||◌, Option, none, some,
  if◌then◌else◌, List, [], ◌∷◌, ◌==◌, min,
}
pub mod Codes
pub mod Connecting
mod Tests

pub data AgentRun : Type 0 where
  shutdown preserve restart : AgentRun

pub record CollectorResponse (P : Type 0) : Type 0 where
  pub retain_data : Bool
  pub retry_after : ℕ
  pub agent_run : AgentRun
  pub payload : Option P

abbrev pub is_in : ℕ → List ℕ → Bool
is_in code [] = false
is_in code (c ∷ codes) = (code == c) || is_in code codes

abbrev pub success_codes : List ℕ
success_codes = 200 ∷ 202 ∷ []

abbrev pub restart_codes : List ℕ
restart_codes = 401 ∷ 409 ∷ []

abbrev pub failure_save_data : List ℕ
failure_save_data = 408 ∷ 429 ∷ 500 ∷ 503 ∷ []

abbrev pub failure_discard_data : List ℕ
failure_discard_data = 400 ∷ 403 ∷ 404 ∷ 405 ∷ 407 ∷ 411 ∷ 413 ∷ 414 ∷ 415 ∷ 417 ∷ 431 ∷ []

module _ {P : Type 0} where
  unfoldable pub success : Option P → CollectorResponse P
  success payload = record {
    retain_data = false;
    retry_after = 0;
    agent_run = preserve;
    payload = payload;
  }

  unfoldable pub discard : Option P → CollectorResponse P
  unfolding success
  discard payload = success payload

  unfoldable pub error : Option P → CollectorResponse P
  error payload = record {
    retain_data = true;
    retry_after = 0;
    agent_run = preserve;
    payload = payload;
  }

  unfoldable pub fatal : Option P → CollectorResponse P
  fatal payload = record {
    retain_data = false;
    retry_after = 0;
    agent_run = shutdown;
    payload = payload;
  }

  unfoldable pub retry : ℕ → Option P → CollectorResponse P
  retry delay payload = record {
    retain_data = true;
    retry_after = delay;
    agent_run = preserve;
    payload = payload;
  }

  unfoldable pub reconnect : ℕ → Option P → CollectorResponse P
  reconnect delay payload = record {
    retain_data = false;
    retry_after = delay;
    agent_run = restart;
    payload = payload;
  }

  -- `_handleResponseCode`, and whether it stops the agent first.
  unfoldable pub handle_response_code : ℕ → Option P → CollectorResponse P × Bool
  unfolding success discard error fatal reconnect
  handle_response_code code payload =
      if is_in code success_codes
      then (success payload, false)
      else if is_in code restart_codes
      then (reconnect 0 none, false)
      else if is_in code failure_discard_data
      then (discard none, false)
      else if is_in code failure_save_data
      then (error payload, false)
      else if code == 410
      then (fatal payload, true)
      else (discard none, false)

pub record Backoff : Type 0 where
  pub interval : ℕ
  pub warn : Bool

abbrev pub backoffs : List Backoff
backoffs =
    record { interval = 15; warn = false }
    ∷ record { interval = 15; warn = false }
    ∷ record { interval = 30; warn = false }
    ∷ record { interval = 60; warn = true }
    ∷ record { interval = 120; warn = false }
    ∷ record { interval = 300; warn = false }
    ∷ []

-- The fields of a response that `_retry` reads.
pub record Reply (P : Type 0) : Type 0 where
  pub status : Option ℕ
  pub run : Option AgentRun
  pub payload : Option P

-- What an attempt to connect gives: an error, which may show a misconfigured proxy, and a response
-- of the server or of the agent itself.
pub record Answer (P : Type 0) : Type 0 where
  pub proxy_misconfigured : Bool
  pub failed : Bool
  pub response : Option (Reply P)

-- The status that the health reporter is set to.
pub data Health : Type 0 where
  healthy forced_disconnect invalid_license_key http_proxy_misconfigured backend_error : Health

pub data Outcome (P : Type 0) : Type 0 where
  done : CollectorResponse P → Outcome P
  waits : Backoff → Outcome P
  throws : Outcome P

abbrev pub has_status : (ℕ → Bool) → Option ℕ → Bool
has_status test none = false
has_status test (some status) = test status

abbrev pub is_shutdown : Option AgentRun → Bool
is_shutdown (some shutdown) = true
is_shutdown _ = false

abbrev pub backoff_at : List Backoff → ℕ → Option Backoff
backoff_at [] n = none
backoff_at (b ∷ bs) zero = some b
backoff_at (b ∷ bs) (suc n) = backoff_at bs n

module _ {P : Type 0} where
  -- `CollectorResponse.retry()` takes the place of a missing response.
  abbrev pub or_retry : Option (Reply P) → Reply P
  or_retry none = record { status = none; run = some preserve; payload = none }
  or_retry (some reply) = reply

  abbrev pub waits_for : Option Backoff → Outcome P
  waits_for none = throws
  waits_for (some backoff) = waits backoff

  abbrev pub is_accepted : Answer P → Bool
  is_accepted answer = elim answer.response [
    | none ↦ false
    | some reply ↦ not answer.failed && has_status (λ code. is_in code success_codes) reply.status
  ]

  abbrev pub is_rejected : Answer P → Bool
  is_rejected answer =
      let reply = or_retry answer.response in
      has_status (λ code. code == 410) reply.status || is_shutdown reply.run

  unfoldable pub health_after : Answer P → Health
  health_after answer =
      let reply = or_retry answer.response in
      if is_accepted answer
      then healthy
      else if is_rejected answer
      then forced_disconnect
      else if has_status (λ code. code == 401) reply.status
      then invalid_license_key
      else if answer.proxy_misconfigured
      then http_proxy_misconfigured
      else backend_error

  -- `_retry` for one answer, with the number of attempts made; its health status is `health_after`,
  -- and its count of attempts in the metrics is left out.
  unfoldable pub retry_step : ℕ → Answer P → Outcome P
  unfolding success fatal
  retry_step attempts answer =
      let reply = or_retry answer.response in
      if is_accepted answer
      then done (success reply.payload)
      else if is_rejected answer
      then done (fatal reply.payload)
      else waits_for (backoff_at backoffs (min attempts 6 - 1))

  -- The attempts of `connect` over the answers that come: the backoffs waited for, and what ended
  -- the attempts, if anything did.
  unfoldable pub connect_from : ℕ → List (Answer P) → List Backoff × Option (Outcome P)
  unfolding retry_step
  connect_from attempts [] = ([], none)
  connect_from attempts (answer ∷ answers) =
      let (backoffs', ended) = connect_from (attempts + 1) answers in
      elim (retry_step attempts answer) [
        | done response ↦ ([], some (done response))
        | waits backoff ↦ (backoff ∷ backoffs', ended)
        | throws ↦ ([], some throws)
      ]

  unfoldable pub connect : List (Answer P) → List Backoff × Option (Outcome P)
  unfolding connect_from
  connect answers = connect_from 1 answers
