-- ===== src/Aggregators/Base.antt =====
-- lib/aggregators/base-aggregator.js: the settings of an aggregator and the timers that it holds.
-- A timer is present or not; what it does when it fires is a call of the method that it was given.
use node_newrelic.Shared.{
  ℕ, String, Bool, true, false, ◌&&◌, Option, none, some, if◌then◌else◌, ltb,
}

pub record Options : Type 0 where
  pub period_ms : ℕ
  pub limit : ℕ
  pub delay : Option ℕ
  pub duration : Option ℕ
  pub run_id : Option String
  pub is_async : Bool

-- `is_enabled` is the test that the aggregator was given; `end` replaces it by one that fails.
pub record Base (Config : Type 0) : Type 0 where
  pub period_ms : ℕ
  pub default_period : ℕ
  pub limit : ℕ
  pub default_limit : ℕ
  pub delay : ℕ
  pub duration : ℕ
  pub run_id : Option String
  pub is_async : Bool
  pub is_enabled : Config → Bool
  pub enabled : Bool
  pub send_timer : Bool
  pub delay_timeout : Bool
  pub duration_timeout : Bool

abbrev pub or_zero : Option ℕ → ℕ
or_zero none = 0
or_zero (some n) = n

module _ {Config : Type 0} where
  abbrev pub enabled_by : Option (Config → Bool) → Config → Bool
  enabled_by none config = true
  enabled_by (some test) config = test config

  unfoldable pub create : Options → Option (Config → Bool) → Config → Base Config
  create opts enabled config = record {
    period_ms = opts.period_ms;
    default_period = opts.period_ms;
    limit = opts.limit;
    default_limit = opts.limit;
    delay = or_zero opts.delay;
    duration = or_zero opts.duration;
    run_id = opts.run_id;
    is_async = opts.is_async;
    is_enabled = enabled_by enabled;
    enabled = enabled_by enabled config;
    send_timer = false;
    delay_timeout = false;
    duration_timeout = false;
  }

  unfoldable pub start : Base Config → Base Config
  start b = if b.send_timer then b else record b { send_timer = true }

  unfoldable pub stop : Base Config → Base Config
  stop b = record b { send_timer = false; delay_timeout = false; duration_timeout = false }

  unfoldable pub end_run : Base Config → Base Config
  end_run b = record b { is_enabled = λ config. false }

  unfoldable pub reconfigure : Option String → Config → Base Config → Base Config
  reconfigure run_id config b = record b { run_id = run_id; enabled = b.is_enabled config }

  -- The body of the loop of `Harvester#start`, for one aggregator.
  unfoldable pub harvester_start : Base Config → Base Config
  unfolding start
  harvester_start b =
      let started =
        if b.enabled && ltb 0 b.delay
        then record b { delay_timeout = true }
        else if b.enabled
        then start b
        else b in
      if started.enabled && ltb 0 started.duration
      then record started { duration_timeout = true }
      else started

  -- What the two timeouts of `Harvester#start` do when they fire.
  unfoldable pub delay_fires : Base Config → Base Config
  unfolding start
  delay_fires b = start b

  unfoldable pub duration_fires : Base Config → Base Config
  unfolding stop end_run
  duration_fires b = end_run (stop b)
