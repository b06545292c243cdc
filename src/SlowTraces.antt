-- ===== src/SlowTraces.antt =====
-- lib/transaction/trace/aggregator.js: the slowest transaction trace of a harvest, and the traces of
-- synthetic monitors. Times are whole milliseconds, the thresholds of the configuration too.
use node_newrelic.Shared.Dict.{Dict, lookup, insert}
use node_newrelic.Shared.{
  ℕ, suc, ◌+◌, ◌*◌, ◌≡◌, String, Bool, true, false, not, ◌&&◌, ◌||◌, ◌==◌, Option, none, some,
  if◌then◌else◌, List, [], ◌∷◌, ◌++◌, length, ltb, leb,
}
pub mod Slowest
pub mod Retained
mod Tests

-- What the aggregator reads of a transaction with its trace.
pub record Transaction : Type 0 where
  pub name : String
  pub duration : ℕ
  pub apdex_t : ℕ
  pub is_synthetics : Bool
  pub has_metrics : Bool

-- The settings; no threshold stands for `apdex_f`.
pub record Tracer : Type 0 where
  pub enabled : Bool
  pub top_n : ℕ
  pub transaction_threshold : Option ℕ

pub record Config : Type 0 where
  pub collect_traces : Bool
  pub transaction_tracer : Option Tracer

pub record Aggregator : Type 0 where
  pub config : Config
  pub reported : ℕ
  pub capacity : ℕ
  pub trace : Option Transaction
  pub synthetics_traces : List Transaction
  pub request_times : Dict ℕ
  pub no_trace_submitted : ℕ

abbrev pub capacity_of : Option Tracer → ℕ
capacity_of none = 1
capacity_of (some tracer) = if tracer.top_n == 0 then 1 else tracer.top_n

unfoldable pub create : Config → Aggregator
create config = record {
  config = config;
  reported = 0;
  capacity = capacity_of config.transaction_tracer;
  trace = none;
  synthetics_traces = [];
  request_times = [];
  no_trace_submitted = 0;
}

unfoldable pub reset_timing_tracker : Aggregator → Aggregator
reset_timing_tracker s = record s { request_times = []; no_trace_submitted = 0 }

unfoldable pub add_synthetics_trace : Transaction → Aggregator → Aggregator × Bool
add_synthetics_trace trace s =
    if ltb (length s.synthetics_traces) 20
    then (record s { synthetics_traces = s.synthetics_traces ++ trace ∷ [] }, true)
    else (s, false)

-- `requestTimes[name]`, where 0 counts as missing.
abbrev pub request_time : String → Dict ℕ → Option ℕ
request_time name times = elim (lookup name times) [
  | none ↦ none
  | some time ↦ if time == 0 then none else some time
]

abbrev pub threshold_of : Option Tracer → (apdex_t : ℕ) → ℕ
threshold_of none apdex_t = 4 * apdex_t
threshold_of (some tracer) apdex_t = elim tracer.transaction_threshold [
  | none ↦ 4 * apdex_t
  | some threshold ↦ threshold
]

abbrev pub is_slower : Option ℕ → (duration : ℕ) → Bool
is_slower none duration = true
is_slower (some time) duration = ltb time duration

abbrev pub duration_of : Option Transaction → Option ℕ
duration_of none = none
duration_of (some transaction) = some transaction.duration

abbrev pub is_none : Option ℕ → Bool
is_none none = true
is_none (some n) = false

abbrev pub has_met_guarantee : Aggregator → Bool
has_met_guarantee s = leb 5 s.reported

unfoldable pub is_better : (name : String) (duration apdex_t : ℕ) → Aggregator → Bool
is_better name duration apdex_t s =
    let known = request_time name s.request_times in
    if not (leb (threshold_of s.config.transaction_tracer apdex_t) duration)
    then false
    else if not (is_slower (duration_of s.trace) duration)
    then false
    else if has_met_guarantee s && not (is_slower known duration)
    then false
    else not (has_met_guarantee s && is_none known && leb s.capacity (length s.request_times))

abbrev pub is_enabled : Option Tracer → Bool
is_enabled none = false
is_enabled (some tracer) = tracer.enabled

-- The trace that `isBetter` has let through.
unfoldable pub keep : Transaction → Aggregator → Aggregator
keep transaction s = record s {
  trace = some transaction;
  request_times =
      if is_slower (request_time transaction.name s.request_times) transaction.duration
      then insert transaction.name transaction.duration s.request_times
      else s.request_times;
}

unfoldable pub add : Transaction → Aggregator → Aggregator
unfolding is_better keep add_synthetics_trace
add transaction s =
    if s.config.collect_traces && is_enabled s.config.transaction_tracer && transaction.has_metrics
    then (if transaction.is_synthetics
        then (add_synthetics_trace transaction s).0
        else if is_better transaction.name transaction.duration transaction.apdex_t s
        then keep transaction s
        else s)
    else s

unfoldable pub clear : Aggregator → Aggregator
clear s = record s { trace = none; synthetics_traces = [] }

pub record MergeData : Type 0 where
  pub trace : Option Transaction
  pub synthetics : List Transaction

unfoldable pub get_merge_data : Aggregator → MergeData
get_merge_data s = record { trace = s.trace; synthetics = s.synthetics_traces }

-- The loop of `_merge`, which ends at the first trace that does not fit.
unfoldable pub add_each : List Transaction → Aggregator → Aggregator
unfolding add_synthetics_trace
add_each [] s = s
add_each (trace ∷ traces) s =
    let rest = add_each traces (add_synthetics_trace trace s).0 in
    if (add_synthetics_trace trace s).1 then rest else (add_synthetics_trace trace s).0

abbrev pub add_own : Option Transaction → Aggregator → Aggregator
add_own none s = s
add_own (some transaction) s = add transaction s

unfoldable pub merge : MergeData → Aggregator → Aggregator
unfolding add_each add
merge given s = add_each given.synthetics (add_own given.trace s)

-- `getTraces`, where no trace at all is the empty list.
unfoldable pub get_traces : Aggregator → Aggregator × List Transaction
unfolding reset_timing_tracker
get_traces s = elim s.trace [
  | some trace ↦ (record s { no_trace_submitted = 0 }, s.synthetics_traces ++ trace ∷ [])
  | none ↦
      let counted = record s { no_trace_submitted = s.no_trace_submitted + 1 } in
      (
        if leb 5 counted.no_trace_submitted then reset_timing_tracker counted else counted,
        s.synthetics_traces,
      )
]

-- `_afterSend`
unfoldable pub after_send : (successful : Bool) → Aggregator → Aggregator
after_send successful s = if successful then record s { reported = s.reported + 1 } else s
