-- ===== src/SlowTraces/Retained.antt =====
-- lib/transaction/trace/aggregator.js, `_merge`: whether a trace whose send failed is taken back.
use node_newrelic.SlowTraces.{
  Transaction, Config, Aggregator, add_synthetics_trace, request_time, threshold_of, is_slower,
  duration_of, has_met_guarantee, is_better, is_enabled, keep, add, clear, get_merge_data, add_each,
  merge,
}
use node_newrelic.Shared.Dict.{lookup, insert, lookup-insert_self}
use node_newrelic.Shared.{
  ℕ, ◌≤◌, ◌<◌, ◌≡◌, refl, sym, ap, ◌∙◌, inl, inr, String, Bool, true, false, not, ◌&&◌, ◌==◌, none,
  some, if◌then◌else◌, List, [], ◌∷◌, arith, Bool-cases,
}

-- The transaction is one that the aggregator looks at.
abbrev pub is_traced : Config → Transaction → Bool
is_traced config transaction =
    config.collect_traces && is_enabled config.transaction_tracer && transaction.has_metrics

-- `add` by its three tests.
add_by : Transaction → Aggregator → (traced synthetics better : Bool) → Aggregator
add_by t s traced synthetics better =
    if traced
    then (if synthetics then (add_synthetics_trace t s).0 else if better then keep t s else s)
    else s

pub add-keep :
    (t : Transaction) (s : Aggregator)
    → is_traced s.config t ≡ true
    → t.is_synthetics ≡ false
    → is_better t.name t.duration t.apdex_t s ≡ true
    → add t s ≡ keep t s
unfolding add add_by
add-keep t s traced plain better =
    ap (λ b. add_by t s b t.is_synthetics (is_better t.name t.duration t.apdex_t s)) traced
    ∙ ap (λ b. add_by t s true b (is_better t.name t.duration t.apdex_t s)) plain
    ∙ ap (λ b. add_by t s true false b) better

pub add-skip :
    (t : Transaction) (s : Aggregator)
    → is_traced s.config t ≡ true
    → t.is_synthetics ≡ false
    → is_better t.name t.duration t.apdex_t s ≡ false
    → add t s ≡ s
unfolding add add_by
add-skip t s traced plain worse =
    ap (λ b. add_by t s b t.is_synthetics (is_better t.name t.duration t.apdex_t s)) traced
    ∙ ap (λ b. add_by t s true b (is_better t.name t.duration t.apdex_t s)) plain
    ∙ ap (λ b. add_by t s true false b) worse

pub better_parts :
    (name : String) (duration apdex_t : ℕ) (s : Aggregator)
    → is_better name duration apdex_t s ≡ true
    → (threshold_of s.config.transaction_tracer apdex_t ≤ duration)
      × (is_slower (duration_of s.trace) duration ≡ true)
      × ((has_met_guarantee s && not (is_slower (request_time name s.request_times) duration))
          ≡ false)
unfolding is_better
better_parts name duration apdex_t s better = ground arith

-- Before the guarantee is met, a transaction over the threshold is better than no trace.
pub first_better :
    (name : String) (duration apdex_t : ℕ) (s : Aggregator)
    → threshold_of s.config.transaction_tracer apdex_t ≤ duration
    → is_slower (duration_of s.trace) duration ≡ true
    → has_met_guarantee s ≡ false
    → is_better name duration apdex_t s ≡ true
unfolding is_better
first_better name duration apdex_t s over slower early = ground arith

trace-add_synthetics_trace :
    (t : Transaction) (s : Aggregator) → (add_synthetics_trace t s).0.trace ≡ s.trace
unfolding add_synthetics_trace
trace-add_synthetics_trace t s = ground arith

trace-add_each : (ts : List Transaction) (s : Aggregator) → (add_each ts s).trace ≡ s.trace
unfolding add_each
trace-add_each [] s = refl
trace-add_each (t ∷ ts) s =
    either (add_synthetics_trace t s).1 _ _
      (trace-add_each ts (add_synthetics_trace t s).0 ∙ trace-add_synthetics_trace t s)
      (trace-add_synthetics_trace t s)
  where
    either :
        (b : Bool) (x y : Aggregator)
        → x.trace ≡ s.trace
        → y.trace ≡ s.trace
        → (if b then x else y).trace ≡ s.trace
    either true x y p q = p
    either false x y p q = q

-- The request time of a name that was just kept, once it matters.
kept_time :
    (t : Transaction) (s : Aggregator)
    → 0 < t.duration
    → is_slower (request_time t.name s.request_times) t.duration ≡ true
    → request_time t.name (keep t s).request_times ≡ some t.duration
unfolding keep
kept_time t s positive slower =
    let times : (keep t s).request_times ≡ insert t.name t.duration s.request_times =
      ap (λ b. if b then insert t.name t.duration s.request_times else s.request_times) slower in
    let there : lookup t.name (keep t s).request_times ≡ some t.duration =
      ap (lookup t.name) times ∙ lookup-insert_self t.name t.duration s.request_times in
    let nonzero : (t.duration == 0) ≡ false = ground arith in
    rw (request_time, there) (ap (λ b. if b then none else some t.duration) nonzero)

-- With the guarantee met, a name is not better at its own time.
known_not_better :
    (name : String) (duration apdex_t : ℕ) (s : Aggregator)
    → has_met_guarantee s ≡ true
    → request_time name s.request_times ≡ some duration
    → is_better name duration apdex_t s ≡ false
unfolding is_better
known_not_better name duration apdex_t s met known =
    let same : is_slower (request_time name s.request_times) duration ≡ false =
      ap (λ r. is_slower r duration) known ∙ ground arith in
    ground arith

-- A trace that was kept goes out in a send that the collector asks to retain: it is taken back only
-- while fewer than five sends were reported; from then on it is lost, since its own request time is in
-- its way. (Its duration is not 0, and nothing else was added in between.)
pub merge-retained :
    (t : Transaction) (s : Aggregator)
    → is_traced s.config t ≡ true
    → t.is_synthetics ≡ false
    → 0 < t.duration
    → is_better t.name t.duration t.apdex_t s ≡ true
    → (merge (get_merge_data (add t s)) (clear (add t s))).trace
      ≡ (if has_met_guarantee s then none else some t)
unfolding merge get_merge_data clear keep
merge-retained t s traced plain positive better =
    let parts = better_parts t.name t.duration t.apdex_t s better in
    let c = clear (keep t s) in
    ap (λ a. (merge (get_merge_data a) (clear a)).trace) (add-keep t s traced plain better)
    ∙ trace-add_each s.synthetics_traces (add t c)
    ∙ elim (Bool-cases (has_met_guarantee s)) [
      | inl met ↦
          let slower : is_slower (request_time t.name s.request_times) t.duration ≡ true =
            ground arith in
          ap (λ a. a.trace)
            (add-skip t c traced plain
              (known_not_better t.name t.duration t.apdex_t c met (kept_time t s positive slower)))
          ∙ ap (λ b. if b then none else some t) (sym met)
      | inr early ↦
          ap (λ a. a.trace)
            (add-keep t c traced plain
              (first_better t.name t.duration t.apdex_t c parts.0 refl early))
          ∙ ap (λ b. if b then none else some t) (sym early)
    ]
