-- ===== src/Aggregators/Event.antt =====
-- lib/aggregators/event-aggregator.js: a reservoir of events that counts what it saw, sends and
-- drops, and takes events back after a failed send.
pub mod Tallies
pub mod Counts
pub mod Harvest
pub mod Cycles
mod Shuffles
pub mod Accounting
pub mod Conserved
use node_newrelic.Aggregators.Base
use node_newrelic.Aggregators.Base.{Base}
use node_newrelic.Metrics.{Metrics, increment_call_count}
use node_newrelic.PriorityQueue
use node_newrelic.PriorityQueue.{HeapLib, Queue}
use node_newrelic.Shared.Int.{ℤ, pos, sub_ℕ, ◌-ℤ◌, ltb_ℤ}
use node_newrelic.Shared.{
  ℕ, String, ◌≡◌, Bool, true, false, ◌&&◌, Option, none, some, if◌then◌else◌, List, [], ◌∷◌, ◌==◌,
}

pub record MetricNames : Type 0 where
  pub seen : String
  pub sent : String
  pub dropped : String

infixl 5 ◌>>=◌
abbrev pub ◌>>=◌ {ℓ κ} : {A : Type ℓ} {B : Type κ} → Option A → (A → Option B) → Option B
none >>= f = none
some a >>= f = f a

abbrev pub math_min : ℤ → ℤ → ℤ
math_min a b = if ltb_ℤ b a then b else a

abbrev pub count_dropped : String → ℤ → Metrics → Option Metrics
count_dropped name dropped m =
    if ltb_ℤ (pos 0) dropped then increment_call_count name (some dropped) m else some m

-- What the configuration gives for an aggregator.
pub record Settings : Type 0 where
  pub period_ms : ℕ
  pub limit : ℕ

module _ (Config : Type 0) {V : Type 0} (lib : HeapLib V) where
  pub record EventAggregator : Type 0 where
    pub base : Base Config
    pub items : Queue lib
    pub metric_names : MetricNames
    pub metrics : Metrics

  -- `none` throughout is the TypeError of counting calls on an apdex metric.
  unfoldable pub add : V → Option ℕ → ℕ → EventAggregator → Option (EventAggregator × Bool)
  add event priority roll a = do
    seen ← increment_call_count a.metric_names.seen none a.metrics
    let (items, did_add) = PriorityQueue.add lib event priority roll a.items
    let kept = did_add && (PriorityQueue.overflow lib items == 0)
    let name = if kept then a.metric_names.sent else a.metric_names.dropped
    metrics ← increment_call_count name none seen
    some (record a { items = items; metrics = metrics }, did_add)

  -- How many of the events `mergeEvents` announces as sent.
  unfoldable pub to_merge : ℕ → EventAggregator → ℤ
  to_merge incoming a =
      math_min (pos incoming) (sub_ℕ a.base.limit (PriorityQueue.size lib a.items))

  -- The counts of `mergeEvents`, before it merges.
  unfoldable pub count_merged : ℕ → EventAggregator → Option Metrics
  count_merged incoming a = do
    let seen = pos incoming
    let sent = to_merge incoming a
    m ← increment_call_count a.metric_names.seen (some seen) a.metrics
    m' ← increment_call_count a.metric_names.sent (some sent) m
    count_dropped a.metric_names.dropped (seen -ℤ sent) m'

  -- `mergeEvents`, with the drained queue beside the aggregator.
  unfoldable pub merge_events :
      (ℕ → ℕ) → Queue lib → EventAggregator → Option (EventAggregator × Queue lib)
  merge_events rolls events a = do
    metrics ← count_merged (PriorityQueue.size lib events) a
    let (items, rest) = PriorityQueue.merge_queue lib rolls events a.items
    some (record a { items = items; metrics = metrics }, rest)

  unfoldable pub clear_events : EventAggregator → EventAggregator
  clear_events a = record a { items = PriorityQueue.create lib (some a.items.limit) }

  -- `getAggregatorConfig` may have nothing for this aggregator.
  unfoldable pub reconfigure :
      Option String → Config → Option Settings → EventAggregator → EventAggregator
  reconfigure run_id config none a =
      let b = Base.reconfigure run_id config a.base in
      record a { base = record b { period_ms = b.default_period; limit = b.default_limit } }
  reconfigure run_id config (some s) a =
      let b = Base.reconfigure run_id config a.base in
      record a {
        base = record b { period_ms = s.period_ms; limit = s.limit };
        items = PriorityQueue.set_limit lib s.limit a.items;
      }

  -- `send` takes the queue and leaves a new one; the response comes later.
  unfoldable pub send : EventAggregator → EventAggregator × Queue lib
  unfolding clear_events
  send a = (clear_events a, a.items)

  -- The callback of `_runSend`: the data is merged back if the collector says to retain it.
  unfoldable pub on_response :
      (ℕ → ℕ) → Queue lib → Option Bool → EventAggregator → Option EventAggregator
  on_response rolls sent_items none a = some a
  on_response rolls sent_items (some false) a = some a
  on_response rolls sent_items (some true) a = do
    (a', rest) ← merge_events rolls sent_items a
    some a'
