-- ===== src/Aggregators/Event/Cycles.antt =====
-- lib/aggregators/event-aggregator.js and base-aggregator.js: events recorded while any number of
-- sends wait for their responses, which come in any order.
use node_newrelic.Aggregators.Event.{EventAggregator, add, clear_events, send, on_response, ◌>>=◌}
use node_newrelic.PriorityQueue.{HeapLib, Queue}
use node_newrelic.PriorityQueue.Kept.{entries}
use node_newrelic.Shared.{ℕ, zero, suc, Bool, true, Option, none, some, List, [], ◌∷◌, ◌++◌}

module _ (Config : Type 0) {V : Type 0} (lib : HeapLib V) where
  -- What can happen to an aggregator. A send of no events, which the code makes without a request,
  -- waits like any other; an answer is for the send at that place among those that
  -- wait, and `some true` asks to retain the payload.
  pub data Happening : Type 0 where
    recorded : Option ℕ → V → ℕ → Happening
    sent : Happening
    answered : ℕ → Option Bool → (ℕ → ℕ) → Happening

  -- The aggregator, the payloads without a response yet, and the entries of those that are done.
  pub record Cycle : Type 0 where
    pub aggregator : EventAggregator Config lib
    pub waiting : List (Queue lib)
    pub done : List (ℕ × V)

  abbrev pub take_out : ℕ → List (Queue lib) → Option (Queue lib × List (Queue lib))
  take_out n [] = none
  take_out zero (payload ∷ waiting) = some (payload, waiting)
  take_out (suc n) (payload ∷ waiting) = do
    (found, rest) ← take_out n waiting
    some (found, payload ∷ rest)

  abbrev pub done_by : Option Bool → Queue lib → List (ℕ × V)
  done_by (some true) payload = []
  done_by other payload = entries lib payload.heap

  -- A response without a request does not come.
  unfoldable pub step : Happening → Cycle → Option Cycle
  step (recorded priority event roll) s = do
    (a, did_add) ← add Config lib event priority roll s.aggregator
    some (record s { aggregator = a })
  step sent s =
      let (a, payload) = send Config lib s.aggregator in
      some (record s { aggregator = a; waiting = payload ∷ s.waiting })
  step (answered n retain rolls) s = elim (take_out n s.waiting) [
    | none ↦ some s
    | some (payload, rest) ↦ do
      a ← on_response Config lib rolls payload retain s.aggregator
      some (record { aggregator = a; waiting = rest; done = done_by retain payload ++ s.done })
  ]

  unfoldable pub run : List Happening → Cycle → Option Cycle
  unfolding step
  run [] s = some s
  run (happening ∷ happenings) s = do s' ← step happening s; run happenings s'

  -- A new aggregator, with nothing on the way.
  unfoldable pub start : EventAggregator Config lib → Cycle
  start a = record { aggregator = clear_events Config lib a; waiting = []; done = [] }
