-- ===== src/Aggregators/Event/Conserved.antt =====
-- lib/aggregators/event-aggregator.js and base-aggregator.js: runs in which records, sends and responses
-- are interleaved.
use mathlib.Core.List.{perm_middle, mem-append_right, append_assoc, append-nil}
use mathlib.Core.List.Perm
use node_newrelic.Aggregators.Event.{EventAggregator, clear_events, ◌>>=◌}
use node_newrelic.Aggregators.Event.Tallies.{AreDistinct}
use node_newrelic.Aggregators.Event.Cycles.{Happening, recorded, sent, answered, Cycle, run, start}
use node_newrelic.Metrics.Counting.{AllCountable}
use node_newrelic.PriorityQueue
use node_newrelic.PriorityQueue.{HeapLib, Queue}
use node_newrelic.PriorityQueue.Kept.{entries}
use node_newrelic.PriorityQueue.TopK.{chosen, create-KeepsBest}
use node_newrelic.Shared.{
  ℕ, ◌≤◌, ◌<◌, ◌≡◌, ◌⊎◌, inl, refl, ap, ◌∙◌, some, List, [], ◌∷◌, ◌++◌, Mem, Perm, length,
  length-perm, subst,
}
use node_newrelic.Aggregators.Event.Shuffles.{sent_perm}
use node_newrelic.Aggregators.Event.Accounting.{
  offers, on_the_way, Accounted, recorded-Accounted, sent-Accounted, answered-Accounted,
  lost_or_full,
}

module _ (Config : Type 0) {V : Type 0} (lib : HeapLib V) where
  Accounted-perm :
      (limit : ℕ) (xs ys : List (ℕ × V)) (s : Cycle Config lib)
      → Perm ys xs
      → Accounted Config lib limit xs s
      → Accounted Config lib limit ys s
  Accounted-perm limit xs ys s p inv = record {
    current = inv.current;
    lost = inv.lost;
    best = inv.best;
    whole = Perm.trans p inv.whole;
    full = subst (λ n. (inv.lost ≡ []) ⊎ (limit < n)) (length-perm xs ys (Perm.symm p)) inv.full;
    limited = inv.limited;
    distinct = inv.distinct;
    countable = inv.countable;
  }

  run-Accounted :
      (limit : ℕ) (offered : List (ℕ × V)) (happenings : List (Happening Config lib))
      (s : Cycle Config lib)
      → ((x : ℕ × V) → Mem x (offers Config lib happenings ++ offered) → 0 < x.0)
      → Accounted Config lib limit offered s
      → (s' : Cycle Config lib) × (run Config lib happenings s ≡ some s')
        × Accounted Config lib limit (offers Config lib happenings ++ offered) s'
  unfolding run
  run-Accounted limit offered [] s positive inv = (s, refl, inv)
  run-Accounted limit offered (recorded priority event roll ∷ happenings) s positive inv =
      let e = chosen (priority, event, roll) in
      let moved : Perm (e ∷ (offers Config lib happenings ++ offered))
          (offers Config lib happenings ++ e ∷ offered) =
        Perm.symm (perm_middle (offers Config lib happenings) offered) in
      let (s', stepped, inv') =
        recorded-Accounted Config lib limit offered s priority event roll inv in
      let (s'', rest, accounted) =
        run-Accounted limit (e ∷ offered) happenings s'
          (λ x mx. positive x ((Perm.mem_iff moved).1 mx)) inv' in
      (s'', rw stepped rest, Accounted-perm limit _ _ s'' moved accounted)
  run-Accounted limit offered (sent ∷ happenings) s positive inv =
      let (s', stepped, inv') = sent-Accounted Config lib limit offered s inv in
      let (s'', rest, accounted) = run-Accounted limit offered happenings s' positive inv' in
      (s'', ap (λ o. o >>= run Config lib happenings) stepped ∙ rest, accounted)
  run-Accounted limit offered (answered n retain rolls ∷ happenings) s positive inv =
      let (s', stepped, inv') =
        answered-Accounted Config lib limit offered s n retain rolls
          (λ x mx. positive x (mem-append_right (offers Config lib happenings) mx)) inv in
      let (s'', rest, accounted) = run-Accounted limit offered happenings s' positive inv' in
      (s'', rw stepped rest, accounted)

  -- Every entry offered is in the reservoir, on the way, done or lost, and in one of these once;
  -- the reservoir is within its limit, and nothing is lost up to so many offers.
  pub record Conserved (limit : ℕ) (offered : List (ℕ × V)) (s : Cycle Config lib) : Type 0 where
    pub lost : List (ℕ × V)
    pub whole : Perm offered (
        entries lib s.aggregator.items.heap
        ++ (on_the_way Config lib s.waiting ++ (s.done ++ lost)))
    pub bounded : length (entries lib s.aggregator.items.heap) ≤ limit
    pub full : (lost ≡ []) ⊎ (limit < length offered)

  Accounted-Conserved :
      (limit : ℕ) (offered : List (ℕ × V)) (s : Cycle Config lib)
      → Accounted Config lib limit offered s
      → Conserved limit offered s
  Accounted-Conserved limit offered s inv = record {
    lost = inv.best.0 ++ inv.lost;
    whole =
        subst (λ l. Perm offered l)
          (append_assoc (entries lib s.aggregator.items.heap) (on_the_way Config lib s.waiting)
            (s.done ++ (inv.best.0 ++ inv.lost)))
          (Perm.trans inv.whole (
            sent_perm inv.current (entries lib s.aggregator.items.heap) inv.best.0
              (on_the_way Config lib s.waiting) s.done inv.lost inv.best.1.perm));
    bounded = inv.best.1.bounded;
    full = lost_or_full Config lib limit offered s inv;
  }

  -- From a new aggregator with three different metric names and countable metrics, any sequence of
  -- records with positive priorities, sends and responses, with any number of sends waiting and
  -- answered in any order, succeeds; every entry recorded is then in the reservoir, in a payload
  -- without a response, in one that is done, or lost, and in one of these once; the reservoir is
  -- within its limit, and nothing is lost unless more entries were recorded than the limit.
  pub run-Conserved :
      (a : EventAggregator Config lib) (happenings : List (Happening Config lib))
      → AreDistinct a.metric_names
      → AllCountable a.metrics
      → ((x : ℕ × V) → Mem x (offers Config lib happenings) → 0 < x.0)
      → (s : Cycle Config lib) × (run Config lib happenings (start Config lib a) ≡ some s)
        × Conserved a.items.limit (offers Config lib happenings) s
  unfolding start clear_events PriorityQueue.create
  run-Conserved a happenings distinct countable positive =
      let nothing_more : offers Config lib happenings ++ [] ≡ offers Config lib happenings =
        append-nil (offers Config lib happenings) in
      let (s, ran, inv) =
        run-Accounted a.items.limit [] happenings (start Config lib a)
          (λ x mx. positive x (subst (λ l. Mem x l) nothing_more mx))
          (record {
            current = [];
            lost = [];
            best = create-KeepsBest lib (some a.items.limit);
            whole = Perm.nil;
            full = inl refl;
            limited = refl;
            distinct = distinct;
            countable = countable;
          }) in
      (
        s,
        ran,
        subst (λ l. Conserved a.items.limit l s) nothing_more
            (Accounted-Conserved a.items.limit (offers Config lib happenings ++ []) s inv),
      )
