-- ===== src/Aggregators/Event/Accounting.antt =====
-- lib/aggregators/event-aggregator.js and base-aggregator.js: the account of where every event is, through
-- each record, send and response.
use mathlib.Core.List.{mem-append_left, append_assoc}
use mathlib.Core.List.Perm
use node_newrelic.Aggregators.Event.{EventAggregator, clear_events, send, on_response}
use node_newrelic.Aggregators.Event.Tallies.{AreDistinct}
use node_newrelic.Aggregators.Event.Counts.{add-Counts, merge_events-Counts}
use node_newrelic.Aggregators.Event.Cycles.{
  Happening, recorded, sent, answered, Cycle, take_out, step,
}
use node_newrelic.Metrics.Counting.{AllCountable}
use node_newrelic.PriorityQueue
use node_newrelic.PriorityQueue.{HeapLib, Queue}
use node_newrelic.PriorityQueue.Kept.{entries}
use node_newrelic.PriorityQueue.Merge.{
  AllPositive, merge_queue-KeepsBest, at_limit, limit-merge_queue,
}
use node_newrelic.PriorityQueue.TopK.{
  chosen, KeepsBest, add-KeepsBest, add_counts, create-KeepsBest,
}
use node_newrelic.Shared.{
  ℕ, zero, suc, ◌+◌, ◌<◌, ◌≡◌, ◌⊎◌, inl, inr, refl, sym, ap, ◌∙◌, Bool, true, false, Option, none,
  some, List, [], ◌∷◌, ◌++◌, Mem, Perm, length, length-append, length-perm, arith, Option-cases,
  subst,
}
use node_newrelic.Aggregators.Event.Shuffles.{perm_front, sent_perm, taken_perm, done_perm}

module _ (Config : Type 0) {V : Type 0} (lib : HeapLib V) where
  -- The entries that the happenings offer.
  abbrev pub offers : List (Happening Config lib) → List (ℕ × V)
  offers [] = []
  offers (recorded priority event roll ∷ happenings) =
      chosen (priority, event, roll) ∷ offers happenings
  offers (other ∷ happenings) = offers happenings

  abbrev pub on_the_way : List (Queue lib) → List (ℕ × V)
  on_the_way [] = []
  on_the_way (payload ∷ waiting) = entries lib payload.heap ++ on_the_way waiting

  pub take_out-perm :
      (n : ℕ) (waiting : List (Queue lib)) (found : Queue lib × List (Queue lib))
      → take_out Config lib n waiting ≡ some found
      → Perm (on_the_way waiting) (entries lib found.0.heap ++ on_the_way found.1)
  take_out-perm n [] found e = absurd cc
  take_out-perm zero (first ∷ waiting) found e =
      let same : (first, waiting) ≡ found = cc in
      subst
        (λ f.
          Perm (entries lib first.heap ++ on_the_way waiting)
            (entries lib f.0.heap ++ on_the_way f.1))
        same (Perm.refl _)
  take_out-perm (suc n) (first ∷ waiting) found e =
      elim (Option-cases (take_out Config lib n waiting)) [
        | inl missing ↦ absurd (let e' = rw missing at e in cc)
        | inr (later, there) ↦
            let same : (later.0, first ∷ later.1) ≡ found = (let e' = rw there at e in cc) in
            subst
              (λ f.
                Perm (entries lib first.heap ++ on_the_way waiting)
                  (entries lib f.0.heap ++ on_the_way f.1))
              same
              (Perm.trans
                (Perm.append_left (entries lib first.heap) (take_out-perm n waiting later there))
                (perm_front (entries lib first.heap) (entries lib later.0.heap)
                  (on_the_way later.1)))
      ]

  -- Where every entry offered is: in the reservoir, on the way, done, or lost.
  pub record Accounted (limit : ℕ) (offered : List (ℕ × V)) (s : Cycle Config lib) : Type 0 where
    pub current : List (ℕ × V)
    pub lost : List (ℕ × V)
    pub best : KeepsBest lib limit current s.aggregator.items.heap
    pub whole : Perm offered (current ++ (on_the_way s.waiting ++ (s.done ++ lost)))
    pub full : (lost ≡ []) ⊎ (limit < length offered)
    pub limited : s.aggregator.items.limit ≡ limit
    pub distinct : AreDistinct s.aggregator.metric_names
    pub countable : AllCountable s.aggregator.metrics

  -- A record offers one more entry.
  pub recorded-Accounted :
      (limit : ℕ) (offered : List (ℕ × V)) (s : Cycle Config lib) (priority : Option ℕ) (event : V)
      (roll : ℕ)
      → Accounted limit offered s
      → (s' : Cycle Config lib) × (step Config lib (recorded priority event roll) s ≡ some s')
        × Accounted limit (chosen (priority, event, roll) ∷ offered) s'
  unfolding step
  recorded-Accounted limit offered s priority event roll inv =
      let a = s.aggregator in
      let (m, added, counted) =
        add-Counts Config lib event priority roll a inv.distinct inv.countable in
      let items = (PriorityQueue.add lib event priority roll a.items).0 in
      (
        record s { aggregator = record a { items = items; metrics = m } },
        rw added,
        record {
          current = chosen (priority, event, roll) ∷ inv.current;
          lost = inv.lost;
          best = at_limit lib _ _ _ _ inv.limited (
              add-KeepsBest lib a.items inv.current event priority roll
                (at_limit lib _ _ _ _ (sym inv.limited) inv.best));
          whole = Perm.cons (chosen (priority, event, roll)) inv.whole;
          full = still inv.full;
          limited = (add_counts lib a.items event priority roll).0 ∙ inv.limited;
          distinct = inv.distinct;
          countable = counted.countable;
        },
      )
    where
      still :
          (inv.lost ≡ []) ⊎ (limit < length offered)
          → (inv.lost ≡ []) ⊎ (limit < suc (length offered))
      still (inl nothing) = inl nothing
      still (inr more) = inr (omega arith)

  -- If something is lost at a send, then the reservoir was full.
  pub lost_or_full :
      (limit : ℕ) (offered : List (ℕ × V)) (s : Cycle Config lib) (inv : Accounted limit offered s)
      → (inv.best.0 ++ inv.lost ≡ []) ⊎ (limit < length offered)
  lost_or_full limit offered s inv = from_full inv.best.1.full
    where
      dropped : List (ℕ × V)
      dropped = inv.best.0

      held : List (ℕ × V)
      held = entries lib s.aggregator.items.heap

      others : List (ℕ × V)
      others = on_the_way s.waiting ++ (s.done ++ inv.lost)

      many : length offered ≡ length held + length dropped + length others
      many =
          length-perm _ _ inv.whole
          ∙ length-append inv.current others
          ∙ ap (λ l. l + length others)
              (length-perm _ _ inv.best.1.perm ∙ length-append held dropped)

      some_dropped :
          (xs : List (ℕ × V))
          → length held ≡ limit
          → length offered ≡ length held + length xs + length others
          → (xs ++ inv.lost ≡ []) ⊎ (limit < length offered)
      some_dropped [] at_limit total = inv.full
      some_dropped (x ∷ xs) at_limit total = inr (omega arith)

      from_full :
          (dropped ≡ []) ⊎ (length held ≡ limit)
          → (dropped ++ inv.lost ≡ []) ⊎ (limit < length offered)
      from_full (inl nothing) =
          subst (λ xs. (xs ++ inv.lost ≡ []) ⊎ (limit < length offered)) (sym nothing) inv.full
      from_full (inr at_limit) = some_dropped dropped at_limit many

  -- A send moves what the reservoir holds to the way, and starts a new one.
  pub sent-Accounted :
      (limit : ℕ) (offered : List (ℕ × V)) (s : Cycle Config lib)
      → Accounted limit offered s
      → (s' : Cycle Config lib) × (step Config lib sent s ≡ some s') × Accounted limit offered s'
  unfolding step send clear_events PriorityQueue.create
  sent-Accounted limit offered s inv =
      let a = s.aggregator in
      let (dropped, kept) = inv.best in
      (
        record s { aggregator = (send Config lib a).0; waiting = a.items ∷ s.waiting },
        refl,
        record {
          current = [];
          lost = dropped ++ inv.lost;
          best = at_limit lib _ _ _ _ inv.limited (create-KeepsBest lib (some a.items.limit));
          whole = Perm.trans inv.whole (
              sent_perm inv.current (entries lib a.items.heap) dropped (on_the_way s.waiting) s.done
                inv.lost kept.perm);
          full = lost_or_full limit offered s inv;
          limited = inv.limited;
          distinct = inv.distinct;
          countable = inv.countable;
        },
      )

  module _ (limit : ℕ) (offered : List (ℕ × V)) (s : Cycle Config lib)
      (inv : Accounted limit offered s) (n : ℕ) (payload : Queue lib) (rest : List (Queue lib))
      (there : take_out Config lib n s.waiting ≡ some (payload, rest)) where
    without :
        Perm offered
          (entries lib payload.heap ++ (inv.current ++ (on_the_way rest ++ (s.done ++ inv.lost))))
    without = Perm.trans inv.whole (
        taken_perm inv.current (on_the_way s.waiting) (entries lib payload.heap) (on_the_way rest)
          (s.done ++ inv.lost) (take_out-perm n s.waiting (payload, rest) there))

    -- A payload that need not be kept is done.
    finished-Accounted : Accounted limit offered (record {
      aggregator = s.aggregator;
      waiting = rest;
      done = entries lib payload.heap ++ s.done;
    })
    finished-Accounted = record {
      current = inv.current;
      lost = inv.lost;
      best = inv.best;
      whole =
          Perm.trans without
            (done_perm inv.current (entries lib payload.heap) (on_the_way rest) s.done inv.lost);
      full = inv.full;
      limited = inv.limited;
      distinct = inv.distinct;
      countable = inv.countable;
    }

    -- A payload to retain is offered to the reservoir again.
    retained-Accounted :
        (rolls : ℕ → ℕ)
        → ((x : ℕ × V) → Mem x offered → 0 < x.0)
        → (a : EventAggregator Config lib) × (on_response Config lib rolls payload
              (some true)
              s.aggregator
            ≡ some a)
          × Accounted limit offered (record { aggregator = a; waiting = rest; done = s.done })
    unfolding on_response
    retained-Accounted rolls positive =
        let a = s.aggregator in
        let (m, merged, counted) =
          merge_events-Counts Config lib rolls payload a inv.distinct inv.countable in
        let sound : AllPositive lib payload.heap =
          λ x mx. positive x ((Perm.mem_iff without).1 (mem-append_left _ mx)) in
        (
          record a { items = (PriorityQueue.merge_queue lib rolls payload a.items).0; metrics = m },
          rw merged refl,
          record {
            current = entries lib payload.heap ++ inv.current;
            lost = inv.lost;
            best =
                at_limit lib _ _ _ _ inv.limited
                  (merge_queue-KeepsBest lib rolls payload a.items inv.current sound
                    (at_limit lib _ _ _ _ (sym inv.limited) inv.best)).0;
            whole =
                subst (λ l. Perm offered l)
                  (sym (
                    append_assoc (entries lib payload.heap) inv.current
                      (on_the_way rest ++ (s.done ++ inv.lost))))
                  without;
            full = inv.full;
            limited = limit-merge_queue lib rolls payload a.items ∙ inv.limited;
            distinct = inv.distinct;
            countable = counted.counts.countable;
          },
        )

    found-Accounted :
        (retain : Option Bool) (rolls : ℕ → ℕ)
        → ((x : ℕ × V) → Mem x offered → 0 < x.0)
        → (s' : Cycle Config lib) × (step Config lib (answered n retain rolls) s ≡ some s')
          × Accounted limit offered s'
    unfolding step on_response
    found-Accounted none rolls positive = (_, rw (step, there) refl, finished-Accounted)
    found-Accounted (some false) rolls positive = (_, rw (step, there) refl, finished-Accounted)
    found-Accounted (some true) rolls positive =
        let (a, retained, accounted) = retained-Accounted rolls positive in
        (_, rw (step, there) (rw retained refl), accounted)

  pub answered-Accounted :
      (limit : ℕ) (offered : List (ℕ × V)) (s : Cycle Config lib) (n : ℕ) (retain : Option Bool)
      (rolls : ℕ → ℕ)
      → ((x : ℕ × V) → Mem x offered → 0 < x.0)
      → Accounted limit offered s
      → (s' : Cycle Config lib) × (step Config lib (answered n retain rolls) s ≡ some s')
        × Accounted limit offered s'
  unfolding step
  answered-Accounted limit offered s n retain rolls positive inv =
      elim (Option-cases (take_out Config lib n s.waiting)) [
        | inl missing ↦ (s, rw (step, missing) refl, inv)
        | inr ((payload, rest), there) ↦
            found-Accounted limit offered s inv n payload rest there retain rolls positive
      ]
