-- ===== src/Streamers/Single/Flow.antt =====
-- lib/spans/span-streamer.js: runs of a streamer, and what becomes of the spans.
use mathlib.Core.List.{append_assoc, append-nil}
use mathlib.Core.List.Sublist
use node_newrelic.Streamers.{
  Streamer, Happening, wrote, connected, disconnected, drained, create, on_connected,
  on_disconnected, on_drain, drain,
}
use node_newrelic.Streamers.Single.{send_queue, write, step, run, ◌>>=◌}
use node_newrelic.Shared.{
  ℕ, ◌≡◌, refl, sym, ap, ◌∙◌, inl, inr, Bool, true, false, some, if◌then◌else◌, List, [], ◌∷◌, ◌++◌,
  arith, Bool-cases, subst,
}
use node_newrelic.Streamers.Single.Flushing.{Sound, flush-Sound}
use node_newrelic.Streamers.Single.Writing.{write-Sound}

module _ {S D : Type 0} (format : S → D) (accepts : ℕ → Bool) where
  on_drain-Sound :
      (size : ℕ) (offered : List S) (s : Streamer S D)
      → Sound format accepts size offered s
      → (s' : Streamer S D) × (on_drain (send_queue format accepts) s ≡ some s')
        × Sound format accepts size offered s'
  unfolding on_drain
  on_drain-Sound size offered s inv = elim (Bool-cases s.listening) [
    | inl waits ↦
        let (s', flushed, sound) =
          flush-Sound format accepts size offered s
            (record s { listening = false; writable = true }) inv (inv.listens waits) refl refl refl
            refl refl refl in
        (
          s',
          ap
                (λ l.
                  if l
                  then drain (send_queue format accepts) (record s { listening = false })
                  else some s)
                waits
              ∙ flushed,
          sound,
        )
    | inr idle ↦ (
      s,
      ap
          (λ l.
            if l
            then drain (send_queue format accepts) (record s { listening = false })
            else some s)
          idle,
      inv,
    )
  ]

  abbrev pub offers : List (Happening S) → List S
  offers [] = []
  offers (wrote span ∷ happenings) = span ∷ offers happenings
  offers (other ∷ happenings) = offers happenings

  run_from-Sound :
      (size : ℕ) (offered : List S) (happenings : List (Happening S)) (s : Streamer S D)
      → Sound format accepts size offered s
      → (s' : Streamer S D) × (run format accepts happenings s ≡ some s')
        × Sound format accepts size (offered ++ offers happenings) s'
  unfolding run step on_connected on_disconnected
  run_from-Sound size offered [] s inv =
      (s, refl, subst (λ l. Sound format accepts size l s) (sym (append-nil offered)) inv)
  run_from-Sound size offered (wrote span ∷ happenings) s inv =
      let (s', ran, sound) =
        run_from-Sound size (offered ++ span ∷ []) happenings (write format accepts span s)
          (write-Sound format accepts size offered span s inv) in
      (
        s',
        ran,
        subst (λ l. Sound format accepts size l s')
            (append_assoc offered (span ∷ []) (offers happenings)) sound,
      )
  run_from-Sound size offered (connected ∷ happenings) s inv =
      let (s', flushed, sound) =
        flush-Sound format accepts size offered s (record s { stream = true; writable = true }) inv
          refl refl refl refl refl refl refl in
      let (s'', ran, sound') = run_from-Sound size offered happenings s' sound in
      (s'', ap (λ o. o >>= run format accepts happenings) flushed ∙ ran, sound')
  run_from-Sound size offered (disconnected ∷ happenings) s inv =
      run_from-Sound size offered happenings (on_disconnected s) (record {
        accepted = inv.accepted;
        order = inv.order;
        flow = inv.flow;
        seen = inv.seen;
        dropped = inv.dropped;
        sent = inv.sent;
        bounded = inv.bounded;
        same_size = inv.same_size;
        idle = λ w. absurd cc;
        open' = λ w. absurd cc;
        listens = λ w. absurd cc;
      })
  run_from-Sound size offered (drained ∷ happenings) s inv =
      let (s', flushed, sound) = on_drain-Sound size offered s inv in
      let (s'', ran, sound') = run_from-Sound size offered happenings s' sound in
      (s'', ap (λ o. o >>= run format accepts happenings) flushed ∙ ran, sound')

  -- From a new streamer any sequence of spans written, connections, disconnections and drains, with
  -- any answers of the stream, runs through without an exception; of the spans offered some were
  -- accepted, in their order, and these are written or wait in the queue, in this order; each span is
  -- counted as seen and is accepted or dropped, each one written is counted as sent; the queue is within
  -- its limit, and a span waits only while the stream is blocked or gone.
  pub run-Sound :
      (size : ℕ) (happenings : List (Happening S))
      → (s : Streamer S D) × (run format accepts happenings (create size) ≡ some s)
        × Sound format accepts size (offers happenings) s
  unfolding create
  run-Sound size happenings = run_from-Sound size [] happenings (create size) (record {
    accepted = [];
    order = Sublist.refl [];
    flow = refl;
    seen = refl;
    dropped = refl;
    sent = refl;
    bounded = omega arith;
    same_size = refl;
    idle = λ w. refl;
    open' = λ w. absurd cc;
    listens = λ w. absurd cc;
  })
