-- ===== src/SlowTraces/Slowest.antt =====
-- lib/transaction/trace/aggregator.js: the trace that `add` keeps until the guarantee is met.
use mathlib.Core.List.{not-mem-nil, mem-cons, mem-cons_self, mem-cons_of_mem}
use mathlib.Core.Logic.Or
use native.Mathlib.Bridge.{le_prop}
use node_newrelic.SlowTraces.{
  Transaction, Config, Aggregator, add_synthetics_trace, threshold_of, is_slower, duration_of,
  has_met_guarantee, is_better, keep, add,
}
use node_newrelic.SlowTraces.Retained.{is_traced, add-keep, add-skip, better_parts, first_better}
use node_newrelic.Shared.{
  ◌≤◌, ◌≡◌, refl, sym, ap, ◌∙◌, inl, inr, true, false, not, ◌&&◌, Option, none, some, List, [], ◌∷◌,
  Mem, leb, arith, Bool-cases, subst,
}

-- A transaction that the aggregator may hold: traces are collected and the tracer is enabled, and the
-- transaction has metrics, is from no monitor and is over the threshold.
abbrev pub IsSlow : Config → Transaction → Type 0
IsSlow config t =
    (is_traced config t ≡ true)
    × (t.is_synthetics ≡ false)
    × (threshold_of config.transaction_tracer t.apdex_t ≤ t.duration)

-- One of those offered that none of them is slower than; there is none only if none is slow.
abbrev pub IsSlowest : Config → List Transaction → Option Transaction → Type 0
IsSlowest config offered none = (t : Transaction) → Mem t offered → IsSlow config t → ⊥
IsSlowest config offered (some best) =
    Mem best offered
    × IsSlow config best
    × ((t : Transaction) → Mem t offered → IsSlow config t → t.duration ≤ best.duration)

-- What `add` leaves alone.
same_rest :
    (t : Transaction) (s : Aggregator)
    → ((add t s).config ≡ s.config) × ((add t s).reported ≡ s.reported)
unfolding add keep add_synthetics_trace
same_rest t s = ground arith

abbrev pub add_all : List Transaction → Aggregator → Aggregator
add_all [] s = s
add_all (t ∷ ts) s = add t (add_all ts s)

-- A transaction that is not slower changes nothing.
IsSlowest-more :
    (config : Config) (t : Transaction) (offered : List Transaction) (best : Option Transaction)
    → (IsSlow config t → is_slower (duration_of best) t.duration ≡ false)
    → IsSlowest config offered best
    → IsSlowest config (t ∷ offered) best
IsSlowest-more config t offered none not_slower none_slow = λ x mx slow.
    Or.elim (λ p q. absurd p) (mem-cons.0 mx)
      (λ here. absurd (let e = not_slower (subst (IsSlow config) here slow) in cc))
      (λ there. none_slow x there slow)
IsSlowest-more config t offered (some best) not_slower (held, slow, most) = (
  mem-cons_of_mem t held,
  slow,
  λ x mx own.
      Or.elim le_prop (mem-cons.0 mx)
        (λ here.
          let e = not_slower (subst (IsSlow config) here own) in
          let same : x.duration ≡ t.duration = ap (λ y. y.duration) here in ground arith)
        (λ there. most x there own),
)

-- A slower one takes the place.
IsSlowest-new :
    (config : Config) (t : Transaction) (offered : List Transaction) (best : Option Transaction)
    → IsSlow config t
    → is_slower (duration_of best) t.duration ≡ true
    → IsSlowest config offered best
    → IsSlowest config (t ∷ offered) (some t)
IsSlowest-new config t offered none slow slower none_slow = (
  mem-cons_self,
  slow,
  λ x mx own.
      Or.elim le_prop (mem-cons.0 mx) (λ here. rw here (omega arith))
        (λ there. absurd (none_slow x there own)),
)
IsSlowest-new config t offered (some best) slow slower (held, own_slow, most) = (
  mem-cons_self,
  slow,
  λ x mx own.
      Or.elim le_prop (mem-cons.0 mx) (λ here. rw here (omega arith))
        (λ there. ground (arith, most x there own)),
)

trace-untraced :
    (t : Transaction) (s : Aggregator)
    → (is_traced s.config t && not t.is_synthetics) ≡ false
    → (add t s).trace ≡ s.trace
unfolding add add_synthetics_trace
trace-untraced t s out = ground arith

add-IsSlowest :
    (t : Transaction) (s : Aggregator) (offered : List Transaction)
    → has_met_guarantee s ≡ false
    → IsSlowest s.config offered s.trace
    → IsSlowest s.config (t ∷ offered) (add t s).trace
unfolding keep
add-IsSlowest t s offered early best =
    elim (Bool-cases (is_traced s.config t && not t.is_synthetics)) [
      | inr out ↦
          subst (IsSlowest s.config (t ∷ offered)) (sym (trace-untraced t s out))
            (IsSlowest-more s.config t offered s.trace (λ slow. absurd (ground arith)) best)
      | inl inside ↦
          let traced : is_traced s.config t ≡ true = ground arith in
          let plain : t.is_synthetics ≡ false = ground arith in
          elim (Bool-cases (is_better t.name t.duration t.apdex_t s)) [
            | inl better ↦
                let parts = better_parts t.name t.duration t.apdex_t s better in
                subst (λ a. IsSlowest s.config (t ∷ offered) a.trace)
                  (sym (add-keep t s traced plain better))
                  (kept t s offered (traced, plain, parts.0) parts.1 best)
            | inr worse ↦
                subst (λ a. IsSlowest s.config (t ∷ offered) a.trace)
                  (sym (add-skip t s traced plain worse))
                  (IsSlowest-more s.config t offered s.trace
                    (λ slow. not_slower t s slow early worse) best)
          ]
    ]
  where
    kept :
        (t : Transaction) (s : Aggregator) (offered : List Transaction)
        → IsSlow s.config t
        → is_slower (duration_of s.trace) t.duration ≡ true
        → IsSlowest s.config offered s.trace
        → IsSlowest s.config (t ∷ offered) (keep t s).trace
    kept t s offered slow slower best = IsSlowest-new s.config t offered s.trace slow slower best

    not_slower :
        (t : Transaction) (s : Aggregator)
        → IsSlow s.config t
        → has_met_guarantee s ≡ false
        → is_better t.name t.duration t.apdex_t s ≡ false
        → is_slower (duration_of s.trace) t.duration ≡ false
    not_slower t s slow early worse =
        elim (Bool-cases (is_slower (duration_of s.trace) t.duration)) [
          | inl slower ↦
              absurd
                (let better = first_better t.name t.duration t.apdex_t s slow.2 slower early in cc)
          | inr slow_enough ↦ slow_enough
        ]

-- Where traces are collected and the tracer is enabled: before five sends were reported, from an
-- aggregator without a trace, adding transactions one after the other leaves the slowest of those over
-- the threshold that come with metrics and from no monitor, and none only if there is no such
-- transaction. Where tracing is off, no trace is left.
pub add_all-IsSlowest :
    (ts : List Transaction) (s : Aggregator)
    → has_met_guarantee s ≡ false
    → s.trace ≡ none
    → IsSlowest s.config ts (add_all ts s).trace
add_all-IsSlowest ts s early fresh = (go ts).1
  where
    start : IsSlowest s.config [] s.trace
    start = subst (IsSlowest s.config []) (sym fresh) (λ t mt slow. not-mem-nil mt)

    go :
        (ts : List Transaction)
        → (((add_all ts s).config ≡ s.config) × ((add_all ts s).reported ≡ s.reported))
          × IsSlowest s.config ts (add_all ts s).trace
    go [] = ((refl, refl), start)
    go (t ∷ ts) =
        let (same, best) = go ts in
        let next = same_rest t (add_all ts s) in
        let early' : has_met_guarantee (add_all ts s) ≡ false = ap (leb 5) same.1 ∙ early in
        (
          (next.0 ∙ same.0, next.1 ∙ same.1),
          subst (λ c. IsSlowest c (t ∷ ts) (add t (add_all ts s)).trace) same.0
              (add-IsSlowest t (add_all ts s) ts early'
                (subst (λ c. IsSlowest c ts (add_all ts s).trace) (sym same.0) best)),
        )
