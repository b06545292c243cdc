-- ===== src/AttributeFilter/Updates.antt =====
-- lib/config/attribute-filter.js: what `update` leaves.
use node_newrelic.AttributeFilter.{
  Destination, trans_event, trans_trace, error_event, browser_event, span_event, trans_segment,
  Bits, same, all_scope, Matcher, Result, Config, Filter, update_own, update_each, update,
  result_of, filter_each, filter,
}
use node_newrelic.AttributeFilter.Answers.{is_in}
use node_newrelic.AttributeFilter.Caching.{same-eq, in_cache, IsValid}
use node_newrelic.Shared.Dict.{Dict}
use node_newrelic.Shared.{
  String, ◌≡◌, refl, ◌∙◌, ◌⊎◌, inl, inr, true, false, none, some, List, [], ◌∷◌, arith, Bool-cases,
}

abbrev IsEmptied : Filter → Type 0
IsEmptied f = (d : Destination) (key : String) → in_cache key (f.cache d) ≡ none

-- Each enabled destination has a cache, or is among those still to be updated.
abbrev IsReadyBut : Config → List Destination → Filter → Type 0
IsReadyBut config ds f =
    (d : Destination)
    → f.enabled_destinations d ≡ true
    → ((cached : Dict Result) × (f.cache d ≡ some cached))
      ⊎ ((is_in d ds ≡ true) × ((config.own d).enabled ≡ true))

update_own-IsEmptied :
    (matcher : Matcher) (config : Config) (d : Destination) (f : Filter)
    → IsEmptied f
    → IsEmptied (update_own matcher config d f)
unfolding update_own
update_own-IsEmptied matcher config d f h e key = ground (arith, h e key)

update_own-IsReadyBut :
    (matcher : Matcher) (config : Config) (d : Destination) (ds : List Destination) (f : Filter)
    → IsReadyBut config (d ∷ ds) f
    → IsReadyBut config ds (update_own matcher config d f)
unfolding update_own
update_own-IsReadyBut matcher config d ds f h e on = elim (Bool-cases (config.own d).enabled) [
  | inl enabled ↦ elim (Bool-cases (same d e)) [
    | inl equal ↦ inl ([], rw (enabled, equal) refl)
    | inr differs ↦ elim (h e (rw (enabled, differs) at on)) [
      | inl (cached, there) ↦ inl (cached, rw (enabled, differs) there)
      | inr (among, wanted) ↦ inr (rw differs at among, wanted)
    ]
  ]
  | inr disabled ↦ elim (h e (rw disabled at on)) [
    | inl (cached, there) ↦ inl (cached, rw disabled there)
    | inr (among, wanted) ↦ elim (Bool-cases (same d e)) [
      | inl equal ↦ let de = same-eq d e equal in absurd cc
      | inr differs ↦ inr (rw differs at among, wanted)
    ]
  ]
]

update_each-IsValid :
    (matcher : Matcher) (config : Config) (ds : List Destination) (f : Filter)
    → IsEmptied f
    → IsReadyBut config ds f
    → IsValid (update_each matcher config ds f)
unfolding update_each
update_each-IsValid matcher config [] f empty ready = record {
  coherent = λ d key result hit. let nothing = empty d key in absurd cc;
  ready = λ d on. elim (ready d on) [ inl there ↦ there | inr (n, e) ↦ absurd cc ];
}
update_each-IsValid matcher config (d ∷ ds) f empty ready =
    update_each-IsValid matcher config ds (update_own matcher config d f)
      (update_own-IsEmptied matcher config d f empty)
      (update_own-IsReadyBut matcher config d ds f ready)

is_in_all : (d : Destination) → is_in d all_scope ≡ true
is_in_all trans_event = refl
is_in_all trans_trace = refl
is_in_all error_event = refl
is_in_all browser_event = refl
is_in_all span_event = refl
is_in_all trans_segment = refl

-- After an update under which every destination enabled before is still enabled, and so after
-- the constructor, the filter is valid, and its cache is empty.
pub update-IsValid :
    (matcher : Matcher) (config : Config) (f : Filter)
    → ((d : Destination) → f.enabled_destinations d ≡ true → (config.own d).enabled ≡ true)
    → IsValid (update matcher config f)
unfolding update
update-IsValid matcher config f still =
    update_each-IsValid matcher config all_scope _ (λ d key. refl)
      (λ d on. inr (is_in_all d, still d on))

-- A disabled destination keeps its bit, and its cache or lack of one.
update_own-left :
    (matcher : Matcher) (config : Config) (e d : Destination) (f : Filter)
    → (config.own d).enabled ≡ false
    → ((update_own matcher config e f).enabled_destinations d ≡ f.enabled_destinations d)
      × ((update_own matcher config e f).cache d ≡ f.cache d)
unfolding update_own
update_own-left matcher config e d f off = elim (Bool-cases (same e d)) [
  | inl equal ↦
      let off' : (config.own e).enabled ≡ false = rw (same-eq e d equal) off in
      (rw off' refl, rw off' refl)
  | inr differs ↦ elim (Bool-cases (config.own e).enabled) [
    | inl enabled ↦ (rw (enabled, differs) refl, rw (enabled, differs) refl)
    | inr disabled ↦ (rw disabled refl, rw disabled refl)
  ]
]

update_each-left :
    (matcher : Matcher) (config : Config) (ds : List Destination) (f : Filter) (d : Destination)
    → (config.own d).enabled ≡ false
    → ((update_each matcher config ds f).enabled_destinations d ≡ f.enabled_destinations d)
      × ((update_each matcher config ds f).cache d ≡ f.cache d)
unfolding update_each
update_each-left matcher config [] f d off = (refl, refl)
update_each-left matcher config (e ∷ ds) f d off =
    let (bits, cache) = update_each-left matcher config ds (update_own matcher config e f) d off in
    let (bits', cache') = update_own-left matcher config e d f off in (bits ∙ bits', cache ∙ cache')

update-left :
    (matcher : Matcher) (config : Config) (f : Filter) (d : Destination)
    → (config.own d).enabled ≡ false
    → ((update matcher config f).enabled_destinations d ≡ f.enabled_destinations d)
      × ((update matcher config f).cache d ≡ none)
unfolding update
update-left matcher config f d off = update_each-left matcher config all_scope _ d off

-- An update that disables a destination leaves a filter that throws: with attributes enabled, the
-- next test of any key for a scope that begins with this destination has no result.
pub update_disables :
    (matcher : Matcher) (config : Config) (f : Filter) (d : Destination) (scope : List Destination)
    (bits : Bits) (key : String)
    → f.enabled_destinations d ≡ true
    → (config.own d).enabled ≡ false
    → config.enabled ≡ true
    → filter config (d ∷ scope) bits key (update matcher config f) ≡ none
unfolding filter filter_each result_of update
update_disables matcher config f d scope bits key was off on =
    let (bit', cache') = update-left matcher config f d off in
    rw (filter, on, filter_each, bit', was, result_of, cache') refl
