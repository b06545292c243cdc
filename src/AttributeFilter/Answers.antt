-- ===== src/AttributeFilter/Answers.antt =====
-- lib/config/attribute-filter.js: the answers of `_filter` and the caches that it needs.
use node_newrelic.AttributeFilter.{
  Destination, Bits, no_bits, same, without_bit, Result, no_rule, included, excluded, Config,
  Filter, update_destinations, fresh, filter_each, filter,
}
use node_newrelic.AttributeFilter.Caching.{same-eq, IsValid, SameRules, result_of-Answered}
use node_newrelic.Shared.{
  ℕ, String, ◌≤◌, ◌≡◌, refl, ◌∙◌, inl, inr, Bool, true, false, ◌||◌, some, if◌then◌else◌, List, [],
  ◌∷◌, arith, Bool-cases,
}

-- What a result makes of the wish for a destination.
abbrev pub decision : Result → Bool → Bool
decision no_rule wanted = wanted
decision included wanted = true
decision excluded wanted = false

abbrev pub is_in : Destination → List Destination → Bool
is_in d [] = false
is_in d (e ∷ scope) = same e d || is_in d scope

-- The answer for one destination, without a cache.
abbrev pub answer : Filter → List Destination → Bits → String → Destination → Bool
answer f scope bits key d =
    if is_in d scope
    then if f.enabled_destinations d then decision (fresh f d key) (bits d) else false
    else bits d

answer-SameRules :
    (scope : List Destination) (bits : Bits) (key : String) (f f' : Filter)
    → SameRules f f'
    → (d : Destination) → answer f' scope bits key d ≡ answer f scope bits key d
answer-SameRules scope bits key f f' s d = rw (s.enabled d, s.results d key) refl

answer_off :
    (d : Destination) (scope : List Destination) (bits : Bits) (key : String) (f : Filter)
    → f.enabled_destinations d ≡ false
    → (e : Destination)
    → answer f scope (without_bit d bits) key e ≡ answer f (d ∷ scope) bits key e
answer_off d scope bits key f off e = ground (arith, same-eq d e)

answer_on :
    (d : Destination) (scope : List Destination) (bits : Bits) (key : String) (f : Filter)
    → f.enabled_destinations d ≡ true
    → (e : Destination)
    → answer f scope (update_destinations d (fresh f d key) bits) key e
      ≡ answer f (d ∷ scope) bits key e
answer_on d scope bits key f on e = ground (arith, same-eq d e)

-- A run of the loop of `_filter`, and the filter that it leaves.
pub record Filtered (limit : ℕ) (scope : List Destination) (bits : Bits) (key : String)
    (f f' : Filter) (bits' : Bits) : Type 0 where
  pub run : filter_each limit scope bits key f ≡ some (bits', f')
  pub answers : (d : Destination) → bits' d ≡ answer f scope bits key d
  pub valid : IsValid f'
  pub rules : SameRules f f'
  pub bounded : f.cached_count ≤ limit → f'.cached_count ≤ limit

filter_each-Filtered :
    (limit : ℕ) (scope : List Destination) (bits : Bits) (key : String) (f : Filter)
    → IsValid f
    → (bits' : Bits) × (f' : Filter) × Filtered limit scope bits key f f' bits'
unfolding filter_each
filter_each-Filtered limit [] bits key f v = (
  bits,
  f,
  record {
    run = refl;
    answers = λ d. refl;
    valid = v;
    rules = record { results = λ d k. refl; enabled = λ d. refl };
    bounded = λ le. le;
  },
)
filter_each-Filtered limit (d ∷ scope) bits key f v = elim (Bool-cases (f.enabled_destinations d)) [
  | inl on ↦
      let (f1, here) = result_of-Answered limit d key f v on in
      let (bits', f', rest) =
        filter_each-Filtered limit scope (update_destinations d (fresh f d key) bits) key f1
          here.valid in
      (
        bits',
        f',
        record {
          run = rw (filter_each, on, here.run) rest.run;
          answers = λ e.
              rest.answers e
              ∙ answer-SameRules scope (update_destinations d (fresh f d key) bits) key f f1
                  here.rules e
              ∙ answer_on d scope bits key f on e;
          valid = rest.valid;
          rules = record {
            results = λ e k. rest.rules.results e k ∙ here.rules.results e k;
            enabled = λ e. rest.rules.enabled e ∙ here.rules.enabled e;
          };
          bounded = λ le. rest.bounded (here.bounded le);
        },
      )
  | inr off ↦
      let (bits', f', rest) = filter_each-Filtered limit scope (without_bit d bits) key f v in
      (
        bits',
        f',
        record {
          run = rw (filter_each, off) rest.run;
          answers = λ e. rest.answers e ∙ answer_off d scope bits key f off e;
          valid = rest.valid;
          rules = rest.rules;
          bounded = rest.bounded;
        },
      )
]

-- On a valid filter `_filter` never throws. It grants each destination of the scope as its rules say,
-- and the others as wished, or none where attributes are disabled; what is cached plays no part. The
-- filter stays valid, and within the limit of its cache.
pub filter-answer :
    (config : Config) (scope : List Destination) (bits : Bits) (key : String) (f : Filter)
    → IsValid f
    → f.cached_count ≤ config.filter_cache_limit
    → (bits' : Bits) × (f' : Filter) × (filter config scope bits key f ≡ some (bits', f'))
      × ((d : Destination)
          → bits' d ≡ (if config.enabled then answer f scope bits key d else false))
      × IsValid f'
      × (f'.cached_count ≤ config.filter_cache_limit)
unfolding filter
filter-answer config scope bits key f v le =
    let (bits', f', done) = filter_each-Filtered config.filter_cache_limit scope bits key f v in
    elim (Bool-cases config.enabled) [
      | inl on ↦ (
        bits',
        f',
        rw (filter, on) done.run,
        λ d. rw on (done.answers d),
        done.valid,
        done.bounded le,
      )
      | inr off ↦ (no_bits, f, rw (filter, off) refl, λ d. rw off refl, v, le)
    ]
