-- ===== src/AttributeFilter.antt =====
-- lib/config/attribute-filter.js: which destinations an attribute may go to. A bit field of
-- destinations is the function that says which bits are set. What the regular expressions built
-- from the rules match is the parameter Matcher.
use node_newrelic.Shared.Dict.{Dict, lookup, insert}
use node_newrelic.Shared.Text.{codes, last?}
use node_newrelic.Shared.{
  ℕ, String, ◌+◌, ◌≡◌, Bool, true, false, not, ◌&&◌, ◌||◌, Option, none, some, if◌then◌else◌, List,
  [], ◌∷◌, ◌==◌, leb, ltb,
}
pub use node_newrelic.AttributeFilter.Matching.{
  Destination, bit, Bits, no_bits, same, with_bit, without_bit, trans_scope, segment_scope,
  all_scope, Strength, is_no_match, is_exact, at_least, exceeds, Rules, Matcher, no_rules, passes,
  wildcard_strength, is_star, ends_in_star, exact_rules, wildcard_rules, if_any, Result, as_result,
  trans_event, trans_trace, error_event, browser_event, span_event, trans_segment, no_match,
  wildcard_match, exact_match, no_rule, included, excluded,
}
unfoldable pub use node_newrelic.AttributeFilter.Matching.{match_rules, import_rules, do_test}
mod Matching
pub mod Precedence
pub mod Caching
pub mod Answers
pub mod Updates
mod Tests

pub record OwnConfig : Type 0 where
  pub enabled : Bool
  pub include : List String
  pub exclude : List String

pub record Config : Type 0 where
  pub enabled : Bool
  pub include_enabled : Bool
  pub include : List String
  pub exclude : List String
  pub filter_cache_limit : ℕ
  pub own : Destination → OwnConfig

pub record Filter : Type 0 where
  pub global_include : Rules
  pub global_exclude : Rules
  pub own_include : Destination → Rules
  pub own_exclude : Destination → Rules
  pub cache : Destination → Option (Dict Result)
  pub cached_count : ℕ
  pub enabled_destinations : Bits

abbrev pub put_at {ℓ} : {A : Type ℓ} → Destination → A → (Destination → A) → Destination → A
put_at d a f e = if same d e then a else f e

-- The rules of one destination in `update`.
unfoldable pub update_own : Matcher → Config → Destination → Filter → Filter
unfolding import_rules
update_own matcher config d f =
    let own = config.own d in
    if own.enabled
    then record f {
      enabled_destinations = with_bit d f.enabled_destinations;
      own_include =
          put_at d (import_rules matcher (if config.include_enabled then own.include else []))
            f.own_include;
      own_exclude = put_at d (import_rules matcher own.exclude) f.own_exclude;
      cache = put_at d (some []) f.cache;
    }
    else f

unfoldable pub update_each : Matcher → Config → List Destination → Filter → Filter
unfolding update_own
update_each matcher config [] f = f
update_each matcher config (d ∷ ds) f =
    update_each matcher config ds (update_own matcher config d f)

unfoldable pub update : Matcher → Config → Filter → Filter
unfolding import_rules update_each
update matcher config f = update_each matcher config all_scope (record f {
  global_include = import_rules matcher (if config.include_enabled then config.include else []);
  global_exclude = import_rules matcher config.exclude;
  cache = λ d. none;
  cached_count = 0;
})

abbrev pub empty_filter : Filter
empty_filter = record {
  global_include = no_rules;
  global_exclude = no_rules;
  own_include = λ d. no_rules;
  own_exclude = λ d. no_rules;
  cache = λ d. none;
  cached_count = 0;
  enabled_destinations = no_bits;
}

unfoldable pub create : Matcher → Config → Filter
unfolding update
create matcher config = update matcher config empty_filter

abbrev pub update_destinations : Destination → Result → Bits → Bits
update_destinations d no_rule bits = bits
update_destinations d included bits = with_bit d bits
update_destinations d excluded bits = without_bit d bits

-- The result that `_filter` calculates where none is cached.
unfoldable pub fresh : Filter → Destination → String → Result
unfolding match_rules do_test
fresh f d key =
    do_test (match_rules f.global_include key) (match_rules f.global_exclude key)
      (match_rules (f.own_include d) key) (match_rules (f.own_exclude d) key)

-- A result for an enabled destination, cached if there is room. `none` is the TypeError of reading
-- a key of no cache.
unfoldable pub result_of : ℕ → Destination → String → Filter → Option (Result × Filter)
result_of limit d key f = elim (f.cache d) [
  | none ↦ none
  | some cached ↦ elim (lookup key cached) [
    | some result ↦ some (result, f)
    | none ↦ some (
      fresh f d key,
      if ltb f.cached_count limit
          then record f {
            cache = put_at d (some (insert key (fresh f d key) cached)) f.cache;
            cached_count = f.cached_count + 1;
          }
          else f,
    )
  ]
]

-- The loop of `_filter`.
unfoldable pub filter_each : ℕ → List Destination → Bits → String → Filter → Option (Bits × Filter)
unfolding result_of
filter_each limit [] bits key f = some (bits, f)
filter_each limit (d ∷ scope) bits key f = elim (f.enabled_destinations d) [
  | false ↦ filter_each limit scope (without_bit d bits) key f
  | true ↦ elim (result_of limit d key f) [
    | none ↦ none
    | some (result, f') ↦ filter_each limit scope (update_destinations d result bits) key f'
  ]
]

-- `_filter`
unfoldable pub filter : Config → List Destination → Bits → String → Filter → Option (Bits × Filter)
unfolding filter_each
filter config scope bits key f =
    if config.enabled
    then filter_each config.filter_cache_limit scope bits key f
    else some (no_bits, f)

abbrev pub filter_transaction : Config → Bits → String → Filter → Option (Bits × Filter)
filter_transaction config = filter config trans_scope

abbrev pub filter_segment : Config → Bits → String → Filter → Option (Bits × Filter)
filter_segment config = filter config segment_scope

abbrev pub filter_all : Config → Bits → String → Filter → Option (Bits × Filter)
filter_all config = filter config all_scope
