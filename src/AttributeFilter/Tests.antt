-- ===== src/AttributeFilter/Tests.antt =====
-- Runs of lib/config/attribute-filter.js.
use node_newrelic.AttributeFilter.{
  Destination, span_event, Bits, do_test, Matcher, OwnConfig, Config, Filter, empty_filter, create,
  update, update_each, update_own, import_rules, filter, filter_each, trans_scope, result_of, fresh,
  match_rules, bit, same,
}
use node_newrelic.AttributeFilter.Answers.{answer, filter-answer}
use node_newrelic.AttributeFilter.Caching.{IsValid}
use node_newrelic.AttributeFilter.Updates.{update-IsValid}
use node_newrelic.Shared.{
  String, ◌≤◌, ◌≡◌, Bool, true, false, some, if◌then◌else◌, List, [], ◌∷◌, ◌==◌, arith, str_eq,
}

program : Unit {0}
unfolding create update update_each update_own import_rules filter filter_each result_of fresh
    match_rules do_test
program = tt

abbrev is_one_of : List String → String → Bool
is_one_of [] key = false
is_one_of (rule ∷ rules) key = if str_eq rule key then true else is_one_of rules key

-- Wildcards that match everything.
abbrev matcher : Matcher
matcher = record { exactly = is_one_of; by_prefix = λ rules key. some 0 }

abbrev own : OwnConfig
own = record { enabled = true; include = []; exclude = [] }

abbrev config : Config
config = record {
  enabled = true;
  include_enabled = true;
  include = "request.*" ∷ [];
  exclude = "request.secret" ∷ [];
  filter_cache_limit = 1000;
  own = λ d. own;
}

abbrev only_spans : Config
only_spans = record config { own = λ d. record own { enabled = same span_event d } }

created-IsValid : IsValid (create matcher config)
unfolding create
created-IsValid = update-IsValid matcher config empty_filter (λ d on. cc)

abbrev wish : Bits
wish d = bit d == 1

filter-answer_example :
    (bits' : Bits) × (f' : Filter) × (filter config trans_scope wish "request.secret"
        (create matcher config)
      ≡ some (bits', f'))
    × ((d : Destination)
        → bits' d ≡ (
            if true
            then answer (create matcher config) trans_scope wish "request.secret" d
            else false))
    × IsValid f'
    × (f'.cached_count ≤ 1000)
unfolding program
filter-answer_example =
    filter-answer config trans_scope wish "request.secret" (create matcher config) created-IsValid
      (omega arith)
