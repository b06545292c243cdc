-- ===== src/AttributeFilter/Matching.antt =====
-- lib/config/attribute-filter.js: the destinations, the rules and their precedence.
use node_newrelic.Shared.Text.{codes, last?}
use node_newrelic.Shared.{
  ℕ, String, ◌+◌, Bool, true, false, not, ◌&&◌, ◌||◌, Option, none, some, if◌then◌else◌, List, [],
  ◌∷◌, ◌==◌, leb,
}

pub data Destination : Type 0 where
  trans_event trans_trace error_event browser_event span_event trans_segment : Destination

-- The bit of each destination.
abbrev pub bit : Destination → ℕ
bit trans_event = 0x01
bit trans_trace = 0x02
bit error_event = 0x04
bit browser_event = 0x08
bit span_event = 0x10
bit trans_segment = 0x20

abbrev pub Bits : Type 0
Bits = Destination → Bool

abbrev pub no_bits : Bits
no_bits d = false

abbrev pub same : Destination → Destination → Bool
same d e = bit d == bit e

-- `bits |= id` and `bits &= ~id`.
abbrev pub with_bit : Destination → Bits → Bits
with_bit d bits e = if same d e then true else bits e

abbrev pub without_bit : Destination → Bits → Bits
without_bit d bits e = if same d e then false else bits e

abbrev pub trans_scope : List Destination
trans_scope = trans_event ∷ trans_trace ∷ error_event ∷ browser_event ∷ []

abbrev pub segment_scope : List Destination
segment_scope = span_event ∷ trans_segment ∷ []

abbrev pub all_scope : List Destination
all_scope =
    trans_event ∷ trans_trace ∷ error_event ∷ browser_event ∷ span_event ∷ trans_segment ∷ []

-- -Infinity, the end of a wildcard's match plus 1, or Infinity.
pub data Strength : Type 0 where
  no_match : Strength
  wildcard_match : ℕ → Strength
  exact_match : Strength

abbrev pub is_no_match : Strength → Bool
is_no_match no_match = true
is_no_match (wildcard_match n) = false
is_no_match exact_match = false

abbrev pub is_exact : Strength → Bool
is_exact no_match = false
is_exact (wildcard_match n) = false
is_exact exact_match = true

-- `a >= b`; `a > b` is its negation turned round.
abbrev pub at_least : Strength → Strength → Bool
at_least a no_match = true
at_least no_match (wildcard_match n) = false
at_least (wildcard_match m) (wildcard_match n) = leb n m
at_least exact_match (wildcard_match n) = true
at_least no_match exact_match = false
at_least (wildcard_match m) exact_match = false
at_least exact_match exact_match = true

abbrev pub exceeds : Strength → Strength → Bool
exceeds a b = not (at_least b a)

-- Compiled rules: the test of the exact ones, and where the match of the wildcards ends.
pub record Rules : Type 0 where
  pub exact : Option (String → Bool)
  pub wildcard : Option (String → Option ℕ)

-- `new RegExp` on the expression that `_convertRulesToRegex` builds.
pub record Matcher : Type 0 where
  pub exactly : List String → String → Bool
  pub by_prefix : List String → String → Option ℕ

abbrev pub no_rules : Rules
no_rules = record { exact = none; wildcard = none }

abbrev pub passes : Option (String → Bool) → String → Bool
passes none key = false
passes (some test) key = test key

abbrev pub wildcard_strength : Option (String → Option ℕ) → String → Strength
wildcard_strength none key = no_match
wildcard_strength (some test) key = elim (test key) [
  | none ↦ no_match
  | some last_index ↦ wildcard_match (last_index + 1)
]

unfoldable pub match_rules : Rules → String → Strength
match_rules rules key =
    if passes rules.exact key then exact_match else wildcard_strength rules.wildcard key

abbrev pub is_star : Option ℕ → Bool
is_star none = false
is_star (some c) = c == b'*'

abbrev pub ends_in_star : String → Bool
ends_in_star rule = is_star (last? (codes rule))

abbrev pub exact_rules : List String → List String
exact_rules [] = []
exact_rules (rule ∷ rules) =
    let rest = exact_rules rules in if ends_in_star rule then rest else rule ∷ rest

abbrev pub wildcard_rules : List String → List String
wildcard_rules [] = []
wildcard_rules (rule ∷ rules) =
    let rest = wildcard_rules rules in if ends_in_star rule then rule ∷ rest else rest

abbrev pub if_any {ℓ} : {A : Type ℓ} → (List String → A) → List String → Option A
if_any f [] = none
if_any f (rule ∷ rules) = some (f (rule ∷ rules))

unfoldable pub import_rules : Matcher → List String → Rules
import_rules matcher rules = record {
  exact = if_any matcher.exactly (exact_rules rules);
  wildcard = if_any matcher.by_prefix (wildcard_rules rules);
}

pub data Result : Type 0 where
  no_rule included excluded : Result

abbrev pub as_result : Bool → Result
as_result true = included
as_result false = excluded

-- `_doTest`, with the strengths of the destination's own rules.
unfoldable pub do_test : (global_include global_exclude own_include own_exclude : Strength) → Result
do_test global_include global_exclude own_include own_exclude =
    if is_exact global_exclude
    then excluded
    else if is_exact own_exclude
    then excluded
    else if is_exact global_include
    then included
    else if is_exact own_include
    then included
    else if is_no_match global_exclude
        && is_no_match global_include
        && is_no_match own_exclude
        && is_no_match own_include
    then no_rule
    else as_result (
        (exceeds own_include own_exclude && at_least own_include global_exclude)
        || (exceeds global_include own_exclude && exceeds global_include global_exclude))
