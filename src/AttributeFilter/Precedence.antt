-- ===== src/AttributeFilter/Precedence.antt =====
-- lib/config/attribute-filter.js: which of the rules that match an attribute decides.
use node_newrelic.AttributeFilter.{
  Strength, no_match, wildcard_match, exact_match, is_exact, do_test, Result, no_rule, included,
  excluded, as_result,
}
use node_newrelic.Shared.{ℕ, ◌+◌, ◌*◌, ◌≡◌, ◌&&◌, ◌||◌, if◌then◌else◌, ltb, ◌==◌, arith, max}

-- How a rule ranks: by the length of what it matches, and a destination's rule before a global one
-- of the same length.
abbrev pub global_rank : Strength → ℕ
global_rank no_match = 0
global_rank (wildcard_match n) = 2 * n + 1
global_rank exact_match = 0

abbrev pub own_rank : Strength → ℕ
own_rank no_match = 0
own_rank (wildcard_match n) = 2 * n + 2
own_rank exact_match = 0

abbrev pub by_rank : ℕ → ℕ → Result
by_rank include exclude =
    if (include == 0) && (exclude == 0) then no_rule else as_result (ltb exclude include)

-- An exact exclusion wins, then an exact inclusion; else the wildcard rule of the highest rank
-- decides, an exclusion where an inclusion has the same rank.
abbrev pub decide : (global_include global_exclude own_include own_exclude : Strength) → Result
decide gi ge oi oe =
    if is_exact ge || is_exact oe
    then excluded
    else if is_exact gi || is_exact oi
    then included
    else by_rank (max (own_rank oi) (global_rank gi)) (max (own_rank oe) (global_rank ge))

-- `_doTest` decides by rank, whatever the strengths of the four matches are: an exact exclusion, then
-- an exact inclusion, then the wildcard rule of the highest rank, an exclusion on equal ranks.
pub do_test-decide :
    (global_include global_exclude own_include own_exclude : Strength)
    → do_test global_include global_exclude own_include own_exclude
      ≡ decide global_include global_exclude own_include own_exclude
unfolding do_test
do_test-decide gi ge oi oe = ground arith
