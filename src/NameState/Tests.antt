-- ===== src/NameState/Tests.antt =====
-- Runs of lib/transaction/name-state.js.
use node_newrelic.NameState.{
  NameState, Element, append_path, pop_path, get_path, get_full_name, freeze, mark_path, slash,
  join, get_name,
}
use node_newrelic.NameState.Cache.{joined, get_path_fresh, blank_keeps_cache}
use node_newrelic.NameState.Stack.{
  Change, appends, pops, resets, apply_change, apply_all, frozen-apply_all, mark_path_frozen,
}
use node_newrelic.Shared.Text.{Text, codes}
use node_newrelic.Shared.{ℕ, ◌≡◌, refl, inl, true, false, none, some, List, [], ◌∷◌}

abbrev same_case : Text → Text
same_case t = t

abbrev element : Text → Element ℕ
element path = record { path = path; params = none }

-- An Express router in the middle of a request.
abbrev routed : NameState ℕ
routed = record {
  prefix = some (codes "Expressjs");
  verb = some (codes "GET");
  delimiter = some (codes "/");
  path_stack = element (codes "/api/") ∷ element (codes "/users") ∷ element (codes ":id") ∷ [];
  path_cache = none;
  marked_path = [];
  frozen = false;
}

abbrev marked : NameState ℕ
marked = record routed { path_stack = []; marked_path = element (codes "/a") ∷ [] }

program : Unit {0}
unfolding append_path pop_path get_path get_full_name freeze mark_path apply_change apply_all
program = tt

full_name : (get_full_name routed).1 ≡ some (codes "Expressjs/GET//api/users/:id")
unfolding program
full_name = refl

frozen-apply_all_example :
    (apply_all same_case (pops none ∷ resets ∷ []) (freeze routed) ≡ freeze routed)
    × ((get_name (apply_all same_case (pops none ∷ resets ∷ []) (freeze routed))).1
        ≡ (get_name routed).1)
frozen-apply_all_example = frozen-apply_all same_case (pops none ∷ resets ∷ []) routed

mark_path_frozen_example :
    ((get_path (mark_path (record marked { frozen = true }))).1 ≡ none)
    × ((get_path (record marked { frozen = true })).1 ≡ some (join (slash ∷ []) marked.marked_path))
mark_path_frozen_example = mark_path_frozen (record marked { frozen = true }) refl refl refl refl

abbrev first : List (Change ℕ)
first = appends (some (codes "/z")) none ∷ []

abbrev later : List (Change ℕ)
later = pops none ∷ appends (some []) none ∷ []

get_path_fresh_example :
    (get_path (apply_all same_case later (get_path (apply_all same_case first routed)).0)).1
    ≡ joined (apply_all same_case later (get_path (apply_all same_case first routed)).0)
unfolding program
get_path_fresh_example =
    get_path_fresh same_case first later routed (inl refl) (tt, tt) (tt, (inl refl, tt))

blank_keeps_cache_example :
    ((get_path (append_path (some []) none (get_path marked).0)).1 ≡ joined marked)
    × (joined (append_path (some []) none (get_path marked).0) ≡ some (slash ∷ []))
blank_keeps_cache_example = blank_keeps_cache none marked refl refl refl refl

-- The cache outlives the mark that it was made from.
abbrev marked_and_popped : NameState ℕ
marked_and_popped =
    pop_path none
      (mark_path (append_path (some (codes "/a")) none (record routed { path_stack = [] })))

stale_mark : (get_path (mark_path (get_path marked_and_popped).0)).1 ≡ some (codes "/a")
unfolding program
stale_mark = refl
