-- ===== src/NameState.antt =====
-- lib/transaction/name-state.js: the stack of paths from which a transaction is named.
use node_newrelic.Shared.Text.{Text, codes, text_eq, last?, head?, drop_last}
use node_newrelic.Shared.{
  ℕ, ◌≡◌, Bool, true, false, not, ◌&&◌, ◌||◌, Option, none, some, if◌then◌else◌, List, [], ◌∷◌,
  ◌++◌, ◌==◌,
}
pub mod Stack
pub mod Join
pub mod Cache
mod Tests

abbrev pub slash : ℕ
slash = b'/'

-- A path element with its parameters, which are passed on and not looked at.
pub record Element (Params : Type 0) : Type 0 where
  pub path : Text
  pub params : Option Params

pub record NameState (Params : Type 0) : Type 0 where
  pub prefix : Option Text
  pub verb : Option Text
  pub delimiter : Option Text
  pub path_stack : List (Element Params)
  pub path_cache : Option Text
  pub marked_path : List (Element Params)
  pub frozen : Bool

-- The prefix without a slash at its end.
unfoldable pub trim_prefix : Text → Text
trim_prefix prefix = elim (last? prefix) [
  | none ↦ prefix
  | some c ↦ if c == slash then drop_last prefix else prefix
]

abbrev pub is_empty_text : Text → Bool
is_empty_text [] = true
is_empty_text (c ∷ s) = false

-- A text that counts as false is one that is missing or empty.
abbrev pub or_blank : Option Text → Text
or_blank none = []
or_blank (some t) = t

-- A slash and the verb, if there is one.
abbrev pub slashed : Option Text → Text
slashed none = []
slashed (some verb) = if is_empty_text verb then [] else slash ∷ verb

abbrev pub is_empty_list {ℓ} : {A : Type ℓ} → List A → Bool
is_empty_list [] = true
is_empty_list (x ∷ xs) = false

abbrev pub is_slash : Option ℕ → Bool
is_slash none = false
is_slash (some c) = c == slash

abbrev pub ends_in_slash : Text → Bool
ends_in_slash path = is_slash (last? path)

-- One round of the loop of `getPath`: the text so far and the next element.
unfoldable pub join_step : Text → Text → Text
join_step path [] = path
join_step path (c ∷ a) =
    if text_eq (c ∷ a) (slash ∷ [])
    then path
    else if not (c == slash) && not (ends_in_slash path)
    then path ++ slash ∷ c ∷ a
    else if (c == slash) && ends_in_slash path
    then path ++ a
    else path ++ c ∷ a

abbrev pub upper : (Text → Text) → Option Text → Option Text
upper to_upper none = none
upper to_upper (some verb) = some (to_upper verb)

abbrev pub legacy_naming : List Text
legacy_naming =
    codes "Custom"
    ∷ codes "Connect"
    ∷ codes "Director"
    ∷ codes "Expressjs"
    ∷ codes "Hapi"
    ∷ codes "Nodejs"
    ∷ codes "Restify"
    ∷ []

unfoldable pub is_legacy : List Text → Option Text → Bool
is_legacy names none = false
is_legacy [] (some prefix) = false
is_legacy (name ∷ names) (some prefix) = text_eq name prefix || is_legacy names (some prefix)

abbrev pub status_code_names : ℕ → Option Text
status_code_names code =
    if code == 404
    then some (codes "(not found)")
    else if code == 501
    then some (codes "(not implemented)")
    else if code == 405
    then some (codes "(method not allowed)")
    else none

module _ {Params : Type 0} where
  -- `reset`, which leaves the marked path.
  unfoldable pub reset : NameState Params → NameState Params
  reset n = if n.frozen then n else record n {
    prefix = none;
    verb = none;
    delimiter = none;
    path_stack = [];
    path_cache = none;
  }

  unfoldable pub set_prefix : Option Text → NameState Params → NameState Params
  unfolding trim_prefix
  set_prefix none n = if n.frozen then n else record n { prefix = none }
  set_prefix (some prefix) n =
      if n.frozen then n else record n { prefix = some (trim_prefix prefix) }

  abbrev pub one_element : Option Text → List (Element Params)
  one_element none = []
  one_element (some path) =
      if is_empty_text path then [] else record { path = path; params = none } ∷ []

  -- `to_upper` is the language's `toUpperCase`.
  module _ (to_upper : Text → Text) where
    unfoldable pub set_name :
        Option Text → Option Text → Option Text → Option Text → NameState Params → NameState Params
    unfolding set_prefix
    set_name prefix verb delimiter path n =
        if n.frozen
        then n
        else let n' = set_prefix prefix n in
          record n' {
            verb = upper to_upper verb;
            delimiter = delimiter;
            path_stack = one_element path;
            path_cache = none;
            marked_path = [];
          }

    unfoldable pub set_verb : Option Text → NameState Params → NameState Params
    set_verb verb n = if n.frozen then n else record n { verb = upper to_upper verb }

    -- The constructor: nothing is frozen yet when it resets and names.
    unfoldable pub create : Option Text → Option Text → Option Text → Option Text → NameState Params
    unfolding set_name reset
    create prefix verb delimiter path = set_name prefix verb delimiter path (record {
      prefix = none;
      verb = none;
      delimiter = none;
      path_stack = [];
      path_cache = none;
      marked_path = [];
      frozen = false;
    })

  unfoldable pub set_delimiter : Option Text → NameState Params → NameState Params
  set_delimiter delimiter n = if n.frozen then n else record n { delimiter = delimiter }

  unfoldable pub mark_path : NameState Params → NameState Params
  mark_path n = record n { marked_path = n.path_stack }

  unfoldable pub is_empty : NameState Params → Bool
  is_empty n = is_empty_list n.path_stack && is_empty_list n.marked_path

  -- `path != null`; a regular expression is passed as its source. The empty text leaves the cache.
  unfoldable pub append_path : Option Text → Option Params → NameState Params → NameState Params
  append_path none params n = n
  append_path (some path) params n = if n.frozen then n else record n {
    path_stack = n.path_stack ++ record { path = path; params = params } ∷ [];
    path_cache = if is_empty_text path then n.path_cache else none;
  }

  unfoldable pub append_path_if_empty :
      Option Text → Option Params → NameState Params → NameState Params
  unfolding append_path is_empty
  append_path_if_empty path params n =
      if not n.frozen && is_empty n then append_path path params n else n

  -- `_findLastIndex` and the `splice`: what stands before the last element with this path, if any.
  unfoldable pub before_last : Text → List (Element Params) → Option (List (Element Params))
  before_last path [] = none
  before_last path (e ∷ es) = elim (before_last path es) [
    | some kept ↦ some (e ∷ kept)
    | none ↦ if text_eq e.path path then some [] else none
  ]

  abbrev pub or_whole :
      Option (List (Element Params)) → List (Element Params) → List (Element Params)
  or_whole none stack = stack
  or_whole (some kept) stack = kept

  abbrev pub drop_top : List (Element Params) → List (Element Params)
  drop_top [] = []
  drop_top (e ∷ []) = []
  drop_top (e ∷ f ∷ es) = e ∷ drop_top (f ∷ es)

  abbrev pub popped : Option Text → List (Element Params) → List (Element Params)
  popped none stack = drop_top stack
  popped (some path) stack = or_whole (before_last path stack) stack

  unfoldable pub pop_path : Option Text → NameState Params → NameState Params
  unfolding before_last
  pop_path path n =
      if n.frozen || is_empty_list n.path_stack
      then n
      else record n { path_cache = none; path_stack = popped path n.path_stack }

  unfoldable pub freeze : NameState Params → NameState Params
  freeze n = record n { frozen = true }

  -- The loop of `getPath`.
  unfoldable pub join : Text → List (Element Params) → Text
  unfolding join_step
  join path [] = path
  join path (e ∷ es) = join (join_step path e.path) es

  abbrev pub current : NameState Params → List (Element Params)
  current n = if is_empty_list n.path_stack then n.marked_path else n.path_stack

  -- The path, and the state with the path cached.
  unfoldable pub get_path : NameState Params → NameState Params × Option Text
  unfolding join
  get_path n = elim n.path_cache [
    | some path ↦ (n, some path)
    | none ↦
        if is_empty_list (current n)
        then (n, none)
        else let path = join (slash ∷ []) (current n) in
          (record n { path_cache = some path }, some path)
  ]

  -- `_getName`
  abbrev pub name_of : NameState Params → Text → Text
  name_of n path = or_blank n.prefix ++ (slashed n.verb ++ (or_blank n.delimiter ++ path))

  -- `NAMES.WEB.FRAMEWORK_PREFIX + '/'` before the name of a framework that is not a legacy one.
  unfoldable pub framed : NameState Params → Text → Text
  unfolding is_legacy
  framed n name =
      if is_legacy legacy_naming n.prefix then name else codes "WebFrameworkUri/" ++ name

  unfoldable pub get_status_name : ℕ → NameState Params → Option Text
  unfolding framed
  get_status_name code n = elim (status_code_names code) [
    | none ↦ none
    | some name ↦ some (framed n (name_of n name))
  ]

  unfoldable pub get_name_not_found : NameState Params → Text
  unfolding framed
  get_name_not_found n = framed n (name_of n (codes "(not found)"))

  abbrev pub name_if : NameState Params → Option Text → Option Text
  name_if n none = none
  name_if n (some path) = some (name_of n path)

  unfoldable pub get_name : NameState Params → NameState Params × Option Text
  unfolding get_path
  get_name n = let (n', path) = get_path n in (n', name_if n' path)

  abbrev pub full_name_if : NameState Params → Option Text → Option Text
  full_name_if n name =
      if is_legacy legacy_naming n.prefix
      then name
      else some (codes "WebFrameworkUri/" ++ elim name [ none ↦ codes "null" | some t ↦ t ])

  -- A missing name is spelled "null" behind the framework prefix.
  unfoldable pub get_full_name : NameState Params → NameState Params × Option Text
  unfolding get_name is_legacy
  get_full_name n = let (n', name) = get_name n in (n', full_name_if n' name)

  -- `forEachParams`: what the callback is called with.
  unfoldable pub params_of : List (Element Params) → List Params
  params_of [] = []
  params_of (e ∷ es) = elim e.params [ none ↦ params_of es | some p ↦ p ∷ params_of es ]
