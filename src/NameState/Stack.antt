-- ===== src/NameState/Stack.antt =====
-- lib/transaction/name-state.js: pushes, pops and the lock of the stack.
use node_newrelic.NameState.{
  NameState, Element, reset, set_prefix, set_name, set_verb, set_delimiter, mark_path, append_path,
  append_path_if_empty, before_last, drop_top, pop_path, freeze, is_empty_list, get_path, get_name,
  join, slash,
}
use node_newrelic.Shared.Text.{Text, text_eq, text_eq_refl}
use node_newrelic.Shared.{
  ◌≡◌, refl, ap, true, false, Option, none, some, List, [], ◌∷◌, ◌++◌, arith,
}

-- The calls that change a name state, but for `markPath`.
pub data Change (Params : Type 0) : Type 0 where
  resets : Change Params
  sets_name : Option Text → Option Text → Option Text → Option Text → Change Params
  sets_prefix sets_verb sets_delimiter : Option Text → Change Params
  appends appends_if_empty : Option Text → Option Params → Change Params
  pops : Option Text → Change Params

module _ {Params : Type 0} where
  before_last-append :
      (path : Text) (params : Option Params) (es : List (Element Params))
      → before_last path (es ++ record { path = path; params = params } ∷ []) ≡ some es
  unfolding before_last
  before_last-append path params [] = rw (text_eq_refl path)
  before_last-append path params (e ∷ es) = rw (before_last-append path params es)

  drop_top-append : (e : Element Params) (es : List (Element Params)) → drop_top (es ++ e ∷ []) ≡ es
  drop_top-append e [] = refl
  drop_top-append e (f ∷ []) = refl
  drop_top-append e (f ∷ g ∷ es) = ap (◌∷◌ f) (drop_top-append e (g ∷ es))

  is_empty_list-append :
      (e : Element Params) (es : List (Element Params)) → is_empty_list (es ++ e ∷ []) ≡ false
  is_empty_list-append e [] = refl
  is_empty_list-append e (f ∷ es) = refl

  -- Leaving a path that was entered restores the stack, whether it is popped by its name or as the
  -- top element, also when the same path lies deeper in the stack.
  pub pop_path-append_path :
      (path : Text) (params : Option Params) (n : NameState Params)
      → n.frozen ≡ false
      → ((pop_path (some path) (append_path (some path) params n)).path_stack ≡ n.path_stack)
        × ((pop_path none (append_path (some path) params n)).path_stack ≡ n.path_stack)
  unfolding pop_path append_path
  pop_path-append_path path params n open' =
      let e : Element Params = record { path = path; params = params } in
      ground (
        arith,
        before_last-append path params n.path_stack,
        drop_top-append e n.path_stack,
        is_empty_list-append e n.path_stack,
      )

  abbrev pub Absent : Text → List (Element Params) → Type 0
  Absent path [] = Unit
  Absent path (e ∷ es) = (text_eq e.path path ≡ false) × Absent path es

  before_last-Absent :
      (path : Text) (es : List (Element Params)) → Absent path es → before_last path es ≡ none
  unfolding before_last
  before_last-Absent path [] h = refl
  before_last-Absent path (e ∷ es) h = rw (before_last-Absent path es h.1, h.0)

  -- Popping back to a path that is not on the stack changes no element of it.
  pub pop_path-Absent :
      (path : Text) (n : NameState Params)
      → Absent path n.path_stack
      → (pop_path (some path) n).path_stack ≡ n.path_stack
  unfolding pop_path
  pop_path-Absent path n h = ground (arith, before_last-Absent path n.path_stack h)

  unfoldable pub apply_change : (Text → Text) → Change Params → NameState Params → NameState Params
  unfolding reset set_prefix set_name set_verb set_delimiter append_path append_path_if_empty
      pop_path
  apply_change to_upper resets n = reset n
  apply_change to_upper (sets_name prefix verb delimiter path) n =
      set_name to_upper prefix verb delimiter path n
  apply_change to_upper (sets_prefix prefix) n = set_prefix prefix n
  apply_change to_upper (sets_verb verb) n = set_verb to_upper verb n
  apply_change to_upper (sets_delimiter delimiter) n = set_delimiter delimiter n
  apply_change to_upper (appends path params) n = append_path path params n
  apply_change to_upper (appends_if_empty path params) n = append_path_if_empty path params n
  apply_change to_upper (pops path) n = pop_path path n

  unfoldable pub apply_all :
      (Text → Text) → List (Change Params) → NameState Params → NameState Params
  apply_all to_upper [] n = n
  apply_all to_upper (c ∷ cs) n = apply_all to_upper cs (apply_change to_upper c n)

  frozen-apply_change :
      (to_upper : Text → Text) (c : Change Params) (n : NameState Params)
      → n.frozen ≡ true
      → apply_change to_upper c n ≡ n
  unfolding apply_change
  frozen-apply_change to_upper resets n h = rw h
  frozen-apply_change to_upper (sets_name p v d q) n h = rw h
  frozen-apply_change to_upper (sets_prefix none) n h = rw h
  frozen-apply_change to_upper (sets_prefix (some p)) n h = rw h
  frozen-apply_change to_upper (sets_verb v) n h = rw h
  frozen-apply_change to_upper (sets_delimiter d) n h = rw h
  frozen-apply_change to_upper (appends none params) n h = refl
  frozen-apply_change to_upper (appends (some p) params) n h = rw h
  frozen-apply_change to_upper (appends_if_empty p params) n h = rw h
  frozen-apply_change to_upper (pops p) n h = rw h

  name-freeze : (n : NameState Params) → (get_name (freeze n)).1 ≡ (get_name n).1
  unfolding get_name freeze
  name-freeze n = ground arith

  -- After `freeze` no sequence of these calls changes anything, so the name stays what it was.
  pub frozen-apply_all :
      (to_upper : Text → Text) (cs : List (Change Params)) (n : NameState Params)
      → (apply_all to_upper cs (freeze n) ≡ freeze n)
        × ((get_name (apply_all to_upper cs (freeze n))).1 ≡ (get_name n).1)
  unfolding apply_all freeze
  frozen-apply_all to_upper [] n = (refl, name-freeze n)
  frozen-apply_all to_upper (c ∷ cs) n =
      rw (frozen-apply_change to_upper c (freeze n) refl) (frozen-apply_all to_upper cs n)

  -- `markPath` is not held by the lock: on a frozen state with an empty stack and a marked path that
  -- was not read yet, it makes the path go away.
  pub mark_path_frozen :
      (n : NameState Params)
      → n.frozen ≡ true
      → n.path_stack ≡ []
      → is_empty_list n.marked_path ≡ false
      → n.path_cache ≡ none
      → ((get_path (mark_path n)).1 ≡ none)
        × ((get_path n).1 ≡ some (join (slash ∷ []) n.marked_path))
  unfolding get_path mark_path
  mark_path_frozen n frozen empty marked cache = ground arith
