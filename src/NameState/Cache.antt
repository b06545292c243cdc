-- ===== src/NameState/Cache.antt =====
-- lib/transaction/name-state.js: the cached path against the path of the current elements.
use node_newrelic.NameState.{
  NameState, Element, slash, join_step, join, is_empty_list, get_path, append_path,
}
use node_newrelic.NameState.Stack.{
  Change, resets, sets_name, sets_prefix, sets_verb, sets_delimiter, appends, appends_if_empty,
  pops, apply_change, apply_all,
}
use node_newrelic.Shared.Text.{Text}
use node_newrelic.Shared.{
  ◌≡◌, refl, sym, ap, ◌∙◌, ◌⊎◌, inl, inr, true, false, Option, none, some, List, [], ◌∷◌, ◌++◌,
  arith,
}

module _ {Params : Type 0} where
  -- `getPath` as it would be with no cache.
  abbrev pub joined_of : List (Element Params) → List (Element Params) → Option Text
  joined_of [] [] = none
  joined_of [] (m ∷ marked) = some (join (slash ∷ []) (m ∷ marked))
  joined_of (e ∷ stack) marked = some (join (slash ∷ []) (e ∷ stack))

  abbrev pub joined : NameState Params → Option Text
  joined n = joined_of n.path_stack n.marked_path

  abbrev pub IsCoherent : NameState Params → Type 0
  IsCoherent n = (n.path_cache ≡ none) ⊎ (n.path_cache ≡ joined n)

  get_path-joined : (n : NameState Params) → IsCoherent n → (get_path n).1 ≡ joined n
  unfolding get_path
  get_path-joined n (inl e) = ground arith
  get_path-joined n (inr e) = ground arith

  get_path-IsCoherent : (n : NameState Params) → IsCoherent n → IsCoherent (get_path n).0
  unfolding get_path
  get_path-IsCoherent n (inl e) = ground arith
  get_path-IsCoherent n (inr e) = ground arith

  join-append_blank :
      (params : Option Params) (path : Text) (es : List (Element Params))
      → join path (es ++ record { path = []; params = params } ∷ []) ≡ join path es
  unfolding join join_step
  join-append_blank params path [] = refl
  join-append_blank params path (e ∷ es) = join-append_blank params (join_step path e.path) es

  -- A blank element is not pushed on an empty stack while a marked path stands in for it.
  abbrev pub IsSafe : Change Params → NameState Params → Type 0
  IsSafe (appends (some []) params) n =
      (is_empty_list n.path_stack ≡ false) ⊎ (is_empty_list n.marked_path ≡ true)
  IsSafe _ n = Unit

  joined_blank :
      (params : Option Params) (stack marked : List (Element Params)) (cache : Option Text)
      → (is_empty_list stack ≡ false) ⊎ (is_empty_list marked ≡ true)
      → (cache ≡ none) ⊎ (cache ≡ joined_of stack marked)
      → (cache ≡ none)
        ⊎ (cache ≡ joined_of (stack ++ record { path = []; params = params } ∷ []) marked)
  joined_blank params [] [] cache safe h = ground arith
  joined_blank params [] (m ∷ marked) cache safe h = ground arith
  joined_blank params (e ∷ stack) marked cache safe (inl h) = inl h
  joined_blank params (e ∷ stack) marked cache safe (inr h) =
      inr (h ∙ ap some (sym (join-append_blank params (slash ∷ []) (e ∷ stack))))

  append_blank-IsCoherent :
      (params : Option Params) (n : NameState Params)
      → (is_empty_list n.path_stack ≡ false) ⊎ (is_empty_list n.marked_path ≡ true)
      → IsCoherent n
      → IsCoherent (append_path (some []) params n)
  unfolding append_path
  append_blank-IsCoherent params n safe h =
      ground (arith, joined_blank params n.path_stack n.marked_path n.path_cache safe h)

  change-IsCoherent :
      (to_upper : Text → Text) (c : Change Params) (n : NameState Params)
      → IsSafe c n
      → IsCoherent n
      → IsCoherent (apply_change to_upper c n)
  unfolding apply_change
  change-IsCoherent to_upper resets n s h = ground arith
  change-IsCoherent to_upper (sets_name none v d q) n s h = ground arith
  change-IsCoherent to_upper (sets_name (some p) v d q) n s h = ground arith
  change-IsCoherent to_upper (sets_prefix none) n s h = ground arith
  change-IsCoherent to_upper (sets_prefix (some p)) n s h = ground arith
  change-IsCoherent to_upper (sets_verb v) n s h = ground arith
  change-IsCoherent to_upper (sets_delimiter d) n s h = ground arith
  change-IsCoherent to_upper (appends none params) n s h = h
  change-IsCoherent to_upper (appends (some []) params) n s h = append_blank-IsCoherent params n s h
  change-IsCoherent to_upper (appends (some (c ∷ p)) params) n s h = ground arith
  change-IsCoherent to_upper (appends_if_empty none params) n s h = ground arith
  change-IsCoherent to_upper (appends_if_empty (some p) params) n s h = ground arith
  change-IsCoherent to_upper (pops p) n s h = ground arith

  -- Every change is safe when it is made.
  abbrev pub AllSafe : (Text → Text) → List (Change Params) → NameState Params → Type 0
  AllSafe to_upper [] n = Unit
  AllSafe to_upper (c ∷ cs) n = IsSafe c n × AllSafe to_upper cs (apply_change to_upper c n)

  all-IsCoherent :
      (to_upper : Text → Text) (cs : List (Change Params)) (n : NameState Params)
      → AllSafe to_upper cs n
      → IsCoherent n
      → IsCoherent (apply_all to_upper cs n)
  unfolding apply_all
  all-IsCoherent to_upper [] n s h = h
  all-IsCoherent to_upper (c ∷ cs) n s h =
      all-IsCoherent to_upper cs (apply_change to_upper c n) s.1
        (change-IsCoherent to_upper c n s.0 h)

  -- From a state whose cache is empty or right, after any changes but `markPath`, with the path read in
  -- between, `getPath` returns the join of the elements that are then current, provided that no blank
  -- element is pushed on an empty stack while a marked path stands in for it. (`markPath` leaves the
  -- cache of the path that was marked before.)
  pub get_path_fresh :
      (to_upper : Text → Text) (cs ds : List (Change Params)) (n : NameState Params)
      → IsCoherent n
      → AllSafe to_upper cs n
      → AllSafe to_upper ds (get_path (apply_all to_upper cs n)).0
      → (get_path (apply_all to_upper ds (get_path (apply_all to_upper cs n)).0)).1
        ≡ joined (apply_all to_upper ds (get_path (apply_all to_upper cs n)).0)
  get_path_fresh to_upper cs ds n h s t =
      get_path-joined (apply_all to_upper ds (get_path (apply_all to_upper cs n)).0) (
        all-IsCoherent to_upper ds _ t
          (get_path-IsCoherent (apply_all to_upper cs n) (all-IsCoherent to_upper cs n s h)))

  -- A blank element pushed while a marked path stands in for an empty stack is not seen: once the
  -- marked path was read, `getPath` still returns it, though the stack is no longer empty and joins
  -- to a single slash.
  pub blank_keeps_cache :
      (params : Option Params) (n : NameState Params)
      → n.frozen ≡ false
      → n.path_stack ≡ []
      → is_empty_list n.marked_path ≡ false
      → n.path_cache ≡ none
      → ((get_path (append_path (some []) params (get_path n).0)).1 ≡ joined n)
        × (joined (append_path (some []) params (get_path n).0) ≡ some (slash ∷ []))
  unfolding get_path append_path join join_step
  blank_keeps_cache params n open' empty marked cache = ground arith
