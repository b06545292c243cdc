-- ===== src/NameState/Join.antt =====
-- lib/transaction/name-state.js, `getPath`: how the elements are joined by slashes.
use node_newrelic.NameState.{Element, slash, is_slash, ends_in_slash, join_step, join}
use node_newrelic.Shared.Text.{Text, head?}
use node_newrelic.Shared.{◌≡◌, refl, Bool, true, false, not, ◌&&◌, List, [], ◌∷◌, ◌++◌, ◌==◌, arith}

-- No two slashes in a row.
abbrev pub no_double : Text → Bool
no_double [] = true
no_double (a ∷ []) = true
no_double (a ∷ b ∷ s) = not ((a == slash) && (b == slash)) && no_double (b ∷ s)

no_double-append :
    (s t : Text)
    → no_double s ≡ true
    → no_double t ≡ true
    → ends_in_slash s && is_slash (head? t) ≡ false
    → no_double (s ++ t) ≡ true
no_double-append [] t hs ht h = ht
no_double-append (a ∷ []) [] hs ht h = refl
no_double-append (a ∷ []) (b ∷ t) hs ht h = ground arith
no_double-append (a ∷ b ∷ s) t hs ht h = ground (arith, no_double-append (b ∷ s) t)

no_double-join_step :
    (path a : Text)
    → no_double path ≡ true
    → no_double a ≡ true
    → no_double (join_step path a) ≡ true
unfolding join_step
no_double-join_step path [] hp ha = hp
no_double-join_step path (c ∷ []) hp ha = ground (
  arith,
  no_double-append path (slash ∷ c ∷ []),
  no_double-append path [],
  no_double-append path (c ∷ []),
)
no_double-join_step path (c ∷ d ∷ a) hp ha = ground (
  arith,
  no_double-append path (slash ∷ c ∷ d ∷ a),
  no_double-append path (d ∷ a),
  no_double-append path (c ∷ d ∷ a),
)

starts_slash-append : (s t : Text) → is_slash (head? s) ≡ true → is_slash (head? (s ++ t)) ≡ true
starts_slash-append [] t h = cc
starts_slash-append (a ∷ s) t h = h

starts_slash-join_step :
    (path a : Text) → is_slash (head? path) ≡ true → is_slash (head? (join_step path a)) ≡ true
unfolding join_step
starts_slash-join_step path [] h = h
starts_slash-join_step path (c ∷ a) h = ground (
  arith,
  starts_slash-append path (slash ∷ c ∷ a) h,
  starts_slash-append path a h,
  starts_slash-append path (c ∷ a) h,
)

module _ {Params : Type 0} where
  abbrev pub AllNoDouble : List (Element Params) → Type 0
  AllNoDouble [] = Unit
  AllNoDouble (e ∷ es) = (no_double e.path ≡ true) × AllNoDouble es

  -- The joined path begins with a slash and has no two slashes in a row, if no element has two in
  -- a row within itself: whether elements begin or end with slashes makes no double one.
  pub join-no_double :
      (path : Text) (es : List (Element Params))
      → is_slash (head? path) ≡ true
      → no_double path ≡ true
      → AllNoDouble es
      → (no_double (join path es) ≡ true) × (is_slash (head? (join path es)) ≡ true)
  unfolding join
  join-no_double path [] start hp h = (hp, start)
  join-no_double path (e ∷ es) start hp h =
      join-no_double (join_step path e.path) es (starts_slash-join_step path e.path start)
        (no_double-join_step path e.path hp h.0) h.1
