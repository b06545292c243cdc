-- ===== src/Prioritized/Dropping.antt =====
-- lib/attributes/prioritized.js: the search for a key to drop, `_getDroppableAttributeKey`.
use node_newrelic.Prioritized.{
  Priority, is_lower, is_low, Attribute, LastFound, nowhere, at, cached, Attributes, is_past,
  search, key_of, find_droppable, get_droppable_attribute_key, usable,
}
use node_newrelic.Shared.Dict.{Dict, lookup, IsDistinct}
use node_newrelic.Shared.{
  ℕ, ◌+◌, ◌≡◌, refl, inl, inr, String, true, Option, none, some, if◌then◌else◌, [], ◌∷◌, eq_iff,
  eq_refl, arith, Bool-cases, subst,
}

pub usable-found :
    (found : Option String) (key : String) → usable found ≡ some key → found ≡ some key
usable-found none key e = e
usable-found (some k) key e = ground arith

module _ {D : Type 0} where
  -- What a search finds is the key of an attribute of lower priority.
  abbrev pub IsLowerIn : Priority → Dict (Attribute D) → String → Type 0
  IsLowerIn incoming attributes key =
      (attr : Attribute D) × (lookup key attributes ≡ some attr)
      × (is_lower attr.priority incoming ≡ true)

  lookup-tail :
      (k j : String) (attr own : Attribute D) (attributes : Dict (Attribute D))
      → IsDistinct ((k, attr) ∷ attributes)
      → lookup j attributes ≡ some own
      → lookup j ((k, attr) ∷ attributes) ≡ some own
  lookup-tail k j attr own attributes d e = ground (arith, eq_iff k j)

  search-IsLowerIn :
      (bound : Option LastFound) (incoming : Priority) (index : ℕ) (found : Option (String × ℕ))
      (attributes all : Dict (Attribute D)) (key : String)
      → ((k : String) → key_of found ≡ some k → IsLowerIn incoming all k)
      → ((k : String) (attr : Attribute D)
          → lookup k attributes ≡ some attr
          → lookup k all ≡ some attr)
      → IsDistinct attributes
      → key_of (search bound incoming index found attributes) ≡ some key
      → IsLowerIn incoming all key
  unfolding search
  search-IsLowerIn bound incoming index found [] all key held part d e = held key e
  search-IsLowerIn bound incoming index found ((k, attr) ∷ attributes) all key held part d e =
      elim (Bool-cases (is_past index bound)) [
        | inl past ↦ held key (rw (search, past) at e)
        | inr going ↦
            search-IsLowerIn bound incoming (index + 1)
              (if is_lower attr.priority incoming then some (k, index) else found) attributes all
              key
              (λ k' e'. elim (Bool-cases (is_lower attr.priority incoming)) [
                | inl lower ↦
                    subst (λ x. IsLowerIn incoming all x) (let e'' = rw lower at e' in cc)
                      (attr, part k attr (rw eq_refl refl), lower)
                | inr other ↦ held k' (rw other at e')
              ])
              (λ k' own e'. part k' own (lookup-tail k k' attr own attributes d e')) d.1
              (rw (search, going) at e)
      ]

  -- Only the cache of `b` may differ from that of `a`.
  abbrev pub IsSame : Attributes D → Attributes D → Type 0
  IsSame a b =
      (b.attributes ≡ a.attributes) × (b.attribute_count ≡ a.attribute_count) × (b.limit ≡ a.limit)

  -- What looking for a key to drop gives.
  abbrev pub IsFound : Priority → Attributes D → Option String × Attributes D → Type 0
  IsFound incoming a (found, b) =
      ((key : String) → found ≡ some key → IsLowerIn incoming a.attributes key) × IsSame a b

  searched-IsLowerIn :
      (last_found : Option LastFound) (incoming : Priority) (a : Attributes D) (key : String)
      → IsDistinct a.attributes
      → key_of (search last_found incoming 0 none a.attributes) ≡ some key
      → IsLowerIn incoming a.attributes key
  searched-IsLowerIn last_found incoming a key d e =
      search-IsLowerIn last_found incoming 0 none a.attributes a.attributes key (λ k e'. absurd cc)
        (λ k attr e'. e') d e

  find_droppable-IsFound :
      (last_found : Option LastFound) (incoming : Priority) (a : Attributes D)
      → IsDistinct a.attributes
      → IsFound incoming a (find_droppable last_found incoming a)
  unfolding find_droppable
  find_droppable-IsFound none incoming a d =
      ((λ key e. searched-IsLowerIn none incoming a key d e), (refl, refl, refl))
  find_droppable-IsFound (some nowhere) incoming a d = ((λ key e. absurd cc), (refl, refl, refl))
  find_droppable-IsFound (some (at n)) incoming a d =
      ((λ key e. searched-IsLowerIn (some (at n)) incoming a key d e), (refl, refl, refl))

  pub get_droppable_attribute_key-IsFound :
      (incoming : Priority) (a : Attributes D)
      → IsDistinct a.attributes
      → IsFound incoming a (get_droppable_attribute_key incoming a)
  unfolding get_droppable_attribute_key
  get_droppable_attribute_key-IsFound incoming a d = elim (Bool-cases (is_low incoming)) [
    | inl lowest ↦ rw lowest ((λ key e. absurd cc), (refl, refl, refl))
    | inr other ↦
        rw other (find_droppable-IsFound (cached incoming a.last_found_index_cache) incoming a d)
  ]
