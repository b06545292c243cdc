-- ===== src/Prioritized.antt =====
-- lib/attributes/prioritized.js: attributes that push out attributes of lower priority once the limit is
-- reached. Priorities are whole numbers between LOW and HIGH. A key that looks like a number is taken
-- like any other.
use node_newrelic.Attributes.{
  Destinations, Value, text, number, flag, unsupported, is_valid_type, is_valid_length,
}
use node_newrelic.Shared.Dict.{Dict, lookup, insert, remove}
use node_newrelic.Shared.{
  ℕ, suc, ◌+◌, ◌-◌, ◌≡◌, String, Bool, true, false, not, ◌&&◌, Option, none, some, if◌then◌else◌,
  List, [], ◌∷◌, ◌==◌, ltb, str_eq,
}
mod Bounded
mod Branches
mod Kept
mod Dropping
mod Tests

-- `LOW` is -Infinity and `HIGH` is Infinity.
pub data Priority : Type 0 where
  low : Priority
  level : ℕ → Priority
  high : Priority

abbrev pub is_lower : Priority → Priority → Bool
is_lower low low = false
is_lower low other = true
is_lower (level a) low = false
is_lower (level a) (level b) = ltb a b
is_lower (level a) high = true
is_lower high other = false

abbrev pub is_low : Priority → Bool
is_low low = true
is_low other = false

pub record Attribute (D : Type 0) : Type 0 where
  pub value : Value
  pub destinations : D
  pub truncate_exempt : Bool
  pub priority : Priority

-- The index where the last search for a priority found one: none, -1, or an index.
pub data LastFound : Type 0 where
  nowhere : LastFound
  at : ℕ → LastFound

abbrev pub Cache : Type 0
Cache = List (Priority × LastFound)

abbrev pub is_same : Priority → Priority → Bool
is_same low low = true
is_same (level a) (level b) = a == b
is_same high high = true
is_same other another = false

abbrev pub cached : Priority → Cache → Option LastFound
cached priority [] = none
cached priority ((p, found) ∷ cache) =
    if is_same p priority then some found else cached priority cache

pub record Attributes (D : Type 0) : Type 0 where
  pub limit : Option ℕ
  pub attributes : Dict (Attribute D)
  pub attribute_count : ℕ
  pub last_found_index_cache : Cache

-- `lastFoundIndex && index > lastFoundIndex`: an index of 0 does not stop the search.
abbrev pub is_past : (index : ℕ) → Option LastFound → Bool
is_past index none = false
is_past index (some nowhere) = false
is_past index (some (at last)) = not (last == 0) && ltb last index

abbrev pub to_last_found : Option (String × ℕ) → LastFound
to_last_found none = nowhere
to_last_found (some (key, index)) = at index

abbrev pub key_of : Option (String × ℕ) → Option String
key_of none = none
key_of (some (key, index)) = some key

module _ {D : Type 0} where
  -- The loop of `_getDroppableAttributeKey`: the last key of a lower priority, with its index.
  unfoldable pub search :
      (bound : Option LastFound) (incoming : Priority) (index : ℕ) (found : Option (String × ℕ))
      → Dict (Attribute D)
      → Option (String × ℕ)
  search bound incoming index found [] = found
  search bound incoming index found ((key, attr) ∷ attributes) = elim (is_past index bound) [
    | true ↦ found
    | false ↦
        search bound incoming (index + 1)
          (if is_lower attr.priority incoming then some (key, index) else found) attributes
  ]

  unfoldable pub find_droppable :
      (last_found : Option LastFound) (incoming : Priority)
      → Attributes D
      → Option String × Attributes D
  unfolding search
  find_droppable (some nowhere) incoming a = (none, a)
  find_droppable last_found incoming a =
      let found = search last_found incoming 0 none a.attributes in
      (
        key_of found,
        record a {
          last_found_index_cache = (incoming, to_last_found found) ∷ a.last_found_index_cache;
        },
      )

  unfoldable pub get_droppable_attribute_key :
      (incoming : Priority) → Attributes D → Option String × Attributes D
  unfolding find_droppable
  get_droppable_attribute_key incoming a =
      if is_low incoming
      then (none, a)
      else find_droppable (cached incoming a.last_found_index_cache) incoming a

-- An empty key is as good as none.
abbrev pub usable : Option String → Option String
usable none = none
usable (some key) = if str_eq key "" then none else some key

abbrev pub is_at : ℕ → Option ℕ → Bool
is_at count none = false
is_at count (some limit) = count == limit

module _ {D : Type 0} where
  unfoldable pub free : (droppable : Option String) → Attributes D → Attributes D
  free none a = a
  free (some old) a = record a {
    attributes = remove old a.attributes;
    attribute_count = a.attribute_count - 1;
  }

  unfoldable pub count_in : (existing : Bool) → Attributes D → Attributes D
  count_in true a = a
  count_in false a = record a { attribute_count = a.attribute_count + 1 }

  unfoldable pub set : D → String → Value → Bool → Priority → Attributes D → Attributes D
  set destinations key value truncate_exempt priority a = record a {
    attributes =
        insert key
          (record {
            value = value;
            destinations = destinations;
            truncate_exempt = truncate_exempt;
            priority = priority;
          })
          a.attributes;
  }

module _ {D : Type 0} (dests : Destinations D) where
  -- `addAttribute` from the validity of the type on, with the key to drop.
  unfoldable pub add_checked :
      (existing : Bool) (droppable : Option String)
      → D
      → String
      → Value
      → Bool
      → Priority
      → Attributes D
      → Attributes D
  unfolding set free count_in
  add_checked existing droppable destinations key value truncate_exempt priority a =
      let valid = dests.filter destinations key in
      if not (is_valid_type value)
      then a
      else if not (is_valid_length key)
      then a
      else if dests.is_empty valid
      then a
      else set valid key value truncate_exempt priority (count_in existing (free droppable a))

  unfoldable pub add_attribute :
      D → String → Value → (truncate_exempt : Bool) → Priority → Attributes D → Attributes D
  unfolding add_checked get_droppable_attribute_key
  add_attribute destinations key value truncate_exempt priority a = elim (lookup key a.attributes) [
    | some own ↦
        if is_lower priority own.priority
        then a
        else add_checked true none destinations key value truncate_exempt priority a
    | none ↦ elim (is_at a.attribute_count a.limit) [
      | false ↦ add_checked false none destinations key value truncate_exempt priority a
      | true ↦
          let (found, a') = get_droppable_attribute_key priority a in
          elim (usable found) [
            | none ↦ a'
            | some old ↦
                add_checked false (some old) destinations key value truncate_exempt priority a'
          ]
    ]
  ]
