-- ===== src/Attributes.antt =====
-- lib/attributes/index.js: the attributes of a transaction or a segment, limited in number, with
-- their values cut when they are read. The destinations and the filter, which lib/attributes takes
-- from the attribute filter, are the record Destinations.
use Prim.Native.Char.{code}
use node_newrelic.ByteLimit.{truncate}
use node_newrelic.Shared.Dict.{Dict, lookup, insert}
use node_newrelic.Shared.Text.{Text}
use node_newrelic.Shared.{
  ℕ, String, ◌+◌, ◌*◌, ◌≡◌, Bool, true, false, not, ◌&&◌, Option, none, some, if◌then◌else◌, List,
  [], ◌∷◌, ltb, leb,
}
pub mod Limits
pub mod Reads
mod Tests

pub record Destinations (D : Type 0) : Type 0 where
  pub filter : D → String → D
  pub is_empty : D → Bool
  pub overlaps : D → D → Bool

pub data Value : Type 0 where
  text : Text → Value
  number : ℕ → Value
  flag : Bool → Value
  unsupported : Value

-- `isValidType`
unfoldable pub is_valid_type : Value → Bool
is_valid_type (text s) = true
is_valid_type (number n) = true
is_valid_type (flag b) = true
is_valid_type unsupported = false

-- The bytes of a character in UTF-8.
abbrev pub char_bytes : ℕ → ℕ
char_bytes c = if ltb c 0x80 then 1 else if ltb c 0x800 then 2 else if ltb c 0x10000 then 3 else 4

abbrev pub string_bytes : String → ℕ
string_bytes String.[] = 0
string_bytes (String.◌∷◌ c s) = char_bytes (code c) + string_bytes s

-- `isValidLength`
unfoldable pub is_valid_length : String → Bool
is_valid_length key = leb (string_bytes key) 255

-- `truncated` is there once the value was cut.
pub record Attribute (D : Type 0) : Type 0 where
  pub value : Value
  pub destinations : D
  pub truncate_exempt : Bool
  pub truncated : Option Text

-- A limit that is missing is Infinity.
pub record Attributes (D : Type 0) : Type 0 where
  pub limit : Option ℕ
  pub attributes : Dict (Attribute D)
  pub attribute_count : ℕ
  pub attribute_value_limit : ℕ

abbrev pub is_some {ℓ} : {A : Type ℓ} → Option A → Bool
is_some none = false
is_some (some a) = true

abbrev pub exceeds : ℕ → Option ℕ → Bool
exceeds n none = false
exceeds n (some limit) = ltb limit n

abbrev pub or_text : Text → Option Text → Text
or_text s none = s
or_text s (some t) = t

-- `byteUtils.truncate`, with the rounds that it needs at most.
abbrev pub cut : ℕ → Text → Text
cut limit s = or_text s (truncate (3 * limit + 3) s limit)

module _ {D : Type 0} (dests : Destinations D) where
  unfoldable pub new_attributes : Option ℕ → ℕ → Attributes D
  new_attributes limit value_limit = record {
    limit = limit;
    attributes = [];
    attribute_count = 0;
    attribute_value_limit = if ltb 4096 value_limit then 4096 else value_limit;
  }

  unfoldable pub has : String → Attributes D → Bool
  has key a = is_some (lookup key a.attributes)

  -- `_set`
  unfoldable pub set : D → String → Value → Bool → Attributes D → Attributes D
  set destinations key value truncate_exempt a = record a {
    attributes =
        insert key
          (record {
            value = value;
            destinations = destinations;
            truncate_exempt = truncate_exempt;
            truncated = none;
          })
          a.attributes;
  }

  unfoldable pub reset : Attributes D → Attributes D
  reset a = record a { attributes = [] }

  -- `addAttribute` past its first test, for a key that is new or not.
  unfoldable pub add_checked : Bool → D → String → Value → Bool → Attributes D → Attributes D
  unfolding set is_valid_type is_valid_length
  add_checked is_new destinations key value truncate_exempt a =
      let valid = dests.filter destinations key in
      if not (is_valid_type value)
      then a
      else if not (is_valid_length key)
      then a
      else if dests.is_empty valid
      then a
      else set valid key value truncate_exempt
          (if is_new then record a { attribute_count = a.attribute_count + 1 } else a)

  unfoldable pub add_attribute : D → String → Value → Bool → Attributes D → Attributes D
  unfolding has add_checked
  add_attribute destinations key value truncate_exempt a =
      if not (has key a) && exceeds (a.attribute_count + 1) a.limit
      then a
      else add_checked (not (has key a)) destinations key value truncate_exempt a

  unfoldable pub add_attributes : D → List (String × Value) → Attributes D → Attributes D
  unfolding add_attribute
  add_attributes destinations [] a = a
  add_attributes destinations ((key, value) ∷ attrs) a =
      add_attributes destinations attrs (add_attribute destinations key value false a)

  unfoldable pub has_valid_destination : D → String → Bool
  has_valid_destination destinations key = not (dests.is_empty (dests.filter destinations key))

  -- The value that `get` returns for an attribute, and the attribute with the memo of it.
  unfoldable pub read : ℕ → Attribute D → Value × Attribute D
  read limit attr = elim attr.value [
    | text s ↦
        let found = text (or_text (cut limit s) attr.truncated) in
        let memo = record attr { truncated = some (or_text (cut limit s) attr.truncated) } in
        if attr.truncate_exempt then (text s, attr) else (found, memo)
    | number n ↦ (number n, attr)
    | flag b ↦ (flag b, attr)
    | unsupported ↦ (unsupported, attr)
  ]

  -- The loop of `get`: what it returns, and the attributes with their memos.
  unfoldable pub read_each : ℕ → D → Dict (Attribute D) → List (String × Value) × Dict (Attribute D)
  unfolding read
  read_each limit dest [] = ([], [])
  read_each limit dest ((key, attr) ∷ attributes) =
      let (values, memos) = read_each limit dest attributes in
      let (value, memo) = read limit attr in
      if dests.overlaps attr.destinations dest
      then ((key, value) ∷ values, (key, memo) ∷ memos)
      else (values, (key, attr) ∷ memos)

  unfoldable pub get : D → Attributes D → List (String × Value) × Attributes D
  unfolding read_each
  get dest a =
      let (values, memos) = read_each a.attribute_value_limit dest a.attributes in
      (values, record a { attributes = memos })
