-- ===== src/LabelParser.antt =====
-- lib/util/label-parser.js: labels from a configuration text "key:value;key:value" or a map.
use node_newrelic.Shared.Text.{Text, text_eq, trim_start, trim_end, trim, split}
use node_newrelic.Shared.{
  ◌⊎◌, inl, inr, ℕ, zero, suc, ◌+◌, ◌*◌, ◌-◌, ◌≡◌, Bool, true, false, not, ◌&&◌, ◌||◌, Option, none,
  some, if◌then◌else◌, List, [], ◌∷◌, ◌++◌, map, ◌==◌, leb, ltb, length, take,
}
pub mod Trimming
pub mod Maps
mod Tests

abbrev pub last_text? : List Text → Option Text
last_text? [] = none
last_text? (p ∷ []) = some p
last_text? (p ∷ q ∷ ps) = last_text? (q ∷ ps)

abbrev pub first_text? : List Text → Option Text
first_text? [] = none
first_text? (p ∷ ps) = some p

-- `!pairs[i]`: an entry that is empty text, or no entry at all.
abbrev pub is_falsy : Option Text → Bool
is_falsy none = true
is_falsy (some []) = true
is_falsy (some (c ∷ s)) = false

abbrev pub pop : List Text → List Text
pop [] = []
pop (p ∷ []) = []
pop (p ∷ q ∷ ps) = p ∷ pop (q ∷ ps)

abbrev pub shift : List Text → List Text
shift [] = []
shift (p ∷ ps) = ps

-- `while (!pairs[pairs.length - 1]) pairs.pop()`; `none` when the rounds run out.
unfoldable pub pop_blanks : ℕ → List Text → Option (List Text)
pop_blanks zero pairs = none
pop_blanks (suc fuel) pairs = elim (is_falsy (last_text? pairs)) [
  | true ↦ pop_blanks fuel (pop pairs)
  | false ↦ some pairs
]

-- `while (!pairs[0]) pairs.shift()`
unfoldable pub shift_blanks : ℕ → List Text → Option (List Text)
shift_blanks zero pairs = none
shift_blanks (suc fuel) pairs = elim (is_falsy (first_text? pairs)) [
  | true ↦ shift_blanks fuel (shift pairs)
  | false ↦ some pairs
]

-- `map[key] = value`: a new key goes after the keys that are there.
unfoldable pub put : Text → Text → List (Text × Text) → List (Text × Text)
put key value [] = (key, value) ∷ []
put key value ((k, v) ∷ m) =
    let rest = put key value m in if text_eq k key then (k, value) ∷ m else (k, v) ∷ rest

-- The number that digits spell, on top of what was read.
abbrev pub number : ℕ → Text → Option ℕ
number n [] = some n
number n (c ∷ s) =
    let rest = number (n * 10 + (c - 48)) s in if leb 48 c && leb c 57 then rest else none

abbrev pub below_limit : Option ℕ → Option ℕ
below_limit none = none
below_limit (some n) = if ltb n 4294967295 then some n else none

-- A key that JavaScript treats as an index: digits without a leading zero, below 2^32 - 1.
abbrev pub index_of : Text → Option ℕ
index_of [] = none
index_of (c ∷ []) = number 0 (c ∷ [])
index_of (c ∷ d ∷ s) = if c == 48 then none else below_limit (number 0 (c ∷ d ∷ s))

abbrev pub in_order : ℕ → Text × Text → List (ℕ × (Text × Text)) → List (ℕ × (Text × Text))
in_order i entry [] = (i, entry) ∷ []
in_order i entry ((j, other) ∷ rest) =
    let later = in_order i entry rest in
    if ltb i j then (i, entry) ∷ (j, other) ∷ rest else (j, other) ∷ later

abbrev pub indexed : List (Text × Text) → List (ℕ × (Text × Text))
indexed [] = []
indexed (entry ∷ m) = elim (index_of entry.0) [
  | some i ↦ in_order i entry (indexed m)
  | none ↦ indexed m
]

abbrev pub named : List (Text × Text) → List (Text × Text)
named [] = []
named (entry ∷ m) = elim (index_of entry.0) [ some i ↦ named m | none ↦ entry ∷ named m ]

-- `Object.entries`: the indices in ascending order, then the other keys in order of insertion.
unfoldable pub own_entries : List (Text × Text) → List (Text × Text)
own_entries m = map (λ p. p.1) (indexed m) ++ named m

pub data Problem : Type 0 where
  not_a_pair empty_key empty_value : Problem

-- One pair of the loop in `fromString`.
unfoldable pub read_pair : List Text → Problem ⊎ (Text × Text)
read_pair (key ∷ value ∷ []) = elim key [
  | [] ↦ inl empty_key
  | c ∷ k ↦ elim value [ [] ↦ inl empty_value | d ∷ v ↦ inr (c ∷ k, d ∷ v) ]
]
read_pair _ = inl not_a_pair

unfoldable pub read_pairs : List Text → List (Text × Text) → Problem ⊎ List (Text × Text)
unfolding split trim_start trim_end read_pair put
read_pairs [] m = inr m
read_pairs (pair ∷ pairs) m = elim (read_pair (map trim (split b':' pair))) [
  | inl problem ↦ inl problem
  | inr (key, value) ↦ read_pairs pairs (put key value m)
]

-- `truncate`: at most `max` characters, where a high surrogate and what follows are one. `n` are
-- left to keep; `max` is not 0 in the source's calls.
unfoldable pub truncate : ℕ → Text → Text
truncate zero s = []
truncate (suc n) [] = []
truncate (suc n) (c ∷ []) = c ∷ []
truncate (suc n) (c ∷ d ∷ s) =
    let pair = c ∷ d ∷ truncate n s in
    let single = c ∷ truncate n (d ∷ s) in if leb 0xd800 c && leb c 0xdbff then pair else single

pub data Warning : Type 0 where
  value_not_text key_too_long value_too_long : Text → Warning
  too_many partially_invalid invalid_string : Warning
  invalid : Problem → Warning

pub record Label : Type 0 where
  pub label_type : Text
  pub label_value : Text

pub record Results : Type 0 where
  pub labels : List Label
  pub warnings : List Warning

-- A value of a map: text, or something else.
pub data Value : Type 0 where
  text : Text → Value
  other : Value

abbrev pub differs : Text → Text → Warning → List Warning
differs s t w = if text_eq s t then [] else w ∷ []

-- The body of the loop of `fromMap`.
unfoldable pub read_entry : Text × Value → List Label × List Warning
unfolding truncate
read_entry (key, other) = ([], value_not_text (truncate 255 key) ∷ [])
read_entry (key, text []) = ([], value_not_text (truncate 255 key) ∷ [])
read_entry (key, text (c ∷ v)) =
    let type' = truncate 255 key in
    let value = truncate 255 (c ∷ v) in
    (
      record { label_type = type'; label_value = value } ∷ [],
      differs type' key (key_too_long type') ++ differs value (c ∷ v) (value_too_long value),
    )

unfoldable pub read_entries : List (Text × Value) → List Label × List Warning
unfolding read_entry
read_entries [] = ([], [])
read_entries (e ∷ es) =
    let (labels, warnings) = read_entry e in
    let (labels', warnings') = read_entries es in (labels ++ labels', warnings ++ warnings')

abbrev pub headed : List Warning → List Warning
headed [] = []
headed (w ∷ ws) = partially_invalid ∷ w ∷ ws

unfoldable pub from_map : List (Text × Value) → Results
unfolding read_entries
from_map m =
    let (labels, warnings) = read_entries m in
    if ltb 64 (length labels)
    then record { labels = take 64 labels; warnings = headed (warnings ++ too_many ∷ []) }
    else record { labels = labels; warnings = headed warnings }

abbrev pub as_value : Text × Text → Text × Value
as_value (key, value) = (key, text value)

unfoldable pub finish : Problem ⊎ List (Text × Text) → Results
unfolding own_entries from_map
finish (inl problem) = record { labels = []; warnings = invalid_string ∷ invalid problem ∷ [] }
finish (inr m) = from_map (map as_value (own_entries m))

abbrev pub pieces : Text → List Text
pieces raw = map trim (split b';' raw)

-- `fromString`, with so many rounds for its two `while` loops.
unfoldable pub from_string : ℕ → Text → Option Results
unfolding split trim_start trim_end pop_blanks shift_blanks read_pairs finish
from_string fuel [] = some (record { labels = []; warnings = [] })
from_string fuel (c ∷ raw) = elim (pop_blanks fuel (pieces (c ∷ raw))) [
  | none ↦ none
  | some pairs ↦ elim (shift_blanks fuel pairs) [
    | none ↦ none
    | some pairs' ↦ some (finish (read_pairs pairs' []))
  ]
]

pub data Setting : Type 0 where
  missing : Setting
  as_text : Text → Setting
  as_map : List (Text × Value) → Setting

-- `parse`, which logs the warnings.
unfoldable pub parse : ℕ → Setting → Option Results
unfolding from_string from_map
parse fuel missing = some (record { labels = []; warnings = [] })
parse fuel (as_text raw) = from_string fuel raw
parse fuel (as_map m) = some (from_map m)
