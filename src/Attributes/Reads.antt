-- ===== src/Attributes/Reads.antt =====
-- lib/attributes/index.js: what `get` returns.
use node_newrelic.Attributes.{
  Destinations, Value, text, number, flag, unsupported, Attribute, Attributes, cut, read, read_each,
  get,
}
use node_newrelic.ByteLimit.{byte_length}
use node_newrelic.ByteLimit.Fits.{Fitting, truncate-Fitting}
use node_newrelic.Shared.Dict.{Dict}
use node_newrelic.Shared.Text.{Text}
use node_newrelic.Shared.{
  ℕ, String, ◌+◌, ◌*◌, ◌≤◌, ◌≡◌, refl, ap, inl, inr, Bool, true, false, Option, none, some,
  if◌then◌else◌, List, [], ◌∷◌, arith, Bool-cases,
}

cut-Fitting : (limit : ℕ) (s : Text) → Fitting s limit (cut limit s)
cut-Fitting limit s =
    let (result, run, fitting) = truncate-Fitting (3 * limit + 3) s limit (omega arith) in
    rw run fitting

-- A memo is the cut of the text that the attribute holds.
abbrev pub IsMemoOf : ℕ → Value → Option Text → Type 0
IsMemoOf limit (text s) none = Unit
IsMemoOf limit (text s) (some t) = t ≡ cut limit s
IsMemoOf limit (number n) memo = Unit
IsMemoOf limit (flag b) memo = Unit
IsMemoOf limit unsupported memo = Unit

-- The value of an attribute, without a memo.
abbrev pub shown : ℕ → Bool → Value → Value
shown limit exempt (text s) = if exempt then text s else text (cut limit s)
shown limit exempt (number n) = number n
shown limit exempt (flag b) = flag b
shown limit exempt unsupported = unsupported

-- A value that is no text, is exempt, or fits.
abbrev pub IsFitting : ℕ → Bool → Value → Type 0
IsFitting limit true value = Unit
IsFitting limit false (text s) = byte_length s ≤ limit
IsFitting limit false value = Unit

pub shown-IsFitting :
    (limit : ℕ) (exempt : Bool) (value : Value) → IsFitting limit exempt (shown limit exempt value)
shown-IsFitting limit true value = tt
shown-IsFitting limit false (text s) = (cut-Fitting limit s).fits
shown-IsFitting limit false (number n) = tt
shown-IsFitting limit false (flag b) = tt
shown-IsFitting limit false unsupported = tt

module _ {D : Type 0} (dests : Destinations D) where
  abbrev pub AllMemos : ℕ → Dict (Attribute D) → Type 0
  AllMemos limit [] = Unit
  AllMemos limit ((key, attr) ∷ attributes) =
      IsMemoOf limit attr.value attr.truncated × AllMemos limit attributes

  abbrev pub shown_all : ℕ → D → Dict (Attribute D) → List (String × Value)
  shown_all limit dest [] = []
  shown_all limit dest ((key, attr) ∷ attributes) =
      let rest = shown_all limit dest attributes in
      if dests.overlaps attr.destinations dest
      then (key, shown limit attr.truncate_exempt attr.value) ∷ rest
      else rest

  abbrev attribute : Value → D → Bool → Option Text → Attribute D
  attribute value d exempt memo = record {
    value = value;
    destinations = d;
    truncate_exempt = exempt;
    truncated = memo;
  }

  read-shown :
      (limit : ℕ) (value : Value) (d : D) (exempt : Bool) (memo : Option Text)
      → IsMemoOf limit value memo
      → (memo' : Option Text) × (read dests limit (attribute value d exempt memo)
          ≡ (shown limit exempt value, attribute value d exempt memo'))
        × IsMemoOf limit value memo'
  unfolding read
  read-shown limit (text s) d true memo m = (memo, refl, m)
  read-shown limit (text s) d false none m = (some (cut limit s), refl, refl)
  read-shown limit (text s) d false (some t) m =
      (some t, ap (λ x. (text x, attribute (text s) d false (some t))) m, m)
  read-shown limit (number n) d exempt memo m = (memo, refl, tt)
  read-shown limit (flag b) d exempt memo m = (memo, refl, tt)
  read-shown limit unsupported d exempt memo m = (memo, refl, tt)

  -- The loop of `get` over attributes with memos: their values without memos, and attributes that
  -- show the same.
  record ReadAll (limit : ℕ) (dest : D) (attributes : Dict (Attribute D)) : Type 0 where
    memos : Dict (Attribute D)
    run : read_each dests limit dest attributes ≡ (shown_all limit dest attributes, memos)
    valid : AllMemos limit memos
    same : (dest' : D) → shown_all limit dest' memos ≡ shown_all limit dest' attributes

  read_each-ReadAll :
      (limit : ℕ) (dest : D) (attributes : Dict (Attribute D))
      → AllMemos limit attributes
      → ReadAll limit dest attributes
  unfolding read_each
  read_each-ReadAll limit dest [] m = record {
    memos = [];
    run = refl;
    valid = tt;
    same = λ dest'. refl;
  }
  read_each-ReadAll limit dest ((key, attr) ∷ attributes) m =
      let rest = read_each-ReadAll limit dest attributes m.1 in
      let (memo', here, valid) =
        read-shown limit attr.value attr.destinations attr.truncate_exempt attr.truncated m.0 in
      elim (Bool-cases (dests.overlaps attr.destinations dest)) [
        | inl wanted ↦ record {
          memos = (key, record attr { truncated = memo' }) ∷ rest.memos;
          run = rw (read_each, rest.run, here, wanted) refl;
          valid = (valid, rest.valid);
          same = λ dest'. rw (rest.same dest') refl;
        }
        | inr other ↦ record {
          memos = (key, attr) ∷ rest.memos;
          run = rw (read_each, rest.run, here, other) refl;
          valid = (m.0, rest.valid);
          same = λ dest'. rw (rest.same dest') refl;
        }
      ]

  -- `get` returns the attributes of a destination with their texts cut to the limit unless exempt, in
  -- order; it leaves attributes of which every `get` returns what it would have returned before.
  pub get-shown_all :
      (dest dest' : D) (a : Attributes D)
      → AllMemos a.attribute_value_limit a.attributes
      → (a' : Attributes D) × (get dests dest a
          ≡ (shown_all a.attribute_value_limit dest a.attributes, a'))
        × AllMemos a'.attribute_value_limit a'.attributes
        × ((get dests dest' a').0 ≡ shown_all a.attribute_value_limit dest' a.attributes)
  unfolding get
  get-shown_all dest dest' a m =
      let limit = a.attribute_value_limit in
      let first = read_each-ReadAll limit dest a.attributes m in
      let second = read_each-ReadAll limit dest' first.memos first.valid in
      (
        record a { attributes = first.memos },
        rw (get, first.run) refl,
        first.valid,
        rw (get, second.run) (first.same dest'),
      )
