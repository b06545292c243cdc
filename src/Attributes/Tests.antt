-- ===== src/Attributes/Tests.antt =====
-- Runs of lib/attributes/index.js.
use node_newrelic.Attributes.{
  Destinations, Value, text, number, flag, unsupported, Attributes, new_attributes, has, set, reset,
  add_checked, add_attribute, add_attributes, is_valid_type, is_valid_length, read, read_each, get,
}
use node_newrelic.Attributes.Limits.{
  IsWithin, new_attributes-IsWithin, add_attributes-IsWithin, reset_full,
}
use node_newrelic.Attributes.Reads.{AllMemos, shown_all, get-shown_all}
use node_newrelic.Shared.Text.{codes}
use node_newrelic.Shared.{
  ℕ, String, ◌≡◌, refl, true, false, none, some, List, [], ◌∷◌, ◌==◌, str_eq, if◌then◌else◌,
}

-- Two destinations, 1 and 2; a secret goes nowhere.
abbrev places : Destinations ℕ
places = record {
  filter = λ d key. if str_eq key "secret" then 0 else d;
  is_empty = λ d. d == 0;
  overlaps = λ d e. d == e;
}

abbrev attrs : List (String × Value)
attrs =
    ("a", text (codes "abcdef"))
    ∷ ("secret", flag true)
    ∷ ("b", unsupported)
    ∷ ("c", number 3)
    ∷ ("d", number 4)
    ∷ []

abbrev empty_two : Attributes ℕ
empty_two = new_attributes places (some 2) 4

program : Unit {0}
unfolding new_attributes has set reset add_checked add_attribute add_attributes is_valid_type
    is_valid_length get read read_each
program = tt

add_attributes-IsWithin_example : IsWithin (add_attributes places 1 attrs empty_two)
add_attributes-IsWithin_example =
    add_attributes-IsWithin places 1 attrs empty_two (new_attributes-IsWithin places (some 2) 4)

abbrev full : Attributes ℕ
full = record empty_two { attribute_count = 2 }

reset_full_example : add_attributes places 1 attrs (reset places full) ≡ reset places full
unfolding program
reset_full_example = reset_full places 1 attrs full refl

abbrev stored : Attributes ℕ
stored = record {
  limit = none;
  attributes =
      (
        "a",
        record {
          value = text (codes "abcdef");
          destinations = 1;
          truncate_exempt = false;
          truncated = none;
        },
      )
      ∷ [];
  attribute_count = 1;
  attribute_value_limit = 4;
}

get-shown_all_example :
    (a' : Attributes ℕ) × (get places 1 stored ≡ (shown_all places 4 1 stored.attributes, a'))
    × AllMemos places a'.attribute_value_limit a'.attributes
    × ((get places 2 a').0 ≡ shown_all places 4 2 stored.attributes)
get-shown_all_example = get-shown_all places 1 2 stored (tt, tt)
