-- ===== src/Prioritized/Tests.antt =====
-- Runs of lib/attributes/prioritized.js.
use node_newrelic.Attributes.{Destinations, number}
use node_newrelic.Attributes.{is_valid_type, is_valid_length}
use node_newrelic.Prioritized.Bounded.{IsWithin, add_attribute-IsWithin}
use node_newrelic.Prioritized.Kept.{add_attribute-IsKept}
use node_newrelic.Prioritized.{
  Priority, low, level, Attribute, Attributes, search, find_droppable, get_droppable_attribute_key,
  free, count_in, set, add_checked, add_attribute,
}
use node_newrelic.Shared.Dict.{lookup, keys}
use node_newrelic.Shared.{
  ℕ, String, ◌≡◌, refl, false, some, [], ◌∷◌, ◌==◌, arith, str_eq, if◌then◌else◌,
}

-- Two destinations, 1 and 2; a secret goes nowhere.
abbrev places : Destinations ℕ
places = record {
  filter = λ d key. if str_eq key "secret" then 0 else d;
  is_empty = λ d. d == 0;
  overlaps = λ d e. d == e;
}

program : Unit {0}
unfolding search find_droppable get_droppable_attribute_key free count_in set add_checked
    add_attribute is_valid_type is_valid_length
program = tt

abbrev attribute : ℕ → Priority → Attribute ℕ
attribute n priority = record {
  value = number n;
  destinations = 1;
  truncate_exempt = false;
  priority = priority;
}

abbrev four : Attributes ℕ
four = record {
  limit = some 4;
  attributes =
      ("a", attribute 1 (level 1))
      ∷ ("b", attribute 2 (level 1))
      ∷ ("c", attribute 3 (level 3))
      ∷ ("d", attribute 4 (level 3))
      ∷ [];
  attribute_count = 4;
  last_found_index_cache = [];
}

abbrev add : String → Priority → Attributes ℕ → Attributes ℕ
add key priority a = add_attribute places 1 key (number 9) false priority a

four-IsWithin : IsWithin four
four-IsWithin = record {
  distinct = (refl, (refl, (refl, (refl, tt))));
  counted = refl;
  bounded = λ limit e. ground arith;
}

add_attribute-IsWithin_example : IsWithin (add "e" (level 3) four)
add_attribute-IsWithin_example =
    add_attribute-IsWithin places 1 "e" (number 9) false (level 3) four four-IsWithin

add_attribute-IsKept_example :
    lookup "c" (add "e" (level 3) four).attributes ≡ some (attribute 3 (level 3))
add_attribute-IsKept_example =
    add_attribute-IsKept places 1 "e" (number 9) false (level 3) four "c" (attribute 3 (level 3))
      four-IsWithin.distinct refl refl refl

drops_last_lower : keys (add "e" (level 3) four).attributes ≡ "a" ∷ "c" ∷ "d" ∷ "e" ∷ []
unfolding program
drops_last_lower = refl

ignores_lowest : add "e" low four ≡ four
unfolding program
ignores_lowest = refl

-- The last index of a search hides the attribute of level 2 that came after it.
hidden_by_cache :
    keys (add "g" (level 3) (add "f" (level 2) (add "e" (level 3) four))).attributes
    ≡ "c" ∷ "d" ∷ "e" ∷ "f" ∷ []
unfolding program
hidden_by_cache = refl
