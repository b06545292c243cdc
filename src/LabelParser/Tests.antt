-- ===== src/LabelParser/Tests.antt =====
-- Runs of lib/util/label-parser.js.
use node_newrelic.LabelParser.{
  from_string, finish, own_entries, pop_blanks, shift_blanks, read_pair, put, read_pairs, pieces,
  from_map, read_entries, read_entry, truncate, Value, text,
}
use node_newrelic.LabelParser.Trimming.{Trimmed, from_string-Trimmed, from_string_hangs}
use node_newrelic.Shared.Text.{is_space, split, trim_start, trim_end, Text, codes}
use node_newrelic.Shared.{◌≡◌, refl, none, some, List, [], ◌∷◌, arith}

abbrev labels : Text
labels = codes ";; a: b ;c:d;"

program : Unit {0}
unfolding finish own_entries pop_blanks shift_blanks read_pairs read_pair put is_space split
    trim_start trim_end from_string from_map read_entries read_entry truncate
program = tt

from_string-Trimmed_example :
    (middle : List Text) × (from_string 9 labels ≡ some (finish (read_pairs middle [])))
    × Trimmed (pieces labels) middle
unfolding program
from_string-Trimmed_example = from_string-Trimmed 9 b';' (codes "; a: b ;c:d;") tt (omega arith)

from_string_hangs_example : from_string 100 (codes " ; ;") ≡ none
unfolding program
from_string_hangs_example = from_string_hangs b' ' (codes "; ;") tt 100

abbrev two_labels : List (Text × Value)
two_labels = (codes "env", text (codes "prod")) ∷ (codes "team", text (codes "a")) ∷ []

-- Labels whose keys are numbers come first, in ascending order.
index_keys :
    from_string 5 (codes "b:x;10:y;9:z")
    ≡ some (record {
      labels =
          record { label_type = codes "9"; label_value = codes "z" }
          ∷ record { label_type = codes "10"; label_value = codes "y" }
          ∷ record { label_type = codes "b"; label_value = codes "x" }
          ∷ [];
      warnings = [];
    })
unfolding program
index_keys = refl
