-- ===== src/LabelParser/Maps.antt =====
-- lib/util/label-parser.js: what `fromMap` keeps of a map, and what it says about the rest.
use node_newrelic.LabelParser.{
  truncate, read_entry, read_entries, from_map, Label, Value, text, other, Warning, differs, headed,
  too_many, key_too_long, value_too_long,
}
use node_newrelic.Shared.Text.{Text, text_eq, text_eq-eq}
use node_newrelic.Shared.{
  suc, ◌≤◌, ◌≡◌, refl, arith, ap, ◌∙◌, inl, inr, List, [], ◌∷◌, ◌++◌, map, ltb, length, Bool-cases,
}

abbrev pub entry_of : Label → Text × Value
entry_of label = (label.label_type, text label.label_value)

append_empty {ℓ} : {A : Type ℓ} (xs ys : List A) → xs ++ ys ≡ [] → (xs ≡ []) × (ys ≡ [])
append_empty [] ys e = (refl, e)
append_empty (x ∷ xs) ys e = cc

headed_empty : (ws : List Warning) → headed ws ≡ [] → ws ≡ []
headed_empty [] e = refl
headed_empty (w ∷ ws) e = cc

differs_empty : (s t : Text) (w : Warning) → differs s t w ≡ [] → s ≡ t
differs_empty s t w e = elim (Bool-cases (text_eq s t)) [
  | inl same ↦ text_eq-eq s t same
  | inr different ↦ cc
]

silent_entry :
    (entry : Text × Value)
    → (read_entry entry).1 ≡ []
    → map entry_of (read_entry entry).0 ≡ entry ∷ []
unfolding read_entry
silent_entry (key, other) e = cc
silent_entry (key, text []) e = cc
silent_entry (key, text (c ∷ v)) e =
    let k = truncate 255 key in
    let w = truncate 255 (c ∷ v) in
    let (same_key, same_value) =
      append_empty (differs k key (key_too_long k)) (differs w (c ∷ v) (value_too_long w)) e in
    let key_kept = differs_empty k key (key_too_long k) same_key in
    let value_kept = differs_empty w (c ∷ v) (value_too_long w) same_value in
    ap (λ p. p ∷ []) (ap (λ x. (x, text w)) key_kept ∙ ap (λ x. (key, text x)) value_kept)

map_append : (xs ys : List Label) → map entry_of (xs ++ ys) ≡ map entry_of xs ++ map entry_of ys
map_append [] ys = refl
map_append (x ∷ xs) ys = ap (◌∷◌ (entry_of x)) (map_append xs ys)

silent_entries :
    (m : List (Text × Value)) → (read_entries m).1 ≡ [] → map entry_of (read_entries m).0 ≡ m
unfolding read_entries
silent_entries [] e = refl
silent_entries (entry ∷ m) e =
    let (here, rest) = append_empty (read_entry entry).1 (read_entries m).1 e in
    map_append (read_entry entry).0 (read_entries m).0
    ∙ ap (λ l. l ++ map entry_of (read_entries m).0) (silent_entry entry here)
    ∙ ap (◌∷◌ entry) (silent_entries m rest)

append_one {ℓ} : {A : Type ℓ} (xs : List A) (x : A) → ¬ (xs ++ x ∷ [] ≡ [])
append_one [] x e = cc
append_one (y ∷ xs) x e = cc

length-map_entries : (xs : List Label) → length (map entry_of xs) ≡ length xs
length-map_entries [] = refl
length-map_entries (x ∷ xs) = ap suc (length-map_entries xs)

-- Where `fromMap` gives no warning, the map has at most 64 entries, and the labels are exactly these,
-- in the order of the map, with the keys and the values unchanged.
pub from_map_silent :
    (m : List (Text × Value))
    → (from_map m).warnings ≡ []
    → (map entry_of (from_map m).labels ≡ m) × (length m ≤ 64)
unfolding from_map
from_map_silent m e =
    let labels = (read_entries m).0 in
    let ws = (read_entries m).1 in
    elim (Bool-cases (ltb 64 (length labels))) [
      | inl many ↦
          absurd (append_one ws too_many (headed_empty (ws ++ too_many ∷ []) (rw many at e)))
      | inr few ↦
          let same = silent_entries m (headed_empty ws (rw few at e)) in
          (rw few same, ground (arith, length-map_entries labels, ap length same))
    ]
