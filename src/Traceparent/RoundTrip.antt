-- ===== src/Traceparent/RoundTrip.antt =====
-- lib/w3c/traceparent.js: parsing what was printed and printing what was parsed.
use node_newrelic.Traceparent.{
  Traceparent, dash, digit_zero, w3c_version, is_hex, all_hex, is_hex_of, is_valid_flags,
  is_valid_parent_id, is_valid_trace_id, hex_number, create, from_parts, from_header, to_string,
  is_ff, repeat,
}
use node_newrelic.Traceparent.Parts.{
  join_with, is_free_of, has_no_space, split_piece, split_first, join_with-split, trim_same,
  has_no_space-append,
}
use node_newrelic.Shared.Text.{Text, text_eq, text_eq-eq, trim, split, is_space}
use node_newrelic.Shared.{
  ℕ, ◌≡◌, refl, sym, ap, ◌∙◌, inl, inr, Bool, true, false, not, ◌&&◌, ◌||◌, if◌then◌else◌, List, [],
  ◌∷◌, ◌++◌, ◌==◌, length, arith, Bool-cases, subst,
}

hex_not_dash : (s : Text) → all_hex s ≡ true → is_free_of dash s ≡ true
hex_not_dash [] h = refl
hex_not_dash (c ∷ s) h = ground (arith, hex_not_dash s)

both : (a b : Bool) → (a && b) ≡ true → (a ≡ true) × (b ≡ true)
both true b h = (refl, h)
both false b h = cc

hex_not_space_one : (c : ℕ) → is_hex c ≡ true → is_space c ≡ false
unfolding is_space
hex_not_space_one c h = ground arith

hex_not_space : (s : Text) → all_hex s ≡ true → has_no_space s ≡ true
hex_not_space [] h = refl
hex_not_space (c ∷ s) h =
    let (here, rest) = both (is_hex c) (all_hex s) h in
    rw (hex_not_space_one c here, hex_not_space s rest) refl

-- What the constructor lets through.
pub record IsWellFormed (t : Traceparent) : Type 0 where
  pub version : t.version ≡ w3c_version
  pub trace_hex : all_hex t.trace_id ≡ true
  pub trace_length : length t.trace_id ≡ 32
  pub trace_not_zero : text_eq t.trace_id (repeat digit_zero 32) ≡ false
  pub parent_hex : all_hex t.parent_id ≡ true
  pub parent_length : length t.parent_id ≡ 16
  pub parent_not_zero : text_eq t.parent_id (repeat digit_zero 16) ≡ false
  pub flags_hex : all_hex t.flags ≡ true
  pub flags_length : length t.flags ≡ 2
  pub bits : t.flag_bits ≡ hex_number 0 t.flags

-- What `create` makes of parts that pass its tests.
made_of : (version trace_id parent_id flags : Text) → Traceparent
made_of version trace_id parent_id flags = record {
  version = version;
  trace_id = trace_id;
  parent_id = parent_id;
  flags = flags;
  flag_bits = hex_number 0 flags;
}

version_ok : (v : Text) → (not (text_eq v w3c_version) || is_ff v) ≡ false → v ≡ w3c_version
version_ok v h = elim (Bool-cases (text_eq v w3c_version)) [
  | inl same ↦ text_eq-eq v w3c_version same
  | inr differs ↦ absurd (let h' = rw differs at h in cc)
]

id_ok :
    (n : ℕ) (id zeros : Text)
    → (if text_eq id zeros then false else is_hex_of n id) ≡ true
    → (text_eq id zeros ≡ false) × (is_hex_of n id ≡ true)
id_ok n id zeros h = elim (Bool-cases (text_eq id zeros)) [
  | inl same ↦ absurd (let h' = rw same at h in cc)
  | inr differs ↦ (differs, rw differs at h)
]

hex_of : (n : ℕ) (s : Text) → is_hex_of n s ≡ true → (all_hex s ≡ true) × (length s ≡ n)
hex_of n s h = let (hex, len) = both (all_hex s) (length s == n) h in (hex, ground arith)

made_of-IsWellFormed :
    (version trace_id parent_id flags : Text)
    → (not (text_eq version w3c_version) || is_ff version) ≡ false
    → is_valid_trace_id trace_id ≡ true
    → is_valid_parent_id parent_id ≡ true
    → is_valid_flags flags ≡ true
    → IsWellFormed (made_of version trace_id parent_id flags)
unfolding made_of is_valid_trace_id is_valid_parent_id is_valid_flags
made_of-IsWellFormed version trace_id parent_id flags v t p f =
    let (trace_nonzero, trace) = id_ok 32 trace_id (repeat digit_zero 32) t in
    let (parent_nonzero, parent) = id_ok 16 parent_id (repeat digit_zero 16) p in
    record {
      version = version_ok version v;
      trace_hex = (hex_of 32 trace_id trace).0;
      trace_length = (hex_of 32 trace_id trace).1;
      trace_not_zero = trace_nonzero;
      parent_hex = (hex_of 16 parent_id parent).0;
      parent_length = (hex_of 16 parent_id parent).1;
      parent_not_zero = parent_nonzero;
      flags_hex = (hex_of 2 flags f).0;
      flags_length = (hex_of 2 flags f).1;
      bits = refl;
    }

-- A header that the constructor accepts, and the parts that it was given.
create-made_of :
    (version trace_id parent_id flags : Text) (t : Traceparent)
    → create version trace_id parent_id flags ≡ inr t
    → (made_of version trace_id parent_id flags ≡ t) × IsWellFormed t
unfolding create made_of
create-made_of version trace_id parent_id flags t made =
    elim (Bool-cases (not (text_eq version w3c_version) || is_ff version)) [
      | inl a ↦ absurd (let m = rw a at made in cc)
      | inr a ↦ elim (Bool-cases (is_valid_trace_id trace_id)) [
        | inr b ↦ absurd (let m = rw (a, b) at made in cc)
        | inl b ↦ elim (Bool-cases (is_valid_parent_id parent_id)) [
          | inr c ↦ absurd (let m = rw (a, b, c) at made in cc)
          | inl c ↦ elim (Bool-cases (is_valid_flags flags)) [
            | inr d ↦ absurd (let m = rw (a, b, c, d) at made in cc)
            | inl d ↦
                let m = rw (a, b, c, d) at made in
                let same : made_of version trace_id parent_id flags ≡ t = cc in
                (
                  same,
                  subst IsWellFormed same
                      (made_of-IsWellFormed version trace_id parent_id flags a b c d),
                )
          ]
        ]
      ]
    ]

create-again :
    (t : Traceparent) → IsWellFormed t → create t.version t.trace_id t.parent_id t.flags ≡ inr t
unfolding create is_valid_trace_id is_valid_parent_id is_valid_flags
create-again t w =
    let a : (not (text_eq t.version w3c_version) || is_ff t.version) ≡ false = rw w.version refl in
    let b : is_valid_trace_id t.trace_id ≡ true =
      rw (w.trace_not_zero, w.trace_hex, w.trace_length) refl in
    let c : is_valid_parent_id t.parent_id ≡ true =
      rw (w.parent_not_zero, w.parent_hex, w.parent_length) refl in
    let d : is_valid_flags t.flags ≡ true = rw (w.flags_hex, w.flags_length) refl in
    rw (create, a, b, c, d) (ap (λ n. inr (record t { flag_bits = n })) (sym w.bits))

split-to_string :
    (t : Traceparent)
    → IsWellFormed t
    → split dash (to_string t) ≡ t.version ∷ t.trace_id ∷ t.parent_id ∷ t.flags ∷ []
unfolding to_string
split-to_string t w =
    split_first dash t.version (t.trace_id ++ (dash ∷ (t.parent_id ++ (dash ∷ t.flags))))
      (rw w.version refl)
    ∙ ap (◌∷◌ t.version) (
        split_first dash t.trace_id (t.parent_id ++ (dash ∷ t.flags))
          (hex_not_dash t.trace_id w.trace_hex)
        ∙ ap (◌∷◌ t.trace_id) (
            split_first dash t.parent_id t.flags (hex_not_dash t.parent_id w.parent_hex)
            ∙ ap (◌∷◌ t.parent_id) (split_piece dash t.flags (hex_not_dash t.flags w.flags_hex))))

no_space_dashed :
    (s rest : Text)
    → has_no_space s ≡ true
    → has_no_space rest ≡ true
    → has_no_space (s ++ (dash ∷ rest)) ≡ true
unfolding is_space
no_space_dashed s rest h k = has_no_space-append s (dash ∷ rest) h k

version_no_space : has_no_space w3c_version ≡ true
unfolding is_space
version_no_space = refl

to_string-has_no_space : (t : Traceparent) → IsWellFormed t → has_no_space (to_string t) ≡ true
unfolding to_string
to_string-has_no_space t w = no_space_dashed t.version _ (rw w.version version_no_space) (
    no_space_dashed t.trace_id _ (hex_not_space t.trace_id w.trace_hex) (
      no_space_dashed t.parent_id t.flags (hex_not_space t.parent_id w.parent_hex)
        (hex_not_space t.flags w.flags_hex)))

-- A header that the constructor made parses to itself when it is printed.
pub from_header-to_string :
    (version trace_id parent_id flags : Text) (t : Traceparent)
    → create version trace_id parent_id flags ≡ inr t
    → from_header (to_string t) ≡ inr t
unfolding from_header
from_header-to_string version trace_id parent_id flags t made =
    let w = (create-made_of version trace_id parent_id flags t made).1 in
    rw (from_header, trim_same (to_string t) (to_string-has_no_space t w), split-to_string t w)
      (create-again t w)

abbrev fields : Traceparent → List Text
fields t = t.version ∷ t.trace_id ∷ t.parent_id ∷ t.flags ∷ []

from_parts-fields :
    (parts : List Text) (t : Traceparent)
    → from_parts parts ≡ inr t
    → (parts ≡ fields t) × IsWellFormed t
unfolding made_of
from_parts-fields [] t e = absurd cc
from_parts-fields (a ∷ []) t e = absurd cc
from_parts-fields (a ∷ b ∷ []) t e = absurd cc
from_parts-fields (a ∷ b ∷ c ∷ []) t e = absurd cc
from_parts-fields (a ∷ b ∷ c ∷ d ∷ []) t e =
    let (same, w) = create-made_of a b c d t e in (ap fields same, w)
from_parts-fields (a ∷ b ∷ c ∷ d ∷ f ∷ parts) t e = absurd cc

-- A header that is accepted prints to itself without the blanks around it, and the parts that it
-- carries are those of the standard: version 00, a trace id of 32 and a parent id of 16 hexadecimal
-- digits that are not all 0, and flags of 2.
pub to_string-from_header :
    (header : Text) (t : Traceparent)
    → from_header header ≡ inr t
    → (to_string t ≡ trim header) × IsWellFormed t
unfolding from_header to_string
to_string-from_header header t parsed =
    let (same, w) = from_parts-fields (split dash (trim header)) t parsed in
    (ap (join_with dash) (sym same) ∙ join_with-split dash (trim header), w)
