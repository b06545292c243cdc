-- ===== src/Traceparent.antt =====
-- lib/w3c/traceparent.js: the W3C header that carries the ids of a trace.
use node_newrelic.Shared.Text.{Text, codes, text_eq, trim_start, trim_end, trim, split}
use node_newrelic.Shared.{
  ◌⊎◌, inl, inr, ℕ, zero, suc, ◌+◌, ◌*◌, ◌-◌, ◌%◌, ◌≡◌, Bool, true, false, not, ◌&&◌, ◌||◌, Option,
  none, some, if◌then◌else◌, List, [], ◌∷◌, ◌++◌, ◌==◌, leb, length,
}
pub mod Parts
pub mod RoundTrip
mod Tests

pub record Traceparent : Type 0 where
  pub version : Text
  pub trace_id : Text
  pub parent_id : Text
  pub flags : Text
  pub flag_bits : ℕ

-- What the constructor and `fromHeader` throw.
pub data Error : Type 0 where
  wrong_version wrong_trace_id wrong_parent_id wrong_flags : Text → Error
  wrong_parts : ℕ → Error

abbrev pub dash : ℕ
dash = b'-'

abbrev pub digit_zero : ℕ
digit_zero = b'0'

abbrev pub w3c_version : Text
w3c_version = digit_zero ∷ digit_zero ∷ []

abbrev pub repeat : ℕ → ℕ → Text
repeat c zero = []
repeat c (suc n) = c ∷ repeat c n

-- `[a-f0-9]`
abbrev pub is_hex : ℕ → Bool
is_hex c = (leb 48 c && leb c 57) || (leb 97 c && leb c 102)

abbrev pub all_hex : Text → Bool
all_hex [] = true
all_hex (c ∷ s) = is_hex c && all_hex s

-- `/^[a-f0-9]{n}$/.test(s)`
abbrev pub is_hex_of : ℕ → Text → Bool
is_hex_of n s = all_hex s && (length s == n)

unfoldable pub is_valid_flags : Text → Bool
is_valid_flags flags = is_hex_of 2 flags

unfoldable pub is_valid_parent_id : Text → Bool
is_valid_parent_id id = if text_eq id (repeat digit_zero 16) then false else is_hex_of 16 id

unfoldable pub is_valid_trace_id : Text → Bool
is_valid_trace_id id = if text_eq id (repeat digit_zero 32) then false else is_hex_of 32 id

-- `version.toLowerCase() === 'ff'`
abbrev pub is_ff : Text → Bool
is_ff (c ∷ d ∷ []) = ((c == b'f') || (c == b'F')) && ((d == b'f') || (d == b'F'))
is_ff _ = false

-- `parseInt` of hexadecimal digits.
abbrev pub hex_digit : ℕ → ℕ
hex_digit c = if leb c 57 then c - 48 else c - 87

abbrev pub hex_number : ℕ → Text → ℕ
hex_number n [] = n
hex_number n (c ∷ s) = hex_number (n * 16 + hex_digit c) s

unfoldable pub create : (version trace_id parent_id flags : Text) → Error ⊎ Traceparent
unfolding is_valid_trace_id is_valid_parent_id is_valid_flags
create version trace_id parent_id flags =
    if not (text_eq version w3c_version) || is_ff version
    then inl (wrong_version version)
    else if not (is_valid_trace_id trace_id)
    then inl (wrong_trace_id trace_id)
    else if not (is_valid_parent_id parent_id)
    then inl (wrong_parent_id parent_id)
    else if not (is_valid_flags flags)
    then inl (wrong_flags flags)
    else inr (record {
      version = version;
      trace_id = trace_id;
      parent_id = parent_id;
      flags = flags;
      flag_bits = hex_number 0 flags;
    })

abbrev pub from_parts : List Text → Error ⊎ Traceparent
from_parts (version ∷ trace_id ∷ parent_id ∷ flags ∷ []) = create version trace_id parent_id flags
from_parts parts = inl (wrong_parts (length parts))

unfoldable pub from_header : Text → Error ⊎ Traceparent
unfolding create
from_header header = from_parts (split dash (trim header))

-- `(flagBits & FLAG_SAMPLED) === 1`
unfoldable pub is_sampled : Traceparent → Bool
is_sampled t = t.flag_bits % 2 == 1

unfoldable pub to_string : Traceparent → Text
to_string t = t.version ++ (dash ∷ (t.trace_id ++ (dash ∷ (t.parent_id ++ (dash ∷ t.flags)))))
