-- ===== src/ByteLimit.antt =====
-- lib/util/byte-limit.js: the limit on the bytes of a text, which is a list of UTF-16 code units.
use node_newrelic.Shared.Int.{ℤ, pos, pos_part, sub_ℕ, ◌+ℤ◌, ◌-ℤ◌, ltb_ℤ}
use node_newrelic.Shared.Text.{Text}
use node_newrelic.Shared.{
  ℕ, zero, suc, ◌+◌, ◌/◌, ◌≡◌, Bool, true, false, ◌&&◌, ◌||◌, Option, none, some, if◌then◌else◌,
  List, [], ◌∷◌, ltb, leb, length, take,
}
pub mod Fits
mod Tests

abbrev pub is_high : ℕ → Bool
is_high c = leb 0xd800 c && leb c 0xdbff

abbrev pub is_low : ℕ → Bool
is_low c = leb 0xdc00 c && leb c 0xdfff

-- The bytes of one code unit in UTF-8; half a pair alone is written as the replacement character.
abbrev pub unit_bytes : ℕ → ℕ
unit_bytes c = if ltb c 0x80 then 1 else if ltb c 0x800 then 2 else 3

-- `Buffer.byteLength`
unfoldable pub byte_length : Text → ℕ
byte_length [] = 0
byte_length (c ∷ []) = unit_bytes c
byte_length (c ∷ d ∷ s) =
    let pair = 4 + byte_length s in
    let single = unit_bytes c + byte_length (d ∷ s) in
    if is_high c && is_low d then pair else single

unfoldable pub is_valid_length : Text → ℕ → Bool
is_valid_length s limit = leb (byte_length s) limit

unfoldable pub compare_length : Text → ℕ → ℤ
compare_length s limit = sub_ℕ (byte_length s) limit

abbrev pub half : ℕ → ℕ
half n = (n + 1) / 2

-- `val.substring(0, n)`: a negative `n` counts as 0.
abbrev pub prefix : ℤ → Text → Text
prefix n s = take (pos_part n) s

-- `cmpVal && (cmpVal > 0 || delta > 1)`
abbrev pub goes_on : ℤ → ℕ → Bool
goes_on (pos zero) delta = false
goes_on (pos (suc n)) delta = true
goes_on cmp delta = ltb 1 delta

-- The loop of `truncate`; the text is what `substr` holds, and `none` that the rounds ran out.
unfoldable pub search :
    (fuel : ℕ) (val : Text) (limit : ℕ) (cmp len : ℤ) (delta : ℕ) (substr : Text) → Option Text
unfolding compare_length
search zero val limit cmp len delta substr = none
search (suc fuel) val limit cmp len delta substr = elim (goes_on cmp delta) [
  | false ↦ some substr
  | true ↦
      let len' = if ltb_ℤ cmp (pos 0) then len +ℤ pos delta else len -ℤ pos delta in
      search fuel val limit (compare_length (prefix len' val) limit) len' (half delta)
        (prefix len' val)
]

-- `truncate`. The loop runs at least once where it is reached, so the text that it starts from is
-- not seen; the source leaves it undefined.
unfoldable pub truncate : ℕ → Text → ℕ → Option Text
unfolding is_valid_length search
truncate fuel val limit =
    let short = take limit val in
    let searched =
      search fuel short limit (compare_length short limit) (pos (length short))
        (half (length short)) [] in
    if is_valid_length short limit then some short else searched
