-- ===== src/ByteLimit/Fits.antt =====
-- lib/util/byte-limit.js: the loop of `truncate` and the text that it gives.
use node_newrelic.ByteLimit.{
  byte_length, is_valid_length, compare_length, half, prefix, goes_on, search, truncate,
}
use node_newrelic.Shared.Int.{ℤ, pos, negsuc, pos_part, sub_ℕ, ◌+ℤ◌, ◌-ℤ◌, ltb_ℤ}
use node_newrelic.Shared.Text.{Text}
use node_newrelic.Shared.{
  ℕ, zero, suc, ◌+◌, ◌*◌, ◌≤◌, ◌<◌, ◌≡◌, refl, ap, ◌∙◌, ◌⊎◌, inl, inr, true, false, some,
  if◌then◌else◌, [], ◌∷◌, leb, length, take, arith, Bool-cases,
}

stop-le : (bytes limit delta : ℕ) → goes_on (sub_ℕ bytes limit) delta ≡ false → bytes ≤ limit
stop-le bytes limit delta h = ground arith

go-cases :
    (bytes limit delta : ℕ)
    → goes_on (sub_ℕ bytes limit) delta ≡ true
    → (limit < bytes) ⊎ ((bytes < limit) × (1 < delta))
go-cases bytes limit delta h = ground arith

half-lt : (n : ℕ) → 1 < n → n + 4 * half n < 4 * n
half-lt n h = omega arith

half-le : (n : ℕ) → half n ≤ n
half-le n = omega arith

half_positive : (n : ℕ) → 1 ≤ n → 1 ≤ half n
half_positive n h = omega arith

down :
    (len : ℤ) (delta : ℕ)
    → 1 ≤ delta
    → 1 ≤ pos_part len
    → pos_part (len -ℤ pos delta) < pos_part len
unfolding ◌-ℤ◌
down (pos l) delta h k = ground arith
down (negsuc l) delta h k = absurd (omega arith)

up : (len : ℤ) (delta : ℕ) → pos_part (len +ℤ pos delta) ≤ pos_part len + delta
unfolding ◌+ℤ◌
up (pos l) delta = ground arith
up (negsuc l) delta = ground arith

above_zero : (bytes limit : ℕ) → limit < bytes → ltb_ℤ (sub_ℕ bytes limit) (pos 0) ≡ false
above_zero bytes limit h = ground arith

below_zero : (bytes limit : ℕ) → bytes < limit → ltb_ℤ (sub_ℕ bytes limit) (pos 0) ≡ true
below_zero bytes limit h = ground arith

no_bytes : (n : ℕ) (val : Text) (limit : ℕ) → limit < byte_length (take n val) → 1 ≤ n
unfolding byte_length
no_bytes zero val limit h = absurd (omega arith)
no_bytes (suc n) val limit h = omega arith

-- The next length of the search, and the measure that each round lowers.
next : (val : Text) (limit : ℕ) (len : ℤ) (delta : ℕ) → ℤ
next val limit len delta =
    if ltb_ℤ (compare_length (prefix len val) limit) (pos 0)
    then len +ℤ pos delta
    else len -ℤ pos delta

abbrev measure : ℤ → ℕ → ℕ
measure len delta = pos_part len + 4 * delta

next-lt :
    (val : Text) (limit : ℕ) (len : ℤ) (delta : ℕ)
    → 1 ≤ delta
    → goes_on (compare_length (prefix len val) limit) delta ≡ true
    → measure (next val limit len delta) (half delta) < measure len delta
unfolding next compare_length
next-lt val limit len delta one on =
    let bytes = byte_length (prefix len val) in
    elim (go-cases bytes limit delta on) [
      | inl over ↦ rw (above_zero bytes limit over) (
          omega (arith, down len delta one (no_bytes (pos_part len) val limit over), half-le delta))
      | inr (under, two) ↦
          rw (below_zero bytes limit under) (omega (arith, up len delta, half-lt delta two))
    ]

-- A result of the search: a prefix of the text that fits.
pub record Fitting (val : Text) (limit : ℕ) (result : Text) : Type 0 where
  pub size : ℕ
  pub prefix_of : result ≡ take size val
  pub fits : byte_length result ≤ limit

stop :
    (len : ℤ) (delta : ℕ) (val : Text) (limit : ℕ)
    → goes_on (compare_length (prefix len val) limit) delta ≡ false
    → byte_length (prefix len val) ≤ limit
unfolding compare_length
stop len delta val limit off = stop-le (byte_length (prefix len val)) limit delta off

search-Fitting :
    (fuel : ℕ) (val : Text) (limit : ℕ) (len : ℤ) (delta : ℕ)
    → 1 ≤ delta
    → measure len delta < fuel
    → (result : Text) × (search fuel val limit
          (compare_length (prefix len val) limit)
          len
          delta
          (prefix len val)
        ≡ some result)
      × Fitting val limit result
unfolding search next
search-Fitting zero val limit len delta one enough = absurd (omega arith)
search-Fitting (suc fuel) val limit len delta one enough =
    let cmp = compare_length (prefix len val) limit in
    elim (Bool-cases (goes_on cmp delta)) [
      | inl on ↦
          let less = next-lt val limit len delta one on in
          let (result, run, fitting) =
            search-Fitting fuel val limit (next val limit len delta) (half delta)
              (half_positive delta one) (omega (arith, less, enough)) in
          (result, rw (search, on) run, fitting)
      | inr off ↦ (
        prefix len val,
        rw (search, off) refl,
        record { size = pos_part len; prefix_of = refl; fits = stop len delta val limit off },
      )
    ]

take-take : (n m : ℕ) (s : Text) → (k : ℕ) × (take n (take m s) ≡ take k s)
take-take zero m s = (0, refl)
take-take (suc n) zero s = (0, refl)
take-take (suc n) (suc m) [] = (0, refl)
take-take (suc n) (suc m) (c ∷ s) = let (k, e) = take-take n m s in (suc k, ap (◌∷◌ c) e)

take_all : (n : ℕ) (s : Text) → length s ≤ n → take n s ≡ s
take_all zero [] h = refl
take_all zero (c ∷ s) h = absurd (omega arith)
take_all (suc n) [] h = refl
take_all (suc n) (c ∷ s) h = ap (◌∷◌ c) (take_all n s (omega (arith, h)))

length-take : (n : ℕ) (s : Text) → length (take n s) ≤ n
length-take zero s = omega arith
length-take (suc n) [] = omega arith
length-take (suc n) (c ∷ s) = omega (arith, length-take n s)

length-byte_length : (s : Text) → length s ≤ byte_length s
unfolding byte_length
length-byte_length [] = omega arith
length-byte_length (c ∷ []) = ground arith
length-byte_length (c ∷ d ∷ s) = ground (arith, length-byte_length s, length-byte_length (d ∷ s))

over_goes_on : (bytes limit delta : ℕ) → limit < bytes → goes_on (sub_ℕ bytes limit) delta ≡ true
over_goes_on bytes limit delta h = ground arith

-- The search from the whole of a text that does not fit.
search_all :
    (fuel : ℕ) (s : Text) (limit : ℕ)
    → limit < byte_length s
    → measure (pos (length s)) (half (length s)) < fuel
    → (result : Text) × (search fuel s limit
          (compare_length s limit)
          (pos (length s))
          (half (length s))
          []
        ≡ some result)
      × Fitting s limit result
unfolding search next compare_length
search_all zero s limit over enough = absurd (omega arith)
search_all (suc fuel) s limit over enough =
    let n = length s in
    let whole : take n s ≡ s = take_all n s (omega arith) in
    let some_text : 1 ≤ n = no_bytes n s limit (rw whole over) in
    let on = over_goes_on (byte_length s) limit (half n) over in
    let less = next-lt s limit (pos n) (half n) (half_positive n some_text) (rw whole on) in
    let (result, run, fitting) =
      search-Fitting fuel s limit (next s limit (pos n) (half n)) (half (half n))
        (half_positive (half n) (half_positive n some_text)) (omega (arith, less, enough)) in
    (result, rw (search, on) (rw whole at run), fitting)

-- With more than three rounds for each byte of the limit, and two, `truncate` gives a result, which
-- is a prefix of the text and fits.
pub truncate-Fitting :
    (fuel : ℕ) (val : Text) (limit : ℕ)
    → 3 * limit + 2 < fuel
    → (result : Text) × (truncate fuel val limit ≡ some result) × Fitting val limit result
unfolding truncate is_valid_length
truncate-Fitting fuel val limit enough =
    let short = take limit val in
    let few = length-take limit val in
    elim (Bool-cases (leb (byte_length short) limit)) [
      | inl valid ↦ (
        short,
        rw (truncate, is_valid_length, valid) refl,
        record { size = limit; prefix_of = refl; fits = ground arith },
      )
      | inr over ↦
          let (result, run, f) =
            search_all fuel short limit (ground arith) (omega (arith, few, enough)) in
          let (k, e) = take-take f.size limit val in
          (
            result,
            rw (truncate, is_valid_length, over) run,
            record { size = k; prefix_of = f.prefix_of ∙ e; fits = f.fits },
          )
    ]

-- A text that fits is given back as it is, in any number of rounds.
pub truncate_same :
    (fuel : ℕ) (val : Text) (limit : ℕ)
    → byte_length val ≤ limit
    → truncate fuel val limit ≡ some val
unfolding truncate is_valid_length
truncate_same fuel val limit fits =
    let whole : take limit val ≡ val = take_all limit val (omega (arith, length-byte_length val)) in
    let valid : leb (byte_length val) limit ≡ true = ground arith in
    rw (truncate, is_valid_length, whole, valid) refl
