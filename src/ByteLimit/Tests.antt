-- ===== src/ByteLimit/Tests.antt =====
-- Runs of lib/util/byte-limit.js.
use node_newrelic.ByteLimit.{byte_length, truncate, search, is_valid_length, compare_length}
use node_newrelic.ByteLimit.Fits.{Fitting, truncate-Fitting}
use node_newrelic.Shared.Int.{◌+ℤ◌, ◌-ℤ◌}
use node_newrelic.Shared.Text.{Text}
use node_newrelic.Shared.{◌≡◌, refl, some, [], ◌∷◌, arith}

program : Unit {0}
unfolding byte_length truncate search is_valid_length compare_length ◌+ℤ◌ ◌-ℤ◌
program = tt

-- Three characters of three bytes, and one of four.
abbrev wide : Text
wide = 0x20ac ∷ 0x20ac ∷ 0x20ac ∷ 0xd83d ∷ 0xde00 ∷ []

wide_bytes : byte_length wide ≡ 13
unfolding program
wide_bytes = refl

two_fit : truncate 30 wide 7 ≡ some (0x20ac ∷ 0x20ac ∷ [])
unfolding program
two_fit = refl

truncate-Fitting_example :
    (result : Text) × (truncate 30 wide 7 ≡ some result) × Fitting wide 7 result
truncate-Fitting_example = truncate-Fitting 30 wide 7 (omega arith)
