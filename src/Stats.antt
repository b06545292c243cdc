-- ===== src/Stats.antt =====
-- lib/stats/index.js: the running summary of a metric. Values are integers that count a fixed
-- fraction of the unit in which the summary is kept.
use node_newrelic.Shared.{
  ◌≡◌, Bool, true, false, ◌||◌, Option, none, some, if◌then◌else◌, List, [], ◌∷◌,
}
use node_newrelic.Shared.Int.{ℤ, pos, ◌+ℤ◌, ◌*ℤ◌, ltb_ℤ}
pub mod Laws
pub mod Apdex
mod Tests

pub record Stats : Type 0 where
  pub total : ℤ
  pub total_exclusive : ℤ
  pub min : ℤ
  pub max : ℤ
  pub sum_of_squares : ℤ
  pub call_count : ℤ

abbrev pub init : Stats
init = record {
  total = pos 0;
  total_exclusive = pos 0;
  min = pos 0;
  max = pos 0;
  sum_of_squares = pos 0;
  call_count = pos 0;
}

-- `Math.min` and `Math.max`
abbrev pub math_min : ℤ → ℤ → ℤ
math_min a b = if ltb_ℤ b a then b else a

abbrev pub math_max : ℤ → ℤ → ℤ
math_max a b = if ltb_ℤ a b then b else a

abbrev pub or_else : Option ℤ → ℤ → ℤ
or_else none d = d
or_else (some x) d = x

-- A missing total counts as 0, a missing exclusive time as the total.
unfoldable pub record_value : Option ℤ → Option ℤ → Stats → Stats
record_value total_time exclusive_time s =
    let total = or_else total_time (pos 0) in
    let exclusive = or_else exclusive_time total in
    record {
      total = s.total +ℤ total;
      total_exclusive = s.total_exclusive +ℤ exclusive;
      min = if ltb_ℤ (pos 0) s.call_count then math_min total s.min else total;
      max = math_max total s.max;
      sum_of_squares = s.sum_of_squares +ℤ total *ℤ total;
      call_count = s.call_count +ℤ pos 1;
    }

-- The scaling of a value to the unit of its summary: `* FROM_MILLIS` and `/ BYTES_PER_MB`.
pub record Units : Type 0 where
  pub from_millis : ℤ → ℤ
  pub to_megabytes : ℤ → ℤ

-- A negative or missing exclusive time is dropped. A null, which is at least 0, counts as a 0 here.
pub non_negative : Option ℤ → Option ℤ
non_negative none = none
non_negative (some x) = if ltb_ℤ x (pos 0) then none else some x

abbrev pub scale : (ℤ → ℤ) → Option ℤ → Option ℤ
scale f none = none
scale f (some x) = some (f x)

unfoldable pub record_value_in_millis : Units → ℤ → Option ℤ → Stats → Stats
unfolding non_negative record_value
record_value_in_millis u total_time exclusive_time =
    record_value (some (u.from_millis total_time))
      (scale u.from_millis (non_negative exclusive_time))

unfoldable pub record_value_in_bytes : Units → ℤ → Option ℤ → Bool → Stats → Stats
unfolding record_value
record_value_in_bytes u bytes exclusive_bytes exact =
    let exclusive = or_else exclusive_bytes bytes in
    if exact
    then record_value (some bytes) (some exclusive)
    else record_value (some (u.to_megabytes bytes)) (some (u.to_megabytes exclusive))

unfoldable pub increment_call_count : Option ℤ → Stats → Stats
increment_call_count count s = record s { call_count = s.call_count +ℤ or_else count (pos 1) }

-- The two ways in which `merge`'s argument counts its calls: by `callCount`, and then maybe by
-- `count` too, or by a `count` other than 0 alone (a literal with neither would make a NaN).
pub data Count : Type 0 where
  calls : ℤ → Option ℤ → Count
  count_only : ℤ → Count

-- What `merge` accepts: a summary, or a literal that may lack the exclusive total.
pub record Summary : Type 0 where
  pub total : ℤ
  pub total_exclusive : Option ℤ
  pub min : ℤ
  pub max : ℤ
  pub sum_of_squares : ℤ
  pub call_count : Count

-- `count && !callCount`: a count takes the place of a call count that is missing or 0.
pub merged_count : Count → ℤ
merged_count (count_only count) = count
merged_count (calls call_count none) = call_count
merged_count (calls call_count (some count)) =
    if ltb_ℤ call_count (pos 0) || ltb_ℤ (pos 0) call_count then call_count else count

-- The fields that `merge` fills in on its argument.
pub complete : Summary → Stats
unfolding merged_count
complete other = record {
  total = other.total;
  total_exclusive = or_else other.total_exclusive other.total;
  min = other.min;
  max = other.max;
  sum_of_squares = other.sum_of_squares;
  call_count = merged_count other.call_count;
}

unfoldable pub merge : Stats → Stats → Stats
merge other s = record {
  total = s.total +ℤ other.total;
  total_exclusive = s.total_exclusive +ℤ other.total_exclusive;
  min =
      if ltb_ℤ (pos 0) other.call_count
      then if ltb_ℤ (pos 0) s.call_count then math_min s.min other.min else other.min
      else s.min;
  max = math_max s.max other.max;
  sum_of_squares = s.sum_of_squares +ℤ other.sum_of_squares;
  call_count = s.call_count +ℤ other.call_count;
}

unfoldable pub merge_summary : Summary → Stats → Stats
unfolding complete merge
merge_summary other s = merge (complete other) s

pub to_json : Stats → List ℤ
to_json s = s.call_count ∷ s.total ∷ s.total_exclusive ∷ s.min ∷ s.max ∷ s.sum_of_squares ∷ []
