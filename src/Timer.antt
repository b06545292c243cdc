-- ===== src/Timer.antt =====
-- lib/timer.js: the timer of a transaction or segment. The readings of `Date.now` (milliseconds)
-- and `process.hrtime` (nanoseconds) are arguments, durations are counted in nanoseconds, and the time
-- since a reading is negative where the clock is behind it.
use node_newrelic.Shared.Int.{ℤ, pos, sub_ℕ, ◌+ℤ◌, ◌-ℤ◌, ltb_ℤ}
use node_newrelic.Shared.{
  ℕ, ◌+◌, ◌-◌, ◌*◌, ◌≡◌, Bool, true, false, Option, none, some, if◌then◌else◌, List, [], ◌∷◌,
}
pub mod Laws
mod Tests

-- PENDING, RUNNING and STOPPED; the constants are compared as 1 < 2 < 3.
pub data State : Type 0 where
  pending running stopped : State

-- `hrstart`: not set, a reading, or the NaNs that `setDurationInMillis` computes without a start.
pub data HrStart : Type 0 where
  unset : HrStart
  at_ns : ℕ → HrStart
  nan : HrStart

pub record Timer : Type 0 where
  pub state : State
  pub touched : Bool
  pub hr_duration : Option ℤ
  pub hrstart : HrStart
  pub start : Option ℕ
  pub duration_in_millis : Option ℤ

-- The readings of a call: those of `begin`, and the later one of `process.hrtime(hrstart)`.
pub record Clock : Type 0 where
  pub date_now : ℕ
  pub hrtime : ℕ
  pub end_hrtime : ℕ

abbrev pub init : Timer
init = record {
  state = State.pending;
  touched = false;
  hr_duration = none;
  hrstart = HrStart.unset;
  start = none;
  duration_in_millis = none;
}

abbrev pub started : Clock → Timer → Timer
started c t = record t {
  start = some c.date_now;
  hrstart = HrStart.at_ns c.hrtime;
  state = State.running;
}

abbrev pub begin_run : Clock → Timer → Timer
begin_run c t = elim t.state [ State.pending ↦ started c t | State.running ↦ t | State.stopped ↦ t ]

-- `process.hrtime(hrstart)`: the time since a reading. On null or NaNs the call throws: `none`.
abbrev pub since : HrStart → ℕ → Option ℤ
since HrStart.unset now = none
since (HrStart.at_ns from) now = some (sub_ℕ now from)
since HrStart.nan now = none

unfoldable pub end_run : Clock → Timer → Timer
end_run c t = elim t.state [
  | State.stopped ↦ t
  | _ ↦
      let t' = begin_run c t in
      record t' {
        hr_duration = since t'.hrstart c.end_hrtime;
        touched = true;
        state = State.stopped;
      }
]

unfoldable pub touch : Clock → Timer → Timer
touch c t = elim t.state [
  | State.stopped ↦ record t { touched = true }
  | _ ↦
      let t' = begin_run c t in
      record t' { hr_duration = since t'.hrstart c.end_hrtime; touched = true }
]

-- Whether the end time changed is the result.
unfoldable pub soft_end : Clock → Timer → Timer × Bool
soft_end c t = elim t.state [
  | State.stopped ↦ (t, false)
  | _ ↦
      let t' = record (begin_run c t) { state = State.stopped } in
      if t.touched
      then (t', false)
      else (record t' { hr_duration = since t'.hrstart c.end_hrtime; touched = true }, true)
]

unfoldable pub is_running : Timer → Bool
is_running t = elim t.state [ State.running ↦ true | _ ↦ false ]

unfoldable pub is_active : Timer → Bool
is_active t = elim t.state [ State.stopped ↦ false | _ ↦ true ]

unfoldable pub has_end : Timer → Bool
has_end t = elim t.hr_duration [ none ↦ false | some d ↦ true ]

unfoldable pub overwrite_duration_in_millis : ℤ → Timer → Timer
overwrite_duration_in_millis duration t = record t {
  touched = true;
  duration_in_millis = some duration;
  state = State.stopped;
}

-- Milliseconds as nanoseconds.
abbrev pub ns_per_ms : ℕ
ns_per_ms = 1_000_000

abbrev pub hrstart_of : Option ℕ → HrStart
hrstart_of none = HrStart.nan
hrstart_of (some start) = HrStart.at_ns (start * ns_per_ms)

abbrev pub begun_unless : Option ℕ → Clock → Timer → Timer
begun_unless none c t = begin_run c t
begun_unless (some start) c t = t

abbrev pub start_or : Option ℕ → Option ℕ → Option ℕ
start_or none old = old
start_or (some start) old = some start

unfoldable pub set_duration_in_millis : ℤ → Option ℕ → Clock → Timer → Timer
set_duration_in_millis duration start c t = elim t.state [
  | State.stopped ↦ t
  | _ ↦
      let t' = begun_unless start c t in
      record t' {
        state = State.stopped;
        duration_in_millis = some duration;
        hrstart = hrstart_of start;
        start = start_or start t'.start;
      }
]

abbrev pub measured : Option ℤ → HrStart → ℕ → Option ℤ
measured (some d) from now = some d
measured none (HrStart.at_ns from) now = some (sub_ℕ now from)
measured none HrStart.unset now = none
measured none HrStart.nan now = none

-- `none` where `process.hrtime` is called with null or NaNs and throws.
unfoldable pub get_duration_in_millis : ℕ → Timer → Option ℤ
get_duration_in_millis now t = elim t.state [
  | State.pending ↦ some (pos 0)
  | _ ↦ elim t.duration_in_millis [
    | some d ↦ if ltb_ℤ d (pos 0) then measured t.hr_duration t.hrstart now else some d
    | none ↦ measured t.hr_duration t.hrstart now
  ]
]

-- A missing start counts as 0 in a sum.
abbrev pub start_ns : Timer → ℤ
start_ns t = elim t.start [ none ↦ pos 0 | some ms ↦ pos (ms * ns_per_ms) ]

abbrev pub plus_start : Timer → Option ℤ → Option ℤ
plus_start t none = none
plus_start t (some d) = some (start_ns t +ℤ d)

unfoldable pub to_range : ℕ → Timer → ℤ × Option ℤ
unfolding get_duration_in_millis
to_range now t = (start_ns t, plus_start t (get_duration_in_millis now t))

-- NaN readings make the difference a NaN: `none`.
abbrev pub relative : HrStart → HrStart → ℤ → Option ℤ
relative HrStart.unset other by_start = some by_start
relative t HrStart.unset by_start = some by_start
relative (HrStart.at_ns a) (HrStart.at_ns b) by_start = some (sub_ℕ a b)
relative _ _ by_start = none

-- The difference of two starts: by the high resolution readings where both timers have one.
unfoldable pub started_relative_to : Timer → Timer → Option ℤ
started_relative_to t other = relative t.hrstart other.hrstart (start_ns t -ℤ start_ns other)

abbrev pub exceeds : Option ℤ → Option ℤ → Bool
exceeds (some a) (some b) = ltb_ℤ b a
exceeds _ _ = false

unfoldable pub ends_after : ℕ → Timer → Timer → Bool
unfolding get_duration_in_millis
ends_after now t other =
    exceeds (plus_start t (get_duration_in_millis now t))
      (plus_start other (get_duration_in_millis now other))
