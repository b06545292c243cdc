-- ===== src/Sampler.antt =====
-- lib/samplers/adaptive-sampler.js and lib/samplers/sampler.js: which transactions are sampled, so that
-- a window has about the target number of them. Rolls are millionths; quotients are exact fractions.
use node_newrelic.Shared.Int.{ℤ, pos, negsuc}
use node_newrelic.Shared.{
  ℕ, zero, suc, ◌+◌, ◌-◌, ◌*◌, Bool, true, false, not, ◌||◌, ◌==◌, Option, none, some,
  if◌then◌else◌, List, [], ◌∷◌, leb, min,
}
pub mod Windows
pub mod Bounded
mod Tests

-- A target number, which may be below 0, as a fraction.
pub record Target : Type 0 where
  pub top : ℤ
  pub bottom : ℕ

pub record Threshold : Type 0 where
  pub top : ℕ
  pub bottom : ℕ

-- `interval` is the period of the timer that calls `_reset`, if it runs.
pub record AdaptiveSampler : Type 0 where
  pub serverless : Bool
  pub seen : ℕ
  pub sampled : ℕ
  pub sampling_period : ℕ
  pub sampling_target : ℕ
  pub max_samples : ℕ
  pub sampling_threshold : Threshold
  pub reset_count : ℕ
  pub interval : Option ℕ
  pub window_start : Option ℕ

-- 1 - min(target / seen, 1)
abbrev pub complement : Target → (seen : ℕ) → Threshold
complement target seen = elim target.top [
  | pos top ↦ record {
    top = target.bottom * seen - min top (target.bottom * seen);
    bottom = target.bottom * seen;
  }
  | negsuc below ↦ record { top = target.bottom * seen + suc below; bottom = target.bottom * seen }
]

unfoldable pub adjust_stats : Target → AdaptiveSampler → AdaptiveSampler
adjust_stats target s =
    if s.seen == 0 then s else record s { sampling_threshold = complement target s.seen }

abbrev pub whole_number : ℕ → Target
whole_number n = record { top = pos n; bottom = 1 }

unfoldable pub set_sampling_period : (period : ℕ) → AdaptiveSampler → AdaptiveSampler
set_sampling_period period s =
    let own = record s { sampling_period = period } in
    if s.serverless
    then own
    else record own { interval = if period == 0 then none else some period }

unfoldable pub create : (serverless : Bool) (target period : ℕ) → AdaptiveSampler
unfolding set_sampling_period
create serverless target period = set_sampling_period period (record {
  serverless = serverless;
  seen = 0;
  sampled = 0;
  sampling_period = 0;
  sampling_target = target;
  max_samples = 2 * target;
  sampling_threshold = record { top = 0; bottom = 1 };
  reset_count = 0;
  interval = none;
  window_start = none;
})

unfoldable pub set_sampling_target : (target : ℕ) → AdaptiveSampler → AdaptiveSampler
unfolding adjust_stats
set_sampling_target target s =
    adjust_stats (whole_number target)
      (record s { sampling_target = target; max_samples = 2 * target })

unfoldable pub reset : AdaptiveSampler → AdaptiveSampler
unfolding adjust_stats
reset s =
    let adjusted =
      adjust_stats (whole_number s.sampling_target)
        (record s { reset_count = s.reset_count + 1 }) in
    record adjusted { seen = 0; sampled = 0 }

-- A start of 0 counts as none.
abbrev pub is_over : Option ℕ → (timestamp period : ℕ) → Bool
is_over none timestamp period = true
is_over (some start) timestamp period = (start == 0) || leb period (timestamp - start)

unfoldable pub maybe_update_window : (timestamp : ℕ) → AdaptiveSampler → AdaptiveSampler
unfolding reset
maybe_update_window timestamp s =
    if is_over s.window_start timestamp s.sampling_period
    then reset (record s { window_start = some timestamp })
    else s

-- `power` is target ^ (target / sampled) - target ^ (target / max), by floating-point powers.
module _ (power : (target sampled max : ℕ) → Target) where
  unfoldable pub increment_sampled : AdaptiveSampler → AdaptiveSampler
  unfolding adjust_stats
  increment_sampled s =
      let counted = record s { sampled = s.sampled + 1 } in
      let adjusted_target =
        if s.reset_count == 0
        then whole_number 0
        else power s.sampling_target counted.sampled s.max_samples in
      if leb s.sampling_target counted.sampled
      then adjust_stats adjusted_target counted
      else counted

  unfoldable pub should_sample : (roll : ℕ) → AdaptiveSampler → AdaptiveSampler × Bool
  unfolding increment_sampled
  should_sample roll s =
      let counted = record s { seen = s.seen + 1 } in
      let threshold = s.sampling_threshold in
      if leb (threshold.top * 1000000) (roll * threshold.bottom)
      then (increment_sampled counted, true)
      else (counted, false)

-- A transaction's decision; priorities are millionths too.
pub record Decision : Type 0 where
  pub sampled : Option Bool
  pub priority : Option ℕ
  pub is_partial : Bool

-- What the trace state header says.
pub record Intrinsics : Type 0 where
  pub is_sampled : Option Bool
  pub priority : Option ℕ

abbrev pub increment_priority : (priority : ℕ) (is_partial : Bool) → ℕ
increment_priority priority is_partial = priority + (if is_partial then 1000000 else 2000000)

abbrev pub is_missing : Option ℕ → Bool
is_missing none = true
is_missing (some n) = n == 0

abbrev pub is_true : Option Bool → Bool
is_true (some true) = true
is_true other = false

unfoldable pub apply_sampling_decision :
    (power : (target sampled max : ℕ) → Target) (roll : ℕ) (header : Option Intrinsics)
    (is_partial : Bool)
    → AdaptiveSampler
    → AdaptiveSampler × Decision
unfolding should_sample
apply_sampling_decision power roll (some own) is_partial s =
    let fresh = if is_missing own.priority then is_true own.is_sampled else false in
    (
      s,
      record {
        sampled = own.is_sampled;
        priority = if fresh then some (increment_priority roll is_partial) else own.priority;
        is_partial = is_partial;
      },
    )
apply_sampling_decision power roll none is_partial s =
    let (s', taken) = should_sample power roll s in
    (
      s',
      record {
        sampled = some taken;
        priority = some (if taken then increment_priority roll is_partial else roll);
        is_partial = is_partial;
      },
    )
