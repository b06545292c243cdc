-- ===== src/Timer/Tests.antt =====
-- Runs of lib/timer.js.
use node_newrelic.Timer.{State, Clock, init, get_duration_in_millis}
use node_newrelic.Timer.Laws.{Call, begins, touches, soft_ends, step, run, stopped_duration}
use node_newrelic.Shared.Int.{ℤ, pos}
use node_newrelic.Shared.{ℕ, ◌+◌, ◌≡◌, refl, some, List, [], ◌∷◌}

abbrev clock : ℕ → Clock
clock n = record { date_now = 1000; hrtime = n; end_hrtime = n + 1 }

abbrev calls : List (Clock × Call)
calls = (clock 5, begins) ∷ (clock 9, touches) ∷ (clock 30, soft_ends) ∷ []

-- A soft end keeps the time of the touch.
kept_touch : get_duration_in_millis 70 (run calls init) ≡ some (pos 5)
unfolding get_duration_in_millis run step
kept_touch = refl

stopped_duration_example :
    (d : ℤ) × ((later : List (Clock × Call))
      → ((run later (run calls init)).state ≡ State.stopped)
        × ((now : ℕ) → get_duration_in_millis now (run later (run calls init)) ≡ some d))
unfolding run step
stopped_duration_example = stopped_duration calls calls_stop
  where
    calls_stop : (run calls init).state ≡ State.stopped
    calls_stop = refl
