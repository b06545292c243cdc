-- ===== src/Timer/Laws.antt =====
-- lib/timer.js: the duration that a stopped timer gives.
use node_newrelic.Timer.{
  State, HrStart, Timer, Clock, init, begin_run, since, end_run, touch, soft_end,
  set_duration_in_millis, measured, get_duration_in_millis, has_end,
}
use node_newrelic.Shared.Int.{ℤ, pos, sub_ℕ}
use node_newrelic.Shared.{
  ℕ, ◌≡◌, refl, ap, subst, ◌∙◌, ◌⊎◌, inl, inr, not, true, false, Option, none, some, if◌then◌else◌,
  List, [], ◌∷◌, arith, Bool-cases, Option-cases,
}

-- The methods that change a timer, each with the clocks at its call. The durations that are set
-- are not negative.
pub data Call : Type 0 where
  begins ends touches soft_ends : Call
  sets : ℕ → Option ℕ → Call

unfoldable pub step : Clock → Call → Timer → Timer
unfolding end_run touch soft_end set_duration_in_millis
step c begins t = begin_run c t
step c ends t = end_run c t
step c touches t = touch c t
step c soft_ends t = (soft_end c t).0
step c (sets duration start) t = set_duration_in_millis (pos duration) start c t

unfoldable pub run : List (Clock × Call) → Timer → Timer
run [] t = t
run ((c, call) ∷ calls) t = run calls (step c call t)

-- What the fields say in each state.
abbrev pub IsConsistent : State → Timer → Type 0
IsConsistent State.pending t =
    (t.touched ≡ false) × (t.hr_duration ≡ none) × (t.duration_in_millis ≡ none)
IsConsistent State.running t =
    ((from : ℕ) × (t.hrstart ≡ HrStart.at_ns from))
    × (t.duration_in_millis ≡ none)
    × (has_end t ≡ t.touched)
IsConsistent State.stopped t =
    ((d : ℕ) × (t.duration_in_millis ≡ some (pos d)))
    ⊎ ((t.duration_in_millis ≡ none) × ((d : ℤ) × (t.hr_duration ≡ some d)))

abbrev pub IsValid : Timer → Type 0
IsValid t = IsConsistent t.state t

has_end-some : (t : Timer) → has_end t ≡ true → (d : ℤ) × (t.hr_duration ≡ some d)
unfolding has_end
has_end-some t h = elim (Option-cases t.hr_duration) [
  | inl e ↦ absurd (ground arith)
  | inr found ↦ found
]

-- A timer in a given state, so that the methods can be read off by state.
abbrev in_state : State → Timer → Timer
in_state s t = record t { state = s }

module _ (c : Clock) (t : Timer) where
  begin-IsValid : (s : State) → IsConsistent s t → IsValid (step c begins (in_state s t))
  unfolding step has_end
  begin-IsValid State.pending v = ((c.hrtime, refl), v.2, ground arith)
  begin-IsValid State.running v = v
  begin-IsValid State.stopped v = v

  end-IsValid : (s : State) → IsConsistent s t → IsValid (step c ends (in_state s t))
  unfolding step
  end-IsValid State.pending v = inr (v.2, (sub_ℕ c.end_hrtime c.hrtime, refl))
  end-IsValid State.running v =
      inr (v.1, (sub_ℕ c.end_hrtime v.0.0, ap (λ h. since h c.end_hrtime) v.0.1))
  end-IsValid State.stopped v = v

  touch-IsValid : (s : State) → IsConsistent s t → IsValid (step c touches (in_state s t))
  unfolding step has_end
  touch-IsValid State.pending v = ((c.hrtime, refl), v.2, refl)
  touch-IsValid State.running v = (v.0, v.1, ground (arith, v.0.1))
  touch-IsValid State.stopped v = v

  soft_end-IsValid : (s : State) → IsConsistent s t → IsValid (step c soft_ends (in_state s t))
  unfolding step has_end
  soft_end-IsValid State.pending v = rw v.0 (inr (v.2, (sub_ℕ c.end_hrtime c.hrtime, refl)))
  soft_end-IsValid State.running v = elim (Bool-cases t.touched) [
    | inl touched ↦ rw touched (inr (v.1, has_end-some t (v.2 ∙ touched)))
    | inr untouched ↦
        rw untouched (inr (v.1, (sub_ℕ c.end_hrtime v.0.0, ap (λ h. since h c.end_hrtime) v.0.1)))
  ]
  soft_end-IsValid State.stopped v = v

  set_duration-IsValid :
      (d : ℕ) (start : Option ℕ) (s : State)
      → IsConsistent s t
      → IsValid (step c (sets d start) (in_state s t))
  unfolding step
  set_duration-IsValid d start State.pending v = inl (d, refl)
  set_duration-IsValid d start State.running v = inl (d, refl)
  set_duration-IsValid d start State.stopped v = v

step-IsValid : (c : Clock) (call : Call) (t : Timer) → IsValid t → IsValid (step c call t)
step-IsValid c begins t v = begin-IsValid c t t.state v
step-IsValid c ends t v = end-IsValid c t t.state v
step-IsValid c touches t v = touch-IsValid c t t.state v
step-IsValid c soft_ends t v = soft_end-IsValid c t t.state v
step-IsValid c (sets d start) t v = set_duration-IsValid c t d start t.state v

pub run-IsValid : (calls : List (Clock × Call)) (t : Timer) → IsValid t → IsValid (run calls t)
unfolding run
run-IsValid [] t v = v
run-IsValid ((c, call) ∷ calls) t v = run-IsValid calls (step c call t) (step-IsValid c call t v)

-- What a stopped timer keeps under these calls.
record Keeps (t t' : Timer) : Type 0 where
  state : t'.state ≡ State.stopped
  hr_duration : t'.hr_duration ≡ t.hr_duration
  duration : t'.duration_in_millis ≡ t.duration_in_millis

step-Keeps : (c : Clock) (call : Call) (t u : Timer) → Keeps t u → Keeps t (step c call u)
unfolding step
step-Keeps c begins t u k = ground arith
step-Keeps c ends t u k = ground arith
step-Keeps c touches t u k = ground arith
step-Keeps c soft_ends t u k = ground arith
step-Keeps c (sets d start) t u k = ground arith

run-Keeps : (calls : List (Clock × Call)) (t u : Timer) → Keeps t u → Keeps t (run calls u)
unfolding run
run-Keeps [] t u k = k
run-Keeps ((c, call) ∷ calls) t u k = run-Keeps calls t (step c call u) (step-Keeps c call t u k)

settled_value : (t : Timer) → IsConsistent State.stopped t → ℤ
settled_value t (inl (d, e)) = pos d
settled_value t (inr (e, (d, e'))) = d

settled :
    (t u : Timer) (v : IsConsistent State.stopped t) (now : ℕ)
    → Keeps t u
    → get_duration_in_millis now u ≡ some (settled_value t v)
unfolding get_duration_in_millis settled_value
settled t u (inl (d, e)) now k = ground arith
settled t u (inr (e, (d, e'))) now k = ground arith

-- Of `begin`, `end`, `touch`, `softEnd` and `setDurationInMillis` with durations that are not negative:
-- a timer that any such calls have stopped has one duration for good. It stays stopped, and whichever
-- of them are called on it then, and whenever it is asked, it gives that duration.
pub stopped_duration :
    (calls : List (Clock × Call))
    → (run calls init).state ≡ State.stopped
    → (d : ℤ) × ((later : List (Clock × Call))
        → ((run later (run calls init)).state ≡ State.stopped)
          × ((now : ℕ) → get_duration_in_millis now (run later (run calls init)) ≡ some d))
stopped_duration calls e =
    let t = run calls init in
    let v : IsConsistent State.stopped t =
      subst (λ s. IsConsistent s t) e (run-IsValid calls init (refl, refl, refl)) in
    let keeps : Keeps t t = record { state = e; hr_duration = refl; duration = refl } in
    (
      settled_value t v,
      λ later. (
        (run-Keeps later t t keeps).state,
        λ now. settled t (run later t) v now (run-Keeps later t t keeps),
      ),
    )

-- `softEnd` on a running timer: if the timer was touched it keeps the time of the touch and says
-- that the end did not change, else it ends now and says that it did.
pub soft_end_duration :
    (t : Timer) (from : ℕ) (c : Clock) (now : ℕ)
    → t.state ≡ State.running
    → IsValid t
    → t.hrstart ≡ HrStart.at_ns from
    → (get_duration_in_millis now (soft_end c t).0 ≡ (
        if t.touched then measured t.hr_duration t.hrstart now else some (sub_ℕ c.end_hrtime from)))
      × ((soft_end c t).1 ≡ not t.touched)
      × ((soft_end c t).0.state ≡ State.stopped)
unfolding soft_end get_duration_in_millis
soft_end_duration t from c now e v at =
    let r : IsConsistent State.running t = subst (λ s. IsConsistent s t) e v in ground (arith, r.1)
