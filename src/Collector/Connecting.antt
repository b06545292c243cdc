-- ===== src/Collector/Connecting.antt =====
-- lib/collector/api.js: the attempts to connect.
use node_newrelic.Collector.{
  CollectorResponse, Backoff, backoffs, Answer, done, waits, backoff_at, or_retry, waits_for,
  is_accepted, is_rejected, retry_step, connect_from, connect, success, fatal,
}
use node_newrelic.Shared.{
  ℕ, ◌+◌, ◌-◌, ◌≤◌, ◌≡◌, refl, ap, ◌∙◌, inl, inr, true, false, ◌||◌, some, if◌then◌else◌, List, [],
  ◌∷◌, ◌++◌, ◌==◌, leb, map, min, arith, Bool-cases,
}

-- The seconds that are waited after an attempt.
abbrev pub interval_after : ℕ → ℕ
interval_after n =
    if leb n 2
    then 15
    else if n == 3
    then 30
    else if n == 4
    then 60
    else if n == 5
    then 120
    else 300

waits-interval :
    {P : Type 0} (n : ℕ)
    → 1 ≤ n
    → (b : Backoff) × (waits_for {P = P} (backoff_at backoffs (min n 6 - 1)) ≡ waits b)
      × (b.interval ≡ interval_after n)
waits-interval n one = elim (Bool-cases (n == 1)) [
  | inl e ↦
      let same : n ≡ 1 = ground arith in
      rw same (record { interval = 15; warn = false }, refl, refl)
  | inr not1 ↦ elim (Bool-cases (n == 2)) [
    | inl e ↦
        let same : n ≡ 2 = ground arith in
        rw same (record { interval = 15; warn = false }, refl, refl)
    | inr not2 ↦ elim (Bool-cases (n == 3)) [
      | inl e ↦
          let same : n ≡ 3 = ground arith in
          rw same (record { interval = 30; warn = false }, refl, refl)
      | inr not3 ↦ elim (Bool-cases (n == 4)) [
        | inl e ↦
            let same : n ≡ 4 = ground arith in
            rw same (record { interval = 60; warn = true }, refl, refl)
        | inr not4 ↦ elim (Bool-cases (n == 5)) [
          | inl e ↦
              let same : n ≡ 5 = ground arith in
              rw same (record { interval = 120; warn = false }, refl, refl)
          | inr not5 ↦
              let big : min n 6 - 1 ≡ 5 = ground arith in
              let long : interval_after n ≡ 300 = ground arith in
              rw (big, long) (record { interval = 300; warn = false }, refl, refl)
        ]
      ]
    ]
  ]
]

module _ {P : Type 0} where
  -- An answer after which the agent tries again.
  abbrev pub IsRetried : Answer P → Type 0
  IsRetried answer = (is_accepted answer ≡ false) × (is_rejected answer ≡ false)

  abbrev pub AllRetried : List (Answer P) → Type 0
  AllRetried [] = Unit
  AllRetried (answer ∷ answers) = IsRetried answer × AllRetried answers

  -- The seconds waited after so many attempts, from the n-th on.
  abbrev pub schedule : ℕ → List (Answer P) → List ℕ
  schedule n [] = []
  schedule n (answer ∷ answers) = interval_after n ∷ schedule (n + 1) answers

  abbrev pub verdict : Answer P → CollectorResponse P
  verdict answer =
      let reply = or_retry answer.response in
      if is_accepted answer then success reply.payload else fatal reply.payload

  last_step :
      (n : ℕ) (answer : Answer P)
      → (is_accepted answer || is_rejected answer) ≡ true
      → retry_step n answer ≡ done (verdict answer)
  unfolding retry_step
  last_step n answer ends = elim (Bool-cases (is_accepted answer)) [
    | inl accepted ↦ rw (retry_step, accepted) refl
    | inr refused ↦ elim (Bool-cases (is_rejected answer)) [
      | inl rejected ↦ rw (retry_step, refused, rejected) refl
      | inr not_rejected ↦ absurd (let ends' = rw (refused, not_rejected) at ends in cc)
    ]
  ]

  retried_step :
      (n : ℕ) (answer : Answer P)
      → 1 ≤ n
      → IsRetried answer
      → (b : Backoff) × (retry_step n answer ≡ waits b) × (b.interval ≡ interval_after n)
  unfolding retry_step
  retried_step n answer one r =
      let (b, w, i) = waits-interval {P = P} n one in (b, rw (retry_step, r.0, r.1) w, i)

  connect_from-schedule :
      (n : ℕ) (retried : List (Answer P)) (answer : Answer P) (rest : List (Answer P))
      → 1 ≤ n
      → AllRetried retried
      → (is_accepted answer || is_rejected answer) ≡ true
      → (map (λ b. b.interval) (connect_from n (retried ++ answer ∷ rest)).0 ≡ schedule n retried)
        × ((connect_from n (retried ++ answer ∷ rest)).1 ≡ some (done (verdict answer)))
  unfolding connect_from
  connect_from-schedule n [] answer rest one all ends =
      rw (connect_from, last_step n answer ends) (refl, refl)
  connect_from-schedule n (first ∷ retried) answer rest one all ends =
      let (b, step, interval) = retried_step n first one all.0 in
      let (intervals, ended) =
        connect_from-schedule (n + 1) retried answer rest (omega arith) all.1 ends in
      rw (connect_from, step)
        (
          ap (λ i. i ∷ map (λ b. b.interval) (connect_from (n + 1) (retried ++ answer ∷ rest)).0)
                interval
              ∙ ap (◌∷◌ (interval_after n)) intervals,
          ended,
        )

  -- However many answers fail, `connect` never throws: it waits 15, 15, 30, 60 and 120 seconds, and
  -- then 300 seconds each time, until the first answer that is a success or a rejection, which ends
  -- the attempts with that response.
  pub connect-schedule :
      (retried : List (Answer P)) (answer : Answer P) (rest : List (Answer P))
      → AllRetried retried
      → (is_accepted answer || is_rejected answer) ≡ true
      → (map (λ b. b.interval) (connect (retried ++ answer ∷ rest)).0 ≡ schedule 1 retried)
        × ((connect (retried ++ answer ∷ rest)).1 ≡ some (done (verdict answer)))
  unfolding connect
  connect-schedule retried answer rest all ends =
      connect_from-schedule 1 retried answer rest (omega arith) all ends
