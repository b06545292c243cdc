-- ===== src/Sampler/Bounded.antt =====
-- lib/samplers/adaptive-sampler.js: the number of samples in a window after a reset.
use node_newrelic.Sampler.{
  Target, AdaptiveSampler, adjust_stats, whole_number, reset, increment_sampled, should_sample,
}
use node_newrelic.Shared.{
  ℕ, suc, ◌+◌, ◌*◌, ◌≤◌, ◌<◌, ◌≡◌, refl, sym, ap, ◌⊎◌, inl, inr, Bool, true, false, ◌==◌,
  if◌then◌else◌, List, [], ◌∷◌, leb, arith, Bool-cases, subst, leb→le,
}
use node_newrelic.Sampler.Windows.{
  AllBelow, IsClosed, IsSpent, trues, first_only, complement-IsClosed, decide_all,
  closed-decide_all, target_left, late, nothing_left,
}

module _ (power : (target sampled max : ℕ) → Target) where
  -- What a window keeps: below twice the target, or no more is sampled.
  abbrev InWindow : AdaptiveSampler → Type 0
  InWindow s =
      (s.sampled < s.max_samples) ⊎ ((s.sampled ≡ s.max_samples) × IsClosed s.sampling_threshold)

  -- The difference of the powers is not above 0 once the maximum is reached.
  abbrev pub IsSpentAtMax : Type 0
  IsSpentAtMax =
      (target sampled max : ℕ)
      → 0 < target
      → 0 < max
      → max ≤ sampled
      → IsSpent (power target sampled max)

  counts-increment_sampled :
      (s : AdaptiveSampler)
      → ((increment_sampled power s).sampled ≡ s.sampled + 1)
        × ((increment_sampled power s).max_samples ≡ s.max_samples)
        × ((increment_sampled power s).sampling_target ≡ s.sampling_target)
  unfolding increment_sampled adjust_stats
  counts-increment_sampled s = ground arith

  target_left-IsSpent :
      (s : AdaptiveSampler)
      → IsSpentAtMax
      → 0 < s.sampling_target
      → 0 < s.max_samples
      → s.max_samples ≤ s.sampled + 1
      → IsSpent (target_left power s)
  unfolding target_left
  target_left-IsSpent s spent some_target some_max reached =
      elim (Bool-cases (s.reset_count == 0)) [
        | inl first ↦ nothing_left power s (ground arith)
        | inr later ↦
            subst IsSpent
              (sym (
                ap
                  (λ b.
                    if b
                    then whole_number 0
                    else power s.sampling_target (s.sampled + 1) s.max_samples)
                  later))
              (spent s.sampling_target (s.sampled + 1) s.max_samples some_target some_max reached)
      ]

  increment_sampled-InWindow :
      (s : AdaptiveSampler)
      → IsSpentAtMax
      → 0 < s.sampling_target
      → s.sampling_target ≤ s.max_samples
      → s.sampled < s.max_samples
      → 0 < s.seen
      → InWindow (increment_sampled power s)
  increment_sampled-InWindow s spent some_target le more some_seen =
      let (sampled, max, target) = counts-increment_sampled s in
      elim (Bool-cases (leb s.max_samples (s.sampled + 1))) [
        | inl reached ↦
            let full : s.max_samples ≤ s.sampled + 1 =
              leb→le s.max_samples (s.sampled + 1) reached in
            inr (
              omega (arith, sampled, max),
              subst (λ t. IsClosed t.sampling_threshold)
                  (sym (late power s (omega arith) some_seen))
                  (complement-IsClosed (target_left power s) s.seen
                    (target_left-IsSpent s spent some_target (omega arith) full) some_seen),
            )
        | inr below ↦ inl (ground (arith, sampled, max))
      ]

  after_reset :
      (s : AdaptiveSampler)
      → ((reset s).sampled ≡ 0)
        × ((reset s).max_samples ≡ s.max_samples)
        × ((reset s).sampling_target ≡ s.sampling_target)
  unfolding reset adjust_stats
  after_reset s = ground arith

  trues-first_only : (rolls : List ℕ) → trues (first_only 0 rolls) ≡ 0
  trues-first_only [] = refl
  trues-first_only (roll ∷ rolls) = trues-first_only rolls

  window :
      (rolls : List ℕ) (s : AdaptiveSampler)
      → IsSpentAtMax
      → 0 < s.sampling_target
      → s.sampling_target ≤ s.max_samples
      → AllBelow rolls
      → InWindow s
      → trues (decide_all power rolls s).0 + s.sampled ≤ s.max_samples
  unfolding decide_all should_sample
  window [] s spent some_target le below (inl more) = omega arith
  window [] s spent some_target le below (inr (full, closed)) = omega arith
  window (roll ∷ rolls) s spent some_target le below (inr (full, closed)) = omega (
    arith,
    ap trues (closed-decide_all power (roll ∷ rolls) s below closed).0,
    trues-first_only rolls,
  )
  window (roll ∷ rolls) s spent some_target le below (inl more) =
      let counted : AdaptiveSampler = record s { seen = s.seen + 1 } in
      let chosen : Bool → AdaptiveSampler × Bool =
        λ b. if b then (increment_sampled power counted, true) else (counted, false) in
      let first : AdaptiveSampler × Bool → ℕ = λ r. trues (r.1 ∷ (decide_all power rolls r.0).0) in
      elim (Bool-cases
        (leb (s.sampling_threshold.top * 1000000) (roll * s.sampling_threshold.bottom))) [
          | inl taken ↦
              let (sampled, max, target) = counts-increment_sampled counted in
              let next = increment_sampled power counted in
              let rest =
                window rolls next spent (omega (arith, target)) (omega (arith, max, target)) below.1
                  (increment_sampled-InWindow counted spent some_target le more (omega arith)) in
              let made : first (should_sample power roll s)
                  ≡ suc (trues (decide_all power rolls next).0) =
                ap (λ b. first (chosen b)) taken in
              omega (arith, made, rest, sampled, max)
          | inr not_taken ↦
              let rest = window rolls counted spent some_target le below.1 (inl more) in
              let made : first (should_sample power roll s)
                  ≡ trues (decide_all power rolls counted).0 =
                ap (λ b. first (chosen b)) not_taken in
              omega (arith, made, rest)
        ]

  -- In every window that a reset starts, at most twice the target of transactions are sampled,
  -- whatever the rolls below 1 are, while the target, which is not 0, is not changed, and the maximum is
  -- twice the target; the difference of the powers is not above 0 once the maximum is reached.
  pub decide_all-reset :
      (rolls : List ℕ) (s : AdaptiveSampler)
      → IsSpentAtMax
      → 0 < s.sampling_target
      → s.max_samples ≡ 2 * s.sampling_target
      → AllBelow rolls
      → trues (decide_all power rolls (reset s)).0 ≤ 2 * s.sampling_target
  decide_all-reset rolls s spent some_target twice below =
      let (sampled, max, target) = after_reset s in
      omega (
        arith,
        sampled,
        max,
        window rolls (reset s) spent (omega (arith, target)) (omega (arith, max, target)) below
            (inl (omega (arith, sampled, max))),
      )
