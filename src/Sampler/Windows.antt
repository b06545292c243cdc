-- ===== src/Sampler/Windows.antt =====
-- lib/samplers/adaptive-sampler.js: how many transactions a window samples.
use node_newrelic.Sampler.{
  Target, Threshold, AdaptiveSampler, complement, adjust_stats, whole_number, set_sampling_period,
  create, increment_sampled, should_sample,
}
use node_newrelic.Shared.Int.{pos, negsuc}
use node_newrelic.Shared.{
  ℕ, zero, suc, ◌+◌, ◌*◌, ◌≤◌, ◌<◌, ◌≡◌, refl, sym, ap, ◌∙◌, ◌⊎◌, inl, inr, Bool, true, false, ◌==◌,
  if◌then◌else◌, List, [], ◌∷◌, leb, arith, subst,
}

-- The rolls are millionths below 1.
abbrev pub AllBelow : List ℕ → Type 0
AllBelow [] = Unit
AllBelow (roll ∷ rolls) = (roll < 1000000) × AllBelow rolls

-- No roll reaches the threshold.
abbrev pub IsClosed : Threshold → Type 0
IsClosed threshold = (0 < threshold.bottom) × (threshold.bottom ≤ threshold.top)

abbrev pub trues : List Bool → ℕ
trues [] = 0
trues (true ∷ decisions) = suc (trues decisions)
trues (false ∷ decisions) = trues decisions

-- The first so many are sampled, and no other.
abbrev pub first_only : (n : ℕ) → List ℕ → List Bool
first_only n [] = []
first_only zero (roll ∷ rolls) = false ∷ first_only zero rolls
first_only (suc n) (roll ∷ rolls) = true ∷ first_only n rolls

-- No target is left.
abbrev pub IsSpent : Target → Type 0
IsSpent target = (0 < target.bottom) × ((target.top ≡ pos 0) ⊎ ((n : ℕ) × (target.top ≡ negsuc n)))

mul_mono : (a b c : ℕ) → a ≤ c → a * b ≤ c * b
mul_mono a zero c h = omega arith
mul_mono a (suc b) c h = omega (arith, mul_mono a b c h)

mul_strict : (a b c : ℕ) → a < c → 0 < b → a * b < c * b
mul_strict a zero c h p = absurd (omega arith)
mul_strict a (suc b) c h p = omega (arith, mul_mono a b c (omega arith))

mul_pos : (a b : ℕ) → 0 < a → 0 < b → 0 < a * b
mul_pos a b p q = omega (arith, mul_strict 0 b a p q)

pub complement-IsClosed :
    (target : Target) (seen : ℕ) → IsSpent target → 0 < seen → IsClosed (complement target seen)
complement-IsClosed target seen spent some_seen =
    let positive = mul_pos target.bottom seen spent.0 some_seen in
    elim spent.1 [
      | inl nothing ↦ rw (complement, nothing) (positive, omega arith)
      | inr (n, below) ↦ rw (complement, below) (positive, omega arith)
    ]

module _ (power : (target sampled max : ℕ) → Target) where
  unfoldable pub decide_all : List ℕ → AdaptiveSampler → List Bool × AdaptiveSampler
  decide_all [] s = ([], s)
  decide_all (roll ∷ rolls) s =
      let (s', taken) = should_sample power roll s in
      let (decisions, s'') = decide_all rolls s' in (taken ∷ decisions, s'')

  closed-should_sample :
      (roll : ℕ) (s : AdaptiveSampler)
      → roll < 1000000
      → IsClosed s.sampling_threshold
      → should_sample power roll s ≡ (record s { seen = s.seen + 1 }, false)
  unfolding should_sample
  closed-should_sample roll s below closed =
      let threshold = s.sampling_threshold in
      let high : leb (threshold.top * 1000000) (roll * threshold.bottom) ≡ false =
        ground (arith, mul_strict roll threshold.bottom 1000000 below closed.0, closed.1) in
      rw (should_sample, high) refl

  -- Nothing more is sampled behind a closed threshold.
  pub closed-decide_all :
      (rolls : List ℕ) (s : AdaptiveSampler)
      → AllBelow rolls
      → IsClosed s.sampling_threshold
      → ((decide_all rolls s).0 ≡ first_only 0 rolls) × ((decide_all rolls s).1.sampled ≡ s.sampled)
  unfolding decide_all
  closed-decide_all [] s below closed = (refl, refl)
  closed-decide_all (roll ∷ rolls) s below closed =
      let rest = closed-decide_all rolls (record s { seen = s.seen + 1 }) below.1 closed in
      rw (closed-should_sample roll s below.0 closed) (ap (◌∷◌ false) rest.0, rest.1)

  open-should_sample :
      (roll : ℕ) (s : AdaptiveSampler)
      → s.sampling_threshold.top ≡ 0
      → should_sample power roll s
        ≡ (increment_sampled power (record s { seen = s.seen + 1 }), true)
  unfolding should_sample
  open-should_sample roll s at_zero =
      let low : leb (s.sampling_threshold.top * 1000000) (roll * s.sampling_threshold.bottom)
          ≡ true =
        ground arith in
      ap
        (λ b.
          if b
          then (increment_sampled power (record s { seen = s.seen + 1 }), true)
          else (record s { seen = s.seen + 1 }, false))
        low

  unfoldable pub target_left : AdaptiveSampler → Target
  target_left s =
      if s.reset_count == 0
      then whole_number 0
      else power s.sampling_target (s.sampled + 1) s.max_samples

  adjusted :
      (target : Target) (s : AdaptiveSampler)
      → 0 < s.seen
      → adjust_stats target s ≡ record s { sampling_threshold = complement target s.seen }
  unfolding adjust_stats
  adjusted target s some_seen =
      let e : (s.seen == 0) ≡ false = ground arith in
      ap (λ b. if b then s else record s { sampling_threshold = complement target s.seen }) e

  early :
      (s : AdaptiveSampler)
      → s.sampled + 1 < s.sampling_target
      → increment_sampled power s ≡ record s { sampled = s.sampled + 1 }
  unfolding increment_sampled target_left
  early s more =
      let e : leb s.sampling_target (s.sampled + 1) ≡ false = ground arith in
      let counted = record s { sampled = s.sampled + 1 } in
      ap (λ b. if b then adjust_stats (target_left s) counted else counted) e

  pub late :
      (s : AdaptiveSampler)
      → s.sampling_target ≤ s.sampled + 1
      → 0 < s.seen
      → increment_sampled power s ≡ record s {
        sampled = s.sampled + 1;
        sampling_threshold = complement (target_left s) s.seen;
      }
  unfolding increment_sampled target_left
  late s reached some_seen =
      let e : leb s.sampling_target (s.sampled + 1) ≡ true = ground arith in
      let counted = record s { sampled = s.sampled + 1 } in
      ap (λ b. if b then adjust_stats (target_left s) counted else counted) e
      ∙ adjusted (target_left s) counted some_seen

  pub nothing_left : (s : AdaptiveSampler) → s.reset_count ≡ 0 → IsSpent (target_left s)
  unfolding target_left
  nothing_left s first =
      let e : (s.reset_count == 0) ≡ true = ground arith in
      let whole : target_left s ≡ whole_number 0 =
        ap
          (λ b. if b then whole_number 0 else power s.sampling_target (s.sampled + 1) s.max_samples)
          e in
      subst IsSpent (sym whole) (omega arith, inl refl)

  first_window :
      (left : ℕ) (rolls : List ℕ) (s : AdaptiveSampler)
      → left + s.sampled ≡ s.sampling_target
      → 0 < left
      → s.reset_count ≡ 0
      → s.sampling_threshold.top ≡ 0
      → AllBelow rolls
      → (decide_all rolls s).0 ≡ first_only left rolls
  unfolding decide_all
  first_window left [] s e some_left first at_zero below = refl
  first_window zero (roll ∷ rolls) s e some_left first at_zero below = absurd (omega arith)
  first_window (suc zero) (roll ∷ rolls) s e some_left first at_zero below =
      let counted : AdaptiveSampler = record s { seen = s.seen + 1 } in
      let last : AdaptiveSampler = record counted {
        sampled = s.sampled + 1;
        sampling_threshold = complement (target_left counted) (s.seen + 1);
      } in
      let taken : should_sample power roll s ≡ (last, true) =
        open-should_sample roll s at_zero
        ∙ ap (λ t. (t, true)) (late counted (omega arith) (omega arith)) in
      let closed =
        complement-IsClosed (target_left counted) (s.seen + 1) (nothing_left counted first)
          (omega arith) in
      ap (λ r. r.1 ∷ (decide_all rolls r.0).0) taken
      ∙ ap (◌∷◌ true) (closed-decide_all rolls last below.1 closed).0
  first_window (suc (suc left)) (roll ∷ rolls) s e some_left first at_zero below =
      let counted : AdaptiveSampler = record s { seen = s.seen + 1 } in
      let next : AdaptiveSampler = record counted { sampled = s.sampled + 1 } in
      let taken : should_sample power roll s ≡ (next, true) =
        open-should_sample roll s at_zero ∙ ap (λ t. (t, true)) (early counted (omega arith)) in
      ap (λ r. r.1 ∷ (decide_all rolls r.0).0) taken
      ∙ ap (◌∷◌ true)
          (first_window (suc left) rolls next (omega arith) (omega arith) first at_zero below.1)

  -- Without serverless mode, in the window that a new sampler starts with, exactly the first
  -- transactions up to the target, which is not 0, are sampled, whatever the rolls below 1 are.
  pub decide_all-create :
      (target period : ℕ) (rolls : List ℕ)
      → 0 < target
      → AllBelow rolls
      → (decide_all rolls (create false target period)).0 ≡ first_only target rolls
  unfolding create set_sampling_period
  decide_all-create target period rolls some_target below =
      first_window target rolls (create false target period) (omega arith) some_target refl refl
        below
