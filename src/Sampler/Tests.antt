-- ===== src/Sampler/Tests.antt =====
-- lib/samplers/adaptive-sampler.js: a target of two.
use node_newrelic.Sampler.{Target, create, reset}
use node_newrelic.Sampler.Windows.{decide_all, decide_all-create, first_only, trues, AllBelow}
use node_newrelic.Sampler.Bounded.{IsSpentAtMax, decide_all-reset}
use node_newrelic.Shared.Int.{pos}
use node_newrelic.Shared.{
  ℕ, ◌*◌, ◌≤◌, ◌≡◌, refl, inl, true, false, if◌then◌else◌, List, [], ◌∷◌, leb, arith,
}

-- A power that falls from 1 to 0.
abbrev falling : ℕ → ℕ → ℕ → Target
falling target sampled max = record { top = if leb max sampled then pos 0 else pos 1; bottom = 1 }

falling-IsSpentAtMax : IsSpentAtMax falling
falling-IsSpentAtMax target sampled max some_target some_max reached =
    let e : leb max sampled ≡ true = ground arith in rw e (omega arith, inl refl)

abbrev some_rolls : List ℕ
some_rolls = 5 ∷ 999999 ∷ 0 ∷ 700000 ∷ 999999 ∷ []

abbrev below : AllBelow some_rolls
below = (omega arith, (omega arith, (omega arith, (omega arith, (omega arith, tt)))))

decide_all-create_example :
    (decide_all falling some_rolls (create false 2 60000)).0 ≡ first_only 2 some_rolls
decide_all-create_example = decide_all-create falling 2 60000 some_rolls (omega arith) below

decide_all-reset_example :
    trues (decide_all falling some_rolls (reset (create false 2 60000))).0
    ≤ 2 * (create false 2 60000).sampling_target
unfolding create
decide_all-reset_example =
    decide_all-reset falling some_rolls (create false 2 60000) falling-IsSpentAtMax (omega arith)
      refl below
