-- ===== src/Stats/Apdex.antt =====
-- lib/stats/apdex.js: how many requests were satisfying, tolerating or frustrating against the
-- threshold apdexT.
use node_newrelic.Shared.Int.{ℤ, pos, ◌*ℤ◌, ltb_ℤ}
use node_newrelic.Stats.{Units}
use node_newrelic.Shared.{
  ℕ, suc, ◌+◌, ◌≡◌, refl, ap, ◌∙◌, sym, ◌||◌, Option, none, some, if◌then◌else◌, List, [], ◌∷◌,
  arith, length,
}

pub record ApdexStats : Type 0 where
  pub apdex_t : ℤ
  pub satisfying : ℕ
  pub tolerating : ℕ
  pub frustrating : ℕ

-- The constructor throws without a threshold; 0 is one.
unfoldable pub create : Option ℤ → Option ApdexStats
create none = none
create (some t) = some (record { apdex_t = t; satisfying = 0; tolerating = 0; frustrating = 0 })

-- `overrideApdex || this.apdexT`
unfoldable pub threshold : Option ℤ → ApdexStats → ℤ
threshold none a = a.apdex_t
threshold (some t) a = if ltb_ℤ t (pos 0) || ltb_ℤ (pos 0) t then t else a.apdex_t

pub data Zone : Type 0 where
  satisfied tolerated frustrated : Zone

-- The chain of tests of `recordValue`.
unfoldable pub zone : ℤ → ℤ → Zone
zone t time =
    if ltb_ℤ t time
    then (if ltb_ℤ (pos 4 *ℤ t) time then Zone.frustrated else Zone.tolerated)
    else Zone.satisfied

unfoldable pub bump : Zone → ApdexStats → ApdexStats
bump Zone.satisfied a = record a { satisfying = a.satisfying + 1 }
bump Zone.tolerated a = record a { tolerating = a.tolerating + 1 }
bump Zone.frustrated a = record a { frustrating = a.frustrating + 1 }

unfoldable pub record_value : ℤ → Option ℤ → ApdexStats → ApdexStats
unfolding threshold zone bump
record_value time override_apdex a = bump (zone (threshold override_apdex a) time) a

-- A missing override is `undefined * FROM_MILLIS`, a NaN, which `||` passes over.
unfoldable pub record_value_in_millis : Units → ℤ → Option ℤ → ApdexStats → ApdexStats
unfolding record_value
record_value_in_millis u time none = record_value (u.from_millis time) none
record_value_in_millis u time (some t) = record_value (u.from_millis time) (some (u.from_millis t))

unfoldable pub increment_frustrating : ApdexStats → ApdexStats
increment_frustrating a = record a { frustrating = a.frustrating + 1 }

-- The other's threshold is not brought along.
unfoldable pub merge : ApdexStats → ApdexStats → ApdexStats
merge other a = record a {
  satisfying = a.satisfying + other.satisfying;
  tolerating = a.tolerating + other.tolerating;
  frustrating = a.frustrating + other.frustrating;
}

unfoldable pub to_json : ApdexStats → List ℤ
to_json a =
    pos a.satisfying ∷ pos a.tolerating ∷ pos a.frustrating ∷ a.apdex_t ∷ a.apdex_t ∷ pos 0 ∷ []

pub record_all : List (ℤ × Option ℤ) → ApdexStats → ApdexStats
record_all [] a = a
record_all ((time, override) ∷ xs) a = record_value time override (record_all xs a)

abbrev pub requests : ApdexStats → ℕ
requests a = a.satisfying + a.tolerating + a.frustrating

bump-merge : (z : Zone) (a b : ApdexStats) → merge (bump z b) a ≡ bump z (merge b a)
unfolding merge bump
bump-merge Zone.satisfied a b = ground arith
bump-merge _ a b = ground arith

threshold_same :
    (o : Option ℤ) (a b : ApdexStats) → a.apdex_t ≡ b.apdex_t → threshold o a ≡ threshold o b
unfolding threshold
threshold_same none a b e = e
threshold_same (some t) a b e = rw e

apdex_t-record_all :
    (xs : List (ℤ × Option ℤ)) (a : ApdexStats) → (record_all xs a).apdex_t ≡ a.apdex_t
unfolding record_all record_value
apdex_t-record_all [] a = refl
apdex_t-record_all ((time, override) ∷ xs) a = ground (arith, apdex_t-record_all xs a)

apdex_t-merge : (a b : ApdexStats) → (merge b a).apdex_t ≡ a.apdex_t
unfolding merge
apdex_t-merge a b = refl

requests-bump : (z : Zone) (a : ApdexStats) → requests (bump z a) ≡ suc (requests a)
unfolding bump
requests-bump Zone.satisfied a = omega arith
requests-bump _ a = omega arith

requests-record_all :
    (xs : List (ℤ × Option ℤ)) (a : ApdexStats)
    → requests (record_all xs a) ≡ length xs + requests a
unfolding record_all record_value
requests-record_all [] a = omega arith
requests-record_all ((time, override) ∷ xs) a =
    let z = zone (threshold override (record_all xs a)) time in
    omega (arith, requests-bump z (record_all xs a), requests-record_all xs a)

merge-record_all_counts :
    (xs : List (ℤ × Option ℤ)) (a b : ApdexStats)
    → a.apdex_t ≡ b.apdex_t
    → merge (record_all xs b) a ≡ record_all xs (merge b a)
unfolding record_all record_value
merge-record_all_counts [] a b e = refl
merge-record_all_counts ((time, override) ∷ xs) a b e =
    let z = zone (threshold override (record_all xs b)) time in
    let same : (record_all xs b).apdex_t ≡ (record_all xs (merge b a)).apdex_t =
      apdex_t-record_all xs b
      ∙ sym e
      ∙ sym (apdex_t-merge a b)
      ∙ sym (apdex_t-record_all xs (merge b a)) in
    bump-merge z a (record_all xs b)
    ∙ ap (bump z) (merge-record_all_counts xs a b e)
    ∙ ap (λ t. bump (zone t time) (record_all xs (merge b a)))
        (threshold_same override (record_all xs b) (record_all xs (merge b a)) same)

-- Each request falls in exactly one zone, and merging the counts of some requests into counts with
-- the same threshold is recording them there.
pub merge-record_all_apdex :
    (xs : List (ℤ × Option ℤ)) (a b : ApdexStats)
    → a.apdex_t ≡ b.apdex_t
    → (merge (record_all xs b) a ≡ record_all xs (merge b a))
      × (requests (record_all xs b) ≡ length xs + requests b)
merge-record_all_apdex xs a b e = (merge-record_all_counts xs a b e, requests-record_all xs b)
