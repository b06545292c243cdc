-- ===== src/SlowQueries/Shortest.antt =====
-- lib/db/query-trace-aggregator.js: which sample `removeShortest` takes out.
use node_newrelic.SlowQueries.{SlowQuery, QuerySample, shortest_from, remove_shortest}
use node_newrelic.SlowQueries.Samples.{IsLongest}
use node_newrelic.Shared.Dict.{Dict, lookup, remove, IsDistinct, remove-lookup}
use node_newrelic.Shared.{
  String, ◌≤◌, ◌≡◌, refl, sym, ap, ◌∙◌, ◌⊎◌, inl, inr, none, some, if◌then◌else◌, [], ◌∷◌, ltb,
  arith, str_eq, eq_iff, eq_refl, Bool-cases, subst,
}

module _ {V : Type 0} where
  -- Each sample stands under the normalized query of its trace, no query has two, and each sample
  -- keeps its longest query.
  abbrev pub IsSound : Dict (QuerySample V) → Type 0
  IsSound [] = Unit
  IsSound ((key, sample) ∷ samples) =
      (sample.trace.normalized ≡ key)
      × (IsLongest sample × ((lookup key samples ≡ none) × IsSound samples))

  pub IsSound-IsDistinct : (samples : Dict (QuerySample V)) → IsSound samples → IsDistinct samples
  IsSound-IsDistinct [] h = tt
  IsSound-IsDistinct ((key, sample) ∷ samples) h = (h.1.1.0, IsSound-IsDistinct samples h.1.1.1)

  pub lookup-normalized :
      (k : String) (samples : Dict (QuerySample V)) (sample : QuerySample V)
      → IsSound samples
      → lookup k samples ≡ some sample
      → sample.trace.normalized ≡ k
  lookup-normalized k [] sample h found = absurd cc
  lookup-normalized k ((key, s) ∷ samples) sample h found = elim (Bool-cases (str_eq key k)) [
    | inl here ↦
        let key_k = (eq_iff key k).0 here in
        let found' = rw here at found in
        let same : s ≡ sample = cc in ap (λ x. x.trace.normalized) (sym same) ∙ h.0 ∙ key_k
    | inr there ↦ lookup-normalized k samples sample h.1.1.1 (rw there at found)
  ]

  shortest_from-le :
      (best : SlowQuery V) (samples : Dict (QuerySample V))
      → (shortest_from best samples).duration ≤ best.duration
  unfolding shortest_from
  shortest_from-le best [] = omega arith
  shortest_from-le best ((key, sample) ∷ samples) =
      elim (Bool-cases (ltb sample.trace.duration best.duration)) [
        | inl less ↦
            rw (shortest_from, less) (ground (arith, shortest_from-le sample.trace samples))
        | inr more ↦ rw (shortest_from, more) (shortest_from-le best samples)
      ]

  shortest_from-le_found :
      (best : SlowQuery V) (samples : Dict (QuerySample V)) (k : String) (s : QuerySample V)
      → lookup k samples ≡ some s
      → (shortest_from best samples).duration ≤ s.trace.duration
  unfolding shortest_from
  shortest_from-le_found best [] k s found = absurd cc
  shortest_from-le_found best ((key, sample) ∷ samples) k s found =
      let next = if ltb sample.trace.duration best.duration then sample.trace else best in
      let bound : next.duration ≤ sample.trace.duration = ground arith in
      elim (Bool-cases (str_eq key k)) [
        | inl here ↦
            let found' = rw here at found in
            let same : sample ≡ s = cc in
            rw (sym same) (omega (arith, bound, shortest_from-le next samples))
        | inr there ↦ shortest_from-le_found next samples k s (rw there at found)
      ]

  lookup_here :
      (key : String) (sample : QuerySample V) (samples : Dict (QuerySample V))
      → lookup key ((key, sample) ∷ samples) ≡ some sample
  lookup_here key sample samples = rw (eq_refl key) refl

  lookup_later :
      (key : String) (sample : QuerySample V) (samples : Dict (QuerySample V)) (k : String)
      (s : QuerySample V)
      → lookup key samples ≡ none
      → lookup k samples ≡ some s
      → lookup k ((key, sample) ∷ samples) ≡ some s
  lookup_later key sample samples k s new found = elim (Bool-cases (str_eq key k)) [
    | inl same ↦ let e = (eq_iff key k).0 same in absurd cc
    | inr differs ↦ rw differs found
  ]

  -- The trace that the loop ends with is the first one, or that of a sample.
  abbrev Origin : SlowQuery V → Dict (QuerySample V) → SlowQuery V → Type 0
  Origin best samples t =
      (t ≡ best)
      ⊎ ((k : String) × (s : QuerySample V) × (lookup k samples ≡ some s) × (t ≡ s.trace))

  Origin-later :
      (best t : SlowQuery V) (key : String) (sample : QuerySample V)
      (samples : Dict (QuerySample V))
      → lookup key samples ≡ none
      → Origin best samples t
      → Origin best ((key, sample) ∷ samples) t
  Origin-later best t key sample samples new (inl e) = inl e
  Origin-later best t key sample samples new (inr (k, s, found, e)) =
      inr (k, s, lookup_later key sample samples k s new found, e)

  Origin-here :
      (best t : SlowQuery V) (key : String) (sample : QuerySample V)
      (samples : Dict (QuerySample V))
      → lookup key samples ≡ none
      → Origin sample.trace samples t
      → Origin best ((key, sample) ∷ samples) t
  Origin-here best t key sample samples new (inl e) =
      inr (key, sample, lookup_here key sample samples, e)
  Origin-here best t key sample samples new (inr (k, s, found, e)) =
      inr (k, s, lookup_later key sample samples k s new found, e)

  shortest_from-Origin :
      (best : SlowQuery V) (samples : Dict (QuerySample V))
      → IsDistinct samples
      → Origin best samples (shortest_from best samples)
  unfolding shortest_from
  shortest_from-Origin best [] d = inl refl
  shortest_from-Origin best ((key, sample) ∷ samples) d =
      elim (Bool-cases (ltb sample.trace.duration best.duration)) [
        | inl less ↦
            rw (shortest_from, less)
              (Origin-here best _ key sample samples d.0
                (shortest_from-Origin sample.trace samples d.1))
        | inr more ↦
            rw (shortest_from, more)
              (Origin-later best _ key sample samples d.0 (shortest_from-Origin best samples d.1))
      ]

  -- The sample that goes: no sample has a shorter query.
  pub record Goes (samples rest : Dict (QuerySample V)) (k : String) : Type 0 where
    pub sample : QuerySample V
    pub stood : lookup k samples ≡ some sample
    pub shortest :
        (j : String) (s : QuerySample V)
        → lookup j samples ≡ some s
        → sample.trace.duration ≤ s.trace.duration
    pub removed : rest ≡ remove k samples
    pub others : (j : String) → lookup j rest ≡ (if str_eq k j then none else lookup j samples)

  goes :
      (samples : Dict (QuerySample V)) (t : SlowQuery V) (k : String) (s : QuerySample V)
      → IsSound samples
      → ((j : String) (x : QuerySample V)
          → lookup j samples ≡ some x
          → t.duration ≤ x.trace.duration)
      → lookup k samples ≡ some s
      → t ≡ s.trace
      → Goes samples (remove t.normalized samples) k
  goes samples t k s h least found e =
      let name : t.normalized ≡ k =
        ap (λ x. x.normalized) e ∙ lookup-normalized k samples s h found in
      record {
        sample = s;
        stood = found;
        shortest = λ j x fx. subst (λ y. y.duration ≤ x.trace.duration) e (least j x fx);
        removed = ap (λ n. remove n samples) name;
        others = λ j. rw name (remove-lookup k j samples (IsSound-IsDistinct samples h));
      }

  -- On sound samples, of which there is one, `removeShortest` takes out one sample and no other: a
  -- sample whose query is no longer than that of any.
  pub remove_shortest-Goes :
      (key : String) (first : QuerySample V) (samples : Dict (QuerySample V))
      → IsSound ((key, first) ∷ samples)
      → (rest : Dict (QuerySample V)) × (k : String) × (remove_shortest ((key, first) ∷ samples)
          ≡ some rest)
        × Goes ((key, first) ∷ samples) rest k
  unfolding remove_shortest
  remove_shortest-Goes key first samples h =
      let whole : Dict (QuerySample V) = (key, first) ∷ samples in
      let t = shortest_from first.trace samples in
      let d = IsSound-IsDistinct whole h in
      let least : (j : String) (x : QuerySample V)
          → lookup j whole ≡ some x
          → t.duration ≤ x.trace.duration =
        λ j x found. least_of key first samples j x found in
      elim (Origin-here first.trace t key first samples d.0
        (shortest_from-Origin first.trace samples d.1)) [
          | inl e ↦ (
            remove t.normalized whole,
            key,
            refl,
            goes whole t key first h least (lookup_here key first samples) e,
          )
          | inr (k, s, found, e) ↦
              (remove t.normalized whole, k, refl, goes whole t k s h least found e)
        ]
    where
      least_of :
          (key : String) (first : QuerySample V) (samples : Dict (QuerySample V)) (j : String)
          (x : QuerySample V)
          → lookup j ((key, first) ∷ samples) ≡ some x
          → (shortest_from first.trace samples).duration ≤ x.trace.duration
      least_of key first samples j x found = elim (Bool-cases (str_eq key j)) [
        | inl here ↦
            let found' = rw here at found in
            let same : first ≡ x = cc in rw (sym same) (shortest_from-le first.trace samples)
        | inr there ↦ shortest_from-le_found first.trace samples j x (rw there at found)
      ]
