-- ===== src/SlowQueries/Bounded.antt =====
-- lib/db/query-trace-aggregator.js: the samples that `add` keeps, and their number.
use node_newrelic.SlowQueries.{
  SlowQuery, QuerySample, Config, aggregate, new_sample, remove_shortest, add_sample, add,
  sql_attribute,
}
use node_newrelic.SlowQueries.Samples.{IsLongest, new_sample-IsLongest, aggregate-IsLongest}
use node_newrelic.SlowQueries.Shortest.{
  IsSound, IsSound-IsDistinct, lookup-normalized, remove_shortest-Goes,
}
use node_newrelic.Stats.{init}
use node_newrelic.Shared.Dict.{
  Dict, lookup, insert, remove, lookup-insert, remove-lookup, length-insert_new, length-insert_old,
  length-remove,
}
use node_newrelic.Shared.{
  ℕ, suc, String, ◌≤◌, ◌≡◌, refl, sym, ap, ◌∙◌, inl, inr, false, some, [], ◌∷◌, leb, ltb, length,
  arith, str_eq, eq_iff, Bool-cases, Option-cases, subst,
}

module _ {V : Type 0} where
  insert-IsSound :
      (k : String) (s : QuerySample V) (m : Dict (QuerySample V))
      → s.trace.normalized ≡ k
      → IsLongest s
      → IsSound m
      → IsSound (insert k s m)
  insert-IsSound k s [] e l h = (e, (l, (refl, tt)))
  insert-IsSound k s ((j, w) ∷ m) e l h = elim (Bool-cases (str_eq j k)) [
    | inl same ↦ rw same (e ∙ sym ((eq_iff j k).0 same), (l, h.1.1))
    | inr differs ↦ rw differs (
      h.0,
      (
        h.1.0,
        (
          ground (arith, lookup-insert k j s m, eq_iff k j, eq_iff j k, h.1.1.0),
          insert-IsSound k s m e l h.1.1.1,
        ),
      ),
    )
  ]

  remove-IsSound : (k : String) (m : Dict (QuerySample V)) → IsSound m → IsSound (remove k m)
  remove-IsSound k [] h = tt
  remove-IsSound k ((j, w) ∷ m) h = elim (Bool-cases (str_eq j k)) [
    | inl same ↦ rw same h.1.1.1
    | inr differs ↦ rw differs (
      h.0,
      (
        h.1.0,
        (
          ground (arith, remove-lookup k j m (IsSound-IsDistinct m h.1.1.1), h.1.1.0),
          remove-IsSound k m h.1.1.1,
        ),
      ),
    )
  ]

  aggregate-normalized :
      (q : SlowQuery V) (s : QuerySample V)
      → s.trace.normalized ≡ q.normalized
      → (aggregate q s).trace.normalized ≡ q.normalized
  unfolding aggregate
  aggregate-normalized q s e = elim (Bool-cases (leb q.duration s.trace.duration)) [
    | inl shorter ↦ rw (aggregate, shorter) e
    | inr longer ↦ rw (aggregate, longer) refl
  ]

  -- What `add` leaves: sound samples, and no more than the limit.
  pub record Bounded (max_samples : ℕ) (samples : Dict (QuerySample V)) : Type 0 where
    pub sound : IsSound samples
    pub within : length samples ≤ max_samples

  remove_shortest-IsSound :
      (samples : Dict (QuerySample V)) (n : ℕ)
      → IsSound samples
      → length samples ≡ suc n
      → (rest : Dict (QuerySample V)) × (remove_shortest samples ≡ some rest)
        × IsSound rest
        × (length rest ≡ n)
  remove_shortest-IsSound [] n h e = absurd (omega arith)
  remove_shortest-IsSound ((key, first) ∷ samples) n h e =
      let (rest, k, run, g) = remove_shortest-Goes key first samples h in
      (
        rest,
        run,
        subst IsSound (sym g.removed) (remove-IsSound k ((key, first) ∷ samples) h),
        ap length g.removed
            ∙ omega (arith, length-remove k g.sample ((key, first) ∷ samples) g.stood, e),
      )

  new_sample-normalized : (q : SlowQuery V) → (new_sample q).trace.normalized ≡ q.normalized
  unfolding new_sample
  new_sample-normalized q = aggregate-normalized q (record { stats = init; trace = q }) refl

  found-IsLongest :
      (k : String) (samples : Dict (QuerySample V)) (s : QuerySample V)
      → IsSound samples
      → lookup k samples ≡ some s
      → IsLongest s
  found-IsLongest k [] s h found = absurd cc
  found-IsLongest k ((j, w) ∷ samples) s h found = elim (Bool-cases (str_eq j k)) [
    | inl here ↦
        let found' = rw here at found in let same : w ≡ s = cc in subst IsLongest same h.1.0
    | inr there ↦ found-IsLongest k samples s h.1.1.1 (rw there at found)
  ]

  add_sample-Bounded :
      (config : Config) (q : SlowQuery V) (samples : Dict (QuerySample V))
      → Bounded config.max_samples samples
      → (samples' : Dict (QuerySample V)) × (add_sample config false q samples ≡ some samples')
        × Bounded config.max_samples samples'
  unfolding add_sample
  add_sample-Bounded config q samples b = elim (Option-cases (lookup q.normalized samples)) [
    | inr (own, found) ↦
        let name = lookup-normalized q.normalized samples own b.sound found in
        let own_longest : IsLongest own = found-IsLongest q.normalized samples own b.sound found in
        (
          insert q.normalized (aggregate q own) samples,
          rw (add_sample, found) refl,
          record {
            sound =
                insert-IsSound q.normalized (aggregate q own) samples
                  (aggregate-normalized q own name) (aggregate-IsLongest q own own_longest) b.sound;
            within = omega (
              arith,
              b.within,
              length-insert_old q.normalized (aggregate q own) own samples found,
            );
          },
        )
    | inl new ↦
        let added = insert q.normalized (new_sample q) samples in
        let size : length added ≡ suc (length samples) =
          length-insert_new q.normalized (new_sample q) samples new in
        let sound : IsSound added =
          insert-IsSound q.normalized (new_sample q) samples (new_sample-normalized q)
            (new_sample-IsLongest q) b.sound in
        elim (Bool-cases (ltb config.max_samples (length added))) [
          | inl over ↦
              let (rest, run, rest_sound, rest_size) =
                remove_shortest-IsSound added (length samples) sound size in
              (
                rest,
                rw (add_sample, new, over) run,
                record { sound = rest_sound; within = omega (arith, b.within, rest_size) },
              )
          | inr under ↦ (
            added,
            rw (add_sample, new, under) refl,
            record { sound = sound; within = ground arith },
          )
        ]
  ]

  -- Outside serverless mode `add` never throws on sound samples within the limit, and leaves sound
  -- samples within the limit: each under the normalized query of its trace, which is that of its
  -- longest query, and no more than `max_samples`, whatever the settings are.
  pub add-Bounded :
      (config : Config) (q : SlowQuery V) (samples : Dict (QuerySample V))
      → Bounded config.max_samples samples
      → (samples' : Dict (QuerySample V)) × ((add config false q samples).1 ≡ some samples')
        × Bounded config.max_samples samples'
  unfolding add
  add-Bounded config q samples b = elim (Option-cases (sql_attribute config.record_sql)) [
    | inl nothing ↦ (samples, rw (add, nothing) refl, b)
    | inr (attribute, sets) ↦ elim (Bool-cases (ltb q.duration config.explain_threshold)) [
      | inl fast ↦ (samples, rw (add, sets, fast) refl, b)
      | inr slow ↦ elim (Bool-cases config.slow_sql_enabled) [
        | inr disabled ↦ (samples, rw (add, sets, slow, disabled) refl, b)
        | inl enabled ↦
            let (samples', run, b') = add_sample-Bounded config q samples b in
            (samples', rw (add, sets, slow) (simp (enabled, run)), b')
      ]
    ]
  ]
