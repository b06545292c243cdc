-- ===== src/SlowQueries/Samples.antt =====
-- lib/db/query-sample.js: what a sample keeps.
use node_newrelic.SlowQueries.{SlowQuery, QuerySample, aggregate, new_sample, merge_sample}
use node_newrelic.Shared.Int.{ℤ, pos, ◌+ℤ◌, +ℤ_parts, ltb_ℤ}
use node_newrelic.Stats
use node_newrelic.Stats.{Stats, init, record_value}
use node_newrelic.Shared.{◌≡◌, refl, inl, inr, Bool-cases, true, leb, arith}

positive_sum :
    (a b : ℤ) → ltb_ℤ (pos 0) a ≡ true → ltb_ℤ (pos 0) b ≡ true → ltb_ℤ (pos 0) (a +ℤ b) ≡ true
positive_sum a b h k = ground (arith, +ℤ_parts a b)

module _ {V : Type 0} where
  -- A sample has counted a query, and its trace is that of the longest query that it has counted.
  pub record IsLongest (sample : QuerySample V) : Type 0 where
    pub longest : sample.stats.max ≡ pos sample.trace.duration
    pub counted : ltb_ℤ (pos 0) sample.stats.call_count ≡ true

  pub new_sample-IsLongest : (q : SlowQuery V) → IsLongest (new_sample q)
  unfolding new_sample aggregate record_value ◌+ℤ◌
  new_sample-IsLongest q =
      let same : leb q.duration q.duration ≡ true = ground arith in
      rw (new_sample, aggregate, same) (record { longest = ground arith; counted = refl })

  pub aggregate-IsLongest :
      (q : SlowQuery V) (sample : QuerySample V) → IsLongest sample → IsLongest (aggregate q sample)
  unfolding aggregate record_value
  aggregate-IsLongest q sample h =
      let more = positive_sum sample.stats.call_count (pos 1) h.counted refl in
      elim (Bool-cases (leb q.duration sample.trace.duration)) [
        | inl shorter ↦
            rw (aggregate, shorter)
              (record { longest = rw h.longest (ground arith); counted = more })
        | inr longer ↦
            rw (aggregate, longer)
              (record { longest = rw h.longest (ground arith); counted = more })
      ]

  pub merge_sample-IsLongest :
      (other sample : QuerySample V)
      → IsLongest other
      → IsLongest sample
      → IsLongest (merge_sample other sample)
  unfolding merge_sample Stats.merge
  merge_sample-IsLongest other sample h k = record {
    longest = rw (h.longest, k.longest) (ground arith);
    counted = positive_sum sample.stats.call_count other.stats.call_count k.counted h.counted;
  }
