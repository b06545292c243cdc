-- ===== src/SlowQueries/Merging.antt =====
-- lib/db/query-trace-aggregator.js: what is kept when the samples of a failed send come back.
use node_newrelic.SlowQueries.{QuerySample, merge_sample, merge}
use node_newrelic.SlowQueries.Shortest.{IsSound}
use node_newrelic.Shared.Dict.{length-insert_new, Dict, lookup, insert, lookup-insert}
use node_newrelic.Shared.{
  String, ◌+◌, ◌≡◌, refl, sym, ap, ◌∙◌, inl, inr, Option, none, some, if◌then◌else◌, [], ◌∷◌,
  length, arith, str_eq, eq_iff, Bool-cases, Option-cases,
}

module _ {V : Type 0} where
  abbrev pub folded : QuerySample V → Option (QuerySample V) → QuerySample V
  folded sample none = sample
  folded sample (some own) = merge_sample sample own

  abbrev pub combine : Option (QuerySample V) → Option (QuerySample V) → Option (QuerySample V)
  combine none own = own
  combine (some sample) own = some (folded sample own)

  merge_one :
      (key : String) (s : QuerySample V) (others samples : Dict (QuerySample V))
      → s.trace.normalized ≡ key
      → merge ((key, s) ∷ others) samples
        ≡ merge others (insert key (folded s (lookup key samples)) samples)
  unfolding merge
  merge_one key s others samples name =
      merge_one_named ∙ ap (λ n. merge others (insert n (folded s (lookup n samples)) samples)) name
    where
      merge_one_named :
          merge ((key, s) ∷ others) samples
          ≡ merge others
              (insert s.trace.normalized (folded s (lookup s.trace.normalized samples)) samples)
      merge_one_named = elim (Option-cases (lookup s.trace.normalized samples)) [
        | inl new ↦ rw (merge, new) refl
        | inr (own, old) ↦ rw (merge, old) refl
      ]

  combine_key :
      (key k : String) (s : QuerySample V) (others samples : Dict (QuerySample V))
      → lookup key others ≡ none
      → combine
          (lookup k others)
          (if str_eq key k then some (folded s (lookup key samples)) else lookup k samples)
        ≡ combine (if str_eq key k then some s else lookup k others) (lookup k samples)
  combine_key key k s others samples new = elim (Bool-cases (str_eq key k)) [
    | inl same ↦ let e = (eq_iff key k).0 same in rw (same, sym e, new) refl
    | inr differs ↦ rw differs refl
  ]

  -- Folding the samples of a failed send back: for each normalized query, what is then kept is the
  -- merge of both samples, or the one that there is.
  pub lookup-merge :
      (others samples : Dict (QuerySample V)) (k : String)
      → IsSound others
      → lookup k (merge others samples) ≡ combine (lookup k others) (lookup k samples)
  unfolding merge
  lookup-merge [] samples k h = refl
  lookup-merge ((key, s) ∷ others) samples k h =
      let added = insert key (folded s (lookup key samples)) samples in
      ap (lookup k) (merge_one key s others samples h.0)
      ∙ lookup-merge others added k h.1.1.1
      ∙ ap (combine (lookup k others)) (lookup-insert key k (folded s (lookup key samples)) samples)
      ∙ combine_key key k s others samples h.1.1.0

  -- No query is on both sides.
  abbrev pub AreApart : Dict (QuerySample V) → Dict (QuerySample V) → Type 0
  AreApart [] samples = Unit
  AreApart ((key, s) ∷ others) samples = (lookup key samples ≡ none) × AreApart others samples

  AreApart-insert :
      (key : String) (s : QuerySample V) (others samples : Dict (QuerySample V))
      → lookup key others ≡ none
      → AreApart others samples
      → AreApart others (insert key s samples)
  AreApart-insert key s [] samples new h = tt
  AreApart-insert key s ((j, w) ∷ others) samples new h = elim (Bool-cases (str_eq j key)) [
    | inl same ↦ absurd (let new' = rw same at new in cc)
    | inr differs ↦ (
      lookup-insert key j s samples ∙ ground (arith, eq_iff key j, eq_iff j key, h.0),
      AreApart-insert key s others samples (rw differs at new) h.1,
    )
  ]

  -- The folding has no limit: where no query is on both sides, all samples are kept, and their
  -- number is the sum.
  pub length-merge :
      (others samples : Dict (QuerySample V))
      → IsSound others
      → AreApart others samples
      → length (merge others samples) ≡ length others + length samples
  unfolding merge
  length-merge [] samples h apart = omega arith
  length-merge ((key, s) ∷ others) samples h apart =
      ap length (merge_one key s others samples h.0 ∙ rw apart.0 refl)
      ∙ length-merge others (insert key s samples) h.1.1.1
          (AreApart-insert key s others samples h.1.1.0 apart.1)
      ∙ omega (arith, length-insert_new key s samples apart.0)
