-- ===== src/AttributeFilter/Caching.antt =====
-- lib/config/attribute-filter.js: the cache of results.
use node_newrelic.AttributeFilter.{
  Destination, trans_event, trans_trace, error_event, browser_event, span_event, trans_segment, bit,
  same, Result, Filter, put_at, fresh, result_of,
}
use node_newrelic.Shared.Dict.{Dict, lookup, insert, lookup-insert}
use node_newrelic.Shared.{
  ℕ, String, ◌+◌, ◌≤◌, ◌≡◌, refl, sym, ap, ◌∙◌, ◌⊎◌, inl, inr, true, Option, none, some,
  if◌then◌else◌, ◌==◌, ltb, arith, str_eq, eq_iff, Bool-cases, Option-cases,
}

abbrev of_bit : ℕ → Destination
of_bit n =
    if n == 1
    then trans_event
    else if n == 2
    then trans_trace
    else if n == 4
    then error_event
    else if n == 8
    then browser_event
    else if n == 16
    then span_event
    else trans_segment

of_bit-bit : (d : Destination) → of_bit (bit d) ≡ d
of_bit-bit trans_event = refl
of_bit-bit trans_trace = refl
of_bit-bit error_event = refl
of_bit-bit browser_event = refl
of_bit-bit span_event = refl
of_bit-bit trans_segment = refl

pub same-eq : (d e : Destination) → same d e ≡ true → d ≡ e
same-eq d e h =
    let equal : bit d ≡ bit e = ground arith in sym (of_bit-bit d) ∙ ap of_bit equal ∙ of_bit-bit e

same_refl : (d : Destination) → same d d ≡ true
same_refl d = ground arith

abbrev pub in_cache : String → Option (Dict Result) → Option Result
in_cache key none = none
in_cache key (some cached) = lookup key cached

-- Every cached result is the one that would be calculated.
abbrev pub IsCoherent : Filter → Type 0
IsCoherent f =
    (d : Destination) (key : String) (result : Result)
    → in_cache key (f.cache d) ≡ some result
    → fresh f d key ≡ result

-- Every enabled destination has a cache.
abbrev pub IsReady : Filter → Type 0
IsReady f =
    (d : Destination)
    → f.enabled_destinations d ≡ true
    → (cached : Dict Result) × (f.cache d ≡ some cached)

pub record IsValid (f : Filter) : Type 0 where
  pub coherent : IsCoherent f
  pub ready : IsReady f

-- Same rules and same enabled destinations.
pub record SameRules (f f' : Filter) : Type 0 where
  pub results : (d : Destination) (key : String) → fresh f' d key ≡ fresh f d key
  pub enabled : (d : Destination) → f'.enabled_destinations d ≡ f.enabled_destinations d

-- Storing a calculated result keeps a filter valid.
stored : ℕ → Destination → String → Dict Result → Filter → Filter
stored limit d key cached f =
    if ltb f.cached_count limit
    then record f {
      cache = put_at d (some (insert key (fresh f d key) cached)) f.cache;
      cached_count = f.cached_count + 1;
    }
    else f

stored-SameRules :
    (limit : ℕ) (d : Destination) (key : String) (cached : Dict Result) (f : Filter)
    → SameRules f (stored limit d key cached f)
unfolding stored fresh
stored-SameRules limit d key cached f = record {
  results = λ e k. ground arith;
  enabled = λ e. ground arith;
}

in_cache-stored :
    (limit : ℕ) (d : Destination) (key : String) (cached : Dict Result) (f : Filter)
    → f.cache d ≡ some cached
    → (e : Destination) (k : String)
    → (in_cache k ((stored limit d key cached f).cache e) ≡ in_cache k (f.cache e))
      ⊎ ((d ≡ e)
          × (key ≡ k)
          × (in_cache k ((stored limit d key cached f).cache e) ≡ some (fresh f d key)))
unfolding stored
in_cache-stored limit d key cached f here e k = elim (Bool-cases (ltb f.cached_count limit)) [
  | inl room ↦ elim (Bool-cases (same d e)) [
    | inl equal ↦ elim (Bool-cases (str_eq key k)) [
      | inl hit ↦ inr (
        same-eq d e equal,
        (eq_iff key k).0 hit,
        rw (room, equal, lookup-insert key k (fresh f d key) cached, hit) refl,
      )
      | inr miss ↦ inl (
          rw (room, equal, lookup-insert key k (fresh f d key) cached, miss)
            (rw (sym (same-eq d e equal), here) refl))
    ]
    | inr differs ↦ inl (rw (room, differs) refl)
  ]
  | inr full ↦ inl (rw full refl)
]

stored-IsReady :
    (limit : ℕ) (d : Destination) (key : String) (cached : Dict Result) (f : Filter)
    → IsReady f
    → IsReady (stored limit d key cached f)
unfolding stored
stored-IsReady limit d key cached f r e on =
    let (old, there) = r e (sym ((stored-SameRules limit d key cached f).enabled e) ∙ on) in
    elim (Bool-cases (ltb f.cached_count limit)) [
      | inl room ↦ elim (Bool-cases (same d e)) [
        | inl equal ↦ (insert key (fresh f d key) cached, rw (room, equal) refl)
        | inr differs ↦ (old, rw (room, differs) there)
      ]
      | inr full ↦ (old, rw full there)
    ]

stored-IsValid :
    (limit : ℕ) (d : Destination) (key : String) (cached : Dict Result) (f : Filter)
    → f.cache d ≡ some cached
    → IsValid f
    → IsValid (stored limit d key cached f)
stored-IsValid limit d key cached f here v = record {
  coherent = λ e k result hit.
      (stored-SameRules limit d key cached f).results e k
      ∙ elim (in_cache-stored limit d key cached f here e k) [
        | inl old ↦ v.coherent e k result (sym old ∙ hit)
        | inr (de, kk, new) ↦ cc
      ];
  ready = stored-IsReady limit d key cached f v.ready;
}

-- What looking up or calculating a result gives.
pub record Answered (limit : ℕ) (d : Destination) (key : String) (f f' : Filter) : Type 0 where
  pub run : result_of limit d key f ≡ some (fresh f d key, f')
  pub valid : IsValid f'
  pub rules : SameRules f f'
  pub bounded : f.cached_count ≤ limit → f'.cached_count ≤ limit

stored-bounded :
    (limit : ℕ) (d : Destination) (key : String) (cached : Dict Result) (f : Filter)
    → f.cached_count ≤ limit
    → (stored limit d key cached f).cached_count ≤ limit
unfolding stored
stored-bounded limit d key cached f le = ground arith

pub result_of-Answered :
    (limit : ℕ) (d : Destination) (key : String) (f : Filter)
    → IsValid f
    → f.enabled_destinations d ≡ true
    → (f' : Filter) × Answered limit d key f f'
unfolding result_of stored
result_of-Answered limit d key f v on =
    let (cached, here) = v.ready d on in
    elim (Option-cases (lookup key cached)) [
      | inl miss ↦ (
        stored limit d key cached f,
        record {
          run = rw (result_of, here, miss) refl;
          valid = stored-IsValid limit d key cached f here v;
          rules = stored-SameRules limit d key cached f;
          bounded = stored-bounded limit d key cached f;
        },
      )
      | inr (result, hit) ↦ (
        f,
        record {
          run = rw (result_of, here, hit, v.coherent d key result (rw here hit)) refl;
          valid = v;
          rules = record { results = λ e k. refl; enabled = λ e. refl };
          bounded = λ le. le;
        },
      )
    ]
