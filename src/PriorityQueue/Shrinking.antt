-- ===== src/PriorityQueue/Shrinking.antt =====
-- lib/priority-queue.js: the extractions of `setLimit`.
use mathlib.Core.List.Perm
use node_newrelic.PriorityQueue.{HeapLib, Queue, shrink, set_limit}
use node_newrelic.PriorityQueue.Kept.{
  entries, length-extract, minimum_of_pos, extract-AllAbove, extract-perm-dropped,
}
use node_newrelic.PriorityQueue.TopK.{KeepsBest}
use node_newrelic.Shared.{
  ℕ, zero, suc, ◌≤◌, ◌<◌, ◌≡◌, refl, ◌⊎◌, inl, inr, some, List, [], ◌∷◌, length, ltb, arith,
  Bool-cases,
}

module _ {V : Type 0} (lib : HeapLib V) where
  open lib use {
    Heap, insert, find_minimum, extract_minimum, node_count, forest, find_none, extract-perm,
    count-length, entries-empty,
  }

  settle-Keeps :
      (limit old : ℕ) (offered : List (ℕ × V)) (h : Heap)
      → length (entries lib h) ≤ limit
      → limit ≤ old
      → KeepsBest lib old offered h
      → KeepsBest lib limit offered h
  settle-Keeps limit old offered h fits le (dropped, k) =
      (dropped, record { perm = k.perm; best = k.best; bounded = fits; full = settled k.full })
    where
      settled :
          (dropped ≡ []) ⊎ (length (entries lib h) ≡ old)
          → (dropped ≡ []) ⊎ (length (entries lib h) ≡ limit)
      settled (inl e) = inl e
      settled (inr e) = inr (omega arith)

  -- Extracting one entry above the new limit: what a smaller limit would have kept.
  extract-KeepsBest :
      (old : ℕ) (offered : List (ℕ × V)) (h : Heap) (m : ℕ × V)
      → find_minimum h ≡ some m
      → KeepsBest lib old offered h
      → KeepsBest lib (length (entries lib (extract_minimum h))) offered (extract_minimum h)
  extract-KeepsBest old offered h m found (dropped, k) = (
    m ∷ dropped,
    record {
      perm = Perm.trans k.perm (extract-perm-dropped lib h m dropped found);
      best = extract-AllAbove lib h m dropped found k.best;
      bounded = omega arith;
      full = inr refl;
    },
  )

  shrink-KeepsBest :
      (fuel limit old : ℕ) (offered : List (ℕ × V)) (h : Heap)
      → length (entries lib h) ≤ fuel
      → limit ≤ old
      → KeepsBest lib old offered h
      → KeepsBest lib limit offered (shrink lib fuel limit h)
  unfolding shrink
  shrink-KeepsBest zero limit old offered h short le k =
      settle-Keeps limit old offered h (omega arith) le k
  shrink-KeepsBest (suc fuel) limit old offered h short le k =
      elim (Bool-cases (ltb limit (node_count h))) [
        | inr fits ↦
            rw (fits, shrink)
              (settle-Keeps limit old offered h (ground (arith, count-length h)) le k)
        | inl over ↦
            let many : limit < length (entries lib h) = ground (arith, count-length h) in
            let (m, found) = minimum_of_pos lib h (omega arith) in
            rw (over, shrink)
              (shrink-KeepsBest fuel limit (length (entries lib (extract_minimum h))) offered
                (extract_minimum h) (omega (arith, length-extract lib h m found))
                (omega (arith, length-extract lib h m found))
                (extract-KeepsBest old offered h m found k))
      ]

  -- A limit no larger than before keeps the best entries at the new limit; one extraction for
  -- each node is enough.
  pub set_limit-KeepsBest :
      (q : Queue lib) (limit : ℕ) (offered : List (ℕ × V))
      → limit ≤ q.limit
      → KeepsBest lib q.limit offered q.heap
      → KeepsBest lib limit offered (set_limit lib limit q).heap
        × ((set_limit lib limit q).limit ≡ limit)
  unfolding set_limit
  set_limit-KeepsBest q limit offered le k = (
    shrink-KeepsBest (node_count q.heap) limit q.limit offered q.heap
        (omega (arith, count-length q.heap)) le k,
    refl,
  )
