-- ===== src/PriorityQueue/TopK.antt =====
-- lib/priority-queue.js: the entries that the reservoir holds of those that were offered.
use mathlib.Core.List.{perm_middle, not-mem-nil}
use mathlib.Core.List.Perm
use node_newrelic.PriorityQueue.{HeapLib, Queue, priority_or, create, size, replace, store, add}
use node_newrelic.PriorityQueue.Kept.{
  entries, Keeps, length-extract, minimum_of_pos, insert-Keeps, refuse-Keeps, evict-Keeps,
  length-insert,
}
use node_newrelic.Shared.{
  ℕ, ◌+◌, ◌≤◌, ◌<◌, ◌≡◌, refl, sym, inl, inr, Option, List, [], ◌∷◌, Perm, length, ltb, leb, ◌==◌,
  arith, Bool-cases, Option-cases, ltb→lt, subst,
}

-- The priority and value that an array entry is offered with.
abbrev pub chosen : {V : Type 0} → Option ℕ × V × ℕ → ℕ × V
chosen (priority, value, roll) = (priority_or priority roll, value)

module _ {V : Type 0} (lib : HeapLib V) where
  open lib use {
    Heap, insert, find_minimum, extract_minimum, node_count, forest, find_none, extract-perm,
    count-length, entries-empty,
  }

  -- Some dropped entries complete what the heap holds to what was offered, none of them above a
  -- held one.
  abbrev pub KeepsBest : ℕ → List (ℕ × V) → Heap → Type 0
  KeepsBest limit offered h = (dropped : List (ℕ × V)) × Keeps lib limit offered dropped h

  pub KeepsBest-perm :
      (limit : ℕ) (xs ys : List (ℕ × V)) (h : Heap)
      → Perm ys xs
      → KeepsBest limit xs h
      → KeepsBest limit ys h
  KeepsBest-perm limit xs ys h p (dropped, k) = (
    dropped,
    record { perm = Perm.trans p k.perm; best = k.best; bounded = k.bounded; full = k.full },
  )

  replace-KeepsBest :
      (q : Queue lib) (offered : List (ℕ × V)) (v : V) (p : ℕ)
      → 0 < q.limit
      → length (entries lib q.heap) ≡ q.limit
      → KeepsBest q.limit offered q.heap
      → KeepsBest q.limit ((p, v) ∷ offered) (replace lib v p q).0.heap
  unfolding replace
  replace-KeepsBest q offered v p pos full (dropped, k) =
      let (least, found) = minimum_of_pos lib q.heap (omega arith) in
      let (m, top) =
        minimum_of_pos lib (insert p v q.heap) (omega (arith, length-insert lib p v q.heap)) in
      elim (Bool-cases (ltb least.0 p)) [
        | inl high ↦
            rw (found, replace, high)
              (
                m ∷ dropped,
                evict-Keeps lib q.limit offered dropped q.heap v p least m found top
                    (ltb→lt _ _ high) full k,
              )
        | inr low ↦
            rw (found, replace, low)
              (
                (p, v) ∷ dropped,
                refuse-Keeps lib q.limit offered dropped q.heap v p least found (ground arith) full
                    k,
              )
      ]

  store-KeepsBest :
      (q : Queue lib) (offered : List (ℕ × V)) (v : V) (p : ℕ)
      → 0 < q.limit
      → KeepsBest q.limit offered q.heap
      → KeepsBest q.limit ((p, v) ∷ offered) (store lib v p q).0.heap
  unfolding store size
  store-KeepsBest q offered v p pos (dropped, k) =
      elim (Bool-cases (node_count q.heap == q.limit)) [
        | inl full ↦
            rw full (
              replace-KeepsBest q offered v p pos (ground (arith, count-length q.heap))
                (dropped, k))
        | inr room ↦ rw room (
          dropped,
          insert-Keeps lib q.limit offered dropped q.heap v p
              (ground (arith, count-length q.heap, k.bounded)) k,
        )
      ]

  pub nothing_held : (h : Heap) → length (entries lib h) ≤ 0 → entries lib h ≡ []
  nothing_held h e = elim (Option-cases (find_minimum h)) [
    | inl missing ↦ find_none h missing
    | inr (m, found) ↦ absurd (omega (arith, length-extract lib h m found))
  ]

  refuse_all :
      (offered : List (ℕ × V)) (h : Heap) (e : ℕ × V)
      → KeepsBest 0 offered h
      → KeepsBest 0 (e ∷ offered) h
  refuse_all offered h e (dropped, k) =
      let none_held = nothing_held h k.bounded in
      (
        e ∷ dropped,
        record {
          perm = Perm.trans (Perm.cons e k.perm) (Perm.symm (perm_middle (entries lib h) dropped));
          best = λ x y mx my. absurd (not-mem-nil (rw none_held at mx));
          bounded = k.bounded;
          full = inr (omega (arith, k.bounded));
        },
      )

  -- From a queue that holds the best of what was offered, `add` gives one that holds the best of
  -- those and the new entry, at limit 0 too. It counts the entry and leaves the limit.
  pub add-KeepsBest :
      (q : Queue lib) (offered : List (ℕ × V)) (value : V) (priority : Option ℕ) (roll : ℕ)
      → KeepsBest q.limit offered q.heap
      → KeepsBest q.limit
          ((priority_or priority roll, value) ∷ offered)
          (add lib value priority roll q).0.heap
  unfolding add
  add-KeepsBest q offered value priority roll k = elim (Bool-cases (leb q.limit 0)) [
    | inl closed ↦ rw closed (
        let e : q.limit ≡ 0 = ground arith in
        subst (λ n. KeepsBest n ((priority_or priority roll, value) ∷ offered) q.heap) (sym e)
          (refuse_all offered q.heap (priority_or priority roll, value)
            (subst (λ n. KeepsBest n offered q.heap) e k)))
    | inr open' ↦ rw open' (
        store-KeepsBest (record q { seen = q.seen + 1 }) offered value (priority_or priority roll)
          (ground arith) k)
  ]

  pub add_counts :
      (q : Queue lib) (value : V) (priority : Option ℕ) (roll : ℕ)
      → ((add lib value priority roll q).0.limit ≡ q.limit)
        × ((add lib value priority roll q).0.seen ≡ q.seen + 1)
  unfolding add replace
  add_counts q value priority roll = ground arith

  -- A new queue has been offered nothing.
  pub create-KeepsBest :
      (limit : Option ℕ) → KeepsBest (create lib limit).limit [] (create lib limit).heap
  unfolding create
  create-KeepsBest limit = (
    [],
    record {
      perm = rw entries-empty Perm.nil;
      best = λ x y mx my. absurd (not-mem-nil my);
      bounded = rw entries-empty (omega arith);
      full = inl refl;
    },
  )
