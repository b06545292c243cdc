-- ===== src/PriorityQueue/Merge.antt =====
-- lib/priority-queue.js: `merge` of an array or of a queue, `setLimit`, and the two walks.
use mathlib.Core.List.{perm_middle, mem-cons_of_mem}
use mathlib.Core.List.Perm
use node_newrelic.PriorityQueue.{
  Forest, last, node, HeapLib, Queue, raw_nodes, serialize_heap, priority_or, size, add,
  merge_events, drain, merge_queue, get_raw_events, to_array,
}
use node_newrelic.PriorityQueue.Kept.{entries, length-extract, mem-minimum, extract-perm-dropped}
use node_newrelic.PriorityQueue.TopK.{
  chosen, KeepsBest, KeepsBest-perm, add-KeepsBest, add_counts, nothing_held,
}
use node_newrelic.Shared.{
  ℕ, zero, suc, ◌≤◌, ◌<◌, ◌≡◌, refl, sym, ap, ap₂, ◌∙◌, inl, inr, Option, some, List, [], ◌∷◌, ◌++◌,
  map, Mem, length, arith, Option-cases, subst,
}

map-append_lem {ℓ κ} :
    {A : Type ℓ} {B : Type κ} (f : A → B) (xs ys : List A) → map f (xs ++ ys) ≡ map f xs ++ map f ys
map-append_lem f [] ys = refl
map-append_lem f (x ∷ xs) ys = ap (◌∷◌ (f x)) (map-append_lem f xs ys)

serialize_heap-raw_nodes :
    {V : Type 0} (forest : Forest V) → serialize_heap forest ≡ map (λ e. e.1) (raw_nodes forest)
unfolding serialize_heap raw_nodes
serialize_heap-raw_nodes last = refl
serialize_heap-raw_nodes (node key value child next) = ap (◌∷◌ value) (
    ap₂ ◌++◌ (serialize_heap-raw_nodes child) (serialize_heap-raw_nodes next)
    ∙ sym (map-append_lem (λ e. e.1) (raw_nodes child) (raw_nodes next)))

priority_or_pos : (p roll : ℕ) → 0 < p → priority_or (some p) roll ≡ p
unfolding priority_or
priority_or_pos zero roll h = absurd (omega arith)
priority_or_pos (suc p) roll h = refl

module _ {V : Type 0} (lib : HeapLib V) where
  open lib use {
    Heap, insert, find_minimum, extract_minimum, node_count, forest, find_none, extract-perm,
    count-length, entries-empty,
  }

  -- The two exports of a queue agree, and neither loses an entry when the heap has no minimum:
  -- `toArray` lists the values of `getRawEvents`, which lists every entry of the heap.
  pub to_array-get_raw_events :
      (q : Queue lib)
      → (to_array lib q ≡ map (λ e. e.1) (get_raw_events lib q))
        × (get_raw_events lib q ≡ entries lib q.heap)
  unfolding to_array get_raw_events
  to_array-get_raw_events q = elim (Option-cases (find_minimum q.heap)) [
    | inl missing ↦ rw (missing, to_array, get_raw_events) (refl, sym (find_none q.heap missing))
    | inr (m, found) ↦
        rw (found, to_array, get_raw_events) (serialize_heap-raw_nodes (forest q.heap), refl)
  ]

  pub at_limit :
      (m n : ℕ) (offered : List (ℕ × V)) (h : Heap)
      → m ≡ n
      → KeepsBest lib m offered h
      → KeepsBest lib n offered h
  at_limit m n offered h e k = subst (λ l. KeepsBest lib l offered h) e k

  pub limit-merge_events :
      (events : List (Option ℕ × V × ℕ)) (q : Queue lib)
      → (merge_events lib events q).limit ≡ q.limit
  unfolding merge_events
  limit-merge_events [] q = refl
  limit-merge_events ((priority, value, roll) ∷ events) q =
      limit-merge_events events (add lib value priority roll q).0
      ∙ (add_counts lib q value priority roll).0

  -- `merge` of an array offers each of its entries: the queue holds the best of them and of what
  -- it was offered before.
  pub merge_events-KeepsBest :
      (q : Queue lib) (offered : List (ℕ × V)) (events : List (Option ℕ × V × ℕ))
      → KeepsBest lib q.limit offered q.heap
      → KeepsBest lib q.limit (map chosen events ++ offered) (merge_events lib events q).heap
  unfolding merge_events
  merge_events-KeepsBest q offered [] k = k
  merge_events-KeepsBest q offered ((priority, value, roll) ∷ events) k =
      let q' = (add lib value priority roll q).0 in
      let e : q'.limit ≡ q.limit = (add_counts lib q value priority roll).0 in
      let rest =
        merge_events-KeepsBest q' ((priority_or priority roll, value) ∷ offered) events
          (at_limit _ _ _ _ (sym e) (add-KeepsBest lib q offered value priority roll k)) in
      KeepsBest-perm lib q.limit _ _ _ (Perm.symm (perm_middle (map chosen events) offered))
        (at_limit _ _ _ _ e rest)

  abbrev pub AllPositive : Heap → Type 0
  AllPositive h = (x : ℕ × V) → Mem x (entries lib h) → 0 < x.0

  extract-AllPositive :
      (h : Heap) (m : ℕ × V)
      → find_minimum h ≡ some m
      → AllPositive h
      → AllPositive (extract_minimum h)
  extract-AllPositive h m found positive x mx =
      positive x ((Perm.mem_iff (extract-perm h m found)).1 (mem-cons_of_mem m mx))

  drain-KeepsBest :
      (fuel : ℕ) (rolls : ℕ → ℕ) (events q : Queue lib) (offered : List (ℕ × V))
      → length (entries lib events.heap) ≤ fuel
      → AllPositive events.heap
      → KeepsBest lib q.limit offered q.heap
      → KeepsBest lib q.limit
          (entries lib events.heap ++ offered)
          (drain lib fuel rolls events q).0.heap
  unfolding drain
  drain-KeepsBest zero rolls events q offered short positive k =
      rw (nothing_held lib events.heap short) k
  drain-KeepsBest (suc fuel) rolls events q offered short positive k =
      elim (Option-cases (find_minimum events.heap)) [
        | inl missing ↦ rw (missing, drain) (rw (find_none events.heap missing) k)
        | inr ((key, value), found) ↦
            let events' : Queue lib = record events { heap = extract_minimum events.heap } in
            let q' : Queue lib = (add lib value (some key) (rolls fuel) q).0 in
            let e : q'.limit ≡ q.limit = (add_counts lib q value (some key) (rolls fuel)).0 in
            let pos : 0 < key = positive (key, value) (mem-minimum lib _ _ found) in
            let first : KeepsBest lib q'.limit ((key, value) ∷ offered) q'.heap =
              at_limit _ _ _ _ (sym e) (
                subst (λ p. KeepsBest lib q.limit ((p, value) ∷ offered) q'.heap)
                  (priority_or_pos key (rolls fuel) pos)
                  (add-KeepsBest lib q offered value (some key) (rolls fuel) k)) in
            rw (found, drain)
              (KeepsBest-perm lib q.limit _ _ _
                (extract-perm-dropped lib events.heap (key, value) offered found)
                (at_limit _ _ _ _ e (
                  drain-KeepsBest fuel rolls events' q' ((key, value) ∷ offered)
                    (omega (arith, length-extract lib events.heap (key, value) found))
                    (extract-AllPositive events.heap (key, value) found positive) first)))
      ]

  drain-empty :
      (fuel : ℕ) (rolls : ℕ → ℕ) (events q : Queue lib)
      → length (entries lib events.heap) ≤ fuel
      → entries lib (drain lib fuel rolls events q).1.heap ≡ []
  unfolding drain
  drain-empty zero rolls events q short = nothing_held lib events.heap short
  drain-empty (suc fuel) rolls events q short = elim (Option-cases (find_minimum events.heap)) [
    | inl missing ↦ rw (missing, drain) (find_none events.heap missing)
    | inr (m, found) ↦
        rw (found, drain)
          (drain-empty fuel rolls (record events { heap = extract_minimum events.heap })
            (add lib m.1 (some m.0) (rolls fuel) q).0
            (omega (arith, length-extract lib events.heap m found)))
  ]

  -- Merging a queue whose priorities are all positive drains it, and leaves the best entries of
  -- both queues.
  pub merge_queue-KeepsBest :
      (rolls : ℕ → ℕ) (events q : Queue lib) (offered : List (ℕ × V))
      → AllPositive events.heap
      → KeepsBest lib q.limit offered q.heap
      → KeepsBest lib q.limit
          (entries lib events.heap ++ offered)
          (merge_queue lib rolls events q).0.heap
        × (entries lib (merge_queue lib rolls events q).1.heap ≡ [])
  unfolding merge_queue size
  merge_queue-KeepsBest rolls events q offered positive k =
      let enough : length (entries lib events.heap) ≤ node_count events.heap =
        omega (arith, count-length events.heap) in
      (
        drain-KeepsBest (node_count events.heap) rolls events q offered enough positive k,
        drain-empty (node_count events.heap) rolls events q enough,
      )

  limit-drain :
      (fuel : ℕ) (rolls : ℕ → ℕ) (events q : Queue lib)
      → (drain lib fuel rolls events q).0.limit ≡ q.limit
  unfolding drain
  limit-drain zero rolls events q = refl
  limit-drain (suc fuel) rolls events q = elim (Option-cases (find_minimum events.heap)) [
    | inl missing ↦ rw (missing, drain) refl
    | inr ((key, value), found) ↦
        rw (found, drain)
          (limit-drain fuel rolls (record events { heap = extract_minimum events.heap })
              (add lib value (some key) (rolls fuel) q).0
            ∙ (add_counts lib q value (some key) (rolls fuel)).0)
  ]

  pub limit-merge_queue :
      (rolls : ℕ → ℕ) (events q : Queue lib) → (merge_queue lib rolls events q).0.limit ≡ q.limit
  unfolding merge_queue size
  limit-merge_queue rolls events q = limit-drain (node_count events.heap) rolls events q
