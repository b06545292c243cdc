-- ===== src/PriorityQueue.antt =====
-- lib/priority-queue.js: the bounded reservoir that every event aggregator keeps its events in.
-- The Fibonacci heap under it is a package, so it is the parameter `HeapLib`. Priorities are
-- natural numbers: a priority counts a fixed unit, and only zero, order and equality are used.
use mathlib.Core.Option
use node_newrelic.Shared.{
  ℕ, zero, suc, ◌+◌, ◌-◌, ◌≤◌, ◌≡◌, Bool, true, false, Option, none, some, List, [], ◌∷◌, ◌++◌, map,
  Mem, Perm, length, ltb, leb, ◌==◌, if◌then◌else◌,
}
pub mod Kept
pub mod TopK
pub mod Merge
pub mod Shrinking
pub mod ListHeap
pub mod Tests

-- A heap node as the package links it: the children of a node, and its next sibling.
pub data Forest {ℓ} (V : Type ℓ) : Type ℓ where
  last : Forest V
  node : ℕ → V → Forest V → Forest V → Forest V

-- `_getRawEvents`: each node, then its children, then its next sibling.
pub raw_nodes {ℓ} : {V : Type ℓ} → Forest V → List (ℕ × V)
raw_nodes last = []
raw_nodes (node key value child next) = (key, value) ∷ raw_nodes child ++ raw_nodes next

-- `serializeHeap`, the same walk that keeps the values alone.
pub serialize_heap {ℓ} : {V : Type ℓ} → Forest V → List V
serialize_heap last = []
serialize_heap (node key value child next) = value ∷ serialize_heap child ++ serialize_heap next

-- The operations of `@tyriar/fibonacci-heap` that the queue calls. `forest` is what a walk from
-- the minimum over `next` and `child` meets.
pub record HeapOps (V : Type 0) : Type 1 where
  pub Heap : Type 0
  pub empty : Heap
  pub insert : ℕ → V → Heap → Heap
  pub find_minimum : Heap → Option (ℕ × V)
  pub extract_minimum : Heap → Heap
  pub node_count : Heap → ℕ
  pub forest : Heap → Forest V

-- What the package documents: a heap holds what was inserted and not extracted, and the minimum
-- is a least entry.
pub record HeapLib (V : Type 0) : Type 1 where
  pub ops : HeapOps V
  pub open ops use *
  pub entries-empty : raw_nodes (forest empty) ≡ []
  pub insert-perm :
      (k : ℕ) (v : V) (h : Heap)
      → Perm (raw_nodes (forest (insert k v h))) ((k, v) ∷ raw_nodes (forest h))
  pub find_none : (h : Heap) → find_minimum h ≡ none → raw_nodes (forest h) ≡ []
  pub find_least :
      (h : Heap) (e : ℕ × V)
      → find_minimum h ≡ some e
      → (x : ℕ × V) → Mem x (raw_nodes (forest h))
      → e.0 ≤ x.0
  pub extract-perm :
      (h : Heap) (e : ℕ × V)
      → find_minimum h ≡ some e
      → Perm (raw_nodes (forest h)) (e ∷ raw_nodes (forest (extract_minimum h)))
  pub count-length : (h : Heap) → node_count h ≡ length (raw_nodes (forest h))

-- `priority || Math.random()`: a missing or zero priority is replaced by the roll.
unfoldable pub priority_or : Option ℕ → ℕ → ℕ
priority_or none roll = roll
priority_or (some zero) roll = roll
priority_or (some (suc p)) roll = suc p

-- `limit == null ? 10 : limit`
unfoldable pub limit_or_default : Option ℕ → ℕ
limit_or_default none = 10
limit_or_default (some n) = n

module _ {V : Type 0} (lib : HeapLib V) where
  open lib use {Heap, empty, insert, find_minimum, extract_minimum, node_count, forest}

  pub record Queue : Type 0 where
    pub limit : ℕ
    pub seen : ℕ
    pub heap : Heap

  unfoldable pub create : Option ℕ → Queue
  unfolding limit_or_default
  create limit = record { limit = limit_or_default limit; seen = 0; heap = empty }

  pub size : Queue → ℕ
  size q = node_count q.heap

  pub overflow : Queue → ℕ
  overflow q = if leb q.limit q.seen then q.seen - q.limit else 0

  -- The key of the minimum, or 0 below the limit. At limit 0 the source reads the key of a
  -- missing minimum and throws: `none`.
  pub get_minimum_priority : Queue → Option ℕ
  get_minimum_priority q =
      if ltb (size q) q.limit then some 0 else Option.map (λ e. e.0) (find_minimum q.heap)

  -- `_replace`
  pub replace : V → ℕ → Queue → Queue × Bool
  replace value priority q = elim (find_minimum q.heap) [
    | none ↦ (q, false)
    | some least ↦
        if ltb least.0 priority
        then (record q { heap = extract_minimum (insert priority value q.heap) }, true)
        else (q, false)
  ]

  -- The body of `add` behind the limit test, with the priority chosen.
  pub store : V → ℕ → Queue → Queue × Bool
  store value priority q =
      if size q == q.limit
      then replace value priority q
      else (record q { heap = insert priority value q.heap }, true)

  pub add : V → Option ℕ → ℕ → Queue → Queue × Bool
  unfolding store
  add value priority roll q =
      let counted : Queue = record q { seen = q.seen + 1 } in
      if leb q.limit 0 then (counted, false) else store value (priority_or priority roll) counted

  pub get_raw_events : Queue → List (ℕ × V)
  get_raw_events q = elim (find_minimum q.heap) [ none ↦ [] | some _ ↦ raw_nodes (forest q.heap) ]

  pub to_array : Queue → List V
  to_array q = elim (find_minimum q.heap) [ none ↦ [] | some _ ↦ serialize_heap (forest q.heap) ]

  -- `while (this.length > newLimit) extractMinimum()`
  pub shrink : ℕ → ℕ → Heap → Heap
  shrink zero limit h = h
  shrink (suc fuel) limit h = elim (ltb limit (node_count h)) [
    | true ↦ shrink fuel limit (extract_minimum h)
    | false ↦ h
  ]

  -- One round for each node is enough.
  pub set_limit : ℕ → Queue → Queue
  set_limit limit q = record q { limit = limit; heap = shrink (node_count q.heap) limit q.heap }

  -- `merge` of an array of `{value, priority}`, each add with its own roll.
  unfoldable pub merge_events : List (Option ℕ × V × ℕ) → Queue → Queue
  merge_events [] q = q
  merge_events ((priority, value, roll) ∷ events) q =
      merge_events events (add value priority roll q).0

  -- `merge` of a queue: the loop drains `events`. `rolls` gives the roll of the round that has so
  -- many rounds left. The result is this queue and the drained one.
  pub drain : ℕ → (ℕ → ℕ) → Queue → Queue → Queue × Queue
  drain zero rolls events q = (q, events)
  drain (suc fuel) rolls events q = elim (find_minimum events.heap) [
    | none ↦ (q, events)
    | some (key, value) ↦
        drain fuel rolls (record events { heap = extract_minimum events.heap })
          (add value (some key) (rolls fuel) q).0
  ]

  pub merge_queue : (ℕ → ℕ) → Queue → Queue → Queue × Queue
  merge_queue rolls events q = drain (size events) rolls events q
