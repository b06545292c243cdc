-- ===== src/PriorityQueue/ListHeap.antt =====
-- A heap kept as a plain list, which fills the interface that lib/priority-queue.js relies on.
use mathlib.Core.List.{not-mem-nil, mem-cons}
use mathlib.Core.List.Perm
use mathlib.Core.Logic.Or
use native.Mathlib.Bridge.{le_prop}
use node_newrelic.PriorityQueue.{Forest, last, node, raw_nodes, HeapOps, HeapLib}
use node_newrelic.Shared.{
  ℕ, ◌≤◌, ◌≡◌, refl, ap, inl, inr, Option, none, some, List, [], ◌∷◌, Mem, Perm, length, ltb,
  if◌then◌else◌, arith, Bool-cases, subst,
}

module _ {V : Type 0} where
  abbrev pub smaller : ℕ × V → ℕ × V → ℕ × V
  smaller a b = if ltb b.0 a.0 then b else a

  abbrev pub larger : ℕ × V → ℕ × V → ℕ × V
  larger a b = if ltb b.0 a.0 then a else b

  abbrev pub least : ℕ × V → List (ℕ × V) → ℕ × V
  least e [] = e
  least e (x ∷ xs) = least (smaller e x) xs

  abbrev pub others : ℕ × V → List (ℕ × V) → List (ℕ × V)
  others e [] = []
  others e (x ∷ xs) = larger e x ∷ others (smaller e x) xs

  abbrev pub minimum : List (ℕ × V) → Option (ℕ × V)
  minimum [] = none
  minimum (x ∷ xs) = some (least x xs)

  abbrev pub without_minimum : List (ℕ × V) → List (ℕ × V)
  without_minimum [] = []
  without_minimum (x ∷ xs) = others x xs

  abbrev pub siblings : List (ℕ × V) → Forest V
  siblings [] = last
  siblings (x ∷ xs) = node x.0 x.1 last (siblings xs)

  pub raw_nodes-siblings : (xs : List (ℕ × V)) → raw_nodes (siblings xs) ≡ xs
  unfolding raw_nodes
  raw_nodes-siblings [] = refl
  raw_nodes-siblings (x ∷ xs) = ap (◌∷◌ x) (raw_nodes-siblings xs)

  least-le : (e : ℕ × V) (xs : List (ℕ × V)) → (least e xs).0 ≤ e.0
  least-le e [] = omega arith
  least-le e (x ∷ xs) = ground (arith, least-le (smaller e x) xs)

  least-le_mem : (e : ℕ × V) (xs : List (ℕ × V)) (y : ℕ × V) → Mem y (e ∷ xs) → (least e xs).0 ≤ y.0
  least-le_mem e [] y my =
      Or.elim le_prop (mem-cons.0 my) (λ here. rw here (omega arith))
        (λ there. absurd (not-mem-nil there))
  least-le_mem e (x ∷ xs) y my =
      Or.elim le_prop (mem-cons.0 my) (λ here. rw here (ground (arith, least-le (smaller e x) xs)))
        (λ there.
          Or.elim le_prop (mem-cons.0 there)
            (λ next. rw next (ground (arith, least-le (smaller e x) xs)))
            (λ later. least-le_mem (smaller e x) xs y ((mem-cons {a = y}).1 (Or.inr later))))

  least-perm : (e : ℕ × V) (xs : List (ℕ × V)) → Perm (e ∷ xs) (least e xs ∷ others e xs)
  least-perm e [] = Perm.rfl
  least-perm e (x ∷ xs) = elim (Bool-cases (ltb x.0 e.0)) [
    | inl lt ↦
        rw (lt, least, others)
          (Perm.trans (Perm.cons e (least-perm x xs)) (Perm.swap (least x xs) e (others x xs)))
    | inr ge ↦
        rw (ge, least, others)
          (Perm.trans (Perm.swap x e xs)
            (Perm.trans (Perm.cons x (least-perm e xs)) (Perm.swap (least e xs) x (others e xs))))
  ]

  abbrev pub list_heap_ops : HeapOps V
  list_heap_ops = record {
    Heap = List (ℕ × V);
    empty = [];
    insert = λ k v h. (k, v) ∷ h;
    find_minimum = minimum;
    extract_minimum = without_minimum;
    node_count = length;
    forest = siblings;
  }

  pub list_heap_least :
      (h : List (ℕ × V)) (e : ℕ × V) → minimum h ≡ some e → (x : ℕ × V) → Mem x h → e.0 ≤ x.0
  list_heap_least [] e found x mx = cc
  list_heap_least (y ∷ ys) e found x mx = ground (arith, least-le_mem y ys x mx)

  pub list_heap_extract :
      (h : List (ℕ × V)) (e : ℕ × V) → minimum h ≡ some e → Perm h (e ∷ without_minimum h)
  list_heap_extract [] e found = cc
  list_heap_extract (y ∷ ys) e found =
      let same : least y ys ≡ e = cc in
      subst (λ m. Perm (y ∷ ys) (m ∷ others y ys)) same (least-perm y ys)

  pub list_heap_none : (h : List (ℕ × V)) → minimum h ≡ none → h ≡ []
  list_heap_none [] found = refl
  list_heap_none (y ∷ ys) found = cc

  abbrev pub list_heap : HeapLib V
  list_heap = record {
    ops = list_heap_ops;
    entries-empty = raw_nodes-siblings [];
    insert-perm = λ k v h.
        rw (raw_nodes-siblings ((k, v) ∷ h), raw_nodes-siblings h) (Perm.refl ((k, v) ∷ h));
    find_none = λ h missing. rw (raw_nodes-siblings h) (list_heap_none h missing);
    find_least = λ h e found x mx. list_heap_least h e found x (rw (raw_nodes-siblings h) at mx);
    extract-perm = λ h e found.
        rw (raw_nodes-siblings h, raw_nodes-siblings (without_minimum h))
          (list_heap_extract h e found);
    count-length = λ h. rw (raw_nodes-siblings h);
  }
