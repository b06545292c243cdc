-- ===== src/PriorityQueue/Kept.antt =====
-- Which entries a heap of lib/priority-queue.js keeps of those offered, and how one insertion or
-- extraction changes that.
use mathlib.Core.List.{not-mem-nil, mem-cons, mem-cons_self, mem-cons_of_mem}
use mathlib.Core.List.{perm_middle}
use mathlib.Core.List.Perm
use mathlib.Core.Logic.Or
use native.Mathlib.Bridge.{le_prop}
use native.Mathlib.Nat.{le_trans}
use node_newrelic.PriorityQueue.{HeapLib, raw_nodes}
use node_newrelic.Shared.{
  ℕ, suc, ◌≤◌, ◌<◌, ◌≡◌, ap, ◌⊎◌, inl, inr, some, List, [], ◌∷◌, ◌++◌, Mem, Perm, length,
  length-perm, arith, Option-cases,
}

module _ {V : Type 0} (lib : HeapLib V) where
  open lib use {
    Heap, insert, find_minimum, extract_minimum, node_count, forest, insert-perm, find_none,
    find_least, extract-perm, count-length,
  }

  abbrev pub entries : Heap → List (ℕ × V)
  entries h = raw_nodes (forest h)

  abbrev pub AllAbove : List (ℕ × V) → List (ℕ × V) → Type 0
  AllAbove kept dropped = (x y : ℕ × V) → Mem x kept → Mem y dropped → y.0 ≤ x.0

  -- Of all entries offered, `h` holds the best and `dropped` the rest; nothing is dropped below
  -- the limit.
  pub record Keeps (limit : ℕ) (offered dropped : List (ℕ × V)) (h : Heap) : Type 0 where
    pub perm : Perm offered (entries h ++ dropped)
    pub best : AllAbove (entries h) dropped
    pub bounded : length (entries h) ≤ limit
    pub full : (dropped ≡ []) ⊎ (length (entries h) ≡ limit)

  pub length-insert :
      (k : ℕ) (v : V) (h : Heap) → length (entries (insert k v h)) ≡ suc (length (entries h))
  length-insert k v h = length-perm _ _ (insert-perm k v h)

  pub length-extract :
      (h : Heap) (e : ℕ × V)
      → find_minimum h ≡ some e
      → length (entries h) ≡ suc (length (entries (extract_minimum h)))
  length-extract h e found = length-perm _ _ (extract-perm h e found)

  pub mem-minimum : (h : Heap) (e : ℕ × V) → find_minimum h ≡ some e → Mem e (entries h)
  mem-minimum h e found = (Perm.mem_iff (extract-perm h e found)).1 mem-cons_self

  -- A heap with an entry has a minimum.
  pub minimum_of_pos : (h : Heap) → 0 < length (entries h) → (e : ℕ × V) × (find_minimum h ≡ some e)
  minimum_of_pos h pos = elim (Option-cases (find_minimum h)) [
    | inl e ↦ absurd (omega (arith, ap length (find_none h e)))
    | inr found ↦ found
  ]

  -- Taking the minimum out of a heap moves it to the dropped ones.
  pub extract-AllAbove :
      (h : Heap) (e : ℕ × V) (dropped : List (ℕ × V))
      → find_minimum h ≡ some e
      → AllAbove (entries h) dropped
      → AllAbove (entries (extract_minimum h)) (e ∷ dropped)
  extract-AllAbove h e dropped found best x y mx my =
      let mh : Mem x (entries h) =
        (Perm.mem_iff (extract-perm h e found)).1 (mem-cons_of_mem e mx) in
      Or.elim le_prop (mem-cons.0 my) (λ here. rw here (find_least h e found x mh))
        (λ there. best x y mh there)

  pub extract-perm-dropped :
      (h : Heap) (e : ℕ × V) (dropped : List (ℕ × V))
      → find_minimum h ≡ some e
      → Perm (entries h ++ dropped) (entries (extract_minimum h) ++ e ∷ dropped)
  extract-perm-dropped h e dropped found =
      Perm.trans (Perm.append_right dropped (extract-perm h e found))
        (Perm.symm (perm_middle (entries (extract_minimum h)) dropped))

  insert-perm-offered :
      (k : ℕ) (v : V) (h : Heap) (offered dropped : List (ℕ × V))
      → Perm offered (entries h ++ dropped)
      → Perm ((k, v) ∷ offered) (entries (insert k v h) ++ dropped)
  insert-perm-offered k v h offered dropped p =
      Perm.trans (Perm.cons (k, v) p) (Perm.append_right dropped (Perm.symm (insert-perm k v h)))

  insert-AllAbove :
      (k : ℕ) (v : V) (h : Heap) (dropped : List (ℕ × V))
      → AllAbove (entries h) dropped
      → ((y : ℕ × V) → Mem y dropped → y.0 ≤ k)
      → AllAbove (entries (insert k v h)) dropped
  insert-AllAbove k v h dropped best above x y mx my =
      Or.elim le_prop (mem-cons.0 ((Perm.mem_iff (insert-perm k v h)).0 mx))
        (λ here. rw here (above y my)) (λ there. best x y there my)

  module _ (limit : ℕ) (offered dropped : List (ℕ × V)) (h : Heap) (v : V) (p : ℕ) where
    pub insert-Keeps :
        length (entries h) < limit
        → Keeps limit offered dropped h
        → Keeps limit ((p, v) ∷ offered) dropped (insert p v h)
    insert-Keeps room k =
        let empty : dropped ≡ [] = ground (arith, k.full) in
        record {
          perm = insert-perm-offered p v h offered dropped k.perm;
          best =
              insert-AllAbove p v h dropped k.best (λ y my. absurd (not-mem-nil (rw empty at my)));
          bounded = omega (arith, length-insert p v h);
          full = inl empty;
        }

    pub refuse-Keeps :
        (least : ℕ × V)
        → find_minimum h ≡ some least
        → p ≤ least.0
        → length (entries h) ≡ limit
        → Keeps limit offered dropped h
        → Keeps limit ((p, v) ∷ offered) ((p, v) ∷ dropped) h
    refuse-Keeps least found low full k = record {
      perm = Perm.trans (Perm.cons (p, v) k.perm) (Perm.symm (perm_middle (entries h) dropped));
      best = λ x y mx my.
          Or.elim le_prop (mem-cons.0 my)
            (λ here. rw here (le_trans low (find_least h least found x mx))) (k.best x y mx);
      bounded = k.bounded;
      full = inr full;
    }

    pub evict-Keeps :
        (least m : ℕ × V)
        → find_minimum h ≡ some least
        → find_minimum (insert p v h) ≡ some m
        → least.0 < p
        → length (entries h) ≡ limit
        → Keeps limit offered dropped h
        → Keeps limit ((p, v) ∷ offered) (m ∷ dropped) (extract_minimum (insert p v h))
    evict-Keeps least m found top high full k = record {
      perm =
          Perm.trans (insert-perm-offered p v h offered dropped k.perm)
            (extract-perm-dropped (insert p v h) m dropped top);
      best = extract-AllAbove (insert p v h) m dropped top (
          insert-AllAbove p v h dropped k.best
            (λ y my. omega (arith, k.best least y (mem-minimum h least found) my)));
      bounded = omega (arith, length-insert p v h, length-extract (insert p v h) m top);
      full = inr (omega (arith, length-insert p v h, length-extract (insert p v h) m top));
    }
