-- ===== src/Shared/Dict.antt =====
-- A JavaScript object used as a map: an association list in the order of first insertion, with
-- the laws of lookup. Keys that look like numbers are taken like any other.
use node_newrelic.Shared.{
  suc, length, ap, inl, inr, Bool-cases, String, ◌≡◌, refl, Option, none, some, List, [], ◌∷◌,
  arith, str_eq, eq_iff, eq_refl, if◌then◌else◌,
}

abbrev pub Dict {ℓ} : Type ℓ → Type ℓ
Dict V = List (String × V)

module _ {ℓ} {V : Type ℓ} where
  abbrev pub lookup : String → Dict V → Option V
  lookup k [] = none
  lookup k ((j, v) ∷ m) = if str_eq j k then some v else lookup k m

  -- `m[k] = v`: in place for a key that is there, else at the end.
  abbrev pub insert : String → V → Dict V → Dict V
  insert k v [] = (k, v) ∷ []
  insert k v ((j, w) ∷ m) = if str_eq j k then (j, v) ∷ m else (j, w) ∷ insert k v m

  -- `delete m[k]`
  abbrev pub remove : String → Dict V → Dict V
  remove k [] = []
  remove k ((j, w) ∷ m) = if str_eq j k then m else (j, w) ∷ remove k m

  abbrev pub keys : Dict V → List String
  keys [] = []
  keys ((j, w) ∷ m) = j ∷ keys m

  -- No key twice, which an object keeps by itself.
  abbrev pub IsDistinct : Dict V → Type ℓ
  IsDistinct [] = Unit
  IsDistinct ((j, w) ∷ m) = (lookup j m ≡ none) × IsDistinct m

  pub lookup-insert :
      (k j : String) (v : V) (m : Dict V)
      → lookup j (insert k v m) ≡ (if str_eq k j then some v else lookup j m)
  lookup-insert k j v [] = refl
  lookup-insert k j v ((i, w) ∷ m) =
      ground (arith, eq_iff k j, eq_iff i k, eq_iff i j, lookup-insert k j v m)

  pub lookup-insert_self : (k : String) (v : V) (m : Dict V) → lookup k (insert k v m) ≡ some v
  lookup-insert_self k v m = simp (lookup-insert, eq_refl)

  pub insert-IsDistinct :
      (k : String) (v : V) (m : Dict V) → IsDistinct m → IsDistinct (insert k v m)
  insert-IsDistinct k v [] d = (refl, tt)
  insert-IsDistinct k v ((i, w) ∷ m) d =
      ground (arith, insert-IsDistinct k v m d.1, lookup-insert k i v m, eq_iff i k, eq_iff k i)

  pub remove-lookup :
      (k j : String) (m : Dict V)
      → IsDistinct m
      → lookup j (remove k m) ≡ (if str_eq k j then none else lookup j m)
  remove-lookup k j [] d = ground arith
  remove-lookup k j ((i, w) ∷ m) d =
      ground (arith, remove-lookup k j m d.1, eq_iff k j, eq_iff i k, eq_iff i j)

  pub remove-IsDistinct : (k : String) (m : Dict V) → IsDistinct m → IsDistinct (remove k m)
  remove-IsDistinct k [] d = tt
  remove-IsDistinct k ((i, w) ∷ m) d =
      ground (arith, remove-IsDistinct k m d.1, remove-lookup k i m d.1, eq_iff i k, eq_iff k i)

  pub length-remove :
      (k : String) (own : V) (m : Dict V)
      → lookup k m ≡ some own
      → suc (length (remove k m)) ≡ length m
  length-remove k own [] e = absurd cc
  length-remove k own ((j, w) ∷ m) e = elim (Bool-cases (str_eq j k)) [
    | inl same ↦ rw same refl
    | inr differs ↦ rw differs (ap suc (length-remove k own m (rw differs at e)))
  ]

  pub length-insert_new :
      (k : String) (s : V) (m : Dict V) → lookup k m ≡ none → length (insert k s m) ≡ suc (length m)
  length-insert_new k s [] e = refl
  length-insert_new k s ((j, w) ∷ m) e = elim (Bool-cases (str_eq j k)) [
    | inl same ↦ absurd (let e' = rw same at e in cc)
    | inr differs ↦ rw differs (ap suc (length-insert_new k s m (rw differs at e)))
  ]

  pub length-insert_old :
      (k : String) (s own : V) (m : Dict V)
      → lookup k m ≡ some own
      → length (insert k s m) ≡ length m
  length-insert_old k s own [] e = absurd cc
  length-insert_old k s own ((j, w) ∷ m) e = elim (Bool-cases (str_eq j k)) [
    | inl same ↦ rw same refl
    | inr differs ↦ rw differs (ap suc (length-insert_old k s own m (rw differs at e)))
  ]
