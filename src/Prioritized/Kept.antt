-- ===== src/Prioritized/Kept.antt =====
-- lib/attributes/prioritized.js: the attributes that an insertion leaves as they are.
use node_newrelic.Attributes.{Destinations, Value}
use node_newrelic.Prioritized.{
  Priority, is_lower, Attribute, Attributes, free, count_in, set, add_attribute,
}
use node_newrelic.Shared.Dict.{
  Dict, lookup, insert, remove, IsDistinct, remove-lookup, lookup-insert,
}
use node_newrelic.Shared.{
  ◌≡◌, sym, ap, ◌∙◌, inl, inr, String, Bool, true, false, some, str_eq, eq_iff, Bool-cases, subst,
}
use node_newrelic.Prioritized.Branches.{add_attribute-either}

IsKept : {D : Type 0} → String → Attribute D → Attributes D → Type 0
IsKept k own a = lookup k a.attributes ≡ some own

lookup-insert_other :
    {A : Type 0} (key k : String) (new own : A) (m : Dict A)
    → str_eq key k ≡ false
    → lookup k m ≡ some own
    → lookup k (insert key new m) ≡ some own
lookup-insert_other key k new own m other e = lookup-insert key k new m ∙ rw other e

differs :
    {D : Type 0} (old k : String) (p : Priority) (low own : Attribute D) (m : Dict (Attribute D))
    → lookup old m ≡ some low
    → lookup k m ≡ some own
    → is_lower low.priority p ≡ true
    → is_lower own.priority p ≡ false
    → str_eq old k ≡ false
differs old k p low own m there here lower not_lower = elim (Bool-cases (str_eq old k)) [
  | inr other ↦ other
  | inl same ↦ absurd (
      let there' = rw ((eq_iff old k).0 same) at there in
      let one : low ≡ own = cc in let lower' = rw one at lower in cc)
]

module _ {D : Type 0} (dests : Destinations D) where
  -- An attribute that is there stays as it is when another key is added with a priority that is not
  -- higher than its own, whatever the limit.
  pub add_attribute-IsKept :
      (d : D) (key : String) (v : Value) (x : Bool) (p : Priority) (a : Attributes D) (k : String)
      (own : Attribute D)
      → IsDistinct a.attributes
      → str_eq key k ≡ false
      → is_lower own.priority p ≡ false
      → lookup k a.attributes ≡ some own
      → lookup k (add_attribute dests d key v x p a).attributes ≡ some own
  unfolding IsKept set count_in free
  add_attribute-IsKept d key v x p a k own distinct other not_lower e =
      add_attribute-either dests (IsKept k own) d key v x p a distinct
        (λ b same. ap (lookup k) same.0 ∙ e)
        (λ _ valid here. lookup-insert_other key k _ own a.attributes other e)
        (λ valid new room. lookup-insert_other key k _ own a.attributes other e)
        (λ old valid b new same (low, there, lower).
          lookup-insert_other key k _ own (remove old b.attributes) other (
            remove-lookup old k b.attributes (subst IsDistinct (sym same.0) distinct)
            ∙ rw (differs old k p low own a.attributes there e lower not_lower)
                (ap (lookup k) same.0 ∙ e)))
