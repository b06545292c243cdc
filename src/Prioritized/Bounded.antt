-- ===== src/Prioritized/Bounded.antt =====
-- lib/attributes/prioritized.js: the number of attributes and the attributes that an insertion keeps.
use node_newrelic.Attributes.{Destinations, Value}
use node_newrelic.Prioritized.Dropping.{IsSame}
use node_newrelic.Prioritized.Branches.{add_attribute-either}
use node_newrelic.Prioritized.{
  Priority, Attribute, Attributes, is_at, free, count_in, set, add_attribute,
}
use node_newrelic.Shared.Dict.{
  lookup, remove, IsDistinct, length-insert_new, length-insert_old, length-remove, remove-lookup,
  insert-IsDistinct, remove-IsDistinct,
}
use node_newrelic.Shared.{
  ℕ, suc, ◌+◌, ◌-◌, ◌≤◌, ◌≡◌, refl, sym, ap, ◌∙◌, String, Bool, true, false, Option, none, some,
  if◌then◌else◌, length, str_eq, arith, subst,
}

grown_by_one : (n m k : ℕ) → n ≡ m → k ≡ suc m → n + 1 ≡ k
grown_by_one n m k counted size = omega arith

swapped : (n m r k : ℕ) → n ≡ m → suc r ≡ m → k ≡ suc r → n - 1 + 1 ≡ k
swapped n m r k counted fewer size = omega arith

swapped_below : (n m r limit : ℕ) → n ≡ m → suc r ≡ m → n ≤ limit → n - 1 + 1 ≤ limit
swapped_below n m r limit counted fewer most = omega arith

room_below : (count n : ℕ) → is_at count (some n) ≡ false → count ≤ n → count + 1 ≤ n
room_below count n room most = ground arith

none_both : {A : Type 0} (b : Bool) → if◌then◌else◌ {A = Option A} b none none ≡ none
none_both false = refl
none_both true = refl

module _ {D : Type 0} where
  -- The count is that of the attributes, and at most the limit.
  pub record IsWithin (a : Attributes D) : Type 0 where
    pub distinct : IsDistinct a.attributes
    pub counted : a.attribute_count ≡ length a.attributes
    pub bounded : (limit : ℕ) → a.limit ≡ some limit → a.attribute_count ≤ limit

  IsWithin-transport : (a b : Attributes D) → IsSame a b → IsWithin a → IsWithin b
  IsWithin-transport a b (attributes, count, limit) w = record {
    distinct = subst IsDistinct (sym attributes) w.distinct;
    counted = count ∙ w.counted ∙ ap length (sym attributes);
    bounded = λ n e. subst (λ x. x ≤ n) (sym count) (w.bounded n (sym limit ∙ e));
  }

  below_limit :
      (a : Attributes D)
      → IsWithin a
      → is_at a.attribute_count a.limit ≡ false
      → (n : ℕ) → a.limit ≡ some n
      → a.attribute_count + 1 ≤ n
  below_limit a w room n e = room_below a.attribute_count n (rw e at room) (w.bounded n e)

  set_old-IsWithin :
      (d : D) (key : String) (v : Value) (x : Bool) (p : Priority) (a : Attributes D)
      (own : Attribute D)
      → IsWithin a
      → lookup key a.attributes ≡ some own
      → IsWithin (set d key v x p (count_in true (free none a)))
  unfolding set count_in free
  set_old-IsWithin d key v x p a own w e = record {
    distinct = insert-IsDistinct key _ a.attributes w.distinct;
    counted = w.counted ∙ sym (length-insert_old key _ own a.attributes e);
    bounded = w.bounded;
  }

  set_new-IsWithin :
      (d : D) (key : String) (v : Value) (x : Bool) (p : Priority) (a : Attributes D)
      → IsWithin a
      → lookup key a.attributes ≡ none
      → is_at a.attribute_count a.limit ≡ false
      → IsWithin (set d key v x p (count_in false (free none a)))
  unfolding set count_in free
  set_new-IsWithin d key v x p a w e room = record {
    distinct = insert-IsDistinct key _ a.attributes w.distinct;
    counted = grown_by_one _ _ _ w.counted (length-insert_new key _ a.attributes e);
    bounded = below_limit a w room;
  }

  set_instead-IsWithin :
      (d : D) (key : String) (v : Value) (x : Bool) (p : Priority) (a : Attributes D) (old : String)
      (own : Attribute D)
      → IsWithin a
      → lookup key a.attributes ≡ none
      → lookup old a.attributes ≡ some own
      → IsWithin (set d key v x p (count_in false (free (some old) a)))
  unfolding set count_in free
  set_instead-IsWithin d key v x p a old own w e there =
      let size = length-remove old own a.attributes there in
      let free_key : lookup key (remove old a.attributes) ≡ none =
        remove-lookup old key a.attributes w.distinct ∙ rw e (none_both (str_eq old key)) in
      record {
        distinct =
            insert-IsDistinct key _ (remove old a.attributes)
              (remove-IsDistinct old a.attributes w.distinct);
        counted =
            swapped _ _ _ _ w.counted size
              (length-insert_new key _ (remove old a.attributes) free_key);
        bounded = λ n l. swapped_below _ _ _ n w.counted size (w.bounded n l);
      }

  -- Adding an attribute keeps the keys distinct, the count that of the attributes, and the count at
  -- most the limit.
  pub add_attribute-IsWithin :
      (dests : Destinations D) (d : D) (key : String) (v : Value) (x : Bool) (p : Priority)
      (a : Attributes D)
      → IsWithin a
      → IsWithin (add_attribute dests d key v x p a)
  add_attribute-IsWithin dests d key v x p a w =
      add_attribute-either dests IsWithin d key v x p a w.distinct
        (λ b same. IsWithin-transport a b same w)
        (λ own valid here. set_old-IsWithin valid key v x p a own w here)
        (λ valid new room. set_new-IsWithin valid key v x p a w new room)
        (λ old valid b new same (own, there, lower).
          set_instead-IsWithin valid key v x p b old own (IsWithin-transport a b same w)
            (ap (lookup key) same.0 ∙ new) (ap (lookup old) same.0 ∙ there))
