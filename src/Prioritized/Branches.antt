-- ===== src/Prioritized/Branches.antt =====
-- lib/attributes/prioritized.js: addAttribute by its branches.
use node_newrelic.Attributes.{Destinations, Value, is_valid_type, is_valid_length}
use node_newrelic.Prioritized.Dropping.{
  IsLowerIn, IsSame, usable-found, get_droppable_attribute_key-IsFound,
}
use node_newrelic.Prioritized.{
  Priority, is_lower, Attribute, Attributes, get_droppable_attribute_key, usable, is_at, free,
  count_in, set, add_checked, add_attribute,
}
use node_newrelic.Shared.Dict.{lookup, IsDistinct}
use node_newrelic.Shared.{
  ◌≡◌, refl, inl, inr, String, Bool, true, false, Option, none, some, Bool-cases, Option-cases,
}

module _ {D : Type 0} where
  -- What holds of the attributes as they are, and with the attribute set, holds after the tests.
  add_checked-either :
      (dests : Destinations D) (P : Attributes D → Type 0) (existing : Bool)
      (droppable : Option String) (d : D) (key : String) (v : Value) (x : Bool) (p : Priority)
      (a : Attributes D)
      → P a
      → ((valid : D) → P (set valid key v x p (count_in existing (free droppable a))))
      → P (add_checked dests existing droppable d key v x p a)
  unfolding add_checked
  add_checked-either dests P existing droppable d key v x p a left stored =
      elim (Bool-cases (is_valid_type v)) [
        | inr bad ↦ rw bad left
        | inl typed ↦ rw typed (elim (Bool-cases (is_valid_length key)) [
          | inr long ↦ rw long left
          | inl short ↦ rw short (elim (Bool-cases (dests.is_empty (dests.filter d key))) [
            | inl shown ↦ rw shown left
            | inr shown ↦ rw shown (stored (dests.filter d key))
          ])
        ])
      ]

-- What `addAttribute` leaves, in each of its branches.
module _ {D : Type 0} (dests : Destinations D) (P : Attributes D → Type 0) (d : D) (key : String)
    (v : Value) (x : Bool) (p : Priority) (a : Attributes D) where
  replaced-either :
      (droppable : Option String) (b : Attributes D)
      → P b
      → ((old : String) (valid : D)
          → droppable ≡ some old
          → P (set valid key v x p (count_in false (free (some old) b))))
      → P (elim droppable [
        | none ↦ b
        | some old ↦ add_checked dests false (some old) d key v x p b
      ])
  replaced-either none b left stored = left
  replaced-either (some old) b left stored =
      add_checked-either dests P false (some old) d key v x p b left
        (λ valid. stored old valid refl)

  pub add_attribute-either :
      IsDistinct a.attributes
      → ((b : Attributes D) → IsSame a b → P b)
      → ((own : Attribute D) (valid : D)
          → lookup key a.attributes ≡ some own
          → P (set valid key v x p (count_in true (free none a))))
      → ((valid : D)
          → lookup key a.attributes ≡ none
          → is_at a.attribute_count a.limit ≡ false
          → P (set valid key v x p (count_in false (free none a))))
      → ((old : String) (valid : D) (b : Attributes D)
          → lookup key a.attributes ≡ none
          → IsSame a b
          → IsLowerIn p a.attributes old
          → P (set valid key v x p (count_in false (free (some old) b))))
      → P (add_attribute dests d key v x p a)
  unfolding add_attribute
  add_attribute-either distinct left updated added replaced =
      elim (Option-cases (lookup key a.attributes)) [
        | inr (own, here) ↦
            rw (add_attribute, here)
              (elim (Bool-cases (is_lower p own.priority)) [
                | inl lower ↦ rw lower (left a (refl, refl, refl))
                | inr other ↦ rw other (
                    add_checked-either dests P true none d key v x p a (left a (refl, refl, refl))
                      (λ valid. updated own valid here))
              ])
        | inl new ↦
            rw (add_attribute, new)
              (elim (Bool-cases (is_at a.attribute_count a.limit)) [
                | inr room ↦ rw room (
                    add_checked-either dests P false none d key v x p a (left a (refl, refl, refl))
                      (λ valid. added valid new room))
                | inl full ↦
                    let (lower, same) = get_droppable_attribute_key-IsFound p a distinct in
                    rw full (
                      replaced-either (usable (get_droppable_attribute_key p a).0)
                        (get_droppable_attribute_key p a).1 (left _ same)
                        (λ old valid e.
                          replaced old valid _ new same (lower old (usable-found _ old e))))
              ])
      ]
