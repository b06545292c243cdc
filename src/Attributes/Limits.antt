-- ===== src/Attributes/Limits.antt =====
-- lib/attributes/index.js: the count of attributes and its limit.
use node_newrelic.Attributes.{
  Destinations, Value, Attributes, is_some, exceeds, is_valid_type, is_valid_length, new_attributes,
  has, set, reset, add_checked, add_attribute, add_attributes,
}
use node_newrelic.Shared.Dict.{Dict, lookup, insert}
use node_newrelic.Shared.{
  ℕ, String, ◌+◌, ◌≡◌, refl, sym, ap, ◌∙◌, inl, inr, Bool, true, false, not, ◌&&◌, Option, none,
  some, if◌then◌else◌, List, [], ◌∷◌, length, arith, str_eq, Bool-cases, subst,
}

length-insert {ℓ} :
    {A : Type ℓ} (k : String) (v : A) (m : Dict A)
    → length (insert k v m) ≡ (if is_some (lookup k m) then length m else length m + 1)
length-insert k v [] = refl
length-insert k v ((j, w) ∷ m) = elim (Bool-cases (str_eq j k)) [
  | inl same ↦ rw same refl
  | inr differs ↦ rw (differs, length-insert k v m) (ground arith)
]

-- The count is that of the attributes, and within the limit.
pub record IsWithin {D : Type 0} (a : Attributes D) : Type 0 where
  pub counted : a.attribute_count ≡ length a.attributes
  pub within : exceeds a.attribute_count a.limit ≡ false

module _ {D : Type 0} (dests : Destinations D) where
  pub new_attributes-IsWithin :
      (limit : Option ℕ) (value_limit : ℕ) → IsWithin (new_attributes dests limit value_limit)
  unfolding new_attributes
  new_attributes-IsWithin none value_limit = record { counted = refl; within = refl }
  new_attributes-IsWithin (some limit) value_limit = record {
    counted = refl;
    within = ground arith;
  }

  set-IsWithin :
      (d : D) (key : String) (value : Value) (exempt : Bool) (a : Attributes D)
      → IsWithin a
      → (not (has dests key a) && exceeds (a.attribute_count + 1) a.limit) ≡ false
      → IsWithin (
          set dests d key value exempt (
            if not (has dests key a)
            then record a { attribute_count = a.attribute_count + 1 }
            else a))
  unfolding set has
  set-IsWithin d key value exempt a w room = elim (Bool-cases (is_some (lookup key a.attributes))) [
    | inl old ↦ rw old (record {
      counted = w.counted ∙ sym (length-insert key _ a.attributes ∙ rw old refl);
      within = w.within;
    })
    | inr new ↦ rw new (record {
      counted = ap (λ n. n + 1) w.counted ∙ sym (length-insert key _ a.attributes ∙ rw new refl);
      within = rw new at room;
    })
  ]

  add_attribute-IsWithin :
      (d : D) (key : String) (value : Value) (exempt : Bool) (a : Attributes D)
      → IsWithin a
      → IsWithin (add_attribute dests d key value exempt a)
  unfolding add_attribute add_checked
  add_attribute-IsWithin d key value exempt a w =
      elim (Bool-cases (not (has dests key a) && exceeds (a.attribute_count + 1) a.limit)) [
        | inl full ↦ rw (add_attribute, full) w
        | inr room ↦ elim (Bool-cases (is_valid_type value)) [
          | inr bad ↦ rw (add_attribute, room, add_checked, bad) w
          | inl good ↦ elim (Bool-cases (is_valid_length key)) [
            | inr long ↦ rw (add_attribute, room, add_checked, good, long) w
            | inl short ↦ elim (Bool-cases (dests.is_empty (dests.filter d key))) [
              | inl nowhere ↦ rw (add_attribute, room, add_checked, good, short, nowhere) w
              | inr somewhere ↦
                  rw (add_attribute, room, add_checked, good, short, somewhere)
                    (set-IsWithin (dests.filter d key) key value exempt a w room)
            ]
          ]
        ]
      ]

  -- Whatever attributes are added to attributes whose count is right and within the limit, it is
  -- right and within the limit afterwards.
  pub add_attributes-IsWithin :
      (d : D) (attrs : List (String × Value)) (a : Attributes D)
      → IsWithin a
      → IsWithin (add_attributes dests d attrs a)
  unfolding add_attributes
  add_attributes-IsWithin d [] a w = w
  add_attributes-IsWithin d ((key, value) ∷ attrs) a w =
      add_attributes-IsWithin d attrs (add_attribute dests d key value false a)
        (add_attribute-IsWithin d key value false a w)

  refused :
      (d : D) (key : String) (value : Value) (exempt : Bool) (a : Attributes D)
      → a.limit ≡ some a.attribute_count
      → add_attribute dests d key value exempt (reset dests a) ≡ reset dests a
  unfolding add_attribute reset has
  refused d key value exempt a full =
      let over : exceeds (a.attribute_count + 1) a.limit ≡ true =
        subst (λ l. exceeds (a.attribute_count + 1) l ≡ true) (sym full) (ground arith) in
      rw (add_attribute, over) refl

  -- `reset` keeps the count: once the limit was reached, no attribute is ever added after a reset.
  pub reset_full :
      (d : D) (attrs : List (String × Value)) (a : Attributes D)
      → a.limit ≡ some a.attribute_count
      → add_attributes dests d attrs (reset dests a) ≡ reset dests a
  unfolding add_attributes reset
  reset_full d [] a full = refl
  reset_full d ((key, value) ∷ attrs) a full =
      ap (add_attributes dests d attrs) (refused d key value false a full)
      ∙ reset_full d attrs a full
