-- ===== src/PartialTrace/Spans.antt =====
-- lib/transaction/trace/partial-trace.js and lib/spans/span-event.js: a span, and which entity it talks to.
use node_newrelic.Shared.Dict.{Dict, lookup}
use node_newrelic.Shared.{
  ℕ, String, Bool, true, false, ◌&&◌, Option, none, some, List, [], ◌∷◌, str_eq,
}

-- A span with the attributes that describe the entity it talks to, those of its error, and the rest.
pub record SpanEvent : Type 0 where
  pub id : String
  pub parent_id : Option String
  pub is_exit_span : Bool
  pub is_llm_span : Bool
  pub timestamp : ℕ
  pub duration : ℕ
  pub entity_attrs : Dict String
  pub error_attrs : Dict String
  pub other_attrs : Dict String
  pub custom_attributes : Dict String
  pub is_pg : Bool
  pub nr_ids : Option (List String)
  pub nr_durations : Option ℕ

abbrev pub is_empty {ℓ} : {A : Type ℓ} → List A → Bool
is_empty [] = true
is_empty (x ∷ xs) = false

-- Every key of the first has the same value in the second.
unfoldable pub all_match : Dict String → Dict String → Bool
all_match [] current = true
all_match ((key, value) ∷ first) current = elim (lookup key current) [
  | none ↦ false
  | some own ↦ str_eq value own && all_match first current
]

unfoldable pub all_present : Dict String → Dict String → Bool
all_present [] first = true
all_present ((key, value) ∷ current) first = elim (lookup key first) [
  | none ↦ false
  | some own ↦ all_present current first
]

unfoldable pub has_same_entity_attrs : SpanEvent → SpanEvent → Bool
unfolding all_match all_present
has_same_entity_attrs span first =
    all_match first.entity_attrs span.entity_attrs
    && all_present span.entity_attrs first.entity_attrs
