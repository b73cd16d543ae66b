-- ===== src/Core/Graphql/Visitors/Contexts.antt =====
-- What the fields of a query mean, told without builders and parents, and that builders do as much.
use obmc_webapp.Prelude.{String, ◌≡◌, refl, ap, ◌∙◌, Option, none, some, inl, inr, List, [], ◌∷◌}
use obmc_webapp.Core.Exceptions.{
  Exception, entity_exception, obmc_app_exception, not_implemented, invalid_type, logic_error,
  runtime_error, Result, ok, err, Result-cases,
}
use obmc_webapp.Core.Graphql.Json.{Json, Outcome, done, undefined_behaviour, ◌then_do◌}
use obmc_webapp.Core.Graphql.Builders.{
  GqlInstance, GqlEntity, Builder, empty_objects, builder_of, not_found, push_found,
  supplement_member, supplement_entity, supplement, shape, alias_or,
}
use obmc_webapp.Core.Graphql.Visitors.{
  Selections, no_fields, scalar_field, object_field, no_builder, builder_found, builder_for,
}
use obmc_webapp.Core.Graphql.Visitors.Entries.{
  Entry, value_entry, node_entry, apply_all, push_values-value_entry,
}

module _ (Value : Type 0) (get_entity : String → Result (GqlEntity Value)) where
  -- An entity and its instances; none at the top of a query.
  abbrev pub Context : Type 0
  Context = Option (GqlEntity Value × List (GqlInstance Value))

  abbrev pub scalar_found :
      List (GqlInstance Value) → String → Result (Unit {0}) → Outcome (Entry Value)
  scalar_found instances field (ok _) = done (value_entry Value instances field)
  scalar_found instances field (err e) = not_found Value field e

  -- What a scalar field means in a context.
  abbrev pub scalar_entry : Context → String → Outcome (Entry Value)
  scalar_entry none field = undefined_behaviour
  scalar_entry (some (entity, instances)) field =
      scalar_found instances field (entity.get_member field)

  abbrev pub with_instances : GqlEntity Value → Result (List (GqlInstance Value)) → Outcome Context
  with_instances entity (ok instances) = done (some (entity, instances))
  with_instances entity (err e) = no_builder Value get_entity e

  abbrev pub context_found : Result (GqlEntity Value) → Outcome Context
  context_found (ok entity) = with_instances entity entity.get_instances
  context_found (err e) = no_builder Value get_entity e

  -- The context of an object's fields.
  abbrev pub context_of : String → Outcome Context
  context_of name = context_found (get_entity name)

  abbrev instances_in : Context → List (GqlInstance Value)
  instances_in none = []
  instances_in (some (entity, instances)) = instances

  -- The node of an object whose fields mean `entries`.
  abbrev pub node_of : Context → List (Entry Value) → Outcome (Json Value)
  node_of context entries =
      shape Value (instances_in context)
        (apply_all Value entries (empty_objects Value (instances_in context) []))

  -- What the fields of a selection set mean in a context, one entry for each field.
  abbrev pub entries_of : Selections → Context → Outcome (List (Entry Value))
  entries_of no_fields context = done []
  entries_of (scalar_field alias name rest) context =
      scalar_entry context (alias_or Value alias name) then_do λ entry.
      entries_of rest context then_do λ entries. done (entry ∷ entries)
  entries_of (object_field alias name sub rest) context =
      context_of name then_do (λ inner. entries_of sub inner then_do node_of inner) then_do λ json.
      entries_of rest context then_do λ entries.
      done (node_entry Value (alias_or Value alias name) json ∷ entries)

  -- That a builder is one of the context.
  abbrev pub IsIn : Context → Builder Value → Type 0
  IsIn none b = b.entity_object ≡ none
  IsIn (some (entity, instances)) b =
      (b.entity_object ≡ some entity) × (entity.get_instances ≡ ok instances)

  abbrev pub filled : List (Entry Value) → Builder Value → Builder Value
  filled entries b = record b { fragment = apply_all Value entries b.fragment }

  not_found_entry :
      (field : String) (e : Exception) (b : Builder Value)
      → not_found Value {A = Builder Value} field e
        ≡ (not_found Value {A = Entry Value} field e then_do λ entry. done (filled (entry ∷ []) b))
  unfolding not_found
  not_found_entry field (entity_exception message) b = refl
  not_found_entry field (obmc_app_exception message) b = refl
  not_found_entry field (not_implemented message) b = refl
  not_found_entry field (invalid_type message) b = refl
  not_found_entry field (logic_error message) b = refl
  not_found_entry field (Exception.invalid_argument message) b = refl
  not_found_entry field (runtime_error message) b = refl

  pub supplement_entry :
      (context : Context) (field : String) (b : Builder Value)
      → IsIn context b
      → supplement Value field b
        ≡ (scalar_entry context field then_do λ entry. done (filled (entry ∷ []) b))
  unfolding supplement supplement_entity supplement_member push_found
  supplement_entry none field b h = ap (supplement_entity Value field b) h
  supplement_entry (some (entity, instances)) field b (h, k) =
      ap (supplement_entity Value field b) h ∙ elim (Result-cases (entity.get_member field)) [
        | inl (e, failed) ↦ rw failed (not_found_entry field e b)
        | inr (u, fine) ↦ rw fine (
            ap (push_found Value field b) k
            ∙ rw (push_values-value_entry Value field instances b.fragment) refl)
      ]

  abbrev pub child_of :
      Option String → String → GqlEntity Value → List (GqlInstance Value) → Builder Value
  child_of alias name entity instances = record (builder_of Value name entity instances) {
    alias = alias;
  }

  no_builder_then :
      {A B C : Type 0} (e : Exception) (f : A → Outcome C) (g : B → Outcome C)
      → (no_builder Value get_entity {A = A} e then_do f)
        ≡ (no_builder Value get_entity {A = B} e then_do g)
  unfolding no_builder
  no_builder_then (entity_exception message) f g = refl
  no_builder_then (obmc_app_exception message) f g = refl
  no_builder_then (not_implemented message) f g = refl
  no_builder_then (invalid_type message) f g = refl
  no_builder_then (logic_error message) f g = refl
  no_builder_then (Exception.invalid_argument message) f g = refl
  no_builder_then (runtime_error message) f g = refl

  module _ {A : Type 0} (alias : Option String) (name : String) (f : Builder Value → Outcome A)
      (g : Context → Outcome A)
      (same : (entity : GqlEntity Value) (instances : List (GqlInstance Value))
        → entity.get_instances ≡ ok instances
        → f (child_of alias name entity instances) ≡ g (some (entity, instances))) where
    builder_found-with_instances :
        (entity : GqlEntity Value) (r : Result (List (GqlInstance Value)))
        → entity.get_instances ≡ r
        → (builder_found Value get_entity name alias entity r then_do f)
          ≡ (with_instances entity r then_do g)
    unfolding builder_found
    builder_found-with_instances entity (ok instances) h = same entity instances h
    builder_found-with_instances entity (err e) h = no_builder_then e f g

    pub builder_for-context_found :
        (r : Result (GqlEntity Value))
        → (builder_for Value get_entity name alias r then_do f) ≡ (context_found r then_do g)
    unfolding builder_for
    builder_for-context_found (ok entity) =
        builder_found-with_instances entity entity.get_instances refl
    builder_for-context_found (err e) = no_builder_then e f g
