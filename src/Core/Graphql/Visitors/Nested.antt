-- ===== src/Core/Graphql/Visitors/Nested.antt =====
-- What the visitor of a query builds, told without builders and parents.
use obmc_webapp.Prelude.{String, ◌≡◌, refl, sym, ap, ◌∙◌, false, Option, none, some, List, [], ◌∷◌}
use obmc_webapp.Core.Exceptions.{Result, ok}
use obmc_webapp.Core.Graphql.Json.{
  Json, no_members, Outcome, done, thrown, internal_error, escaped, undefined_behaviour, ◌then_do◌,
  then_do_assoc, then_do_ext,
}
use obmc_webapp.Core.Graphql.Builders.{
  GqlInstance, GqlEntity, Builder, root_builder, empty_objects, builder_of, supplement_node, back,
  shape, fragment_found, fragment_of, get_fragment, alias_or, get_field_name,
}
use obmc_webapp.Core.Graphql.Visitors.{
  Selections, no_fields, scalar_field, object_field, Stack, builder_for, visit_scalar, visit_object,
  end_visit_object, accept, document_of, visitor_name, query_document,
}
use obmc_webapp.Core.Graphql.Visitors.Entries.{Entry, node_entry, apply_all, push_each-apply_entry}
use obmc_webapp.Core.Graphql.Visitors.Contexts.{
  Context, scalar_entry, context_of, node_of, entries_of, IsIn, filled, child_of, supplement_entry,
  builder_for-context_found,
}

module _ (Value : Type 0) (get_entity : String → Result (GqlEntity Value)) where
  -- The stack that the fields of a selection set leave.
  abbrev stack_of :
      Context Value get_entity
      → Selections
      → Builder Value
      → Stack Value get_entity
      → Outcome (Stack Value get_entity)
  stack_of context fields b parents = entries_of Value get_entity fields context then_do λ entries.
      done (filled Value get_entity entries b ∷ parents)

  -- an entry, and the fields after it
  entry_then :
      {X : Type 0} (context : Context Value get_entity) (rest : Selections) (b : Builder Value)
      (parents : Stack Value get_entity) (entry : X → Entry Value)
      → ((x : X)
          → accept Value get_entity rest (filled Value get_entity (entry x ∷ []) b ∷ parents)
            ≡ stack_of context rest (filled Value get_entity (entry x ∷ []) b) parents)
      → (m : Outcome X)
      → ((m then_do λ x. done (filled Value get_entity (entry x ∷ []) b ∷ parents))
          then_do accept Value get_entity rest)
        ≡ ((m then_do λ x.
              entries_of Value get_entity rest context then_do λ entries. done (entry x ∷ entries))
            then_do λ entries. done (filled Value get_entity entries b ∷ parents))
  entry_then context rest b parents entry later (done x) =
      later x
      ∙ sym (
          then_do_assoc (entries_of Value get_entity rest context)
            (λ entries. done (entry x ∷ entries))
            (λ entries. done (filled Value get_entity entries b ∷ parents)))
  entry_then context rest b parents entry later (thrown e) = refl
  entry_then context rest b parents entry later (internal_error e) = refl
  entry_then context rest b parents entry later (escaped e) = refl
  entry_then context rest b parents entry later undefined_behaviour = refl

  visit_scalar_entry :
      (context : Context Value get_entity) (field : String) (b : Builder Value)
      (parents : Stack Value get_entity)
      → IsIn Value get_entity context b
      → visit_scalar Value get_entity field (b ∷ parents) ≡ (
          scalar_entry Value get_entity context field then_do λ entry.
          done (filled Value get_entity (entry ∷ []) b ∷ parents))
  unfolding visit_scalar
  visit_scalar_entry context field b parents inside =
      rw (supplement_entry Value get_entity context field b inside) (
        then_do_assoc (scalar_entry Value get_entity context field)
          (λ entry. done (filled Value get_entity (entry ∷ []) b)) (λ c. done (c ∷ parents)))

  IsIn-filled :
      (context : Context Value get_entity) (entries : List (Entry Value)) (b : Builder Value)
      → IsIn Value get_entity context b
      → IsIn Value get_entity context (filled Value get_entity entries b)
  IsIn-filled none entries b h = h
  IsIn-filled (some (entity, instances)) entries b h = h

  supplement_node-filled :
      (name : String) (json : Json Value) (b : Builder Value)
      → supplement_node Value name json b
        ≡ filled Value get_entity (node_entry Value name json ∷ []) b
  unfolding supplement_node
  supplement_node-filled name json b = rw (push_each-apply_entry Value name json b.fragment) refl

  -- the object's fields are visited, and the object ends
  object_end :
      (alias : Option String) (name : String) (entity : GqlEntity Value)
      (instances : List (GqlInstance Value)) (entries : List (Entry Value)) (b : Builder Value)
      (parents : Stack Value get_entity)
      → entity.get_instances ≡ ok instances
      → end_visit_object Value get_entity (
          filled Value get_entity entries (child_of Value get_entity alias name entity instances)
          ∷ b
          ∷ parents)
        ≡ (node_of Value get_entity (some (entity, instances)) entries then_do λ json. done (
            filled Value get_entity (node_entry Value (alias_or Value alias name) json ∷ []) b
            ∷ parents))
  unfolding end_visit_object get_fragment fragment_of fragment_found builder_of get_field_name
  object_end alias name entity instances entries b parents h =
      let fragment = apply_all Value entries (empty_objects Value instances []) in
      ap
        (λ r. fragment_found Value fragment r then_do λ json.
          done (supplement_node Value (alias_or Value alias name) json b ∷ parents))
        h
      ∙ then_do_ext (shape Value instances fragment)
          (λ json. done (supplement_node Value (alias_or Value alias name) json b ∷ parents))
          (λ json. done (
            filled Value get_entity (node_entry Value (alias_or Value alias name) json ∷ []) b
            ∷ parents))
          (λ json.
            ap (λ c. done (c ∷ parents))
              (supplement_node-filled (alias_or Value alias name) json b))

  -- an object within the fields, once its builder is there
  object_then :
      (context : Context Value get_entity) (alias : Option String) (name : String)
      (rest : Selections) (b : Builder Value) (parents : Stack Value get_entity)
      (entity : GqlEntity Value) (instances : List (GqlInstance Value))
      → entity.get_instances ≡ ok instances
      → ((json : Json Value)
          → accept Value get_entity rest (
              filled Value get_entity (node_entry Value (alias_or Value alias name) json ∷ []) b
              ∷ parents)
            ≡ stack_of context rest
                (filled Value get_entity (node_entry Value (alias_or Value alias name) json ∷ []) b)
                parents)
      → (m : Outcome (List (Entry Value)))
      → (((m then_do λ entries. done (
              filled Value get_entity entries
                (child_of Value get_entity alias name entity instances)
              ∷ b
              ∷ parents))
            then_do end_visit_object Value get_entity)
          then_do accept Value get_entity rest)
        ≡ (((m then_do node_of Value get_entity (some (entity, instances))) then_do λ json.
              entries_of Value get_entity rest context then_do λ entries.
              done (node_entry Value (alias_or Value alias name) json ∷ entries))
            then_do λ entries. done (filled Value get_entity entries b ∷ parents))
  object_then context alias name rest b parents entity instances h later (done entries) =
      rw (object_end alias name entity instances entries b parents h) (
        entry_then context rest b parents (node_entry Value (alias_or Value alias name)) later
          (node_of Value get_entity (some (entity, instances)) entries))
  object_then context alias name rest b parents entity instances h later (thrown e) = refl
  object_then context alias name rest b parents entity instances h later (internal_error e) = refl
  object_then context alias name rest b parents entity instances h later (escaped e) = refl
  object_then context alias name rest b parents entity instances h later undefined_behaviour = refl

  flatten :
      {A B C D : Type 0} (m : Outcome A) (f : A → Outcome B) (g : B → Outcome C) (h : C → Outcome D)
      → (((m then_do f) then_do g) then_do h) ≡ (m then_do λ a. (f a then_do g) then_do h)
  flatten (done a) f g h = refl
  flatten (thrown e) f g h = refl
  flatten (internal_error e) f g h = refl
  flatten (escaped e) f g h = refl
  flatten undefined_behaviour f g h = refl

  accept-entries_of :
      (fields : Selections) (context : Context Value get_entity) (b : Builder Value)
      (parents : Stack Value get_entity)
      → IsIn Value get_entity context b
      → accept Value get_entity fields (b ∷ parents) ≡ stack_of context fields b parents
  unfolding accept visit_object builder_of
  accept-entries_of no_fields context b parents inside = refl
  accept-entries_of (scalar_field alias name rest) context b parents inside =
      rw (visit_scalar_entry context (alias_or Value alias name) b parents inside) (
        entry_then context rest b parents (λ entry. entry)
          (λ entry.
            accept-entries_of rest context (filled Value get_entity (entry ∷ []) b) parents
              (IsIn-filled context (entry ∷ []) b inside))
          (scalar_entry Value get_entity context (alias_or Value alias name)))
  accept-entries_of (object_field alias name sub rest) context b parents inside =
      let found = builder_for Value get_entity name alias (get_entity name) in
      let visit : Stack Value get_entity → Outcome (Stack Value get_entity) = λ s.
        (accept Value get_entity sub s then_do end_visit_object Value get_entity)
        then_do accept Value get_entity rest in
      let node : Context Value get_entity → Outcome (Json Value) =
        λ inner. entries_of Value get_entity sub inner then_do node_of Value get_entity inner in
      let entry : Json Value → Outcome (List (Entry Value)) = λ json.
        entries_of Value get_entity rest context then_do λ entries.
        done (node_entry Value (alias_or Value alias name) json ∷ entries) in
      let leave : List (Entry Value) → Outcome (Stack Value get_entity) =
        λ entries. done (filled Value get_entity entries b ∷ parents) in
      flatten (found then_do λ child. done (child ∷ b ∷ parents)) (accept Value get_entity sub)
        (end_visit_object Value get_entity) (accept Value get_entity rest)
      ∙ (then_do_assoc found (λ child. done (child ∷ b ∷ parents)) visit
          ∙ (builder_for-context_found Value get_entity alias name
                (λ child. visit (child ∷ b ∷ parents))
                (λ inner. (node inner then_do entry) then_do leave)
                (λ entity instances h.
                  rw
                    (accept-entries_of sub (some (entity, instances))
                      (child_of Value get_entity alias name entity instances) (b ∷ parents)
                      (refl, h))
                    (object_then context alias name rest b parents entity instances h
                      (λ json.
                        accept-entries_of rest context
                          (filled Value get_entity
                            (node_entry Value (alias_or Value alias name) json ∷ []) b)
                          parents
                          (IsIn-filled context
                            (node_entry Value (alias_or Value alias name) json ∷ []) b inside))
                      (entries_of Value get_entity sub (some (entity, instances)))))
                (get_entity name)
              ∙ sym (flatten (context_of Value get_entity name) node entry leave)))

  -- The document of a query is the object whose members are what its fields mean: what each scalar
  -- field of an object has for the first instance with a hash, and for each field that is an object
  -- the node of its entity's instances; and where the meaning throws, so does the visitor.
  pub query_document-entries_of :
      (fields : Selections)
      → query_document Value get_entity false fields ≡ (
          entries_of Value get_entity fields none then_do λ entries.
          back Value (apply_all Value entries ((visitor_name Value get_entity, no_members) ∷ [])))
  unfolding query_document document_of get_fragment fragment_of
  query_document-entries_of fields =
      rw
        (accept-entries_of fields none (root_builder Value (visitor_name Value get_entity)) [] refl)
        (then_do_assoc (entries_of Value get_entity fields none)
          (λ entries. done (
            filled Value get_entity entries (root_builder Value (visitor_name Value get_entity))
            ∷ []))
          (document_of Value get_entity))
