-- ===== src/Core/Graphql/Visitors.antt =====
-- src/core/route/handlers/graphql_handler.cpp: the visitors. libgraphqlparser's tree of a query is a
-- list of operations with their fields; the values of arguments and strings, which the visitors only
-- log, and fragments of the query are left out. A builder and its parents are a stack.
pub mod Entries
pub mod Contexts
pub mod Nested
use obmc_webapp.Prelude.{
  String, Bool, true, false, Option, none, some, List, [], ◌∷◌, str_eq, if◌then◌else◌,
}
use obmc_webapp.Core.Exceptions.{Exception, entity_exception, Result, ok, err, what}
use obmc_webapp.Core.Graphql.Json.{
  Json, object, Object, no_members, member, push_back, GqlException, not_supported, ast_error,
  Outcome, done, thrown, internal_error, escaped, undefined_behaviour, ◌then_do◌,
}
use obmc_webapp.Core.Graphql.Builders.{
  GqlInstance, GqlEntity, Builder, root_builder, builder_of, supplement, supplement_node,
  get_fragment, alias_or, get_field_name,
}

-- The fields of a selection set; an object is a field with a set of its own.
pub data Selections : Type 0 where
  no_fields : Selections
  scalar_field : Option String → String → Selections → Selections
  object_field : Option String → String → Selections → Selections → Selections

pub record Operation : Type 0 where
  pub operation : String
  pub has_variables : Bool
  pub selections : Selections

module _ (Value : Type 0) (get_entity : String → Result (GqlEntity Value)) where
  abbrev pub Stack : Type 0
  Stack = List (Builder Value)

  -- the `catch` of an `EntityException` in `visitField`
  unfoldable pub no_builder : {A : Type 0} → Exception → Outcome A
  no_builder (entity_exception message) = thrown (ast_error message)
  no_builder e = escaped e

  unfoldable pub builder_found :
      String
      → Option String
      → GqlEntity Value
      → Result (List (GqlInstance Value))
      → Outcome (Builder Value)
  builder_found name alias entity (err e) = no_builder e
  builder_found name alias entity (ok instances) =
      done (record (builder_of Value name entity instances) { alias = alias })

  unfoldable pub builder_for :
      String → Option String → Result (GqlEntity Value) → Outcome (Builder Value)
  builder_for name alias (err e) = no_builder e
  builder_for name alias (ok entity) = builder_found name alias entity entity.get_instances

  -- `visitField`, of a scalar field and of an object
  unfoldable pub visit_scalar : String → Stack → Outcome Stack
  visit_scalar field [] = internal_error "Not builder found"
  visit_scalar field (b ∷ parents) = supplement Value field b then_do λ b'. done (b' ∷ parents)

  unfoldable pub visit_object : Option String → String → Stack → Outcome Stack
  visit_object alias name [] = internal_error "The builder was not found"
  visit_object alias name (b ∷ parents) =
      builder_for name alias (get_entity name) then_do λ child. done (child ∷ b ∷ parents)

  -- `endVisitField` of an object, with `pushFragmentToParent`
  unfoldable pub end_visit_object : Stack → Outcome Stack
  end_visit_object [] = undefined_behaviour
  end_visit_object (b ∷ []) = done []
  end_visit_object (b ∷ parent ∷ parents) = get_fragment Value b then_do λ json.
      done (supplement_node Value (get_field_name Value b) json parent ∷ parents)

  unfoldable pub accept : Selections → Stack → Outcome Stack
  accept no_fields s = done s
  accept (scalar_field alias name rest) s =
      visit_scalar (alias_or Value alias name) s then_do λ s'. accept rest s'
  accept (object_field alias name sub rest) s =
      visit_object alias name s then_do (λ s1. accept sub s1) then_do end_visit_object then_do λ s3.
      accept rest s3

  -- the destructor of `GqlQueryVisitor`
  unfoldable pub document_of : Stack → Outcome (Json Value)
  document_of [] = undefined_behaviour
  document_of (b ∷ parents) = get_fragment Value b

  abbrev pub visitor_name : String
  visitor_name = "query"

  unfoldable pub query_document : Bool → Selections → Outcome (Json Value)
  query_document true selections =
      thrown (not_supported "GQL Variable definition temporarry not supported")
  query_document false selections =
      accept selections (root_builder Value visitor_name ∷ []) then_do document_of

  -- the assignment to `result.back()`
  unfoldable pub set_back : Json Value → Object Value → Object Value
  set_back json no_members = no_members
  set_back json (member k old no_members) = member k json no_members
  set_back json (member k old (member k' next rest)) =
      member k old (set_back json (member k' next rest))

  -- `visitOperationDefinition`; the factory has one visitor
  unfoldable pub visit_operation : Operation → Object Value → Outcome (Object Value)
  visit_operation op result =
      if str_eq visitor_name op.operation
      then (query_document op.has_variables op.selections then_do λ json.
          done (set_back json (push_back Value op.operation (object no_members) result)))
      else thrown (not_supported op.operation)

  unfoldable pub visit_document : List Operation → Object Value → Outcome (Object Value)
  visit_document [] result = done result
  visit_document (op ∷ rest) result =
      visit_operation op result then_do λ result'. visit_document rest result'
