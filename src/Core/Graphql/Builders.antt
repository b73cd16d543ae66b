-- ===== src/Core/Graphql/Builders.antt =====
-- src/core/route/handlers/graphql_handler.cpp: `GqlObjectBuild`. What the builders ask of an entity is
-- an interface; its instances stay the same while a query runs. A builder's fragment has the members
-- of each instance under its hash. What throws besides the handlers' own exceptions goes through.
use obmc_webapp.Prelude.{ℕ, String, Option, none, some, List, [], ◌∷◌, str_eq, if◌then◌else◌}
use obmc_webapp.Prelude.Decimal.{to_string}
use obmc_webapp.Prelude.Maps.{insert_or_assign, string_key}
use obmc_webapp.Core.Exceptions.{Exception, entity_exception, Result, ok, err}
use obmc_webapp.Core.Graphql.Json.{
  Json, value, object, array, Object, no_members, push_back, items_of, invalid_argument, Outcome,
  done, thrown, escaped, undefined_behaviour,
}

module _ (Value : Type 0) where
  pub record GqlInstance : Type 0 where
    pub hash : ℕ
    pub get_value : String → Value

  pub record GqlEntity : Type 0 where
    pub get_member : String → Result (Unit {0})
    pub get_instances : Result (List GqlInstance)

  abbrev pub Fragment : Type 0
  Fragment = List (String × Object Value)

  pub record Builder : Type 0 where
    pub name : String
    pub entity_object : Option GqlEntity
    pub fragment : Fragment
    pub alias : Option String

  -- the first constructor
  abbrev pub root_builder : String → Builder
  root_builder name = record {
    name = name;
    entity_object = none;
    fragment = (name, no_members) ∷ [];
    alias = none;
  }

  unfoldable pub empty_objects : List GqlInstance → Fragment → Fragment
  empty_objects [] fragment = fragment
  empty_objects (i ∷ rest) fragment =
      empty_objects rest (insert_or_assign (to_string i.hash) no_members fragment)

  -- the second constructor, where the entity is there
  unfoldable pub builder_of : String → GqlEntity → List GqlInstance → Builder
  builder_of name entity instances = record {
    name = name;
    entity_object = some entity;
    fragment = empty_objects instances [];
    alias = none;
  }

  -- the object under a key
  unfoldable pub push_at : String → String → Json Value → Fragment → Fragment
  push_at key name json [] = []
  push_at key name json ((k, o) ∷ rest) =
      (k, (if str_eq k key then push_back Value name json o else o)) ∷ push_at key name json rest

  unfoldable pub push_values : String → List GqlInstance → Fragment → Fragment
  push_values name [] fragment = fragment
  push_values name (i ∷ rest) fragment =
      push_values name rest (push_at (to_string i.hash) name (value (i.get_value name)) fragment)

  -- the `catch` of an `EntityException` in `supplement`
  unfoldable pub not_found : {A : Type 0} → String → Exception → Outcome A
  not_found field (entity_exception message) = thrown (invalid_argument field "Field not found")
  not_found field e = escaped e

  unfoldable pub push_found : String → Builder → Result (List GqlInstance) → Outcome Builder
  push_found field b (err e) = not_found field e
  push_found field b (ok instances) =
      done (record b { fragment = push_values field instances b.fragment })

  unfoldable pub supplement_member :
      String → Builder → GqlEntity → Result (Unit {0}) → Outcome Builder
  supplement_member field b entity (err e) = not_found field e
  supplement_member field b entity (ok _) = push_found field b entity.get_instances

  unfoldable pub supplement_entity : String → Builder → Option GqlEntity → Outcome Builder
  supplement_entity field b none = undefined_behaviour
  supplement_entity field b (some entity) =
      supplement_member field b entity (entity.get_member field)

  -- `supplement` of a scalar field; the fragment is an object throughout
  unfoldable pub supplement : String → Builder → Outcome Builder
  supplement field b = supplement_entity field b b.entity_object

  unfoldable pub push_each : String → Json Value → Fragment → Fragment
  push_each name json [] = []
  push_each name json ((k, o) ∷ rest) = (k, push_back Value name json o) ∷ push_each name json rest

  -- `supplement` of a child's node
  unfoldable pub supplement_node : String → Json Value → Builder → Builder
  supplement_node name json b = record b { fragment = push_each name json b.fragment }

  unfoldable pub objects : Fragment → List (Object Value)
  objects [] = []
  objects ((k, o) ∷ rest) = o ∷ objects rest

  -- `fragment.back()`
  unfoldable pub back : Fragment → Outcome (Json Value)
  back [] = undefined_behaviour
  back ((k, o) ∷ []) = done (object o)
  back ((k, o) ∷ next ∷ rest) = back (next ∷ rest)

  -- none, one, or several instances
  unfoldable pub shape : List GqlInstance → Fragment → Outcome (Json Value)
  shape [] fragment = done (object no_members)
  shape (i ∷ []) fragment = back fragment
  shape (i ∷ j ∷ rest) fragment = done (array (items_of Value (objects fragment)))

  unfoldable pub fragment_found : Fragment → Result (List GqlInstance) → Outcome (Json Value)
  fragment_found fragment (err e) = escaped e
  fragment_found fragment (ok instances) = shape instances fragment

  unfoldable pub fragment_of : Fragment → Option GqlEntity → Outcome (Json Value)
  fragment_of fragment none = back fragment
  fragment_of fragment (some entity) = fragment_found fragment entity.get_instances

  unfoldable pub get_fragment : Builder → Outcome (Json Value)
  get_fragment b = fragment_of b.fragment b.entity_object

  unfoldable pub alias_or : Option String → String → String
  alias_or none name = name
  alias_or (some alias) name = alias

  unfoldable pub get_field_name : Builder → String
  get_field_name b = alias_or b.alias b.name
