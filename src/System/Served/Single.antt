-- ===== src/System/Served/Single.antt =====
-- The answer to a query of one member of an entity that has one instance.
use obmc_webapp.Prelude.{ℕ, String, ◌≡◌, refl, ap, ◌∙◌, false, none, some, [], ◌∷◌, str_eq_refl}
use obmc_webapp.Prelude.Decimal.{to_string}
use obmc_webapp.Prelude.Maps.{insert_or_assign, nat_key, string_key}
use obmc_webapp.Core.Exceptions.{Result, ok}
use obmc_webapp.Core.Entity.{Entity, EntityMember, get_member}
use obmc_webapp.DBus.Values.{Platform, FieldType}
use obmc_webapp.DBus.Members.{get_field}
use obmc_webapp.DBus.Instance.{DbusInstance, QueryView, init_default_fields_value}
use obmc_webapp.DBus.Supply.{
  as_child, supplement_all, check_condition, push_if, visit_child, visit_children, visit_instance,
  prepend, after_instance, get_instances_from, get_instances,
}
use obmc_webapp.DBus.Supply.Visited.{visited_alone}
use obmc_webapp.Core.Graphql.Json.{value, object, no_members, member, push_back, done}
use obmc_webapp.Core.Graphql.Builders.{GqlInstance, GqlEntity, empty_objects, back, shape, alias_or}
use obmc_webapp.Core.Graphql.Visitors.{no_fields, scalar_field, object_field, query_document}
use obmc_webapp.Core.Graphql.Visitors.Entries.{value_entry}
use obmc_webapp.Core.Graphql.Visitors.Contexts.{
  scalar_found, scalar_entry, with_instances, context_found, context_of, node_of,
}
use obmc_webapp.Core.Graphql.Visitors.Nested.{query_document-entries_of}
use obmc_webapp.System.Served.{
  dbus_interface, as_gql_instance, answered_instances, member_there, as_gql_entity,
}

module _ (platform : Platform) where
  -- An instance with no complex instances is all that an entity with that one instance answers.
  get_instances_alone :
      (hash : ℕ) (query : QueryView platform) (i : DbusInstance platform)
      → i.complex_instances ≡ []
      → (get_instances platform [] none ((hash, (query, i)) ∷ [])).1
        ≡ ok (as_child platform (init_default_fields_value platform query i) ∷ [])
  unfolding get_instances get_instances_from visit_instance visit_children visit_child
      supplement_all check_condition push_if prepend after_instance init_default_fields_value
  get_instances_alone hash query i h =
      let j = init_default_fields_value platform query i in rw (visited_alone platform j h) refl

  module _ (get_entity : String → Result (GqlEntity (FieldType platform))) (name field : String)
      (entity : Entity (dbus_interface platform)) (m : EntityMember) (hash : ℕ)
      (query : QueryView platform) (i : DbusInstance platform)
      (there : get_entity name ≡ ok (as_gql_entity platform [] entity ((hash, (query, i)) ∷ [])))
      (known : get_member (dbus_interface platform) field entity ≡ ok m)
      (alone : i.complex_instances ≡ []) where
    abbrev seen : GqlInstance (FieldType platform)
    seen = as_gql_instance platform (as_child platform (init_default_fields_value platform query i))

    abbrev served : GqlEntity (FieldType platform)
    served = as_gql_entity platform [] entity ((hash, (query, i)) ∷ [])

    context_alone :
        context_of (FieldType platform) get_entity name ≡ done (some (served, seen ∷ []))
    context_alone =
        ap (context_found (FieldType platform) get_entity) there
        ∙ ap
            (λ r.
              with_instances (FieldType platform) get_entity served (answered_instances platform r))
            (get_instances_alone hash query i alone)

    scalar_alone :
        scalar_entry (FieldType platform) get_entity (some (served, seen ∷ [])) field
        ≡ done (value_entry (FieldType platform) (seen ∷ []) field)
    scalar_alone =
        ap
          (λ r.
            scalar_found (FieldType platform) get_entity (seen ∷ []) field
              (member_there platform r))
          known

    node_alone :
        node_of
          (FieldType platform)
          get_entity
          (some (served, seen ∷ []))
          (value_entry (FieldType platform) (seen ∷ []) field ∷ [])
        ≡ done (object (member field (value (seen.get_value field)) no_members))
    unfolding shape back empty_objects insert_or_assign push_back
    node_alone = rw (str_eq_refl (to_string seen.hash)) refl

    -- A query of one member of an entity that has one D-Bus instance with no complex ones, and no
    -- provider, is answered by what that instance holds for the member once the default values of
    -- its query are set, under the names of the entity and of the member.
    pub query_document-single :
        query_document
          (FieldType platform)
          get_entity
          false
          (object_field none name (scalar_field none field no_fields) no_fields)
        ≡ done (
            object (
              member name
                (object (
                  member field
                    (value (
                      get_field platform field
                        (init_default_fields_value platform query i).member_instances))
                    no_members))
                no_members))
    unfolding back push_back alias_or
    query_document-single =
        query_document-entries_of (FieldType platform) get_entity
          (object_field none name (scalar_field none field no_fields) no_fields)
        ∙ rw context_alone (rw scalar_alone (rw node_alone refl))
