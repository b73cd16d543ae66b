-- ===== src/Tests/Served.antt =====
-- The theorem on a query of an entity with one D-Bus instance, at a concrete query.
use obmc_webapp.Prelude.{ℕ, len, String, ◌≡◌, refl, false, none, [], ◌∷◌}
use obmc_webapp.Prelude.Maps.{find, string_key}
use obmc_webapp.Core.Exceptions.{Result, ok}
use obmc_webapp.Core.Entity.{Entity, EntityMember, get_member, member_found}
use obmc_webapp.Core.Graphql.Json.{value, object, no_members, member, done}
use obmc_webapp.Core.Graphql.Builders.{GqlEntity}
use obmc_webapp.Core.Graphql.Visitors.{no_fields, scalar_field, object_field, query_document}
use obmc_webapp.DBus.Values.{Platform, FieldType}
use obmc_webapp.DBus.Members.{get_field}
use obmc_webapp.DBus.Instance.{DbusInstance, QueryView, new_instance, init_default_fields_value}
use obmc_webapp.System.Queries.{status_query}
use obmc_webapp.System.Served.{dbus_interface, as_gql_entity}
use obmc_webapp.System.Served.Single.{query_document-single}

abbrev lengths : Platform
lengths = record { Double = ℕ; string_hash = len; read_destroyed = λ t. t }

abbrev view : QueryView lengths
view = (status_query lengths).view

abbrev psu : DbusInstance lengths
psu = new_instance lengths "Power" "/psu"

abbrev status_member : EntityMember
status_member = record { name = "Status" }

abbrev supplies : Entity (dbus_interface lengths)
supplies = record { name = "Supplies"; members = ("Status", status_member) ∷ []; instances = [] }

abbrev entities : String → Result (GqlEntity (FieldType lengths))
entities name = ok (as_gql_entity lengths [] supplies ((9, (view, psu)) ∷ []))

status_known : get_member (dbus_interface lengths) "Status" supplies ≡ ok status_member
unfolding get_member member_found find
status_known = refl

query_document-single_example :
    query_document
      (FieldType lengths)
      entities
      false
      (object_field none "Supplies" (scalar_field none "Status" no_fields) no_fields)
    ≡ done (
        object (
          member "Supplies"
            (object (
              member "Status"
                (value (
                  get_field lengths "Status"
                    (init_default_fields_value lengths view psu).member_instances))
                no_members))
            no_members))
query_document-single_example =
    query_document-single lengths entities "Supplies" "Status" supplies status_member 9 view psu
      refl status_known refl
