-- ===== src/System/Served.antt =====
-- src/core/entity/entity.cpp and src/core/route/handlers/graphql_handler.cpp: an entity with D-Bus
-- instances as the GraphQL handler sees it. The fields that the handler reads are those that the
-- instances have when they are asked for.
pub mod Single
use obmc_webapp.Prelude.{ℕ, String, true, none, List, [], ◌∷◌, map}
use obmc_webapp.Core.Exceptions.{Result, ok, err}
use obmc_webapp.Core.Entity.{InstanceInterface, Entity, EntityMember, get_member}
use obmc_webapp.Core.Graphql.Builders.{GqlInstance, GqlEntity}
use obmc_webapp.DBus.Values.{Platform, FieldType}
use obmc_webapp.DBus.Members.{get_field}
use obmc_webapp.DBus.Instance.{Child, DbusInstance}
use obmc_webapp.DBus.Supply.{own_hash, LinkRule, Instances, get_instances}
use obmc_webapp.DBus.Instance.Hashes.{child_hash}

module _ (platform : Platform) where
  -- what an entity asks of its instances
  abbrev pub dbus_interface : InstanceInterface
  dbus_interface = record {
    Instance = DbusInstance platform;
    get_hash = own_hash platform;
    is_dbus_instance = λ i. true;
  }

  -- an instance of the vector that `getInstances` answers
  abbrev pub as_gql_instance : Child platform → GqlInstance (FieldType platform)
  as_gql_instance c = record {
    hash = child_hash platform c;
    get_value = λ name. get_field platform name c.member_instances;
  }

  abbrev pub answered_instances :
      Result (List (Child platform)) → Result (List (GqlInstance (FieldType platform)))
  answered_instances (ok list) = ok (map as_gql_instance list)
  answered_instances (err e) = err e

  abbrev pub member_there : Result EntityMember → Result (Unit {0})
  member_there (ok member) = ok tt
  member_there (err e) = err e

  -- the entity, with the providers linked to it and its instances with their queries
  abbrev pub as_gql_entity :
      List (List (Child platform) × LinkRule platform)
      → Entity dbus_interface
      → Instances platform
      → GqlEntity (FieldType platform)
  as_gql_entity providers entity instances = record {
    get_member = λ name. member_there (get_member dbus_interface name entity);
    get_instances = answered_instances (get_instances platform providers none instances).1;
  }
