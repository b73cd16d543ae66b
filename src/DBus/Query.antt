-- ===== src/DBus/Query.antt =====
-- src/core/entity/dbus_query.hpp and dbus_query.cpp: the queries. The calls over the bus are
-- parameters. A query keeps no state that the model sees: its observers of signals only log.
pub mod Endpoints
pub mod Hash
use obmc_webapp.Prelude.{
  String, Bool, true, false, Option, none, some, List, [], ◌∷◌, ◌++◌, str_eq, if◌then◌else◌,
}
use obmc_webapp.Core.Exceptions.{Exception, obmc_app_exception, Result, ok, err, ◌>>=◌, ◌and_then◌}
use obmc_webapp.Prelude.Integers.{ℤ}
use obmc_webapp.DBus.Values.{Platform}
use obmc_webapp.DBus.Instance.{
  Targets, Properties, DbusInstance, QueryView, new_instance, fill_members,
}

-- `DBusObjectEndpoint`
pub record DbusObjectEndpoint : Type 0 where
  pub path : String
  pub interfaces : List String
  pub depth : ℤ
  pub service : Option String

-- `DBusServiceInterfaces`, and the answer of `GetSubTree`: for each object, the services that have it
abbrev pub ServiceInterfaces : Type 0
ServiceInterfaces = List (String × List String)

abbrev pub SubTree : Type 0
SubTree = List (String × ServiceInterfaces)

module _ (platform : Platform) where
  -- The calls; `none` is an error in place of the answer.
  pub record Bus : Type 0 where
    pub get_sub_tree : String → ℤ → List String → Option SubTree
    pub get_all : String → String → String → Option (Properties platform)
    pub get_managed_objects : String → Option (List (String × List (String × Properties platform)))

  -- what a class of queries overrides
  pub record QueryClass : Type 0 where
    pub view : QueryView platform
    pub search_properties_map : Targets
    pub supplement_by_static_fields :
        DbusInstance platform → DbusInstance platform × Result (Unit {0})

  -- the exception of the call is caught there
  unfoldable pub query_properties : Option (Properties platform) → Properties platform
  query_properties none = []
  query_properties (some properties) = properties

  unfoldable pub instance_of :
      DbusInstance platform × Result (Unit {0}) → Result (DbusInstance platform)
  instance_of (i, ok _) = ok i
  instance_of (i, err e) = err e

  module _ (query : QueryClass) where
    unfoldable pub fill_interfaces :
        Bus → List String → DbusInstance platform → DbusInstance platform × Result (Unit {0})
    fill_interfaces bus [] i = (i, ok tt)
    fill_interfaces bus (interface ∷ rest) i =
        fill_members platform query.view query.search_properties_map interface
          (query_properties (bus.get_all i.service_name i.object_path interface)) i
        and_then fill_interfaces bus rest

    unfoldable pub create_instance :
        Bus → String → String → List String → Result (DbusInstance platform)
    create_instance bus service path interfaces = instance_of (
        fill_interfaces bus interfaces (new_instance platform service path)
        and_then query.supplement_by_static_fields)

    -- whether the query leaves the service out
    unfoldable pub skip_service : Option String → String → Bool
    skip_service none service = false
    skip_service (some wanted) service = if str_eq wanted service then false else true

    -- the two loops of `FindObjectDBusQuery::process`
    unfoldable pub process_services :
        Bus → Option String → String → ServiceInterfaces → Result (List (DbusInstance platform))
    process_services bus wanted path [] = ok []
    process_services bus wanted path ((service, interfaces) ∷ rest) =
        let later = process_services bus wanted path rest in
        if skip_service wanted service
        then later
        else create_instance bus service path interfaces >>= λ i. later >>= λ list. ok (i ∷ list)

    unfoldable pub process_objects :
        Bus → Option String → SubTree → Result (List (DbusInstance platform))
    process_objects bus wanted [] = ok []
    process_objects bus wanted ((path, services) ∷ rest) =
        process_services bus wanted path services >>= λ first.
        process_objects bus wanted rest >>= λ list. ok (first ++ list)

    unfoldable pub process_response :
        Bus → Option String → Option SubTree → Result (List (DbusInstance platform))
    process_response bus wanted none = err (obmc_app_exception "ERROR of mapper call")
    process_response bus wanted (some response) = process_objects bus wanted response

    -- `FindObjectDBusQuery::process`
    unfoldable pub process : DbusObjectEndpoint → Bus → Result (List (DbusInstance platform))
    process criteria bus =
        process_response bus criteria.service
          (bus.get_sub_tree criteria.path criteria.depth criteria.interfaces)

    unfoldable pub fill_managed :
        List (String × Properties platform)
        → DbusInstance platform
        → DbusInstance platform × Result (Unit {0})
    fill_managed [] i = (i, ok tt)
    fill_managed ((interface, properties) ∷ rest) i =
        fill_members platform query.view query.search_properties_map interface properties i
        and_then fill_managed rest

    unfoldable pub introspect_objects :
        String
        → List (String × List (String × Properties platform))
        → Result (List (DbusInstance platform))
    introspect_objects service [] = ok []
    introspect_objects service ((path, interfaces) ∷ rest) =
        instance_of (
          fill_managed interfaces (new_instance platform service path)
          and_then query.supplement_by_static_fields)
        >>= λ i. introspect_objects service rest >>= λ list. ok (i ∷ list)

    unfoldable pub introspect_response :
        String
        → Option (List (String × List (String × Properties platform)))
        → Result (List (DbusInstance platform))
    introspect_response service none = err (obmc_app_exception "ERROR of mapper call")
    introspect_response service (some response) = introspect_objects service response

    -- `IntrospectServiceDBusQuery::process`
    unfoldable pub introspect : String → Bus → Result (List (DbusInstance platform))
    introspect service bus = introspect_response service (bus.get_managed_objects service)
