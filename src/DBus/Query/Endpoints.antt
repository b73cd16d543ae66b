-- ===== src/DBus/Query/Endpoints.antt =====
-- Which instances a query that looks for objects gives.
use obmc_webapp.Prelude.{
  String, ◌≡◌, refl, sym, ap, ◌∙◌, Bool-cases, inl, inr, Option, none, some, List, [], ◌∷◌, ◌++◌,
  map, map-append, str_eq, if◌then◌else◌,
}
use obmc_webapp.Core.Exceptions.{Result, ok, err, ◌>>=◌, ◌and_then◌, ok-injective, >>=-ok}
use obmc_webapp.DBus.Values.{Platform}
use obmc_webapp.DBus.Instance.{DbusInstance, new_instance, fill_members}
use obmc_webapp.DBus.Instance.Hashes.{and_then_holds}
use obmc_webapp.DBus.Instance.Endpoint.{endpoint, fill_members-endpoint}
use obmc_webapp.DBus.Query.{
  ServiceInterfaces, SubTree, DbusObjectEndpoint, Bus, QueryClass, query_properties, instance_of,
  fill_interfaces, create_instance, skip_service, process_services, process_objects,
  process_response, process,
}

module _ (platform : Platform) where
  -- The objects of an answer of the mapper with their services, less the services that the query
  -- does not ask for, in the answer's order.
  abbrev pub asked_services : Option String → String → ServiceInterfaces → List (String × String)
  asked_services wanted path [] = []
  asked_services none path ((service, interfaces) ∷ rest) =
      (path, service) ∷ asked_services none path rest
  asked_services (some wanted) path ((service, interfaces) ∷ rest) =
      if str_eq wanted service
      then ((path, service) ∷ asked_services (some wanted) path rest)
      else asked_services (some wanted) path rest

  abbrev pub asked_objects : Option String → SubTree → List (String × String)
  asked_objects wanted [] = []
  asked_objects wanted ((path, services) ∷ rest) =
      asked_services wanted path services ++ asked_objects wanted rest

  module _ (query : QueryClass platform) (bus : Bus platform)
      (keeps : (i : DbusInstance platform)
        → endpoint platform (query.supplement_by_static_fields i).0 ≡ endpoint platform i) where
    fill_interfaces-endpoint :
        (interfaces : List String) (x : String × String) (i : DbusInstance platform)
        → endpoint platform i ≡ x
        → endpoint platform (fill_interfaces platform query bus interfaces i).0 ≡ x
    unfolding fill_interfaces
    fill_interfaces-endpoint [] x i h = h
    fill_interfaces-endpoint (interface ∷ rest) x i h =
        let properties =
          query_properties platform (bus.get_all i.service_name i.object_path interface) in
        and_then_holds (λ j. endpoint platform j ≡ x)
          (fill_members platform query.view query.search_properties_map interface properties i)
          (fill_interfaces platform query bus rest)
          (fill_members-endpoint platform query.view query.search_properties_map interface
            properties x i h)
          (fill_interfaces-endpoint rest x)

    instance_of_ok :
        (p : DbusInstance platform × Result (Unit {0})) (i : DbusInstance platform)
        → instance_of platform p ≡ ok i
        → p.0 ≡ i
    unfolding instance_of
    instance_of_ok (j, ok _) i h = ok-injective h
    instance_of_ok (j, err e) i h = cc

    create_instance-endpoint :
        (service path : String) (interfaces : List String) (i : DbusInstance platform)
        → create_instance platform query bus service path interfaces ≡ ok i
        → endpoint platform i ≡ (path, service)
    unfolding create_instance
    create_instance-endpoint service path interfaces i h =
        let start = new_instance platform service path in
        let p = fill_interfaces platform query bus interfaces start in
        ap (endpoint platform)
          (sym (instance_of_ok (p and_then query.supplement_by_static_fields) i h))
        ∙ and_then_holds (λ j. endpoint platform j ≡ (path, service)) p
            query.supplement_by_static_fields
            (fill_interfaces-endpoint interfaces (path, service) start refl)
            (λ j same. keeps j ∙ same)

    create_instance-asked :
        (service path : String) (interfaces : List String)
        (later : Result (List (DbusInstance platform))) (asked : List (String × String))
        (list : List (DbusInstance platform))
        → ((rest : List (DbusInstance platform))
            → later ≡ ok rest
            → map (endpoint platform) rest ≡ asked)
        → (create_instance platform query bus service path interfaces >>= λ i.
            later >>= λ rest. ok (i ∷ rest))
          ≡ ok list
        → map (endpoint platform) list ≡ (path, service) ∷ asked
    create_instance-asked service path interfaces later asked list known h =
        let (i, made, more) =
          >>=-ok (create_instance platform query bus service path interfaces)
            (λ j. later >>= λ rest. ok (j ∷ rest)) list h in
        let (rest, found, last) = >>=-ok later (λ l. ok (i ∷ l)) list more in
        rw
          (
            sym (ok-injective last),
            known rest found,
            create_instance-endpoint service path interfaces i made,
          )
          refl

    process_services-asked :
        (wanted : Option String) (path : String) (services : ServiceInterfaces)
        (list : List (DbusInstance platform))
        → process_services platform query bus wanted path services ≡ ok list
        → map (endpoint platform) list ≡ asked_services wanted path services
    unfolding process_services skip_service
    process_services-asked wanted path [] list h = rw (sym (ok-injective h)) refl
    process_services-asked none path ((service, interfaces) ∷ rest) list h =
        create_instance-asked service path interfaces
          (process_services platform query bus none path rest) (asked_services none path rest) list
          (process_services-asked none path rest) h
    process_services-asked (some wanted) path ((service, interfaces) ∷ rest) list h =
        elim (Bool-cases (str_eq wanted service)) [
          | inl same ↦ rw same (
              create_instance-asked service path interfaces
                (process_services platform query bus (some wanted) path rest)
                (asked_services (some wanted) path rest) list
                (process_services-asked (some wanted) path rest) (rw same at h))
          | inr other ↦
              rw other (process_services-asked (some wanted) path rest list (rw other at h))
        ]

    process_objects-asked :
        (wanted : Option String) (response : SubTree) (list : List (DbusInstance platform))
        → process_objects platform query bus wanted response ≡ ok list
        → map (endpoint platform) list ≡ asked_objects wanted response
    unfolding process_objects
    process_objects-asked wanted [] list h = rw (sym (ok-injective h)) refl
    process_objects-asked wanted ((path, services) ∷ rest) list h =
        let (first, made, more) =
          >>=-ok (process_services platform query bus wanted path services)
            (λ l. process_objects platform query bus wanted rest >>= λ m. ok (l ++ m)) list h in
        let (later, found, last) =
          >>=-ok (process_objects platform query bus wanted rest) (λ m. ok (first ++ m)) list
            more in
        rw (sym (ok-injective last)) (
          map-append (endpoint platform) first later
          ∙ rw
              (
                process_services-asked wanted path services first made,
                process_objects-asked wanted rest later found,
              )
              refl)

    -- A query for objects that answers gives one instance for each object and service that the
    -- mapper names and the query asks for, with that object's path and that service, in the order
    -- of the mapper's answer.
    pub process-endpoints :
        (criteria : DbusObjectEndpoint) (response : SubTree) (list : List (DbusInstance platform))
        → bus.get_sub_tree criteria.path criteria.depth criteria.interfaces ≡ some response
        → process platform query criteria bus ≡ ok list
        → map (endpoint platform) list ≡ asked_objects criteria.service response
    unfolding process process_response
    process-endpoints criteria response list found h =
        process_objects-asked criteria.service response list (rw found at h)
