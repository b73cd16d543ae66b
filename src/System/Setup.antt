-- ===== src/System/Setup.antt =====
-- src/core/entity/entity.cpp: `EntityManager` and its builder, src/core/entity/dbus_query.hpp:
-- `addObject`, and src/core/application.cpp: `initEntityMap`. An entity that is built is shared by the
-- manager and the builder: here the chain of calls on the builder is applied to it before it is
-- stored, and what the chain has done when it throws is stored too. Brokers stand as the entity's
-- queries with their options.
use Prim.Native.String.{◌++◌}
use obmc_webapp.Prelude.{
  ℕ, String, Bool, true, if◌then◌else◌, Option, none, some, List, [], ◌∷◌, ◌++◌ as append,
}
use obmc_webapp.Prelude.Maps.{find, emplace, string_key}
use obmc_webapp.Core.Exceptions.{entity_exception, Result, ok, err, ◌and_then◌}
use obmc_webapp.Core.Entity.{InstanceInterface, Entity, new_entity, add_members}
use obmc_webapp.Core.Connect.{DbusConnect, get_connect}
use obmc_webapp.DBus.Members.{meta_object_path, meta_object_service}
use obmc_webapp.System.Definitions.{
  entity_chassis, entity_server, entity_baseboard, entity_sensors, field_name, field_type,
  field_model, field_manufacturer, field_serial_number, field_part_number, field_value, field_unit,
  field_low_critical, field_low_warning, field_high_warning, field_hight_critical,
  field_version_bios, field_version_bmc, provider_relations, provider_status, field_status,
  field_object_cauth_path, provider_version, field_version, field_purpose,
}
use obmc_webapp.DBus.Members.{field_source, field_destination, field_endpoint}

-- the classes of queries
pub data QueryName : Type 0 where
  status_query version_query relation_query sensors_query server_query : QueryName
  chassis_query baseboard_query : QueryName

-- `EntityDbusBroker`, with its period in seconds
pub record BoundBroker : Type 0 where
  pub query : QueryName
  pub watch : Bool
  pub timeout : ℕ

-- the rules of the links
pub data LinkName : Type 0 where
  sensors_link_status server_link_versions : LinkName

-- What `bind` meets: the connection of the observer, and what sdbusplus answers when
-- a query registers its matches for the creation and for the removal of objects. An exception of
-- sdbusplus stands as one of these.
pub record ObserverBus : Type 0 where
  pub object_observer_connect : DbusConnect
  pub observe_creation : QueryName → Result (Unit {0})
  pub observe_removing : QueryName → Result (Unit {0})

unfoldable pub and_next : {A : Type 0} → Result A → Result (Unit {0}) → Result (Unit {0})
and_next (err e) next = err e
and_next (ok _) next = next

unfoldable pub register_objects_listener : ObserverBus → QueryName → Result (Unit {0})
register_objects_listener bus query =
    and_next (bus.observe_creation query) (bus.observe_removing query)

-- what `bind` does before it stores the broker
unfoldable pub before_bound : ObserverBus → Bool → QueryName → Result (Unit {0})
before_bound bus watch query =
    and_next (get_connect bus.object_observer_connect)
      (if watch then register_objects_listener bus query else ok tt)

-- `before_bound` of a bus, where the bus does not matter
abbrev pub Bind : Type 0
Bind = Bool → QueryName → Result (Unit {0})

module _ (interface : InstanceInterface) where
  pub record Built : Type 0 where
    pub entity : Entity interface
    pub providers : List (String × LinkName)
    pub brokers : List BoundBroker

  pub record EntityManager : Type 0 where
    pub entity_dictionary : List (String × Built)
    pub supplement_providers : List (String × Built)

  abbrev pub Step : Type 0
  Step = Built → Built × Result (Unit {0})

  unfoldable pub with_entity :
      Built → Entity interface × Result (Unit {0}) → Built × Result (Unit {0})
  with_entity b (e, r) = (record b { entity = e }, r)

  unfoldable pub add_all_members : List String → Step
  add_all_members names b = with_entity b (add_members interface names b.entity)

  -- `linkSupplementProvider`
  unfoldable pub link_found : String → LinkName → Option Built → Step
  link_found name rule none b =
      (b, err (entity_exception ("Requested provider is not registered: " ++ name)))
  link_found name rule (some provider) b =
      (record b { providers = append b.providers ((name, rule) ∷ []) }, ok tt)

  unfoldable pub link_supplement_provider : String → LinkName → EntityManager → Step
  link_supplement_provider name rule manager b =
      link_found name rule (find name manager.supplement_providers) b

  -- the broker is stored, unless there was an exception, before the members of the metadata are added
  unfoldable pub bind_broker : Result (Unit {0}) → BoundBroker → Step
  bind_broker (err e) broker b = (b, err e)
  bind_broker (ok _) broker b = (record b { brokers = append b.brokers (broker ∷ []) }, ok tt)

  unfoldable pub add_object : Bind → BoundBroker → Step
  add_object bind broker b =
      bind_broker (bind broker.watch broker.query) broker b
      and_then add_all_members (meta_object_path ∷ meta_object_service ∷ [])

  abbrev new_built : String → Built
  new_built name = record { entity = new_entity interface name; providers = []; brokers = [] }

  unfoldable pub store_provider :
      String → Built × Result (Unit {0}) → EntityManager → EntityManager × Result (Unit {0})
  store_provider name (b, r) manager =
      (record manager { supplement_providers = emplace name b manager.supplement_providers }, r)

  unfoldable pub build_supplement_provider :
      String → Step → EntityManager → EntityManager × Result (Unit {0})
  build_supplement_provider name chain manager =
      store_provider name (chain (new_built name)) manager

  unfoldable pub store_entity :
      String → Built × Result (Unit {0}) → EntityManager → EntityManager × Result (Unit {0})
  store_entity name (b, r) manager =
      (record manager { entity_dictionary = emplace name b manager.entity_dictionary }, r)

  -- `buildEntity` with `addEntity`, which emplaces before the chain begins
  unfoldable pub build_new :
      Option Built
      → String
      → (EntityManager → Step)
      → EntityManager
      → EntityManager × Result (Unit {0})
  build_new (some old) name chain manager = (
    manager,
    err (entity_exception ("The name of object already registered. Object name is " ++ name)),
  )
  build_new none name chain manager = store_entity name (chain manager (new_built name)) manager

  unfoldable pub build_entity :
      String → (EntityManager → Step) → EntityManager → EntityManager × Result (Unit {0})
  build_entity name chain manager =
      build_new (find name manager.entity_dictionary) name chain manager

  unfoldable pub entity_found : String → Option Built → Result Built
  entity_found name none = err (entity_exception ("The Object <" ++ (name ++ "> not found")))
  entity_found name (some b) = ok b

  unfoldable pub get_entity : String → EntityManager → Result Built
  get_entity name manager = entity_found name (find name manager.entity_dictionary)

  -- the arguments that `EntityDbusBroker` has by default
  abbrev by_default : QueryName → BoundBroker
  by_default query = record { query = query; watch = true; timeout = 0 }

  abbrev pub chain_of : Bind → List String → BoundBroker → Step
  chain_of bind names broker b = add_all_members names b and_then add_object bind broker

  abbrev pub linked_chain :
      Bind → List String → String → LinkName → BoundBroker → EntityManager → Step
  linked_chain bind names provider rule broker manager b =
      add_all_members names b
      and_then link_supplement_provider provider rule manager
      and_then add_object bind broker

  abbrev pub new_manager : EntityManager
  new_manager = record { entity_dictionary = []; supplement_providers = [] }

  abbrev pub sensors_members : List String
  sensors_members =
      field_name ∷ field_value ∷ field_unit ∷ field_low_warning ∷ field_low_critical
      ∷ field_high_warning ∷ field_hight_critical ∷ field_status ∷ []

  abbrev pub server_members : List String
  server_members =
      field_name ∷ field_type ∷ field_manufacturer ∷ field_model ∷ field_part_number
      ∷ field_serial_number ∷ field_version_bios ∷ field_version_bmc ∷ field_status ∷ []

  abbrev pub chassis_members : List String
  chassis_members = field_type ∷ field_part_number ∷ field_manufacturer ∷ field_status ∷ []

  abbrev pub baseboard_members : List String
  baseboard_members =
      field_name ∷ field_type ∷ field_manufacturer ∷ field_model ∷ field_part_number
      ∷ field_serial_number ∷ field_status ∷ field_endpoint ∷ []

  unfoldable pub init_entity_map : Bind → EntityManager → EntityManager × Result (Unit {0})
  init_entity_map bind manager =
      build_supplement_provider provider_status
        (chain_of bind (field_status ∷ field_object_cauth_path ∷ []) (by_default status_query))
        manager
      and_then build_supplement_provider provider_version
          (chain_of bind (field_purpose ∷ field_version ∷ []) (by_default version_query))
      and_then build_entity provider_relations (λ m.
        chain_of bind (field_endpoint ∷ field_source ∷ field_destination ∷ [])
          (by_default relation_query))
      and_then build_entity entity_sensors (
          linked_chain bind sensors_members provider_status sensors_link_status
            (record { query = sensors_query; watch = true; timeout = 300 }))
      and_then build_entity entity_server (
          linked_chain bind server_members provider_version server_link_versions
            (by_default server_query))
      and_then build_entity entity_chassis
          (λ m. chain_of bind chassis_members (by_default chassis_query))
      and_then build_entity entity_baseboard
          (λ m. chain_of bind baseboard_members (by_default baseboard_query))
