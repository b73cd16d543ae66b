-- ===== src/Tests/Objects.antt =====
-- The theorems on the objects of D-Bus at concrete inputs. Texts hash to their lengths.
use obmc_webapp.Prelude.{ℕ, len, String, ◌≡◌, refl, map, true, none, some, List, [], ◌∷◌}
use obmc_webapp.Prelude.Maps.{find, insert_or_assign, string_key, nat_key}
use obmc_webapp.Core.Exceptions.{ok}
use obmc_webapp.Core.Entity.{InstanceInterface}
use obmc_webapp.DBus.Values.{Platform, strings, text}
use obmc_webapp.DBus.Instance.{
  Child, DbusInstance, QueryView, new_instance, hash_of, run_formatters, format_by,
  process_formatters, members_of_interface, get_property_member_dict, resolve_formatted,
  fill_member, fill_by, resolve_child, fill_child, store_child, capture_all,
  capture_dbus_associations, resolve_dbus_variant, fill_members,
}
use obmc_webapp.DBus.Members.{
  is_found, has_field, supplement, set_value, supplemented, supplement_or_update, meta_object_path,
}
use obmc_webapp.DBus.Instance.Associations.{last_associated, find-capture_dbus_associations}
use obmc_webapp.DBus.Instance.Vectors.{find-visited-resolve_dbus_variant}
use obmc_webapp.DBus.Supply.{Instances, visited, get_instances}
use obmc_webapp.DBus.Supply.Conditions.{restricted, get_instances-condition}
use obmc_webapp.DBus.Instance.Endpoint.{endpoint}
use obmc_webapp.DBus.Query.{
  SubTree, Bus, query_properties, instance_of, fill_interfaces, create_instance, skip_service,
  process_services, process_objects, process_response, process,
}
use obmc_webapp.DBus.Query.Endpoints.{asked_objects, process-endpoints}
use obmc_webapp.System.Definitions.{field_status, field_object_cauth_path, field_associations}
use obmc_webapp.System.Queries.{
  sensors_query, status_query, status_dictionary, status_criteria, relation_dictionary,
}
use obmc_webapp.System.Links.{link_status}
use obmc_webapp.System.Links.Typed.{IsTyped, get_instances-IsTyped}

abbrev pub lengths : Platform
lengths = record { Double = ℕ; string_hash = len; read_destroyed = λ t. t }

abbrev view : QueryView lengths
view = (status_query lengths).view

abbrev callbacks : DbusInstance lengths
callbacks = new_instance lengths "Callbacks" "/status"

abbrev alarms : List (String × (String × String))
alarms = ("Warning", ("cause", "/fan")) ∷ ("Critical", ("cause", "/psu")) ∷ []

alarms_ok :
    (capture_dbus_associations lengths view status_dictionary field_associations alarms callbacks).1
    ≡ ok tt
unfolding capture_dbus_associations capture_all store_child fill_child fill_by fill_member
    get_property_member_dict members_of_interface find resolve_formatted process_formatters
    format_by run_formatters resolve_child supplement_or_update has_field is_found set_value
    supplement supplemented insert_or_assign hash_of
alarms_ok = refl

find-capture_dbus_associations_example :
    find 22
      (capture_dbus_associations lengths view status_dictionary field_associations alarms
        callbacks).0.complex_instances
    ≡ last_associated lengths view status_dictionary field_associations "Callbacks" 22 alarms none
find-capture_dbus_associations_example =
    find-capture_dbus_associations lengths view status_dictionary field_associations 22 alarms
      callbacks alarms_ok

find-visited-resolve_dbus_variant_example :
    find 20 (
      visited lengths
        (resolve_dbus_variant lengths view relation_dictionary "Endpoint"
          (strings ("/fan" ∷ []))
          callbacks).0)
    ≡ find 20 (visited lengths callbacks)
find-visited-resolve_dbus_variant_example =
    find-visited-resolve_dbus_variant lengths view relation_dictionary "Endpoint"
      (strings ("/fan" ∷ [])) tt 20 callbacks

get_instances-condition_example :
    get_instances lengths [] (some []) ((20, (view, callbacks)) ∷ [])
    ≡ restricted lengths [] [] (get_instances lengths [] none ((20, (view, callbacks)) ∷ []))
get_instances-condition_example =
    get_instances-condition lengths [] [] ((20, (view, callbacks)) ∷ [])

abbrev manager : String
manager = "xyz.openbmc_project.CallbackManager"

abbrev tree : SubTree
tree = ("/status", ("Other", []) ∷ (manager, "Unknown" ∷ []) ∷ []) ∷ []

abbrev quiet_bus : Bus lengths
quiet_bus = record {
  get_sub_tree = λ path depth interfaces. some tree;
  get_all = λ service path interface. none;
  get_managed_objects = λ service. none;
}

tree_ok :
    process lengths (status_query lengths) status_criteria quiet_bus
    ≡ ok (new_instance lengths manager "/status" ∷ [])
unfolding process process_response process_objects process_services skip_service create_instance
    instance_of fill_interfaces query_properties fill_members fill_by get_property_member_dict
    members_of_interface find
tree_ok = refl

process-endpoints_example :
    map (endpoint lengths) (new_instance lengths manager "/status" ∷ [])
    ≡ asked_objects lengths status_criteria.service tree
process-endpoints_example =
    process-endpoints lengths (status_query lengths) quiet_bus (λ i. refl) status_criteria tree
      (new_instance lengths manager "/status" ∷ []) refl tree_ok

abbrev fan : Child lengths
fan = record {
  service_name = "Sensors";
  object_path = "/fan";
  member_instances = (field_status, text "OK") ∷ (meta_object_path, text "/fan") ∷ [];
}

abbrev alarm : String → String → Child lengths
alarm path status = record {
  service_name = "Callbacks";
  object_path = path;
  member_instances = (field_object_cauth_path, text path) ∷ (field_status, text status) ∷ [];
}

abbrev raised_alarms : List (Child lengths)
raised_alarms = alarm "/psu" "Critical" ∷ alarm "/fan" "warning" ∷ []

abbrev pub hashes : InstanceInterface
hashes = record { Instance = ℕ; get_hash = λ x. x; is_dbus_instance = λ x. true }

abbrev sensors : Instances lengths
sensors = (20, ((sensors_query lengths).view, new_instance lengths "Sensors" "/fan")) ∷ []

get_instances-IsTyped_example :
    IsTyped lengths raised_alarms none
      (get_instances lengths ((raised_alarms, link_status lengths) ∷ []) none sensors)
get_instances-IsTyped_example =
    get_instances-IsTyped lengths raised_alarms none sensors ((refl, refl), tt)
