-- ===== src/DBus/Instance.antt =====
-- src/core/entity/dbus_query.cpp: `DBusInstance`, with `processFormatters` of its query. The query
-- and the dictionary of target properties, which the instance refers to, are passed on explicitly.
-- Loops over a `std::map` follow the order of the list. A complex instance that an instance holds
-- gets simple values only, and so holds none itself. The watching of signals is in DBus/Watch.
pub mod Fields
pub mod Written
pub mod Hashes
pub mod Formatted
pub mod Endpoint
pub mod Associations
pub mod Vectors
use obmc_webapp.Prelude.{
  ℕ, ◌*◌, ◌%◌, ◌^◌, bit_xor, String, Bool, true, false, Option, none, some, List, [], ◌∷◌, map,
  str_eq, if◌then◌else◌,
}
use obmc_webapp.Prelude.Maps.{find, insert_or_assign, string_key, nat_key}
use obmc_webapp.Core.Exceptions.{Exception, logic_error, Result, ok, err, ◌>>=◌, ◌and_then◌}
use obmc_webapp.DBus.Members.{
  meta_object_path, meta_object_service, field_source, field_destination, field_endpoint, Members,
  is_found, has_field, value_or_missing, get_field, supplement, set_value, supplemented,
  supplement_or_update, meta_fields,
}
use obmc_webapp.DBus.Values.{
  Platform, FieldType, DbusVariant, text, double, simple, associations, strings, doubles,
  not_available,
}

-- `DBusPropertyEndpointMap`: for each interface, the member that takes each property
abbrev pub Targets : Type 0
Targets = List (String × List (String × String))

module _ (platform : Platform) where
  open platform use {Double, string_hash}

  -- Each formatter of the program answers with a value of a field, or throws.
  abbrev pub Formatter : Type 0
  Formatter = String → DbusVariant platform → Result (FieldType platform)

  abbrev pub Properties : Type 0
  Properties = List (String × DbusVariant platform)

  -- A complex instance.
  pub record Child : Type 0 where
    pub service_name : String
    pub object_path : String
    pub member_instances : Members platform

  pub record DbusInstance : Type 0 where
    pub service_name : String
    pub object_path : String
    pub member_instances : Members platform
    pub complex_instances : List (ℕ × Child)

  abbrev pub new_child : String → String → Child
  new_child service path = record {
    service_name = service;
    object_path = path;
    member_instances = meta_fields platform service path;
  }

  abbrev pub new_instance : String → String → DbusInstance
  new_instance service path = record {
    service_name = service;
    object_path = path;
    member_instances = meta_fields platform service path;
    complex_instances = [];
  }

  -- 64-bit arithmetic
  unfoldable pub hash_of : String → String → ℕ
  hash_of service path = bit_xor (string_hash path) (string_hash service * 2 % 2 ^ 64)

  -- `getFormatters` and `getDefaultFieldsValue` of the query
  pub record QueryView : Type 0 where
    pub formatters : List (String × List Formatter)
    pub default_fields_value : Members platform

  unfoldable pub run_formatters :
      List Formatter → String → DbusVariant platform → Result (DbusVariant platform)
  run_formatters [] property value = ok value
  run_formatters (f ∷ rest) property value =
      f property value >>= λ v. run_formatters rest property (simple v)

  unfoldable pub format_by :
      Option (List Formatter) → String → DbusVariant platform → Result (DbusVariant platform)
  format_by none property value = ok value
  format_by (some fs) property value = run_formatters fs property value

  unfoldable pub process_formatters :
      QueryView → String → DbusVariant platform → Result (DbusVariant platform)
  process_formatters query property value =
      format_by (find property query.formatters) property value

  unfoldable pub members_of_interface : Option (List (String × String)) → List (String × String)
  members_of_interface none = []
  members_of_interface (some dict) = dict

  unfoldable pub get_property_member_dict : String → Targets → List (String × String)
  get_property_member_dict interface targets = members_of_interface (find interface targets)

  -- `fillMembers` over what a value of a property does to the state of an instance
  module _ {S : Type 0} (resolve : String → DbusVariant platform → S → S × Result (Unit {0})) where
    unfoldable pub resolve_formatted :
        String → Result (DbusVariant platform) → S → S × Result (Unit {0})
    resolve_formatted member (err e) s = (s, err e)
    resolve_formatted member (ok v) s = resolve member v s

    unfoldable pub fill_member :
        QueryView → String → String → Option (DbusVariant platform) → S → S × Result (Unit {0})
    fill_member query property member none s = (s, ok tt)
    fill_member query property member (some v) s =
        resolve_formatted member (process_formatters query property v) s

    unfoldable pub fill_by :
        QueryView → List (String × String) → Properties → S → S × Result (Unit {0})
    fill_by query [] properties s = (s, ok tt)
    fill_by query ((property, member) ∷ rest) properties s =
        fill_member query property member (find property properties) s
        and_then fill_by query rest properties

  -- `resolveDBusVariant` of a complex instance, to which only simple values come
  unfoldable pub resolve_child : String → DbusVariant platform → Child → Child × Result (Unit {0})
  resolve_child member (simple v) c = (
    record c { member_instances = supplement_or_update platform member v c.member_instances },
    ok tt,
  )
  resolve_child member _ c = (c, ok tt)

  unfoldable pub fill_child :
      QueryView → Targets → String → Properties → Child → Child × Result (Unit {0})
  fill_child query targets interface properties c =
      fill_by resolve_child query (get_property_member_dict interface targets) properties c

  unfoldable pub store_child :
      Child × Result (Unit {0}) → DbusInstance → DbusInstance × Result (Unit {0})
  store_child (c, err e) i = (i, err e)
  store_child (c, ok _) i = (
    record i {
      complex_instances =
          insert_or_assign (hash_of c.service_name c.object_path) c i.complex_instances;
    },
    ok tt,
  )

  module _ (query : QueryView) (targets : Targets) where
    unfoldable pub capture_complex_dbus_property :
        String → List (FieldType platform) → DbusInstance → DbusInstance × Result (Unit {0})
    capture_complex_dbus_property member [] i = (i, ok tt)
    capture_complex_dbus_property member (value ∷ rest) i =
        store_child
          (fill_child query targets member ((member, simple value) ∷ [])
            (new_child i.service_name i.object_path))
          i
        and_then capture_complex_dbus_property member rest

    -- the properties that stand for one association
    abbrev pub association_properties : String × (String × String) → Properties
    association_properties (source, (destination, path)) =
        (field_destination, simple (text destination))
        ∷ (field_endpoint, simple (text path))
        ∷ (field_source, simple (text source))
        ∷ []

    unfoldable pub capture_all :
        String → List (String × (String × String)) → DbusInstance → DbusInstance × Result (Unit {0})
    capture_all interface [] i = (i, ok tt)
    capture_all interface (a ∷ rest) i =
        store_child
          (fill_child query targets interface (association_properties a)
            (new_child i.service_name a.1.1))
          i
        and_then capture_all interface rest

    unfoldable pub capture_dbus_associations :
        String → List (String × (String × String)) → DbusInstance → DbusInstance × Result (Unit {0})
    capture_dbus_associations interface list i =
        capture_all interface list (record i { complex_instances = [] })

    -- every alternative of the variant is taken by a branch before the `throw`
    unfoldable pub resolve_dbus_variant :
        String → DbusVariant platform → DbusInstance → DbusInstance × Result (Unit {0})
    resolve_dbus_variant member (simple v) i = (
      record i { member_instances = supplement_or_update platform member v i.member_instances },
      ok tt,
    )
    resolve_dbus_variant member (strings list) i =
        capture_complex_dbus_property member (map text list) i
    resolve_dbus_variant member (doubles list) i =
        capture_complex_dbus_property member (map double list) i
    resolve_dbus_variant member (associations list) i = capture_dbus_associations member list i

    unfoldable pub fill_members :
        String → Properties → DbusInstance → DbusInstance × Result (Unit {0})
    fill_members interface properties i =
        fill_by resolve_dbus_variant query (get_property_member_dict interface targets) properties i

  unfoldable pub supplement_defaults : Members platform → Members platform → Members platform
  supplement_defaults [] members = members
  supplement_defaults ((member, value) ∷ rest) members =
      supplement_defaults rest (supplement_or_update platform member value members)

  unfoldable pub init_default_fields_value : QueryView → DbusInstance → DbusInstance
  init_default_fields_value query i = record i {
    member_instances = supplement_defaults query.default_fields_value i.member_instances;
  }

  -- `isComplex` answers whether there are none
  unfoldable pub is_complex : DbusInstance → Bool
  is_complex i = elim i.complex_instances [ [] ↦ true | _ ∷ _ ↦ false ]
