-- ===== src/System/Queries.antt =====
-- src/system_queries.hpp and .cpp, src/version_provider.hpp, src/status_provider.hpp and
-- src/relation_provider.hpp: the classes of queries.
mod Dictionaries
pub use Dictionaries.*
use obmc_webapp.Prelude.{String, Option, none, some, List, [], ◌∷◌}
use obmc_webapp.Prelude.Integers.{ℤ, pos}
use obmc_webapp.Prelude.Maps.{find, string_key}
use obmc_webapp.Core.Exceptions.{Exception, invalid_argument, Result, ok, err}
use obmc_webapp.Helpers.Text.Unicode.{name_of_path}
use obmc_webapp.DBus.Values.{Platform, FieldType, DbusVariant, text, simple}
use obmc_webapp.DBus.Instance.{Targets, DbusInstance, QueryView}
use obmc_webapp.DBus.Members.{Members, supplement, field_source, field_endpoint}
use obmc_webapp.DBus.Query.{DbusObjectEndpoint, QueryClass}
use obmc_webapp.System.Definitions.{
  field_name, field_type, field_model, field_manufacturer, field_serial_number, field_part_number,
  field_value, field_unit, field_low_critical, field_low_warning, field_high_warning,
  field_hight_critical, field_associations, field_status, field_object_cauth_path, field_version,
  field_purpose,
}

abbrev pub chassis_types_names : List (String × String)
chassis_types_names = ("23", "Rack Mount") ∷ []

abbrev pub sensor_units_map : List (String × String)
sensor_units_map =
    ("xyz.openbmc_project.Sensor.Value.Unit.Amperes", "Amperes")
    ∷ ("xyz.openbmc_project.Sensor.Value.Unit.DegreesC", "°C")
    ∷ ("xyz.openbmc_project.Sensor.Value.Unit.Joules", "Joules")
    ∷ ("xyz.openbmc_project.Sensor.Value.Unit.Meters", "Meters")
    ∷ ("xyz.openbmc_project.Sensor.Value.Unit.Percent", "%")
    ∷ ("xyz.openbmc_project.Sensor.Value.Unit.RPMS", "RPM")
    ∷ ("xyz.openbmc_project.Sensor.Value.Unit.Volts", "Volts")
    ∷ ("xyz.openbmc_project.Sensor.Value.Unit.Watts", "Watts")
    ∷ []

-- a name of a table, or the one for what is not in it
unfoldable pub name_or : String → Option String → String
name_or other none = other
name_or other (some name) = name

module _ (platform : Platform) where
  unfoldable pub format_chassis_type : String → DbusVariant platform → Result (FieldType platform)
  format_chassis_type property (simple (text t)) =
      ok (text (name_or "Other" (find t chassis_types_names)))
  format_chassis_type property _ =
      err (invalid_argument "Invalid value type of ChassisType property")

  unfoldable pub format_sensor_unit : String → DbusVariant platform → Result (FieldType platform)
  format_sensor_unit property (simple (text t)) =
      ok (text (name_or "Unit" (find t sensor_units_map)))
  format_sensor_unit property _ =
      err (invalid_argument "Invalid value type of Sensor Unit property")

  -- what Status and Sensors start from
  abbrev pub default_status_ok : Members platform
  default_status_ok = (field_status, text "OK") ∷ []

  -- a view with neither formatters nor defaults
  abbrev pub plain_view : QueryView platform
  plain_view = record { formatters = []; default_fields_value = [] }

  -- the `supplementByStaticFields` of `DBusQuery`
  abbrev pub no_static_fields : DbusInstance platform → DbusInstance platform × Result (Unit {0})
  no_static_fields i = (i, ok tt)

  abbrev pub server_query : QueryClass platform
  server_query = record {
    view = plain_view;
    search_properties_map = server_dictionary;
    supplement_by_static_fields = no_static_fields;
  }

  abbrev pub chassis_query : QueryClass platform
  chassis_query = record {
    view = record {
      formatters = ("ChassisType", format_chassis_type ∷ []) ∷ [];
      default_fields_value = [];
    };
    search_properties_map = chassis_dictionary;
    supplement_by_static_fields = no_static_fields;
  }

  abbrev pub baseboard_query : QueryClass platform
  baseboard_query = record {
    view = plain_view;
    search_properties_map = baseboard_dictionary;
    supplement_by_static_fields = no_static_fields;
  }

  abbrev pub version_query : QueryClass platform
  version_query = record {
    view = plain_view;
    search_properties_map = version_dictionary;
    supplement_by_static_fields = no_static_fields;
  }

  abbrev pub status_query : QueryClass platform
  status_query = record {
    view = record { formatters = []; default_fields_value = default_status_ok };
    search_properties_map = status_dictionary;
    supplement_by_static_fields = no_static_fields;
  }

  abbrev pub relation_query : QueryClass platform
  relation_query = record {
    view = plain_view;
    search_properties_map = relation_dictionary;
    supplement_by_static_fields = no_static_fields;
  }

  unfoldable pub with_members :
      DbusInstance platform → Result (Members platform) → DbusInstance platform × Result (Unit {0})
  with_members i (ok members) = (record i { member_instances = members }, ok tt)
  with_members i (err e) = (i, err e)

  unfoldable pub set_name :
      Result String → DbusInstance platform → DbusInstance platform × Result (Unit {0})
  set_name (err e) i = (i, err e)
  set_name (ok name) i =
      with_members i (supplement platform field_name (text name) i.member_instances)

  unfoldable pub set_sensor_name : DbusInstance platform → DbusInstance platform × Result (Unit {0})
  set_sensor_name i = set_name (name_of_path i.object_path) i

  abbrev pub sensors_query : QueryClass platform
  sensors_query = record {
    view = record {
      formatters = ("Unit", format_sensor_unit ∷ []) ∷ [];
      default_fields_value = default_status_ok;
    };
    search_properties_map = sensors_dictionary;
    supplement_by_static_fields = set_sensor_name;
  }
