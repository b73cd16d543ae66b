-- ===== src/System/Queries/Dictionaries.antt =====
-- src/system_queries.hpp, src/version_provider.hpp, src/status_provider.hpp and
-- src/relation_provider.hpp: the objects that each query looks for, and the dictionaries of the
-- properties that it takes. A dictionary has its entries in the order of a `std::map`.
use obmc_webapp.Prelude.{String, none, some, List, [], ◌∷◌}
use obmc_webapp.Prelude.Integers.{pos}
use obmc_webapp.DBus.Instance.{Targets}
use obmc_webapp.DBus.Members.{field_source, field_endpoint}
use obmc_webapp.DBus.Query.{DbusObjectEndpoint}
use obmc_webapp.System.Definitions.{
  field_name, field_type, field_model, field_manufacturer, field_serial_number, field_part_number,
  field_value, field_unit, field_low_critical, field_low_warning, field_high_warning,
  field_hight_critical, field_associations, field_status, field_object_cauth_path, field_version,
  field_purpose,
}

abbrev pub asset_interface : String
asset_interface = "xyz.openbmc_project.Inventory.Decorator.Asset"

abbrev pub chassis_interface : String
chassis_interface = "xyz.openbmc_project.Inventory.Item.Chassis"

abbrev pub yadro_interface : String
yadro_interface = "com.yadro.Platform"

abbrev pub board_interface : String
board_interface = "xyz.openbmc_project.Inventory.Item.Board"

abbrev pub sensor_value_interface : String
sensor_value_interface = "xyz.openbmc_project.Sensor.Value"

abbrev pub version_interface_name : String
version_interface_name = "xyz.openbmc_project.Software.Version"

abbrev pub definition_interface : String
definition_interface = "xyz.openbmc_project.Association.Definitions"

abbrev assets : List (String × String)
assets =
    ("Manufacturer", field_manufacturer)
    ∷ ("Model", field_model)
    ∷ ("PartNumber", field_part_number)
    ∷ ("SerialNumber", field_serial_number)
    ∷ []

abbrev pub server_dictionary : Targets
server_dictionary =
    (asset_interface, assets)
    ∷ (chassis_interface, ("Name", field_name) ∷ ("Type", field_type) ∷ [])
    ∷ []

abbrev pub server_criteria : DbusObjectEndpoint
server_criteria = record {
  path = "/xyz/openbmc_project/inventory/system/chassis/";
  interfaces = chassis_interface ∷ [];
  depth = pos 1;
  service = none;
}

abbrev pub chassis_dictionary : Targets
chassis_dictionary =
    (yadro_interface, ("ChassisPartNumber", field_part_number) ∷ ("ChassisType", field_type) ∷ [])
    ∷ (asset_interface, ("Manufacturer", field_manufacturer) ∷ [])
    ∷ []

abbrev pub chassis_criteria : DbusObjectEndpoint
chassis_criteria = record {
  path = "/xyz/openbmc_project/inventory/system/board/";
  interfaces = yadro_interface ∷ [];
  depth = pos 1;
  service = none;
}

abbrev pub baseboard_dictionary : Targets
baseboard_dictionary =
    (asset_interface, assets)
    ∷ (board_interface, ("Name", field_name) ∷ ("Type", field_type) ∷ [])
    ∷ []

abbrev pub baseboard_criteria : DbusObjectEndpoint
baseboard_criteria = record {
  path = "/xyz/openbmc_project/inventory/system/board/";
  interfaces = board_interface ∷ [];
  depth = pos 1;
  service = none;
}

abbrev pub sensors_dictionary : Targets
sensors_dictionary =
    (
      "xyz.openbmc_project.Sensor.Threshold.Critical",
      ("CriticalHigh", field_hight_critical) ∷ ("CriticalLow", field_low_critical) ∷ [],
    )
    ∷ (
      "xyz.openbmc_project.Sensor.Threshold.Warning",
      ("WarningHigh", field_high_warning) ∷ ("WarningLow", field_low_warning) ∷ [],
    )
    ∷ (sensor_value_interface, ("Unit", field_unit) ∷ ("Value", field_value) ∷ [])
    ∷ []

abbrev pub sensors_criteria : DbusObjectEndpoint
sensors_criteria = record {
  path = "/xyz/openbmc_project/sensors";
  interfaces = sensor_value_interface ∷ [];
  depth = pos 0;
  service = none;
}

abbrev pub version_dictionary : Targets
version_dictionary =
    (version_interface_name, ("Purpose", field_purpose) ∷ ("Version", field_version) ∷ []) ∷ []

abbrev pub version_criteria : DbusObjectEndpoint
version_criteria = record {
  path = "/xyz/openbmc_project/software";
  interfaces = version_interface_name ∷ [];
  depth = pos 1;
  service = none;
}

-- the second entry is for the instances that associations give
abbrev pub status_dictionary : Targets
status_dictionary =
    (
      field_associations,
      (field_endpoint, field_object_cauth_path) ∷ (field_source, field_status) ∷ [],
    )
    ∷ (definition_interface, ("Associations", field_associations) ∷ [])
    ∷ []

abbrev pub status_criteria : DbusObjectEndpoint
status_criteria = record {
  path = "/xyz/openbmc_project";
  interfaces = [];
  depth = pos 1;
  service = some "xyz.openbmc_project.CallbackManager";
}

abbrev pub relation_dictionary : Targets
relation_dictionary = ("xyz.openbmc_project.Association", ("endpoints", field_endpoint) ∷ []) ∷ []

abbrev pub relation_service_name : String
relation_service_name = "xyz.openbmc_project.ObjectMapper"
