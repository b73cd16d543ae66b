-- ===== src/System/Definitions.antt =====
-- src/definitions.hpp: the names of entities, members and providers.
use obmc_webapp.Prelude.{String}

abbrev pub entity_chassis : String
entity_chassis = "Chassis"

abbrev pub entity_server : String
entity_server = "Server"

abbrev pub entity_baseboard : String
entity_baseboard = "Baseboard"

abbrev pub entity_sensors : String
entity_sensors = "Sensors"

abbrev pub field_name : String
field_name = "Name"

abbrev pub field_type : String
field_type = "Type"

abbrev pub field_model : String
field_model = "Model"

abbrev pub field_manufacturer : String
field_manufacturer = "Manufacturer"

abbrev pub field_serial_number : String
field_serial_number = "SerialNumber"

abbrev pub field_part_number : String
field_part_number = "PartNumber"

-- of sensors; their name is `field_name` too
abbrev pub field_value : String
field_value = "Reading"

abbrev pub field_unit : String
field_unit = "Unit"

abbrev pub field_low_critical : String
field_low_critical = "LowCritical"

abbrev pub field_low_warning : String
field_low_warning = "LowWarning"

abbrev pub field_high_warning : String
field_high_warning = "HighWarning"

abbrev pub field_hight_critical : String
field_hight_critical = "HighCritical"

-- of versions
abbrev pub field_version_bios : String
field_version_bios = "BiosVersion"

abbrev pub field_version_bmc : String
field_version_bmc = "BmcVersion"

-- of the providers
abbrev pub provider_relations : String
provider_relations = "Relations"

abbrev pub field_associations : String
field_associations = "Associations"

abbrev pub provider_status : String
provider_status = "Status"

abbrev pub field_status : String
field_status = "Status"

abbrev pub field_object_cauth_path : String
field_object_cauth_path = "Causer"

abbrev pub provider_version : String
provider_version = "Version"

abbrev pub field_version : String
field_version = "Version"

abbrev pub field_purpose : String
field_purpose = "Purpose"
