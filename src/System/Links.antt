-- ===== src/System/Links.antt =====
-- src/system_queries.hpp, src/version_provider.hpp and src/status_provider.hpp: how the instances of a
-- provider supplement those of an entity. An instance that supplements is read only.
pub mod Highest
pub mod Repeated
pub mod Versions
pub mod Typed
use Prim.Native.String.{◌++◌}
use obmc_webapp.Prelude.{
  ℕ, String, Bool, true, false, Option, none, some, List, [], ◌∷◌, str_eq, if◌then◌else◌,
}
use obmc_webapp.Prelude.Maps.{find, string_key}
use obmc_webapp.Core.Exceptions.{Exception, obmc_app_exception, invalid_type, Result, ok, err}
use obmc_webapp.Helpers.Text.Unicode.{codes}
use obmc_webapp.Providers.Status.{
  same_bytes, status_ok, status_warning, status_critical, DestroyedText, get_higher_status,
}
use obmc_webapp.DBus.Values.{Platform, FieldType, text, get_string_value}
use obmc_webapp.DBus.Instance.{Child}
use obmc_webapp.DBus.Members.{Members, get_field, set_value, supplement_or_update, meta_object_path}
use obmc_webapp.System.Definitions.{
  field_status, field_object_cauth_path, field_version, field_purpose, field_version_bios,
  field_version_bmc,
}

-- the text of one of the three statuses
unfoldable pub status_text : List ℕ → String
status_text status =
    if same_bytes status_ok status
    then "OK"
    else if same_bytes status_warning status
    then "Warning"
    else "Critical"

pub data VersionPurpose : Type 0 where
  bmc bios unknown_purpose : VersionPurpose

abbrev purposes : List (String × VersionPurpose)
purposes =
    ("xyz.openbmc_project.Software.Version.VersionPurpose.BMC", bmc)
    ∷ ("xyz.openbmc_project.Software.Version.VersionPurpose.Host", bios)
    ∷ []

unfoldable pub purpose_or_unknown : Option VersionPurpose → VersionPurpose
purpose_or_unknown none = unknown_purpose
purpose_or_unknown (some purpose) = purpose

-- `none` is `bad_variant_access`
unfoldable pub purpose_of_text : Option String → Option VersionPurpose
purpose_of_text none = none
purpose_of_text (some t) = some (purpose_or_unknown (find t purposes))

-- `purposeToMemberName`
unfoldable pub purpose_to_member_name : VersionPurpose → Option String
purpose_to_member_name bmc = some field_version_bmc
purpose_to_member_name bios = some field_version_bios
purpose_to_member_name unknown_purpose = none

module _ (platform : Platform) where
  -- the read through the reference that `getHigherStatus` returned
  unfoldable pub known_status : Option DestroyedText → String → String → Result String
  known_status (some status) left right = ok (platform.read_destroyed (status_text status.was))
  known_status none left right = err (
      obmc_app_exception (
        "The one of comparing status fields has an unknown value. Left="
        ++ (left ++ (", Right=" ++ right))))

  -- `getHigherStatus` on texts, with the read of its result by `setValue`
  unfoldable pub higher_status : String → String → Result String
  higher_status left right = known_status (get_higher_status (codes left) (codes right)) left right

  abbrev pub string_field : String → Members platform → Option String
  string_field member members = get_string_value platform (get_field platform member members)

  unfoldable pub get_purpose : Child platform → Option VersionPurpose
  get_purpose c = purpose_of_text (string_field field_purpose c.member_instances)

  unfoldable pub supplement_version :
      Option String → FieldType platform → Child platform → Child platform × Result (Unit {0})
  supplement_version none value target = (target, err (invalid_type "Version Purpose"))
  supplement_version (some member) value target = (
    (record target {
      member_instances = supplement_or_update platform member value target.member_instances;
    }),
    ok tt,
  )

  unfoldable pub link_purpose :
      Option VersionPurpose
      → FieldType platform
      → Child platform
      → Child platform × Result (Unit {0})
  link_purpose none value target = (target, ok tt)
  link_purpose (some unknown_purpose) value target = (target, ok tt)
  link_purpose (some bmc) value target =
      supplement_version (purpose_to_member_name bmc) value target
  link_purpose (some bios) value target =
      supplement_version (purpose_to_member_name bios) value target

  -- `Server::linkVersions`
  unfoldable pub link_versions :
      Child platform → Child platform → Child platform × Result (Unit {0})
  link_versions supplementing target =
      link_purpose (get_purpose supplementing)
        (get_field platform field_version supplementing.member_instances) target

  unfoldable pub raise_status : Result String → Child platform → Child platform × Result (Unit {0})
  raise_status (err e) target = (target, err e)
  raise_status (ok status) target = (
    (record target {
      member_instances = set_value platform field_status (text status) target.member_instances;
    }),
    ok tt,
  )

  -- the texts of path, causer, candidate and current status; one that is no text is caught
  unfoldable pub link_texts :
      Option String
      → Option String
      → Option String
      → Option String
      → Child platform
      → Child platform × Result (Unit {0})
  link_texts (some path) (some causer) (some candidate) (some current) target =
      if str_eq path causer
      then raise_status (higher_status current candidate) target
      else (target, ok tt)
  link_texts _ _ _ _ target = (target, ok tt)

  -- `Sensors::linkStatus`
  unfoldable pub link_status : Child platform → Child platform → Child platform × Result (Unit {0})
  link_status supplementing target =
      link_texts (string_field meta_object_path target.member_instances)
        (string_field field_object_cauth_path supplementing.member_instances)
        (string_field field_status supplementing.member_instances)
        (string_field field_status target.member_instances) target
