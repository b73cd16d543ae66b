-- ===== src/Tests/Versions.antt =====
-- The theorem on the versions of a server at concrete inputs: those of the BMC and of its host.
use obmc_webapp.Prelude.{String, ◌≡◌, List, [], ◌∷◌}
use obmc_webapp.Prelude.Maps.{find, string_key}
use obmc_webapp.Core.Exceptions.{ok}
use obmc_webapp.DBus.Values.{text}
use obmc_webapp.DBus.Instance.{Child, new_child}
use obmc_webapp.DBus.Supply.{supplement_instance}
use obmc_webapp.System.Definitions.{field_purpose, field_version, field_version_bios}
use obmc_webapp.System.Links.{link_versions}
use obmc_webapp.System.Links.Versions.{last_version, supplement_instance-link_versions}
use obmc_webapp.Tests.Objects.{lengths}

abbrev software : String → String → Child lengths
software purpose version = record {
  service_name = "Updater";
  object_path = "/software";
  member_instances = (field_purpose, text purpose) ∷ (field_version, text version) ∷ [];
}

abbrev installed : List (Child lengths)
installed =
    software "xyz.openbmc_project.Software.Version.VersionPurpose.BMC" "2.9"
    ∷ software "xyz.openbmc_project.Software.Version.VersionPurpose.Host" "1.4"
    ∷ []

abbrev server : Child lengths
server = new_child lengths "Inventory" "/server"

supplement_instance-link_versions_example :
    let p = supplement_instance lengths installed (link_versions lengths) server in
    (p.1 ≡ ok tt)
    × (find field_version_bios p.0.member_instances
        ≡ last_version lengths field_version_bios installed
            (find field_version_bios server.member_instances))
supplement_instance-link_versions_example =
    supplement_instance-link_versions lengths installed server field_version_bios
