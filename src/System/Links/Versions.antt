-- ===== src/System/Links/Versions.antt =====
-- src/system_queries.hpp: which versions a server has after the instances of the provider of versions
-- have supplemented it.
use obmc_webapp.Prelude.{
  String, ◌≡◌, refl, ap, ◌∙◌, Option, none, some, List, [], ◌∷◌, str_eq, if◌then◌else◌,
}
use obmc_webapp.Prelude.Maps.{find, string_key}
use obmc_webapp.Core.Exceptions.{Result, ok, err, ◌and_then◌}
use obmc_webapp.DBus.Values.{Platform, FieldType}
use obmc_webapp.DBus.Instance.{Child}
use obmc_webapp.DBus.Instance.Fields.{find-supplement_or_update}
use obmc_webapp.DBus.Members.{get_field}
use obmc_webapp.DBus.Supply.{supplement_instance}
use obmc_webapp.System.Definitions.{field_version, field_version_bios, field_version_bmc}
use obmc_webapp.System.Links.{
  VersionPurpose, bmc, bios, unknown_purpose, purpose_to_member_name, get_purpose,
  supplement_version, link_purpose, link_versions,
}

module _ (platform : Platform) where
  -- What a version of a purpose makes of what a member holds.
  abbrev linked :
      Option VersionPurpose
      → FieldType platform
      → String
      → Option (FieldType platform)
      → Option (FieldType platform)
  linked (some bmc) version name d = if str_eq field_version_bmc name then some version else d
  linked (some bios) version name d = if str_eq field_version_bios name then some version else d
  linked (some unknown_purpose) version name d = d
  linked none version name d = d

  -- The last version of a list for a member, or `d` where there is none: those for the BMC go to one
  -- member, those for the host to another.
  abbrev pub last_version :
      String → List (Child platform) → Option (FieldType platform) → Option (FieldType platform)
  last_version name [] d = d
  last_version name (s ∷ rest) d =
      last_version name rest (
        linked (get_purpose platform s) (get_field platform field_version s.member_instances) name
          d)

  -- That a step throws nothing, and what it leaves a member with.
  abbrev Leaves : String → Option (FieldType platform) → Child platform × Result (Unit {0}) → Type 0
  Leaves name o p = (p.1 ≡ ok tt) × (find name p.0.member_instances ≡ o)

  link_purpose-Leaves :
      (purpose : Option VersionPurpose) (version : FieldType platform) (name : String)
      (c : Child platform)
      → Leaves name
          (linked purpose version name (find name c.member_instances))
          (link_purpose platform purpose version c)
  unfolding link_purpose supplement_version purpose_to_member_name
  link_purpose-Leaves none version name c = (refl, refl)
  link_purpose-Leaves (some unknown_purpose) version name c = (refl, refl)
  link_purpose-Leaves (some bmc) version name c =
      (refl, find-supplement_or_update platform field_version_bmc name version c.member_instances)
  link_purpose-Leaves (some bios) version name c =
      (refl, find-supplement_or_update platform field_version_bios name version c.member_instances)

  Leaves-and_then :
      (name : String) (o : Option (FieldType platform)) (p : Child platform × Result (Unit {0}))
      (more : Child platform → Child platform × Result (Unit {0}))
      → p.1 ≡ ok tt
      → Leaves name o (more p.0)
      → Leaves name o (p and_then more)
  Leaves-and_then name o (c, ok _) more fine h = h
  Leaves-and_then name o (c, err e) more fine h = cc

  -- The instances that supplement a server by `linkVersions` never throw, whatever they hold. After
  -- them a member holds the last version of the purpose that goes to it, or, where there is none, what
  -- it held before: the two members for versions, and every other.
  pub supplement_instance-link_versions :
      (supplements : List (Child platform)) (c : Child platform) (name : String)
      → let p = supplement_instance platform supplements (link_versions platform) c in
        (p.1 ≡ ok tt)
        × (find name p.0.member_instances
            ≡ last_version name supplements (find name c.member_instances))
  unfolding supplement_instance link_versions
  supplement_instance-link_versions [] c name = (refl, refl)
  supplement_instance-link_versions (s ∷ rest) c name =
      let version = get_field platform field_version s.member_instances in
      let p = link_purpose platform (get_purpose platform s) version c in
      let (fine, held) = link_purpose-Leaves (get_purpose platform s) version name c in
      let (well, later) = supplement_instance-link_versions rest p.0 name in
      Leaves-and_then name (last_version name (s ∷ rest) (find name c.member_instances)) p
        (supplement_instance platform rest (link_versions platform)) fine
        (well, later ∙ ap (last_version name rest) held)
