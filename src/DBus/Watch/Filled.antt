-- ===== src/DBus/Watch/Filled.antt =====
-- src/core/entity/dbus_query.cpp: what a member holds once properties have been filled in.
use obmc_webapp.Prelude.{
  String, ◌≡◌, refl, sym, ap, ◌∙◌, Bool, true, false, Option, none, some, List, [], ◌∷◌, map,
  str_eq, if◌then◌else◌,
}
use obmc_webapp.Prelude.Maps.{find, string_key}
use obmc_webapp.Core.Exceptions.{Result, ok, err}
use obmc_webapp.DBus.Values.{
  Platform, FieldType, DbusVariant, associations, strings, doubles, simple, text, double,
}
use obmc_webapp.DBus.Instance.{
  Targets, Properties, DbusInstance, QueryView, process_formatters, resolve_formatted, fill_member,
  fill_by, resolve_dbus_variant,
}
use obmc_webapp.DBus.Instance.Hashes.{and_then_ok}
use obmc_webapp.DBus.Instance.Fields.{find-supplement_or_update}
use obmc_webapp.DBus.Watch.Paths.{capture_complex_view, capture_dbus_associations_view}

abbrev pub or_else {ℓ} : {A : Type ℓ} → Option A → Option A → Option A
or_else none d = d
or_else (some a) d = some a

module _ (platform : Platform) (query : QueryView platform) where
  abbrev pub simple_of : Result (DbusVariant platform) → Option (FieldType platform)
  simple_of (ok (simple w)) = some w
  simple_of _ = none

  -- the simple value that a property gives a member
  abbrev pub value_of : String → Option (DbusVariant platform) → Option (FieldType platform)
  value_of property none = none
  value_of property (some v) = simple_of (process_formatters platform query property v)

  -- What a member holds once the properties of a dictionary have been filled in.
  abbrev pub latest :
      List (String × String)
      → Properties platform
      → String
      → Option (FieldType platform)
      → Option (FieldType platform)
  latest [] properties name d = d
  latest ((property, member) ∷ rest) properties name d =
      latest rest properties name
        (if str_eq member name then or_else (value_of property (find property properties)) d else d)

  either_way : {A : Type 0} (b : Bool) (a : A) → a ≡ (if b then a else a)
  either_way true a = refl
  either_way false a = refl

  -- What a value adds under a name to what a member holds.
  abbrev added :
      String
      → String
      → Option (FieldType platform)
      → DbusInstance platform
      → Option (FieldType platform)
  added member name o i =
      if str_eq member name
      then or_else o (find name i.member_instances)
      else find name i.member_instances

  module _ (targets : Targets) where
    find-resolve_formatted :
        (member name : String) (r : Result (DbusVariant platform)) (i : DbusInstance platform)
        → (resolve_formatted platform (resolve_dbus_variant platform query targets) member r i).1
          ≡ ok tt
        → find name
            (resolve_formatted platform
              (resolve_dbus_variant platform query targets)
              member
              r
              i).0.member_instances
          ≡ added member name (simple_of r) i
    unfolding resolve_formatted resolve_dbus_variant
    find-resolve_formatted member name (err e) i h = cc
    find-resolve_formatted member name (ok (simple w)) i h =
        find-supplement_or_update platform member name w i.member_instances
    find-resolve_formatted member name (ok (strings list)) i h =
        ap (find name) (
          capture_complex_view platform query targets (λ j. j.member_instances) (λ j cs. refl)
            member (map text list) i)
        ∙ either_way (str_eq member name) (find name i.member_instances)
    find-resolve_formatted member name (ok (doubles list)) i h =
        ap (find name) (
          capture_complex_view platform query targets (λ j. j.member_instances) (λ j cs. refl)
            member (map double list) i)
        ∙ either_way (str_eq member name) (find name i.member_instances)
    find-resolve_formatted member name (ok (associations list)) i h =
        ap (find name) (
          capture_dbus_associations_view platform query targets (λ j. j.member_instances)
            (λ j cs. refl) member list i)
        ∙ either_way (str_eq member name) (find name i.member_instances)

    find-fill_member :
        (property member name : String) (o : Option (DbusVariant platform))
        (i : DbusInstance platform)
        → (fill_member platform
            (resolve_dbus_variant platform query targets)
            query
            property
            member
            o
            i).1
          ≡ ok tt
        → find name
            (fill_member platform
              (resolve_dbus_variant platform query targets)
              query
              property
              member
              o
              i).0.member_instances
          ≡ added member name (value_of property o) i
    unfolding fill_member
    find-fill_member property member name none i h =
        either_way (str_eq member name) (find name i.member_instances)
    find-fill_member property member name (some v) i h =
        find-resolve_formatted member name (process_formatters platform query property v) i h

    pub find-fill_by :
        (dict : List (String × String)) (properties : Properties platform) (name : String)
        (i : DbusInstance platform)
        → (fill_by platform (resolve_dbus_variant platform query targets) query dict properties i).1
          ≡ ok tt
        → find name
            (fill_by platform
              (resolve_dbus_variant platform query targets)
              query
              dict
              properties
              i).0.member_instances
          ≡ latest dict properties name (find name i.member_instances)
    unfolding fill_by
    find-fill_by [] properties name i h = refl
    find-fill_by ((property, member) ∷ rest) properties name i h =
        let resolve = resolve_dbus_variant platform query targets in
        let p = fill_member platform resolve query property member (find property properties) i in
        let later = fill_by platform resolve query rest properties in
        let (fine, same) = and_then_ok p later h in
        ap (λ r. find name r.0.member_instances) same
        ∙ find-fill_by rest properties name p.0 (ap (λ r. r.1) (sym same) ∙ h)
        ∙ ap (latest rest properties name)
            (find-fill_member property member name (find property properties) i fine)
