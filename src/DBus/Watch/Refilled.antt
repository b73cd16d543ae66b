-- ===== src/DBus/Watch/Refilled.antt =====
-- src/core/entity/dbus_query.cpp: the members of an instance after a change of its properties.
use obmc_webapp.Prelude.{
  String, ◌≡◌, ◌≢◌, refl, sym, ap, ◌∙◌, subst, Bool-cases, inl, inr, Option, some, Option-cases,
  List, [], ◌∷◌, All, str_eq, str_eq_iff,
}
use obmc_webapp.Prelude.Maps.{find, string_key}
use obmc_webapp.Core.Exceptions.{ok}
use obmc_webapp.DBus.Values.{Platform, FieldType, DbusVariant, simple}
use obmc_webapp.DBus.Instance.{
  Targets, Properties, DbusInstance, QueryView, process_formatters, get_property_member_dict,
  fill_members,
}
use obmc_webapp.DBus.Watch.Filled.{or_else, value_of, latest, find-fill_by}

-- No member takes two properties.
abbrev pub TakesOne : List (String × String) → Type 0
TakesOne [] = Unit
TakesOne ((property, member) ∷ rest) = All (λ e. e.1 ≢ member) rest × TakesOne rest

module _ (platform : Platform) (query : QueryView platform) where
  latest_apart :
      (dict : List (String × String)) (properties : Properties platform) (name : String)
      (d : Option (FieldType platform))
      → All (λ e. e.1 ≢ name) dict
      → latest platform query dict properties name d ≡ d
  latest_apart [] properties name d h = refl
  latest_apart ((property, member) ∷ rest) properties name d (apart, h) =
      elim (Bool-cases (str_eq member name)) [
        | inl same ↦ absurd (apart ((str_eq_iff member name).0 same))
        | inr other ↦ rw other (latest_apart rest properties name d h)
      ]

  -- Every changed property is formatted into a simple value.
  abbrev pub AreSimple : Properties platform → Type 0
  AreSimple changed =
      (property : String) (v : DbusVariant platform)
      → find property changed ≡ some v
      → (w : FieldType platform) × (process_formatters platform query property v ≡ ok (simple w))

  -- The properties `now` are those before with the changed ones in their places.
  abbrev pub IsChanged : Properties platform → Properties platform → Properties platform → Type 0
  IsChanged before changed now =
      (property : String)
      → find property now ≡ or_else (find property changed) (find property before)

  value_of-changed :
      (before changed now : Properties platform) (property : String)
      (d : Option (FieldType platform))
      → IsChanged before changed now
      → AreSimple changed
      → or_else (value_of platform query property (find property now)) d
        ≡ or_else
            (value_of platform query property (find property changed))
            (or_else (value_of platform query property (find property before)) d)
  value_of-changed before changed now property d c s = elim (Option-cases (find property changed)) [
    | inl same ↦ rw (c property, same) refl
    | inr (v, new) ↦
        let (w, formatted) = s property v new in rw (c property, new) (rw formatted refl)
  ]

  latest-latest :
      (dict : List (String × String)) (before changed now : Properties platform) (name : String)
      (d : Option (FieldType platform))
      → TakesOne dict
      → IsChanged before changed now
      → AreSimple changed
      → latest platform query dict changed name (latest platform query dict before name d)
        ≡ latest platform query dict now name d
  latest-latest [] before changed now name d t c s = refl
  latest-latest ((property, member) ∷ rest) before changed now name d (apart, t) c s =
      elim (Bool-cases (str_eq member name)) [
        | inl same ↦
            let others =
              subst (λ m. All (λ e. e.1 ≢ m) rest) ((str_eq_iff member name).0 same) apart in
            rw same (
              ap
                (λ x.
                  latest platform query rest changed name
                    (or_else (value_of platform query property (find property changed)) x))
                (latest_apart rest before name _ others)
              ∙ latest_apart rest changed name _ others
              ∙ sym (value_of-changed before changed now property d c s)
              ∙ sym (latest_apart rest now name _ others))
        | inr other ↦ rw other (latest-latest rest before changed now name d t c s)
      ]

  module _ (targets : Targets) where
    -- An instance that was filled in from the properties of an interface, and then from those of
    -- them that have changed, holds for every member what the instance holds that is filled in from
    -- the properties as they are after the change: if no two properties of the interface are taken
    -- by one member, the changed ones are formatted into simple values, and no filling in throws.
    pub find-fill_members :
        (interface name : String) (before changed now : Properties platform)
        (i : DbusInstance platform)
        → TakesOne (get_property_member_dict platform interface targets)
        → IsChanged before changed now
        → AreSimple changed
        → (fill_members platform query targets interface before i).1 ≡ ok tt
        → (fill_members platform query targets interface now i).1 ≡ ok tt
        → let filled = (fill_members platform query targets interface before i).0 in
          (fill_members platform query targets interface changed filled).1 ≡ ok tt
          → find name
              (fill_members platform query targets interface changed filled).0.member_instances
            ≡ find name (fill_members platform query targets interface now i).0.member_instances
    unfolding fill_members
    find-fill_members interface name before changed now i t c s well well' well'' =
        let dict = get_property_member_dict platform interface targets in
        let filled = (fill_members platform query targets interface before i).0 in
        find-fill_by platform query targets dict changed name filled well''
        ∙ ap (latest platform query dict changed name)
            (find-fill_by platform query targets dict before name i well)
        ∙ latest-latest dict before changed now name (find name i.member_instances) t c s
        ∙ sym (find-fill_by platform query targets dict now name i well')
