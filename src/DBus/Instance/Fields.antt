-- ===== src/DBus/Instance/Fields.antt =====
-- What the members of an instance hold after a write, and after properties have been filled in.
use obmc_webapp.Prelude.{
  String, ◌≡◌, ap, inl, inr, true, false, none, some, [], ◌∷◌, arith, Bool-cases, Option-cases,
  str_eq, str_eq_iff, if◌then◌else◌,
}
use obmc_webapp.Prelude.Maps.{find, find-insert_or_assign, string_key}
use obmc_webapp.DBus.Values.{Platform, FieldType}
use obmc_webapp.DBus.Members.{
  Members, is_found, has_field, set_value, supplement, supplemented, supplement_or_update,
}

module _ (platform : Platform) where
  pub find-set_value :
      (member name : String) (value old : FieldType platform) (members : Members platform)
      → find member members ≡ some old
      → find name (set_value platform member value members)
        ≡ (if str_eq member name then some value else find name members)
  unfolding find set_value
  find-set_value member name value old [] h = cc
  find-set_value member name value old ((k, v) ∷ rest) h = elim (Bool-cases (str_eq k member)) [
    | inl same ↦ rw same (ground (arith, str_eq_iff k member))
    | inr other ↦ rw other (
        ground (
          arith,
          str_eq_iff k member,
          str_eq_iff k name,
          str_eq_iff member name,
          find-set_value member name value old rest (rw other at h),
        ))
  ]

  pub has_field_of_some :
      (member : String) (value : FieldType platform) (members : Members platform)
      → find member members ≡ some value
      → has_field platform member members ≡ true
  unfolding has_field is_found
  has_field_of_some member value members h = ap (is_found platform) h

  pub has_field_of_none :
      (member : String) (members : Members platform)
      → find member members ≡ none
      → has_field platform member members ≡ false
  unfolding has_field is_found
  has_field_of_none member members h = ap (is_found platform) h

  -- A write to a member, whether it is there or not, changes what that member holds and no other.
  pub find-supplement_or_update :
      (member name : String) (value : FieldType platform) (members : Members platform)
      → find name (supplement_or_update platform member value members)
        ≡ (if str_eq member name then some value else find name members)
  unfolding supplement_or_update supplement supplemented
  find-supplement_or_update member name value members = elim (Option-cases (find member members)) [
    | inl missing ↦
        rw (has_field_of_none member members missing)
          (find-insert_or_assign member name value members)
    | inr (old, there) ↦
        rw (has_field_of_some member old members there)
          (find-set_value member name value old members there)
  ]
