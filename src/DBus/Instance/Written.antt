-- ===== src/DBus/Instance/Written.antt =====
-- src/core/entity/dbus_query.cpp: a member of an instance written twice holds what is written last.
use obmc_webapp.Prelude.{
  String, ◌≡◌, refl, sym, ap, ◌∙◌, inl, inr, Bool, true, false, some, [], ◌∷◌, Bool-cases,
  Option-cases, str_eq, if◌then◌else◌, str_eq_refl,
}
use obmc_webapp.Prelude.Maps.{find, insert_or_assign, string_key}
use obmc_webapp.DBus.Values.{Platform, FieldType}
use obmc_webapp.DBus.Members.{
  Members, is_found, has_field, set_value, supplement, supplemented, supplement_or_update,
}
use obmc_webapp.DBus.Instance.Fields.{
  has_field_of_some, has_field_of_none, find-supplement_or_update,
}

module _ (platform : Platform) (member : String) where
  set_value-set_value :
      (value old : FieldType platform) (members : Members platform)
      → set_value platform member value (set_value platform member old members)
        ≡ set_value platform member value members
  unfolding set_value
  set_value-set_value value old [] = refl
  set_value-set_value value old ((k, v) ∷ rest) = elim (Bool-cases (str_eq k member)) [
    | inl same ↦ rw (same, set_value) (rw same refl)
    | inr other ↦
        rw (other, set_value) (rw other (ap (λ m. (k, v) ∷ m) (set_value-set_value value old rest)))
  ]

  has_field-set_value :
      (value : FieldType platform) (members : Members platform)
      → has_field platform member (set_value platform member value members)
        ≡ has_field platform member members
  unfolding set_value has_field find is_found
  has_field-set_value value [] = refl
  has_field-set_value value ((k, v) ∷ rest) = elim (Bool-cases (str_eq k member)) [
    | inl same ↦ rw same (rw same refl)
    | inr other ↦ rw other (rw other (has_field-set_value value rest))
  ]

  set_value_of_find :
      (value : FieldType platform) (members : Members platform)
      → find member members ≡ some value
      → set_value platform member value members ≡ members
  unfolding set_value find
  set_value_of_find value [] h = cc
  set_value_of_find value ((k, v) ∷ rest) h = elim (Bool-cases (str_eq k member)) [
    | inl same ↦ let there : some v ≡ some value = rw same at h in rw same cc
    | inr other ↦ rw other (ap (λ m. (k, v) ∷ m) (set_value_of_find value rest (rw other at h)))
  ]

  set_value_of_missing :
      (value : FieldType platform) (members : Members platform)
      → has_field platform member members ≡ false
      → set_value platform member value members ≡ members
  unfolding set_value has_field find is_found
  set_value_of_missing value [] h = refl
  set_value_of_missing value ((k, v) ∷ rest) h = elim (Bool-cases (str_eq k member)) [
    | inl same ↦ let no : true ≡ false = rw same at h in cc
    | inr other ↦ rw other (ap (λ m. (k, v) ∷ m) (set_value_of_missing value rest (rw other at h)))
  ]

  supplement_or_update_lem :
      (b : Bool) (value : FieldType platform) (members : Members platform)
      → has_field platform member members ≡ b
      → supplement_or_update platform member value members ≡ (
          if b
          then set_value platform member value members
          else insert_or_assign member value members)
  unfolding supplement_or_update supplement supplemented
  supplement_or_update_lem true value members h = rw h refl
  supplement_or_update_lem false value members h = rw h refl

  -- A write undoes an earlier change of the member's value.
  pub supplement_or_update-set_value :
      (value old : FieldType platform) (members : Members platform)
      → supplement_or_update platform member value (set_value platform member old members)
        ≡ supplement_or_update platform member value members
  supplement_or_update-set_value value old members = elim (Option-cases (find member members)) [
    | inl missing ↦
        ap (supplement_or_update platform member value)
          (set_value_of_missing old members (has_field_of_none platform member members missing))
    | inr (v, there) ↦
        let here = has_field_of_some platform member v members there in
        supplement_or_update_lem true value (set_value platform member old members)
          (has_field-set_value old members ∙ here)
        ∙ set_value-set_value value old members
        ∙ sym (supplement_or_update_lem true value members here)
  ]

  -- A write done twice is done once.
  pub supplement_or_update_twice :
      (value : FieldType platform) (members : Members platform)
      → supplement_or_update platform member value
          (supplement_or_update platform member value members)
        ≡ supplement_or_update platform member value members
  supplement_or_update_twice value members =
      let written = supplement_or_update platform member value members in
      let there : find member written ≡ some value =
        rw (find-supplement_or_update platform member member value members, str_eq_refl member)
          refl in
      supplement_or_update_lem true value written
        (has_field_of_some platform member value written there)
      ∙ set_value_of_find value written there
