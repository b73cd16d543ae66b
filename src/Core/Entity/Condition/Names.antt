-- ===== src/Core/Entity/Condition/Names.antt =====
-- Which fields a condition looks at.
use obmc_webapp.Prelude.{String, ◌≡◌, refl, Bool, true, ◌&&◌, List, [], ◌∷◌, map}
use obmc_webapp.Core.Entity.Condition.{Rule, compare_rules, check}

module _ {ℓ} (FieldType : Type ℓ) where
  abbrev pub rename : (String → String) → Rule FieldType → Rule FieldType
  rename f rule = record rule { member_name = f rule.member_name }

  compare_rules-rename :
      (f : String → String) (get_field : String → FieldType) (rules : List (Rule FieldType))
      (result : Bool)
      → compare_rules FieldType get_field (map (rename f) rules) result
        ≡ compare_rules FieldType get_field rules result
  unfolding compare_rules
  compare_rules-rename f get_field [] result = refl
  compare_rules-rename f get_field (rule ∷ rest) result =
      compare_rules-rename f get_field rest
        (result && rule.compare_callback (get_field "") rule.value)

  -- A condition does not look at the fields that its rules name: under any other names it answers
  -- the same on every instance.
  pub check-rename :
      (f : String → String) (rules : List (Rule FieldType)) (get_field : String → FieldType)
      → check FieldType (map (rename f) rules) get_field ≡ check FieldType rules get_field
  unfolding check
  check-rename f rules get_field = compare_rules-rename f get_field rules true
