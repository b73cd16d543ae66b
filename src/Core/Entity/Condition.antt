-- ===== src/Core/Entity/Condition.antt =====
-- src/core/entity/entity.cpp: `Entity::Condition`, with the comparisons of
-- src/core/helpers/compares.hpp. The variant of the values of a field, and its equality, are
-- parameters; `get_field` gives the value of an instance's field by the member's name, or that of
-- the instance that stands for a missing field.
pub mod Names
use obmc_webapp.Prelude.{String, Bool, true, ◌&&◌, List, [], ◌∷◌, ◌++◌}

module _ {ℓ} (FieldType : Type ℓ) where
  -- a rule's name of a member, value and comparison
  pub record Rule : Type ℓ where
    pub member_name : String
    pub value : FieldType
    pub compare_callback : FieldType → FieldType → Bool

  abbrev pub relation_compare_equal : (FieldType → FieldType → Bool) → FieldType → FieldType → Bool
  relation_compare_equal same instance' value = same instance' value

  abbrev pub relation_unconditional : FieldType → FieldType → Bool
  relation_unconditional instance' value = true

  unfoldable pub add_rule :
      String → FieldType → (FieldType → FieldType → Bool) → List Rule → List Rule
  add_rule source_member value compare_callback rules =
      rules
      ++ (record { member_name = source_member; value = value; compare_callback = compare_callback }
          ∷ [])

  -- the loop; the field is read by `memberName` before that is assigned, which is still empty
  unfoldable pub compare_rules : (String → FieldType) → List Rule → Bool → Bool
  compare_rules get_field [] result = result
  compare_rules get_field (rule ∷ rest) result =
      compare_rules get_field rest (result && rule.compare_callback (get_field "") rule.value)

  unfoldable pub check : List Rule → (String → FieldType) → Bool
  check rules get_field = compare_rules get_field rules true
