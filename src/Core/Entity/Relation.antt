-- ===== src/Core/Entity/Relation.antt =====
-- src/core/entity/entity.cpp: `Entity::Relation`, `addRelation`, and `addRelations` of the builder. The
-- source of a relation stands as its entity's name, and the value of a member is `not_available`, as
-- its construction leaves it.
use obmc_webapp.Prelude.{String, ◌≡◌, refl, sym, Bool, Option, none, some, List, [], ◌∷◌, ◌++◌}
use obmc_webapp.Core.Exceptions.{Result, ok, err, ◌>>=◌, ok-injective}
use obmc_webapp.Core.Entity.{InstanceInterface, Entity, get_member}
use obmc_webapp.Core.Entity.Condition.{Rule, add_rule, relation_compare_equal}

module _ (interface : InstanceInterface) (FieldType : Type 0) (not_available : FieldType) where
  -- `RuleSet`
  pub record RelationRule : Type 0 where
    pub source_member : String
    pub destination_member : String
    pub compare_callback : FieldType → FieldType → Bool

  -- `relationFieldsEqual` of src/relation_provider.hpp, on what its static variable holds: the first
  -- call makes the list of rules, and any later call gives that list
  unfoldable pub relation_fields_equal :
      (FieldType → FieldType → Bool)
      → String
      → String
      → Option (List RelationRule)
      → Option (List RelationRule) × List RelationRule
  relation_fields_equal same source_member dest_member (some rules) = (some rules, rules)
  relation_fields_equal same source_member dest_member none =
      let rule : RelationRule = record {
        source_member = source_member;
        destination_member = dest_member;
        compare_callback = relation_compare_equal FieldType same;
      } in
      (some (rule ∷ []), rule ∷ [])

  -- Every call after the first gives the rules for the members of the first.
  relation_fields_equal_again :
      (same : FieldType → FieldType → Bool) (s d s' d' : String)
      → let (held, rules) = relation_fields_equal same s d none in
        relation_fields_equal same s' d' held ≡ (held, rules)
  unfolding relation_fields_equal
  relation_fields_equal_again same s d s' d' = refl

  pub record Relation : Type 0 where
    pub source : String
    pub destination : Entity interface
    pub condition_build_rules : List RelationRule

  abbrev pub new_relation : String → Entity interface → Relation
  new_relation source destination = record {
    source = source;
    destination = destination;
    condition_build_rules = [];
  }

  unfoldable pub add_condition_build_rules : List RelationRule → Relation → Relation
  add_condition_build_rules rules r = record r {
    condition_build_rules = r.condition_build_rules ++ rules;
  }

  -- the conditions, each with its one rule
  unfoldable pub conditions_of :
      Entity interface → List RelationRule → Result (List (List (Rule FieldType)))
  conditions_of destination [] = ok []
  conditions_of destination (rule ∷ rest) =
      get_member interface rule.destination_member destination >>= λ member.
      conditions_of destination rest >>= λ conditions.
      ok (add_rule FieldType rule.source_member not_available rule.compare_callback [] ∷ conditions)

  unfoldable pub get_conditions : Relation → Result (List (List (Rule FieldType)))
  get_conditions r = conditions_of r.destination r.condition_build_rules

  -- `none` is a read through the null pointer
  unfoldable pub add_relation : Option Relation → List Relation → Option (List Relation)
  add_relation (some r) relations = some relations
  add_relation none relations = none

  -- the entity of the destination's name, or what its search has thrown
  unfoldable pub add_relations :
      String
      → Result (Entity interface)
      → List RelationRule
      → List Relation
      → Result (Option (List Relation))
  add_relations source (err e) rules relations = err e
  add_relations source (ok destination) rules relations = ok (
      add_relation (some (add_condition_build_rules rules (new_relation source destination)))
        relations)

  -- A relation that the builder adds is not among the entity's relations afterwards, if it was not
  -- before: they stay as they were.
  add_relations_same :
      (source : String) (destination : Result (Entity interface)) (rules : List RelationRule)
      (relations : List Relation) (after : Option (List Relation))
      → add_relations source destination rules relations ≡ ok after
      → after ≡ some relations
  unfolding add_relations add_relation
  add_relations_same source (err e) rules relations after h = cc
  add_relations_same source (ok destination) rules relations after h = sym (ok-injective h)
