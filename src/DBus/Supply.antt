-- ===== src/DBus/Supply.antt =====
-- src/core/entity/entity.cpp: `getInstances` of an entity whose instances are those of D-Bus, with
-- `supplementInstance` of the providers linked to it. A provider stands as what its own
-- `getInstances` answers. A link rule may change the instance that it supplements, and no other. The
-- instances that the loops share by pointer are written back to where they are kept.
pub mod Conditions
pub mod Visited
pub mod Repeated
use obmc_webapp.Prelude.{
  ℕ, String, Bool, true, false, Option, none, some, List, [], ◌∷◌, ◌++◌, ◌==◌, if◌then◌else◌,
}
use obmc_webapp.Prelude.Maps.{find, insert_or_assign, nat_key, string_key}
use obmc_webapp.Core.Exceptions.{Exception, Result, ok, err, ◌and_then◌}
use obmc_webapp.Core.Entity.Condition.{Rule, check}
use obmc_webapp.DBus.Values.{Platform, FieldType}
use obmc_webapp.DBus.Instance.{Child, DbusInstance, QueryView, hash_of, init_default_fields_value}
use obmc_webapp.DBus.Members.{Members, get_field}

module _ (platform : Platform) where
  abbrev pub own_hash : DbusInstance platform → ℕ
  own_hash i = hash_of platform i.service_name i.object_path

  abbrev pub as_child : DbusInstance platform → Child platform
  as_child i = record {
    service_name = i.service_name;
    object_path = i.object_path;
    member_instances = i.member_instances;
  }

  -- the complex instances of an instance with the instance itself
  unfoldable pub visited : DbusInstance platform → List (ℕ × Child platform)
  visited i = insert_or_assign (own_hash i) (as_child i) i.complex_instances

  -- `ProviderLinkRule`: what it makes of the instance, its second argument
  abbrev pub LinkRule : Type 0
  LinkRule = Child platform → Child platform → Child platform × Result (Unit {0})

  abbrev pub Conditions : Type 0
  Conditions = List (Rule (FieldType platform))

  unfoldable pub supplement_instance :
      List (Child platform) → LinkRule → Child platform → Child platform × Result (Unit {0})
  supplement_instance [] rule c = (c, ok tt)
  supplement_instance (s ∷ rest) rule c = rule s c and_then supplement_instance rest rule

  unfoldable pub supplement_all :
      List (List (Child platform) × LinkRule) → Child platform → Child platform × Result (Unit {0})
  supplement_all [] c = (c, ok tt)
  supplement_all ((supplements, rule) ∷ rest) c =
      supplement_instance supplements rule c and_then supplement_all rest

  unfoldable pub check_condition : Option Conditions → Child platform → Bool
  check_condition none c = true
  check_condition (some rules) c =
      check (FieldType platform) rules (λ name. get_field platform name c.member_instances)

  -- the object that the pointer is to
  unfoldable pub write_back : ℕ → Child platform → DbusInstance platform → DbusInstance platform
  write_back hash c i =
      if own_hash i == hash
      then (record i { member_instances = c.member_instances })
      else (record i { complex_instances = insert_or_assign hash c i.complex_instances })

  -- the instance, and the vector `result` so far
  abbrev pub Visit : Type 0
  Visit = DbusInstance platform × List (Child platform)

  unfoldable pub push_if : Bool → Child platform → List (Child platform) → List (Child platform)
  push_if true c result = result ++ (c ∷ [])
  push_if false c result = result

  unfoldable pub visit_child :
      Option Conditions → ℕ → Child platform × Result (Unit {0}) → Visit → Visit × Result (Unit {0})
  visit_child condition hash (c, err e) (i, result) = ((write_back hash c i, result), err e)
  visit_child condition hash (c, ok _) (i, result) =
      ((write_back hash c i, push_if (check_condition condition c) c result), ok tt)

  abbrev pub Instances : Type 0
  Instances = List (ℕ × (QueryView platform × DbusInstance platform))

  -- what the instances are afterwards, and the vector, unless a rule throws
  abbrev pub Answer : Type 0
  Answer = Instances × Result (List (Child platform))

  unfoldable pub prepend : ℕ × (QueryView platform × DbusInstance platform) → Answer → Answer
  prepend entry (list, r) = (entry ∷ list, r)

  unfoldable pub after_instance :
      ℕ
      → QueryView platform
      → Instances
      → Visit × Result (Unit {0})
      → (List (Child platform) → Answer)
      → Answer
  after_instance hash query rest ((i, result), err e) more = ((hash, (query, i)) ∷ rest, err e)
  after_instance hash query rest ((i, result), ok _) more = prepend (hash, (query, i)) (more result)

  module _ (providers : List (List (Child platform) × LinkRule))
      (condition : Option Conditions) where
    unfoldable pub visit_children : List (ℕ × Child platform) → Visit → Visit × Result (Unit {0})
    visit_children [] v = (v, ok tt)
    visit_children ((hash, c) ∷ rest) v =
        visit_child condition hash (supplement_all providers c) v and_then visit_children rest

    unfoldable pub visit_instance :
        QueryView platform
        → DbusInstance platform
        → List (Child platform)
        → Visit × Result (Unit {0})
    visit_instance query i result =
        visit_children (visited (init_default_fields_value platform query i))
          (init_default_fields_value platform query i, result)

    unfoldable pub get_instances_from : Instances → List (Child platform) → Answer
    get_instances_from [] result = ([], ok result)
    get_instances_from ((hash, (query, i)) ∷ rest) result =
        after_instance hash query rest (visit_instance query i result) (get_instances_from rest)

    unfoldable pub get_instances : Instances → Answer
    get_instances instances = get_instances_from instances []
