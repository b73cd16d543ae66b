-- ===== src/Core/Entity.antt =====
-- src/core/entity/entity.hpp and entity.cpp: the members and the instances of an entity, and the
-- part of its builder that adds members. What an instance is stands behind an interface. The supply
-- of instances by providers is in DBus/Supply, and the manager in System/Setup.
pub mod Members
pub mod Instances
pub mod Condition
pub mod Relation
use Prim.Native.String.{◌++◌}
use obmc_webapp.Prelude.{ℕ, String, Bool, true, Option, none, some, List, [], ◌∷◌}
use obmc_webapp.Prelude.Maps.{find, insert_or_assign, emplace, string_key, nat_key}
use obmc_webapp.Core.Exceptions.{Exception, entity_exception, Result, ok, err}

-- what an entity asks of `IInstance`; the second test is the cast to `DBusInstance`
pub record InstanceInterface : Type 1 where
  pub Instance : Type 0
  pub get_hash : Instance → ℕ
  pub is_dbus_instance : Instance → Bool

-- The value of the member itself is the text "N/A" from its construction on.
pub record EntityMember : Type 0 where
  pub name : String

module _ (interface : InstanceInterface) where
  open interface use {Instance, get_hash}

  pub record Entity : Type 0 where
    pub name : String
    pub members : List (String × EntityMember)
    pub instances : List (ℕ × Instance)

  -- the constructor
  abbrev pub new_entity : String → Entity
  new_entity name = record { name = name; members = []; instances = [] }

  -- the answer of `members.emplace`, and its `second`
  unfoldable pub add_new_member : EntityMember → Option EntityMember → Entity → Entity × Result Bool
  add_new_member member none e =
      (record e { members = insert_or_assign member.name member e.members }, ok true)
  add_new_member member (some old) e = (
    e,
    err (
        entity_exception (
          "Invalid member pattern. The "
          ++ (member.name ++ " member of object already registered"))),
  )

  unfoldable pub add_member : Option EntityMember → Entity → Entity × Result Bool
  add_member none e =
      (e, err (entity_exception "Invalid member pattern. The passed memeber is empty"))
  add_member (some member) e = add_new_member member (find member.name e.members) e

  unfoldable pub member_found : String → Option EntityMember → Result EntityMember
  member_found name none = err (entity_exception ("The object Member <" ++ (name ++ "> not found")))
  member_found name (some member) = ok member

  unfoldable pub get_member : String → Entity → Result EntityMember
  get_member name e = member_found name (find name e.members)

  unfoldable pub get_instance : ℕ → Entity → Option Instance
  get_instance hash e = find hash e.instances

  unfoldable pub assign_all : List Instance → List (ℕ × Instance) → List (ℕ × Instance)
  assign_all [] instances = instances
  assign_all (x ∷ rest) instances = assign_all rest (insert_or_assign (get_hash x) x instances)

  unfoldable pub set_instances : List Instance → Entity → Entity
  set_instances list e = record e { instances = assign_all list [] }

  -- `EntityBuilder::addMembers`: what was added before an exception stays
  unfoldable pub after_member :
      Entity × Result Bool → (Entity → Entity × Result (Unit {0})) → Entity × Result (Unit {0})
  after_member (e, err x) more = (e, err x)
  after_member (e, ok _) more = more e

  unfoldable pub add_members : List String → Entity → Entity × Result (Unit {0})
  add_members [] e = (e, ok tt)
  add_members (name ∷ rest) e =
      after_member (add_member (some (record { name = name })) e) (add_members rest)
