-- ===== src/Core/Entity/Instances.antt =====
-- Which instance an entity gives for a hash.
use obmc_webapp.Prelude.{
  ℕ, ◌≡◌, refl, ◌∙◌, ap, Option, none, some, List, [], ◌∷◌, ◌==◌, if◌then◌else◌,
}
use obmc_webapp.Prelude.Maps.{find, insert_or_assign, find-insert_or_assign, nat_key}
use obmc_webapp.Core.Entity.{InstanceInterface, Entity, get_instance, assign_all, set_instances}

module _ (interface : InstanceInterface) where
  open interface use {Instance, get_hash}

  -- The last instance of a list that has the hash, or `d` where there is none.
  abbrev pub last_with : ℕ → List Instance → Option Instance → Option Instance
  last_with hash [] d = d
  last_with hash (x ∷ rest) d = last_with hash rest (if get_hash x == hash then some x else d)

  find-assign_all :
      (hash : ℕ) (list : List Instance) (instances : List (ℕ × Instance))
      → find hash (assign_all interface list instances) ≡ last_with hash list (find hash instances)
  unfolding assign_all
  find-assign_all hash [] instances = refl
  find-assign_all hash (x ∷ rest) instances =
      find-assign_all hash rest (insert_or_assign (get_hash x) x instances)
      ∙ ap (last_with hash rest) (find-insert_or_assign (get_hash x) hash x instances)

  -- After `setInstances` an entity gives for each hash the last instance of the list that has it,
  -- and nothing for a hash that none has: no instance from before remains.
  pub get_instance-set_instances :
      (hash : ℕ) (list : List Instance) (e : Entity interface)
      → get_instance interface hash (set_instances interface list e) ≡ last_with hash list none
  unfolding get_instance set_instances find
  get_instance-set_instances hash list e = find-assign_all hash list []
