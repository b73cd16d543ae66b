-- ===== src/Core/Entity/Members.antt =====
-- Which members an entity has after its builder has added some.
use obmc_webapp.Prelude.{
  String, ◌≡◌, refl, ◌∙◌, ap, sym, Bool, true, false, ◌||◌, Option, none, some, List, [], ◌∷◌,
  arith, str_eq, str_eq_iff, if◌then◌else◌,
}
use obmc_webapp.Prelude.Maps.{find, find-insert_or_assign, string_key}
use obmc_webapp.Core.Exceptions.{Result, ok, err}
use obmc_webapp.Core.Entity.{
  InstanceInterface, EntityMember, Entity, add_new_member, add_member, after_member, add_members,
}

module _ (interface : InstanceInterface) where
  -- Whether a name is in a list.
  abbrev pub contains : String → List String → Bool
  contains name [] = false
  contains name (x ∷ rest) = str_eq x name || contains name rest

  add_new_member_lem :
      (new name : String) (o : Option EntityMember) (e : Entity interface) (added : Bool)
      → o ≡ find new e.members
      → let (e', answer) = add_new_member interface (record { name = new }) o e in
        (answer ≡ ok added)
        → (find new e.members ≡ none)
          × (find name e'.members
              ≡ (if str_eq new name then some (record { name = new }) else find name e.members))
  unfolding add_new_member
  add_new_member_lem new name none e added same h =
      (sym same, find-insert_or_assign new name (record { name = new }) e.members)
  add_new_member_lem new name (some old) e added same h = cc

  -- What adding the names of a list, which succeeds, has to do with one name.
  abbrev Added : String → List String → Entity interface → Entity interface → Type 0
  Added name names e e' =
      (find name e'.members
        ≡ (if contains name names then some (record { name = name }) else find name e.members))
      × (contains name names ≡ true → find name e.members ≡ none)

  Added-cons :
      (name new : String) (rest : List String) (e e' e'' : Entity interface)
      → find new e.members ≡ none
      → find name e'.members
        ≡ (if str_eq new name then some (record { name = new }) else find name e.members)
      → Added name rest e' e''
      → Added name (new ∷ rest) e e''
  Added-cons name new rest e e' e'' free first (later, unused) = ground (arith, str_eq_iff new name)

  after_member_ok :
      (p : Entity interface × Result Bool)
      (more : Entity interface → Entity interface × Result (Unit {0}))
      → (after_member interface p more).1 ≡ ok tt
      → (added : Bool) × (p.1 ≡ ok added) × (after_member interface p more ≡ more p.0)
  unfolding after_member
  after_member_ok (e, err x) more h = cc
  after_member_ok (e, ok added) more h = (added, refl, refl)

  -- If adding the members of a list of names throws nothing, then each of the names was free
  -- before, the entity has a member of that name for each, and for any other name what it had
  -- before.
  pub add_members_ok :
      (name : String) (names : List String) (e : Entity interface)
      → (add_members interface names e).1 ≡ ok tt
      → (find name (add_members interface names e).0.members
          ≡ (if contains name names then some (record { name = name }) else find name e.members))
        × (contains name names ≡ true → find name e.members ≡ none)
  unfolding add_members add_member
  add_members_ok name [] e h = (refl, λ k. cc)
  add_members_ok name (new ∷ rest) e h =
      let p = add_new_member interface (record { name = new }) (find new e.members) e in
      let (added, fine, same) = after_member_ok p (add_members interface rest) h in
      let (free, first) = add_new_member_lem new name (find new e.members) e added refl fine in
      rw same (
        Added-cons name new rest e p.0 (add_members interface rest p.0).0 free first
          (add_members_ok name rest p.0 (ap (λ q. q.1) (sym same) ∙ h)))
