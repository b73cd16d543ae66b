-- ===== src/DBus/Instance/Associations.antt =====
-- src/core/entity/dbus_query.cpp: which complex instances the associations of an instance leave.
use obmc_webapp.Prelude.{
  ℕ, String, ◌≡◌, refl, sym, ap, ◌∙◌, Option, none, some, List, [], ◌∷◌, ◌==◌, if◌then◌else◌,
}
use obmc_webapp.Prelude.Maps.{find, find-insert_or_assign, nat_key}
use obmc_webapp.Core.Exceptions.{Result, ok, err, ◌and_then◌}
use obmc_webapp.DBus.Values.{Platform}
use obmc_webapp.DBus.Instance.{
  Targets, Child, DbusInstance, QueryView, hash_of, fill_child, new_child, association_properties,
  store_child, capture_all, capture_dbus_associations,
}
use obmc_webapp.DBus.Instance.Hashes.{child_hash, fill_child-hash}

module _ (platform : Platform) (query : QueryView platform) (targets : Targets)
    (interface : String) where
  abbrev Association : Type 0
  Association = String × (String × String)

  -- The instance that an association of a service's object stands for.
  abbrev pub filled : String → Association → Child platform × Result (Unit {0})
  filled service a =
      fill_child platform query targets interface (association_properties platform query targets a)
        (new_child platform service a.1.1)

  -- The last association of a list whose instance has the hash, or `d` where there is none.
  abbrev pub last_associated :
      String → ℕ → List Association → Option (Child platform) → Option (Child platform)
  last_associated service hash [] d = d
  last_associated service hash (a ∷ rest) d =
      last_associated service hash rest
        (if hash_of platform service a.1.1 == hash then some (filled service a).0 else d)

  stored :
      (hash : ℕ) (p : Child platform × Result (Unit {0})) (i : DbusInstance platform)
      (more : DbusInstance platform → DbusInstance platform × Result (Unit {0}))
      → (store_child platform p i and_then more).1 ≡ ok tt
      → (j : DbusInstance platform) × (store_child platform p i and_then more ≡ more j)
        × (j.service_name ≡ i.service_name)
        × (find hash j.complex_instances
            ≡ (if child_hash platform p.0 == hash then some p.0 else find hash i.complex_instances))
  unfolding store_child
  stored hash (c, err e) i more h = cc
  stored hash (c, ok _) i more h = (
    (store_child platform (c, ok tt) i).0,
    refl,
    refl,
    find-insert_or_assign (child_hash platform c) hash c i.complex_instances,
  )

  find-capture_all :
      (hash : ℕ) (list : List Association) (i : DbusInstance platform)
      → (capture_all platform query targets interface list i).1 ≡ ok tt
      → find hash (capture_all platform query targets interface list i).0.complex_instances
        ≡ last_associated i.service_name hash list (find hash i.complex_instances)
  unfolding capture_all
  find-capture_all hash [] i h = refl
  find-capture_all hash (a ∷ rest) i h =
      let p = filled i.service_name a in
      let (j, same, service, first) =
        stored hash p i (capture_all platform query targets interface rest) h in
      let hashes =
        fill_child-hash platform query targets interface
          (association_properties platform query targets a)
          (new_child platform i.service_name a.1.1) in
      ap (λ r. find hash r.0.complex_instances) same
      ∙ (find-capture_all hash rest j (ap (λ r. r.1) (sym same) ∙ h)
          ∙ rw service (
              ap (last_associated i.service_name hash rest) (
                first
                ∙ ap (λ n. if n == hash then some p.0 else find hash i.complex_instances) hashes)))

  -- When taking the associations of an instance throws nothing, the complex instances that it keeps
  -- afterwards are those of the associations and no older one: under each hash the last association
  -- whose object, with the instance's service, has it, filled in from the source, the destination
  -- and the end point.
  pub find-capture_dbus_associations :
      (hash : ℕ) (list : List Association) (i : DbusInstance platform)
      → (capture_dbus_associations platform query targets interface list i).1 ≡ ok tt
      → find hash
          (capture_dbus_associations platform query targets interface list i).0.complex_instances
        ≡ last_associated i.service_name hash list none
  unfolding capture_dbus_associations find
  find-capture_dbus_associations hash list i h =
      find-capture_all hash list (record i { complex_instances = [] }) h
