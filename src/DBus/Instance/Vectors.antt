-- ===== src/DBus/Instance/Vectors.antt =====
-- src/core/entity/dbus_query.cpp and entity.cpp: which instances the values of a property that is a
-- vector add to those that an instance brings to its entity's.
use obmc_webapp.Prelude.{
  ℕ, String, ◌≡◌, refl, sym, ap, ◌∙◌, false, Bool-cases, inl, inr, some, List, [], ◌∷◌, ◌==◌, map,
}
use obmc_webapp.Prelude.Maps.{find, find-insert_or_assign, nat_key}
use obmc_webapp.Core.Exceptions.{Result, ok, err}
use obmc_webapp.DBus.Values.{
  Platform, FieldType, DbusVariant, associations, strings, doubles, simple, text, double,
}
use obmc_webapp.DBus.Instance.{
  Targets, Child, DbusInstance, QueryView, fill_child, new_child, store_child,
  capture_complex_dbus_property, resolve_dbus_variant,
}
use obmc_webapp.DBus.Supply.{own_hash, as_child, visited}
use obmc_webapp.DBus.Instance.Hashes.{and_then_holds, child_hash, fill_child-hash}

module _ (platform : Platform) where
  -- That only what is kept under the instance's own hash may differ.
  abbrev SameOthers : DbusInstance platform → DbusInstance platform → Type 0
  SameOthers i j =
      (as_child platform j ≡ as_child platform i)
      × ((k : ℕ)
          → (own_hash platform i == k) ≡ false
          → find k j.complex_instances ≡ find k i.complex_instances)

  store_child-SameOthers :
      (p : Child platform × Result (Unit {0})) (i j : DbusInstance platform)
      → child_hash platform p.0 ≡ own_hash platform i
      → SameOthers i j
      → SameOthers i (store_child platform p j).0
  unfolding store_child
  store_child-SameOthers (c, err e) i j h same = same
  store_child-SameOthers (c, ok _) i j h (one, others) = (
    one,
    λ k other.
        find-insert_or_assign (child_hash platform c) k c j.complex_instances
        ∙ rw h (rw other (others k other)),
  )

  capture_complex-SameOthers :
      (query : QueryView platform) (targets : Targets) (member : String)
      (list : List (FieldType platform)) (i j : DbusInstance platform)
      → SameOthers i j
      → SameOthers i (capture_complex_dbus_property platform query targets member list j).0
  unfolding capture_complex_dbus_property
  capture_complex-SameOthers query targets member [] i j same = same
  capture_complex-SameOthers query targets member (value ∷ rest) i j same =
      let c =
        fill_child platform query targets member ((member, simple value) ∷ [])
          (new_child platform j.service_name j.object_path) in
      and_then_holds (SameOthers i) (store_child platform c j)
        (capture_complex_dbus_property platform query targets member rest)
        (store_child-SameOthers c i j
          (fill_child-hash platform query targets member ((member, simple value) ∷ [])
              (new_child platform j.service_name j.object_path)
            ∙ ap (child_hash platform) same.0)
          same)
        (capture_complex-SameOthers query targets member rest i)

  SameOthers-visited :
      (k : ℕ) (i j : DbusInstance platform)
      → SameOthers i j
      → find k (visited platform j) ≡ find k (visited platform i)
  unfolding visited
  SameOthers-visited k i j (one, others) =
      find-insert_or_assign (own_hash platform j) k (as_child platform j) j.complex_instances
      ∙ (elim (Bool-cases (own_hash platform i == k)) [
        | inl own ↦ rw (ap (child_hash platform) one, own) (ap some one)
        | inr other ↦ rw (ap (child_hash platform) one, other) (others k other)
      ]
          ∙ sym (
              find-insert_or_assign (own_hash platform i) k (as_child platform i)
                i.complex_instances))

  -- Whether a property is one that holds a vector of texts or of numbers.
  abbrev pub IsVector : DbusVariant platform → Type 0
  IsVector (strings _) = Unit
  IsVector (doubles _) = Unit
  IsVector (simple _) = ⊥
  IsVector (associations _) = ⊥

  -- A property that holds a vector of texts or of numbers changes none of the instances that
  -- `getInstances` visits: each element becomes an instance with the hash of the instance it comes
  -- from, which takes that place itself.
  pub find-visited-resolve_dbus_variant :
      (query : QueryView platform) (targets : Targets) (member : String)
      (value : DbusVariant platform)
      → IsVector value
      → (k : ℕ) (i : DbusInstance platform)
      → find k (visited platform (resolve_dbus_variant platform query targets member value i).0)
        ≡ find k (visited platform i)
  unfolding resolve_dbus_variant
  find-visited-resolve_dbus_variant query targets member (strings list) h k i =
      SameOthers-visited k i
        (capture_complex_dbus_property platform query targets member (map text list) i).0
        (capture_complex-SameOthers query targets member (map text list) i i
          (refl, λ j other. refl))
  find-visited-resolve_dbus_variant query targets member (doubles list) h k i =
      SameOthers-visited k i
        (capture_complex_dbus_property platform query targets member (map double list) i).0
        (capture_complex-SameOthers query targets member (map double list) i i
          (refl, λ j other. refl))
  find-visited-resolve_dbus_variant query targets member (associations _) h k i = elim h [ ]
  find-visited-resolve_dbus_variant query targets member (simple _) h k i = elim h [ ]
