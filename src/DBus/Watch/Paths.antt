-- ===== src/DBus/Watch/Paths.antt =====
-- src/core/entity/dbus_query.cpp: filling in the members of an instance keeps its path, and values that
-- are not simple keep its members.
use obmc_webapp.Prelude.{ℕ, ◌∙◌, String, ◌≡◌, refl, List, [], ◌∷◌, map}
use obmc_webapp.Prelude.Maps.{nat_key}
use obmc_webapp.Core.Exceptions.{Result, ok, err}
use obmc_webapp.DBus.Values.{
  Platform, FieldType, DbusVariant, associations, strings, doubles, simple, text, double,
}
use obmc_webapp.DBus.Instance.{
  Targets, Properties, Child, DbusInstance, QueryView, fill_child, new_child, store_child,
  capture_all, capture_dbus_associations, capture_complex_dbus_property, resolve_dbus_variant,
  get_property_member_dict, fill_members, association_properties,
}
use obmc_webapp.DBus.Instance.Hashes.{and_then_holds, fill_by_keeps}

-- A view of an instance that its complex instances do not change.
abbrev pub IsOwn {ℓ} : (platform : Platform) {X : Type ℓ} → (DbusInstance platform → X) → Type ℓ
IsOwn platform view =
    (i : DbusInstance platform) (cs : List (ℕ × Child platform))
    → view (record i { complex_instances = cs }) ≡ view i

module _ (platform : Platform) (query : QueryView platform) (targets : Targets) {X : Type 0}
    (view : DbusInstance platform → X) (own : IsOwn platform view) where
  abbrev Shows : X → DbusInstance platform → Type 0
  Shows x i = view i ≡ x

  store_child-Shows :
      (x : X) (p : Child platform × Result (Unit {0})) (i : DbusInstance platform)
      → Shows x i
      → Shows x (store_child platform p i).0
  unfolding store_child
  store_child-Shows x (c, err e) i h = h
  store_child-Shows x (c, ok _) i h = own i _ ∙ h

  capture_complex-Shows :
      (x : X) (member : String) (list : List (FieldType platform)) (i : DbusInstance platform)
      → Shows x i
      → Shows x (capture_complex_dbus_property platform query targets member list i).0
  unfolding capture_complex_dbus_property
  capture_complex-Shows x member [] i h = h
  capture_complex-Shows x member (value ∷ rest) i h =
      let c =
        fill_child platform query targets member ((member, simple value) ∷ [])
          (new_child platform i.service_name i.object_path) in
      and_then_holds (Shows x) (store_child platform c i)
        (capture_complex_dbus_property platform query targets member rest)
        (store_child-Shows x c i h) (capture_complex-Shows x member rest)

  capture_all-Shows :
      (x : X) (interface : String) (list : List (String × (String × String)))
      (i : DbusInstance platform)
      → Shows x i
      → Shows x (capture_all platform query targets interface list i).0
  unfolding capture_all
  capture_all-Shows x interface [] i h = h
  capture_all-Shows x interface (a ∷ rest) i h =
      let c =
        fill_child platform query targets interface
          (association_properties platform query targets a)
          (new_child platform i.service_name a.1.1) in
      and_then_holds (Shows x) (store_child platform c i)
        (capture_all platform query targets interface rest) (store_child-Shows x c i h)
        (capture_all-Shows x interface rest)

  -- A value that is not simple changes the complex instances only.
  pub capture_complex_view :
      (member : String) (list : List (FieldType platform)) (i : DbusInstance platform)
      → view (capture_complex_dbus_property platform query targets member list i).0 ≡ view i
  capture_complex_view member list i = capture_complex-Shows (view i) member list i refl

  pub capture_dbus_associations_view :
      (interface : String) (list : List (String × (String × String))) (i : DbusInstance platform)
      → view (capture_dbus_associations platform query targets interface list i).0 ≡ view i
  unfolding capture_dbus_associations
  capture_dbus_associations_view interface list i =
      capture_all-Shows (view i) interface list (record i { complex_instances = [] }) (own i [])

module _ (platform : Platform) (query : QueryView platform) (targets : Targets) where
  resolve_dbus_variant_path :
      (member : String) (v : DbusVariant platform) (i : DbusInstance platform)
      → (resolve_dbus_variant platform query targets member v i).0.object_path ≡ i.object_path
  unfolding resolve_dbus_variant
  resolve_dbus_variant_path member (simple v) i = refl
  resolve_dbus_variant_path member (strings list) i =
      capture_complex_view platform query targets (λ j. j.object_path) (λ j cs. refl) member
        (map text list) i
  resolve_dbus_variant_path member (doubles list) i =
      capture_complex_view platform query targets (λ j. j.object_path) (λ j cs. refl) member
        (map double list) i
  resolve_dbus_variant_path member (associations list) i =
      capture_dbus_associations_view platform query targets (λ j. j.object_path) (λ j cs. refl)
        member list i

  pub fill_members_path :
      (interface : String) (properties : Properties platform) (i : DbusInstance platform)
      → (fill_members platform query targets interface properties i).0.object_path ≡ i.object_path
  unfolding fill_members
  fill_members_path interface properties i =
      fill_by_keeps platform (resolve_dbus_variant platform query targets) (λ j. j.object_path)
        resolve_dbus_variant_path query (get_property_member_dict platform interface targets)
        properties i.object_path i refl
