-- ===== src/DBus/Instance/Endpoint.antt =====
-- The object and the service of an instance, which filling in properties leaves as they were.
use obmc_webapp.Prelude.{String, ◌≡◌, refl, ◌∙◌, List, [], ◌∷◌, map}
use obmc_webapp.Core.Exceptions.{Result, ok, err}
use obmc_webapp.DBus.Values.{
  Platform, FieldType, DbusVariant, associations, strings, doubles, simple, text, double,
}
use obmc_webapp.DBus.Instance.{
  Targets, Properties, Child, DbusInstance, QueryView, new_child, store_child, fill_child,
  association_properties, capture_complex_dbus_property, capture_all, capture_dbus_associations,
  resolve_dbus_variant, fill_members, get_property_member_dict,
}
use obmc_webapp.DBus.Instance.Hashes.{and_then_holds, fill_by_keeps}

module _ (platform : Platform) where
  -- The object of an instance and the service that gives it.
  abbrev pub endpoint : DbusInstance platform → String × String
  endpoint i = (i.object_path, i.service_name)

  store_child-endpoint :
      (p : Child platform × Result (Unit {0})) (i : DbusInstance platform)
      → endpoint (store_child platform p i).0 ≡ endpoint i
  unfolding store_child
  store_child-endpoint (c, err e) i = refl
  store_child-endpoint (c, ok _) i = refl

  module _ (query : QueryView platform) (targets : Targets) where
    capture_complex-endpoint :
        (member : String) (list : List (FieldType platform)) (x : String × String)
        (i : DbusInstance platform)
        → endpoint i ≡ x
        → endpoint (capture_complex_dbus_property platform query targets member list i).0 ≡ x
    unfolding capture_complex_dbus_property
    capture_complex-endpoint member [] x i h = h
    capture_complex-endpoint member (value ∷ rest) x i h =
        let p =
          fill_child platform query targets member ((member, simple value) ∷ [])
            (new_child platform i.service_name i.object_path) in
        and_then_holds (λ j. endpoint j ≡ x) (store_child platform p i)
          (capture_complex_dbus_property platform query targets member rest)
          (store_child-endpoint p i ∙ h) (capture_complex-endpoint member rest x)

    capture_all-endpoint :
        (interface : String) (list : List (String × (String × String))) (x : String × String)
        (i : DbusInstance platform)
        → endpoint i ≡ x
        → endpoint (capture_all platform query targets interface list i).0 ≡ x
    unfolding capture_all
    capture_all-endpoint interface [] x i h = h
    capture_all-endpoint interface (a ∷ rest) x i h =
        let p =
          fill_child platform query targets interface
            (association_properties platform query targets a)
            (new_child platform i.service_name a.1.1) in
        and_then_holds (λ j. endpoint j ≡ x) (store_child platform p i)
          (capture_all platform query targets interface rest) (store_child-endpoint p i ∙ h)
          (capture_all-endpoint interface rest x)

    resolve_dbus_variant-endpoint :
        (member : String) (value : DbusVariant platform) (i : DbusInstance platform)
        → endpoint (resolve_dbus_variant platform query targets member value i).0 ≡ endpoint i
    unfolding resolve_dbus_variant capture_dbus_associations
    resolve_dbus_variant-endpoint member (simple v) i = refl
    resolve_dbus_variant-endpoint member (strings list) i =
        capture_complex-endpoint member (map text list) (endpoint i) i refl
    resolve_dbus_variant-endpoint member (doubles list) i =
        capture_complex-endpoint member (map double list) (endpoint i) i refl
    resolve_dbus_variant-endpoint member (associations list) i =
        capture_all-endpoint member list (endpoint i) (record i { complex_instances = [] }) refl

    pub fill_members-endpoint :
        (interface : String) (properties : Properties platform) (x : String × String)
        (i : DbusInstance platform)
        → endpoint i ≡ x
        → endpoint (fill_members platform query targets interface properties i).0 ≡ x
    unfolding fill_members
    fill_members-endpoint interface properties x i h =
        fill_by_keeps platform (resolve_dbus_variant platform query targets) endpoint
          resolve_dbus_variant-endpoint query (get_property_member_dict platform interface targets)
          properties x i h
