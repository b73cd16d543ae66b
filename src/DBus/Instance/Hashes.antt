-- ===== src/DBus/Instance/Hashes.antt =====
-- What filling in properties leaves as it was: the hash of an instance.
use obmc_webapp.Prelude.{ℕ, String, ◌≡◌, refl, ◌∙◌, Option, none, some, List, [], ◌∷◌}
use obmc_webapp.Core.Exceptions.{Result, ok, err, ◌and_then◌}
use obmc_webapp.Prelude.Maps.{find, string_key}
use obmc_webapp.DBus.Values.{Platform, DbusVariant, associations, strings, doubles, simple}
use obmc_webapp.DBus.Instance.{
  Targets, Properties, Child, QueryView, hash_of, process_formatters, get_property_member_dict,
  resolve_formatted, fill_member, fill_by, resolve_child, fill_child,
}

-- What a step gives, and the step after it keeps, holds after both.
pub and_then_holds :
    {S : Type 0} (P : S → Type 0) (p : S × Result (Unit {0})) (more : S → S × Result (Unit {0}))
    → P p.0
    → ((s : S) → P s → P (more s).0)
    → P (p and_then more).0
and_then_holds P (s, err e) more h keeps = h
and_then_holds P (s, ok _) more h keeps = keeps s h

-- A step after a step that ends well: both do.
pub and_then_ok :
    {S : Type 0} (p : S × Result (Unit {0})) (more : S → S × Result (Unit {0}))
    → (p and_then more).1 ≡ ok tt
    → (p.1 ≡ ok tt) × ((p and_then more) ≡ more p.0)
and_then_ok (s, err e) more h = cc
and_then_ok (s, ok tt) more h = (refl, refl)

module _ (platform : Platform) {S X : Type 0}
    (resolve : String → DbusVariant platform → S → S × Result (Unit {0})) (view : S → X)
    (keeps : (member : String) (v : DbusVariant platform) (s : S)
      → view (resolve member v s).0 ≡ view s) where
  resolve_formatted_keeps :
      (member : String) (r : Result (DbusVariant platform)) (s : S)
      → view (resolve_formatted platform resolve member r s).0 ≡ view s
  unfolding resolve_formatted
  resolve_formatted_keeps member (err e) s = refl
  resolve_formatted_keeps member (ok v) s = keeps member v s

  fill_member_keeps :
      (query : QueryView platform) (property member : String) (o : Option (DbusVariant platform))
      (s : S)
      → view (fill_member platform resolve query property member o s).0 ≡ view s
  unfolding fill_member
  fill_member_keeps query property member none s = refl
  fill_member_keeps query property member (some v) s =
      resolve_formatted_keeps member (process_formatters platform query property v) s

  pub fill_by_keeps :
      (query : QueryView platform) (dict : List (String × String))
      (properties : Properties platform) (x : X) (s : S)
      → view s ≡ x
      → view (fill_by platform resolve query dict properties s).0 ≡ x
  unfolding fill_by
  fill_by_keeps query [] properties x s h = h
  fill_by_keeps query ((property, member) ∷ rest) properties x s h =
      and_then_holds (λ t. view t ≡ x)
        (fill_member platform resolve query property member (find property properties) s)
        (fill_by platform resolve query rest properties)
        (fill_member_keeps query property member (find property properties) s ∙ h)
        (fill_by_keeps query rest properties x)

module _ (platform : Platform) where
  abbrev pub child_hash : Child platform → ℕ
  child_hash c = hash_of platform c.service_name c.object_path

  resolve_child_keeps :
      (member : String) (v : DbusVariant platform) (c : Child platform)
      → child_hash (resolve_child platform member v c).0 ≡ child_hash c
  unfolding resolve_child
  resolve_child_keeps member (simple v) c = refl
  resolve_child_keeps member (associations _) c = refl
  resolve_child_keeps member (strings _) c = refl
  resolve_child_keeps member (doubles _) c = refl

  pub fill_child-hash :
      (query : QueryView platform) (targets : Targets) (interface : String)
      (properties : Properties platform) (c : Child platform)
      → child_hash (fill_child platform query targets interface properties c).0 ≡ child_hash c
  unfolding fill_child
  fill_child-hash query targets interface properties c =
      fill_by_keeps platform (resolve_child platform) child_hash resolve_child_keeps query
        (get_property_member_dict platform interface targets) properties (child_hash c) c refl
