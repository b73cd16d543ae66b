-- ===== src/DBus/Members.antt =====
-- src/core/entity/dbus_query.hpp and dbus_query.cpp: the members of an instance and what changes
-- them, with the names of src/definitions.hpp that an instance uses.
use Prim.Native.String.{◌++◌}
use obmc_webapp.Prelude.{
  String, Bool, true, false, Option, none, some, List, [], ◌∷◌, str_eq, if◌then◌else◌,
}
use obmc_webapp.Prelude.Maps.{find, insert_or_assign, string_key}
use obmc_webapp.Core.Exceptions.{logic_error, Result, ok, err}
use obmc_webapp.DBus.Values.{Platform, FieldType, text, not_available}

abbrev pub meta_object_path : String
meta_object_path = "__meta_field__object_path"

abbrev pub meta_object_service : String
meta_object_service = "__meta_field__object_service"

abbrev pub field_source : String
field_source = "Source"

abbrev pub field_destination : String
field_destination = "Destination"

abbrev pub field_endpoint : String
field_endpoint = "Endpoint"

module _ (platform : Platform) where
  abbrev pub Members : Type 0
  Members = List (String × FieldType platform)

  unfoldable pub is_found : Option (FieldType platform) → Bool
  is_found none = false
  is_found (some _) = true

  unfoldable pub has_field : String → Members → Bool
  has_field member members = is_found (find member members)

  unfoldable pub value_or_missing : Option (FieldType platform) → FieldType platform
  value_or_missing none = not_available platform
  value_or_missing (some v) = v

  -- the value of the field, or of the instance that stands for a missing one
  unfoldable pub get_field : String → Members → FieldType platform
  get_field member members = value_or_missing (find member members)

  unfoldable pub supplement : String → FieldType platform → Members → Result Members
  supplement member value members =
      if has_field member members
      then err (logic_error ("The requested member '" ++ (member ++ "' already registried.")))
      else ok (insert_or_assign member value members)

  -- the write through the pointer to the member's instance
  unfoldable pub set_value : String → FieldType platform → Members → Members
  set_value member value [] = []
  set_value member value ((k, old) ∷ rest) =
      if str_eq k member then (k, value) ∷ rest else (k, old) ∷ set_value member value rest

  unfoldable pub supplemented : Result Members → Members → Members
  supplemented (ok members) old = members
  supplemented (err e) old = old

  -- `supplement` does not throw here: the field is missing
  unfoldable pub supplement_or_update : String → FieldType platform → Members → Members
  supplement_or_update member value members =
      if has_field member members
      then set_value member value members
      else supplemented (supplement member value members) members

  -- what the constructor supplements
  abbrev pub meta_fields : String → String → Members
  meta_fields service path =
      insert_or_assign meta_object_service (text service)
        (insert_or_assign meta_object_path (text path) [])
