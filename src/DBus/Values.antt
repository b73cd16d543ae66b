-- ===== src/DBus/Values.antt =====
-- src/core/entity/entity.hpp: `FieldType`, the values of fields, and src/core/entity/dbus_query.hpp:
-- `DbusVariantType`, the values of D-Bus properties.
use obmc_webapp.Prelude.{ℕ, String, Bool, Option, none, some, List}
use obmc_webapp.Prelude.Integers.{ℤ}

-- What C++ leaves open: the floating-point numbers, the hash of a text, and what a read of a text
-- gives whose lifetime has ended, by the text that was there. The last the standard leaves undefined:
-- a function of the old text is the least that a run can do, one that goes on.
pub record Platform : Type 1 where
  pub Double : Type 0
  pub string_hash : String → ℕ
  pub read_destroyed : String → String

module _ (platform : Platform) where
  open platform use {Double}

  pub data FieldType : Type 0 where
    text : String → FieldType
    int64 : ℤ → FieldType
    uint64 : ℕ → FieldType
    double : Double → FieldType
    int32 : ℤ → FieldType
    uint32 : ℕ → FieldType
    int16 : ℤ → FieldType
    uint16 : ℕ → FieldType
    uint8 : ℕ → FieldType
    flag : Bool → FieldType

  -- The alternatives that `FieldType` has too are one constructor.
  pub data DbusVariant : Type 0 where
    associations : List (String × (String × String)) → DbusVariant
    strings : List String → DbusVariant
    doubles : List Double → DbusVariant
    simple : FieldType → DbusVariant

  -- `getStringValue`; `none` is `bad_variant_access`
  unfoldable pub get_string_value : FieldType → Option String
  get_string_value (text t) = some t
  get_string_value _ = none

  -- `getIntValue`, `getFloatValue` and `getBoolValue`, of which `int` is the 32-bit alternative
  unfoldable pub get_int_value : FieldType → Option ℤ
  get_int_value (int32 z) = some z
  get_int_value _ = none

  unfoldable pub get_float_value : FieldType → Option Double
  get_float_value (double d) = some d
  get_float_value _ = none

  unfoldable pub get_bool_value : FieldType → Option Bool
  get_bool_value (flag b) = some b
  get_bool_value _ = none

  -- `fieldValueNotAvailable`
  abbrev pub not_available : FieldType
  not_available = text "N/A"
