-- ===== src/Service/Json.antt =====
-- What the program asks of a parsed JSON value (nlohmann::json): the members that `items()` visits,
-- the elements of a range-based `for`, and the typed reads `get_ptr`, which give `none` where the
-- value has another type. `JsonWriter` is what the program builds values with: the constructors, an
-- array of the values pushed back, an object from a list of its members, and the assignment to
-- `operator[]`. Its laws are the library's documentation: a value is read back as what it was built
-- from, `nullptr` has no members, and an object is a `std::map`, which visits its members in the
-- order of their names, takes the first of two in an initializer list, and the last of two assigned.
use obmc_webapp.Prelude.{ℕ, String, ◌≡◌, Bool, Option, some, List, [], ◌∷◌}
use obmc_webapp.Prelude.Maps.{emplace, insert_or_assign, string_key}
use obmc_webapp.Prelude.Integers.{ℤ}

pub record JsonReader : Type 1 where
  pub Json : Type 0
  pub items : Json → List (String × Json)
  pub elements : Json → List Json
  pub get_string : Json → Option String
  pub get_bool : Json → Option Bool
  pub get_uint : Json → Option ℕ
  pub get_int : Json → Option ℤ

-- The map that emplaces each entry of a list.
abbrev pub emplace_all {ℓ} :
    {V : Type ℓ} → List (String × V) → List (String × V) → List (String × V)
emplace_all [] m = m
emplace_all ((key, v) ∷ rest) m = emplace_all rest (emplace key v m)

pub record JsonWriter : Type 1 where
  pub reader : JsonReader
  pub null : reader.Json
  pub from_string : String → reader.Json
  pub from_bool : Bool → reader.Json
  pub from_uint : ℕ → reader.Json
  pub from_int : ℤ → reader.Json
  pub array : List reader.Json → reader.Json
  pub object : List (String × reader.Json) → reader.Json
  pub assign : String → reader.Json → reader.Json → reader.Json
  pub get_string-from_string : (s : String) → reader.get_string (from_string s) ≡ some s
  pub get_bool-from_bool : (b : Bool) → reader.get_bool (from_bool b) ≡ some b
  pub get_int-from_int : (z : ℤ) → reader.get_int (from_int z) ≡ some z
  pub elements-array : (js : List reader.Json) → reader.elements (array js) ≡ js
  pub items-null : reader.items null ≡ []
  pub items-object :
      (members : List (String × reader.Json))
      → reader.items (object members) ≡ emplace_all members []
  pub items-assign :
      (key : String) (v j : reader.Json)
      → reader.items (assign key v j) ≡ insert_or_assign key v (reader.items j)
