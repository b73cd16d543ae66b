-- ===== src/Helpers/Text.antt =====
-- src/core/helpers/utils.hpp: `urlEncode`, `getNameFromLastSegmentObjectPath` and `toLower`. A text
-- is the list of its bytes, and a `char` its byte, a number below 256. The tests on characters are
-- those of the "C" locale.
pub mod Encoded
pub mod Segments
pub mod Unicode
use obmc_webapp.Prelude.{
  ℕ, ◌+◌, ◌/◌, ◌%◌, Bool, true, ◌&&◌, ◌||◌, Option, none, some, List, [], ◌∷◌, map, ◌==◌, leb, ltb,
  if◌then◌else◌,
}
use obmc_webapp.Core.Exceptions.{Exception, invalid_type, Result, ok, err}

abbrev pub is_alnum : ℕ → Bool
is_alnum c = (leb 48 c && leb c 57) || (leb 65 c && leb c 90) || (leb 97 c && leb c 122)

-- alphanumeric and other accepted characters: - _ . ~
unfoldable pub is_accepted : ℕ → Bool
is_accepted c = is_alnum c || c == 45 || c == 95 || c == 46 || c == 126

-- a digit of `std::hex` with `std::uppercase`
unfoldable pub hex_digit : ℕ → ℕ
hex_digit d = if ltb d 10 then 48 + d else 55 + d

unfoldable pub url_encode : List ℕ → List ℕ
url_encode [] = []
url_encode (c ∷ rest) =
    let more = url_encode rest in
    if is_accepted c then (c ∷ more) else (37 ∷ hex_digit (c / 16) ∷ hex_digit (c % 16) ∷ more)

-- what follows the last "/"
unfoldable pub after_last : List ℕ → Option (List ℕ)
after_last [] = none
after_last (c ∷ rest) = elim (after_last rest) [
  | some name ↦ some name
  | none ↦ if c == 47 then some rest else none
]

-- "_" gives a space
unfoldable pub spaced : ℕ → ℕ
spaced letter = if letter == 95 then 32 else letter

abbrev pub no_segment : Exception
no_segment = invalid_type "Object path should not be ends by the '/'"

unfoldable pub named : Option (List ℕ) → Result (List ℕ)
named none = err no_segment
named (some name) = ok (map spaced name)

unfoldable pub get_name_from_last_segment_object_path : List ℕ → Result (List ℕ)
get_name_from_last_segment_object_path object_path = named (after_last object_path)

unfoldable pub lower : ℕ → ℕ
lower c = if leb 65 c && leb c 90 then c + 32 else c

unfoldable pub to_lower : List ℕ → List ℕ
to_lower data' = map lower data'
