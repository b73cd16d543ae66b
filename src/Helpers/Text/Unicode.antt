-- ===== src/Helpers/Text/Unicode.antt =====
-- src/core/helpers/utils.hpp: `getNameFromLastSegmentObjectPath` and the numbers of a text's
-- characters, on texts. What the code does to bytes concerns ASCII characters only, which no
-- character of more bytes holds.
use Prim.Native.Char.{Char, code}
use Prim.Native.String as Text
use obmc_webapp.Prelude.{
  ℕ, String, ◌≡◌, refl, sym, ap, ◌∙◌, Bool, true, false, Bool-cases, inl, inr, Option, none, some,
  List, [], ◌∷◌, map, ◌==◌, if◌then◌else◌,
}
use obmc_webapp.Core.Exceptions.{Result, ok, err}
use obmc_webapp.Helpers.Text.{
  after_last, spaced, no_segment, named, get_name_from_last_segment_object_path,
}

unfoldable pub codes : String → List ℕ
codes Text.[] = []
codes (Text.◌∷◌ c s) = code c ∷ codes s

unfoldable pub keep_later : Option String → Bool → String → Option String
keep_later (some name) here rest = some name
keep_later none true rest = some rest
keep_later none false rest = none

unfoldable pub text_after_last : String → Option String
text_after_last Text.[] = none
text_after_last (Text.◌∷◌ c s) = keep_later (text_after_last s) (code c == 47) s

unfoldable pub space_if : Bool → Char → Char
space_if true c = " "
space_if false c = c

unfoldable pub text_spaced : String → String
text_spaced Text.[] = Text.[]
text_spaced (Text.◌∷◌ c s) = Text.◌∷◌ (space_if (code c == 95) c) (text_spaced s)

unfoldable pub text_named : Option String → Result String
text_named none = err no_segment
text_named (some name) = ok (text_spaced name)

unfoldable pub name_of_path : String → Result String
name_of_path path = text_named (text_after_last path)

-- The numbers of the text's characters, where there is one.
abbrev pub codes_of : Option String → Option (List ℕ)
codes_of none = none
codes_of (some s) = some (codes s)

abbrev pub codes_result : Result String → Result (List ℕ)
codes_result (ok s) = ok (codes s)
codes_result (err e) = err e

codes_of-keep_later :
    (o : Option String) (c : Char) (s : String)
    → elim (codes_of o) [
      | some name ↦ some name
      | none ↦ if code c == 47 then some (codes s) else none
    ]
      ≡ codes_of (keep_later o (code c == 47) s)
unfolding keep_later
codes_of-keep_later (some name) c s = refl
codes_of-keep_later none c s = elim (Bool-cases (code c == 47)) [
  | inl slash ↦ rw slash refl
  | inr other ↦ rw other refl
]

after_last-codes : (s : String) → after_last (codes s) ≡ codes_of (text_after_last s)
unfolding after_last codes text_after_last
after_last-codes Text.[] = refl
after_last-codes (Text.◌∷◌ c s) =
    rw (after_last-codes s) (codes_of-keep_later (text_after_last s) c s)

code-space_if : (c : Char) → code (space_if (code c == 95) c) ≡ spaced (code c)
unfolding spaced space_if
code-space_if c = elim (Bool-cases (code c == 95)) [
  | inl line ↦ rw line refl
  | inr other ↦ rw other refl
]

codes-text_spaced : (s : String) → codes (text_spaced s) ≡ map spaced (codes s)
unfolding codes text_spaced
codes-text_spaced Text.[] = refl
codes-text_spaced (Text.◌∷◌ c s) = rw (code-space_if c, codes-text_spaced s) refl

codes_result-text_named : (o : Option String) → codes_result (text_named o) ≡ named (codes_of o)
unfolding text_named named
codes_result-text_named none = refl
codes_result-text_named (some name) = ap ok (codes-text_spaced name)

-- The name of a path, on texts, is the one that the model on bytes gives.
pub codes-name_of_path :
    (path : String)
    → codes_result (name_of_path path) ≡ get_name_from_last_segment_object_path (codes path)
unfolding name_of_path get_name_from_last_segment_object_path
codes-name_of_path path =
    codes_result-text_named (text_after_last path) ∙ ap named (sym (after_last-codes path))
