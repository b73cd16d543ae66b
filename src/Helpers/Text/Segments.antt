-- ===== src/Helpers/Text/Segments.antt =====
-- Which name an object path has.
use obmc_webapp.Prelude.{ℕ, ◌≡◌, refl, false, none, some, List, [], ◌∷◌, ◌++◌, map, ◌==◌, All}
use obmc_webapp.Core.Exceptions.{ok, err}
use obmc_webapp.Helpers.Text.{
  after_last, spaced, no_segment, named, get_name_from_last_segment_object_path,
}

-- No character is a "/".
abbrev pub HasNoSlash : List ℕ → Type 0
HasNoSlash segment = All (λ c. (c == 47) ≡ false) segment

after_last-HasNoSlash : (segment : List ℕ) → HasNoSlash segment → after_last segment ≡ none
unfolding after_last
after_last-HasNoSlash [] h = refl
after_last-HasNoSlash (c ∷ rest) (here, later) = rw (after_last-HasNoSlash rest later, here) refl

after_last-append :
    (path segment : List ℕ)
    → HasNoSlash segment
    → after_last (path ++ (47 ∷ segment)) ≡ some segment
unfolding after_last
after_last-append [] segment h = rw (after_last-HasNoSlash segment h) refl
after_last-append (c ∷ path) segment h = rw (after_last-append path segment h) refl

-- The name of a path with a "/" is what follows the last one, which may be nothing, with a space
-- for each "_"; a path without any "/" has no name, and is refused by an exception.
pub get_name_from_last_segment_object_path_lem :
    (path segment : List ℕ)
    → HasNoSlash segment
    → (get_name_from_last_segment_object_path (path ++ (47 ∷ segment)) ≡ ok (map spaced segment))
      × (get_name_from_last_segment_object_path segment ≡ err no_segment)
unfolding get_name_from_last_segment_object_path named
get_name_from_last_segment_object_path_lem path segment h =
    (rw (after_last-append path segment h) refl, rw (after_last-HasNoSlash segment h) refl)
