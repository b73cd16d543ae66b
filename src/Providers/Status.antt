-- ===== src/Providers/Status.antt =====
-- src/status_provider.hpp: `Status::getHigherStatus`. A status is the list of the bytes of its
-- text. The exception for an unknown status is `none`; its message quotes both.
pub mod Order
use obmc_webapp.Prelude.{
  ℕ, Bool, true, false, ◌&&◌, Option, none, some, List, [], ◌∷◌, ◌==◌, leb, if◌then◌else◌,
}
use obmc_webapp.Helpers.Text.{lower, to_lower}

-- "OK", "Warning" and "Critical"
abbrev pub status_ok : List ℕ
status_ok = 79 ∷ 75 ∷ []

abbrev pub status_warning : List ℕ
status_warning = 87 ∷ 97 ∷ 114 ∷ 110 ∷ 105 ∷ 110 ∷ 103 ∷ []

abbrev pub status_critical : List ℕ
status_critical = 67 ∷ 114 ∷ 105 ∷ 116 ∷ 105 ∷ 99 ∷ 97 ∷ 108 ∷ []

-- "ok", "warning" and "critical"
abbrev pub comp_status_ok : List ℕ
comp_status_ok = 111 ∷ 107 ∷ []

abbrev pub comp_status_warning : List ℕ
comp_status_warning = 119 ∷ 97 ∷ 114 ∷ 110 ∷ 105 ∷ 110 ∷ 103 ∷ []

abbrev pub comp_status_critical : List ℕ
comp_status_critical = 99 ∷ 114 ∷ 105 ∷ 116 ∷ 105 ∷ 99 ∷ 97 ∷ 108 ∷ []

unfoldable pub same_bytes : List ℕ → List ℕ → Bool
same_bytes [] [] = true
same_bytes (a ∷ left) (b ∷ right) = a == b && same_bytes left right
same_bytes _ _ = false

-- `statusPriority.at`
unfoldable pub at_priority : List ℕ → Option (ℕ × List ℕ)
at_priority status =
    if same_bytes comp_status_ok status
    then some (0, status_ok)
    else if same_bytes comp_status_warning status
    then some (1, status_warning)
    else if same_bytes comp_status_critical status
    then some (2, status_critical)
    else none

-- What a reference to a text leads to whose lifetime has ended: the text that was there. What a
-- read through the reference gives is not in it.
pub record DestroyedText : Type 0 where
  pub was : List ℕ

-- the two pairs are copies in the function's own frame
unfoldable pub higher : Option (ℕ × List ℕ) → Option (ℕ × List ℕ) → Option DestroyedText
higher (some (p, left)) (some (q, right)) = some (record { was = if leb q p then left else right })
higher _ _ = none

-- The result is a reference to a part of one of these copies, which are gone on return.
unfoldable pub get_higher_status : List ℕ → List ℕ → Option DestroyedText
get_higher_status left right = higher (at_priority (to_lower left)) (at_priority (to_lower right))
