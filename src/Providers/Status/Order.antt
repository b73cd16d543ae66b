-- ===== src/Providers/Status/Order.antt =====
-- Which of two statuses is the higher one.
use obmc_webapp.Prelude.{
  ℕ, ◌≡◌, refl, subst, leb, Bool, true, false, Option, none, some, List, Bool-cases, inl, inr,
  if◌then◌else◌,
}
use obmc_webapp.Helpers.Text.{lower, to_lower}
use obmc_webapp.Providers.Status.{
  status_ok, status_warning, status_critical, comp_status_ok, comp_status_warning,
  comp_status_critical, same_bytes, at_priority, higher, get_higher_status,
}

data Level : Option (ℕ × List ℕ) → Type 0 where
  unknown : Level none
  at_ok : Level (some (0, status_ok))
  at_warning : Level (some (1, status_warning))
  at_critical : Level (some (2, status_critical))

at_priority-Level : (status : List ℕ) → Level (at_priority status)
unfolding at_priority
at_priority-Level status =
    choose (same_bytes comp_status_ok status) (same_bytes comp_status_warning status)
      (same_bytes comp_status_critical status)
  where
    choose :
        (o w c : Bool)
        → Level (
            if o
            then some (0, status_ok)
            else if w
            then some (1, status_warning)
            else if c
            then some (2, status_critical)
            else none)
    choose true w c = at_ok
    choose false true c = at_warning
    choose false false true = at_critical
    choose false false false = unknown

-- A known status is found again, with its priority, under its own text.
abbrev Stable : Option (ℕ × List ℕ) → Type 0
Stable none = Unit
Stable (some (p, status)) = at_priority (to_lower status) ≡ some (p, status)

Level-Stable : {o : Option (ℕ × List ℕ)} → Level o → Stable o
unfolding at_priority same_bytes to_lower lower
Level-Stable unknown = tt
Level-Stable at_ok = refl
Level-Stable at_warning = refl
Level-Stable at_critical = refl

at_priority-Stable :
    (status found : List ℕ) (p : ℕ)
    → at_priority status ≡ some (p, found)
    → at_priority (to_lower found) ≡ some (p, found)
at_priority-Stable status found p e = subst Stable e (Level-Stable (at_priority-Level status))

-- Of two known statuses, in any case of letters, the text to which the result refers was one of
-- "OK", "Warning" and "Critical", known again, and its priority the greater of the two.
pub get_higher_status_lem :
    (left right found found' : List ℕ) (p q : ℕ)
    → at_priority (to_lower left) ≡ some (p, found)
    → at_priority (to_lower right) ≡ some (q, found')
    → (status : List ℕ) × (get_higher_status left right ≡ some (record { was = status }))
      × (at_priority (to_lower status) ≡ some ((if leb q p then p else q), status))
unfolding get_higher_status higher
get_higher_status_lem left right found found' p q e f = elim (Bool-cases (leb q p)) [
  | inl above ↦ (found, rw (e, f, above) refl, rw above (at_priority-Stable _ found p e))
  | inr below ↦ (found', rw (e, f, below) refl, rw below (at_priority-Stable _ found' q f))
]
