-- ===== src/System/Links/Highest.antt =====
-- Which status a sensor has after the instances of the provider of statuses have supplemented it.
use obmc_webapp.Prelude.{
  ℕ, String, ◌≡◌, Option, none, some, List, [], ◌∷◌, leb, str_eq, if◌then◌else◌,
}
use obmc_webapp.Prelude.Maps.{find, string_key}
use obmc_webapp.Helpers.Text.{to_lower}
use obmc_webapp.Helpers.Text.Unicode.{codes}
use obmc_webapp.Providers.Status.{at_priority}
use obmc_webapp.DBus.Values.{Platform, text}
use obmc_webapp.DBus.Instance.{Child}
use obmc_webapp.DBus.Members.{Members, meta_object_path}
use obmc_webapp.System.Definitions.{field_status, field_object_cauth_path}
use obmc_webapp.System.Links.{status_text, string_field}

-- How grave a status is; an unknown one counts as the least.
abbrev grade : Option (ℕ × List ℕ) → ℕ
grade none = 0
grade (some (p, status)) = p

abbrev pub rank : String → ℕ
rank status = grade (at_priority (to_lower (codes status)))

abbrev pub graver : ℕ → ℕ → ℕ
graver m n = if leb n m then m else n

-- That a priority is the grade of the text that goes with it.
abbrev IsGraded : Option (ℕ × List ℕ) → Type 0
IsGraded none = Unit
IsGraded (some (p, status)) = rank (status_text status) ≡ p

module _ (platform : Platform) where
  -- What an instance that supplements makes of the grade of an object's status.
  abbrev raised : String → Option String → Option String → ℕ → ℕ
  raised path (some causer) (some candidate) n =
      if str_eq path causer then graver n (rank candidate) else n
  raised path (some causer) none n = n
  raised path none candidate n = n

  -- The gravest of the grade `n` and those of the statuses of a list's instances whose causer is the
  -- object.
  abbrev pub gravest : String → List (Child platform) → ℕ → ℕ
  gravest path [] n = n
  gravest path (s ∷ rest) n = gravest path rest (
      raised path (string_field platform field_object_cauth_path s.member_instances)
        (string_field platform field_status s.member_instances) n)

  -- That an instance is the object's, and that its status, a text, has the grade.
  abbrev pub HasGrade : String → ℕ → Child platform → Type 0
  HasGrade path n c =
      (find meta_object_path c.member_instances ≡ some (text path))
      × ((status : String) × (find field_status c.member_instances ≡ some (text status))
          × (rank status ≡ n))
