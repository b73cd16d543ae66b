-- ===== src/Prelude/Membership.antt =====
-- Membership in a list, by recursion, so that the tactics take it apart.
use mathlib.Core.Path.{◌≡◌, refl, subst}
use mathlib.Core.Logic.{◌⊎◌, inl, inr}
use mathlib.Core.Bool.{Bool, true}
use mathlib.Core.List.{List, [], ◌∷◌}
use obmc_webapp.Prelude.Tests.{Bool-cases}
use obmc_webapp.Prelude.Lists.{select, All}

module _ {A : Type 0} where
  -- `a` stands in the list.
  abbrev pub In : A → List A → Type 0
  In a [] = ⊥
  In a (x ∷ xs) = (x ≡ a) ⊎ In a xs

  pub All-In : (P : A → Type 0) (xs : List A) {a : A} → All P xs → In a xs → P a
  All-In P [] h m = absurd m
  All-In P (x ∷ xs) (here, later) (inl e) = subst P e here
  All-In P (x ∷ xs) (here, later) (inr m) = All-In P xs later m

module _ {A : Type 0} (p : A → Bool) where
  pub In-of_In-select : {a : A} (xs : List A) → In a (select p xs) → In a xs × (p a ≡ true)
  In-of_In-select {a} [] m = absurd m
  In-of_In-select {a} (x ∷ xs) m = elim (Bool-cases (p x)) [
    | inl kept ↦ elim (let m' : (x ≡ a) ⊎ In a (select p xs) = rw kept at m in m') [
      | inl e ↦ (inl e, rw (← e) kept)
      | inr n ↦ let (there, h) = In-of_In-select xs n in (inr there, h)
    ]
    | inr dropped ↦ let (there, h) = In-of_In-select xs (rw dropped at m) in (inr there, h)
  ]

  pub In-select : {a : A} (xs : List A) → In a xs → p a ≡ true → In a (select p xs)
  In-select [] m h = absurd m
  In-select (x ∷ xs) (inl e) h = rw (e, h) (inl refl)
  In-select (x ∷ xs) (inr m) h = elim (Bool-cases (p x)) [
    | inl kept ↦ rw kept (inr (In-select xs m h))
    | inr dropped ↦ rw dropped (In-select xs m h)
  ]

  pub All-select : (P : A → Type 0) (xs : List A) → All P xs → All P (select p xs)
  All-select P [] h = tt
  All-select P (x ∷ xs) (here, later) = elim (Bool-cases (p x)) [
    | inl kept ↦ rw kept (here, All-select P xs later)
    | inr dropped ↦ rw dropped (All-select P xs later)
  ]
