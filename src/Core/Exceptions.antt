-- ===== src/Core/Exceptions.antt =====
-- src/core/exceptions.hpp, and `EntityException` of src/core/entity/entity.hpp: what the program
-- throws. `logic_error`, `invalid_argument` and `runtime_error` are those of the standard library.
use Prim.Native.String.{String, ◌++◌}
use mathlib.Core.Path.{◌≡◌}
use mathlib.Core.Logic.{◌⊎◌, inl, inr}
use mathlib.Core.Path.{refl}

pub data Exception : Type 0 where
  obmc_app_exception not_implemented invalid_type : String → Exception
  entity_exception logic_error invalid_argument runtime_error : String → Exception

-- The message that the constructor hands to `std::runtime_error`.
unfoldable pub what : Exception → String
what (obmc_app_exception arg) = arg
what (not_implemented target) = "The function '" ++ (target ++ "' not implemented")
what (invalid_type member) = "The member '" ++ (member ++ "' has invalid type")
what (entity_exception arg) = arg
what (logic_error arg) = arg
what (invalid_argument arg) = arg
what (runtime_error arg) = arg

-- The outcome of a call: it returns, or it throws.
pub data Result {ℓ} (A : Type ℓ) : Type ℓ where
  ok : A → Result A
  err : Exception → Result A

infixl 10 ◌>>=◌
abbrev pub ◌>>=◌ {ℓ κ} : {A : Type ℓ} {B : Type κ} → Result A → (A → Result B) → Result B
ok a >>= f = f a
err e >>= f = err e

pub ok-injective {ℓ} : {A : Type ℓ} {a b : A} → ok a ≡ ok b → a ≡ b
ok-injective h = cc

pub Result-cases {ℓ} :
    {A : Type ℓ} (r : Result A) → ((e : Exception) × (r ≡ err e)) ⊎ ((a : A) × (r ≡ ok a))
Result-cases (ok a) = inr (a, refl)
Result-cases (err e) = inl (e, refl)

pub err-injective {ℓ} : {A : Type ℓ} {x y : Exception} → ◌≡◌ {A = Result A} (err x) (err y) → x ≡ y
err-injective h = cc

-- The next step of a call that changes a state, unless the step before has thrown.
infixl 10 ◌and_then◌
abbrev pub ◌and_then◌ {ℓ κ μ} :
    {S : Type ℓ} {A : Type κ} {B : Type μ} → S × Result A → (S → S × Result B) → S × Result B
(s, err e) and_then f = (s, err e)
(s, ok _) and_then f = f s

pub >>=-ok {ℓ κ} :
    {A : Type ℓ} {B : Type κ} (r : Result A) (f : A → Result B) (b : B)
    → (r >>= f) ≡ ok b
    → (a : A) × (r ≡ ok a) × (f a ≡ ok b)
>>=-ok (ok a) f b h = (a, refl, h)
>>=-ok (err e) f b h = cc
