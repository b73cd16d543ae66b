-- ===== src/Prelude/Decimal.antt =====
-- `std::to_string` of a number that is not negative, and a reader of decimal digits.
use Prim.Native.Char.{Char, code}
use Prim.Native.String.{String, [], ◌∷◌}
use Prim.Native.Nat.{ℕ, zero, suc, ◌+◌, ◌-◌, ◌*◌, ◌/◌, ◌%◌, ◌<◌}
use mathlib.Core.Path.{◌≡◌, refl, ap, ◌∙◌}
use mathlib.Core.Logic.{inl, inr}
use native.Mathlib.Omega.{arith}
use obmc_webapp.Prelude.Tests.{if◌then◌else◌, ◌==◌, ==_iff, Bool-cases}

digit : ℕ → Char
digit zero = "0"
digit (suc zero) = "1"
digit (suc (suc zero)) = "2"
digit (suc (suc (suc zero))) = "3"
digit (suc (suc (suc (suc zero)))) = "4"
digit (suc (suc (suc (suc (suc zero))))) = "5"
digit (suc (suc (suc (suc (suc (suc zero)))))) = "6"
digit (suc (suc (suc (suc (suc (suc (suc zero))))))) = "7"
digit (suc (suc (suc (suc (suc (suc (suc (suc zero)))))))) = "8"
digit (suc (suc (suc (suc (suc (suc (suc (suc (suc n))))))))) = "9"

-- The digits of `n` in front of `text`; each round divides by ten.
digits_before : ℕ → ℕ → String → String
digits_before zero n text = text
digits_before (suc fuel) n text =
    let more = digits_before fuel (n / 10) (digit (n % 10) ∷ text) in
    if n / 10 == 0 then digit (n % 10) ∷ text else more

unfoldable pub to_string : ℕ → String
unfolding digits_before digit
to_string n = digits_before (suc n) n ""

unfoldable pub read_from : ℕ → String → ℕ
read_from value [] = value
read_from value (c ∷ text) = read_from (value * 10 + (code c - 48)) text

code-digit : (d : ℕ) → d < 10 → code (digit d) ≡ 48 + d
unfolding digit
code-digit zero h = refl
code-digit (suc zero) h = refl
code-digit (suc (suc zero)) h = refl
code-digit (suc (suc (suc zero))) h = refl
code-digit (suc (suc (suc (suc zero)))) h = refl
code-digit (suc (suc (suc (suc (suc zero))))) h = refl
code-digit (suc (suc (suc (suc (suc (suc zero)))))) h = refl
code-digit (suc (suc (suc (suc (suc (suc (suc zero))))))) h = refl
code-digit (suc (suc (suc (suc (suc (suc (suc (suc zero)))))))) h = refl
code-digit (suc (suc (suc (suc (suc (suc (suc (suc (suc n))))))))) h =
    let nine : n ≡ 0 = omega arith in rw nine refl

read_from-digit :
    (value d : ℕ) (text : String)
    → d < 10
    → read_from value (digit d ∷ text) ≡ read_from (value * 10 + d) text
unfolding read_from
read_from-digit value d text h = ap (λ n. read_from n text) (omega (arith, code-digit d h))

read_from-digits_before :
    (fuel n : ℕ) (text : String)
    → n < fuel
    → read_from 0 (digits_before fuel n text) ≡ read_from n text
unfolding digits_before
read_from-digits_before zero n text h = absurd (omega arith)
read_from-digits_before (suc fuel) n text h = elim (Bool-cases (n / 10 == 0)) [
  | inl last ↦ rw last (
      read_from-digit 0 (n % 10) text (omega arith)
      ∙ ap (λ k. read_from k text) (omega (arith, (==_iff _ _).0 last)))
  | inr more ↦ rw more (
      read_from-digits_before fuel (n / 10) (digit (n % 10) ∷ text) (ground arith)
      ∙ read_from-digit (n / 10) (n % 10) text (omega arith)
      ∙ ap (λ k. read_from k text) (omega arith))
]

-- The text of a number reads back as the number.
pub read_from-to_string : (n : ℕ) → read_from 0 (to_string n) ≡ n
unfolding to_string read_from
read_from-to_string n = read_from-digits_before (suc n) n "" (omega arith)
