-- ===== src/Prelude/Ranges.antt =====
-- Equations on the numbers under a bound, found by evaluation.
use Prim.Native.Nat.{ℕ, zero, suc, ◌<◌}
use mathlib.Core.Path.{◌≡◌}
use mathlib.Core.Logic.{inl, inr}
use mathlib.Core.Bool.{Bool, true, false}
use native.Mathlib.Omega.{arith}
use obmc_webapp.Prelude.Tests.{if◌then◌else◌, ◌==◌, ==_iff, Bool-cases}

-- A test that each number under a bound passes.
unfoldable pub passes : (ℕ → Bool) → ℕ → Bool
passes test zero = true
passes test (suc bound) = if passes test bound then test bound else false

test_of_passes :
    (test : ℕ → Bool) (bound k : ℕ) → k < bound → passes test bound ≡ true → test k ≡ true
unfolding passes
test_of_passes test zero k small h = absurd (omega arith)
test_of_passes test (suc bound) k small h = elim (Bool-cases (k == bound)) [
  | inl same ↦ rw ((==_iff k bound).0 same) (ground arith)
  | inr other ↦ test_of_passes test bound k (ground arith) (ground arith)
]

pub value_of_test :
    (f g : ℕ → ℕ) (bound k : ℕ) → k < bound → passes (λ x. f x == g x) bound ≡ true → f k ≡ g k
value_of_test f g bound k small h =
    (==_iff _ _).0 (test_of_passes (λ x. f x == g x) bound k small h)

pub values_of_tests :
    (f g : ℕ → ℕ → ℕ) (bound bound' m n : ℕ)
    → m < bound
    → n < bound'
    → passes (λ x. passes (λ y. f x y == g x y) bound') bound ≡ true
    → f m n ≡ g m n
values_of_tests f g bound bound' m n h k e =
    value_of_test (f m) (g m) bound' n k
      (test_of_passes (λ x. passes (λ y. f x y == g x y) bound') bound m h e)
