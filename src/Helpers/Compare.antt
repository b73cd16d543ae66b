-- ===== src/Helpers/Compare.antt =====
-- src/core/helpers/utils.hpp: the comparison of secrets in constant time.
use Prim.Native.String.{String, len}
use obmc_webapp.Prelude.{
  ℕ, ◌≡◌, ◌↔◌, inl, inr, Bool, true, false, not, if◌then◌else◌, ◌==◌, ==_iff, Bool-cases, refl, ap,
  sym,
}

-- OpenSSL's `CRYPTO_memcmp` over the first `size` bytes of two texts. Its manual says that it
-- returns zero when the two memory regions hold the same bytes, and another value otherwise.
pub record OpenSsl : Type 0 where
  pub crypto_memcmp : String → String → ℕ → ℕ
  pub memcmp_zero_iff :
      (a b : String) (size : ℕ)
      → len a ≡ size
      → len b ≡ size
      → (crypto_memcmp a b size ≡ 0) ↔ (a ≡ b)

module _ (ssl : OpenSsl) where
  open ssl use {crypto_memcmp, memcmp_zero_iff}

  unfoldable pub constant_time_string_compare : String → String → Bool
  constant_time_string_compare a b =
      if not (len a == len b) then false else crypto_memcmp a b (len a) == 0

  -- The comparison accepts two texts exactly when they are equal, whatever their lengths.
  pub constant_time_string_compare_iff :
      (a b : String) → (constant_time_string_compare a b ≡ true) ↔ (a ≡ b)
  unfolding constant_time_string_compare
  constant_time_string_compare_iff a b = elim (Bool-cases (len a == len b)) [
    | inl same ↦
        let lengths : len b ≡ len a = sym ((==_iff (len a) (len b)).0 same) in
        rw same (
          (λ h. (memcmp_zero_iff a b (len a) refl lengths).0 ((==_iff _ _).0 h)),
          λ e. (==_iff _ _).1 ((memcmp_zero_iff a b (len a) refl lengths).1 e),
        )
    | inr other ↦ rw other ((λ h. cc), λ e. cc (other, (==_iff (len a) (len b)).1 (ap len e)))
  ]
