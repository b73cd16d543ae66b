-- ===== src/Helpers/Text/Encoded.antt =====
-- What a reader of percent-encoding makes of `urlEncode`.
use obmc_webapp.Prelude.{
  ℕ, ◌+◌, ◌-◌, ◌*◌, ◌/◌, ◌%◌, ◌<◌, ◌≡◌, refl, true, false, List, [], ◌∷◌, ◌==◌, leb, All, arith,
  Bool-cases, inl, inr, if◌then◌else◌, ap,
}
use obmc_webapp.Prelude.Ranges.{passes, value_of_test}
use obmc_webapp.Helpers.Text.{is_accepted, hex_digit, url_encode}

-- The value of a hexadecimal digit.
unfoldable pub hex_value : ℕ → ℕ
hex_value c = if leb c 57 then c - 48 else c - 55

-- The reader of RFC 3986: a percent sign and two digits stand for one byte.
unfoldable pub url_decode : List ℕ → List ℕ
url_decode [] = []
url_decode (c ∷ []) = c ∷ []
url_decode (c ∷ d ∷ []) = c ∷ d ∷ []
url_decode (c ∷ d ∷ e ∷ rest) =
    let after = url_decode rest in
    let next = url_decode (d ∷ e ∷ rest) in
    let byte = hex_value d * 16 + hex_value e in if c == 37 then (byte ∷ after) else (c ∷ next)

-- A character other than the percent sign stands for itself.
url_decode-cons :
    (c : ℕ) (rest : List ℕ) → (c == 37) ≡ false → url_decode (c ∷ rest) ≡ c ∷ url_decode rest
unfolding url_decode
url_decode-cons c [] h = refl
url_decode-cons c (d ∷ []) h = refl
url_decode-cons c (d ∷ e ∷ rest) h = rw h refl

hex_value-hex_digit : (d : ℕ) → d < 16 → hex_value (hex_digit d) ≡ d
unfolding passes hex_value hex_digit
hex_value-hex_digit d h = value_of_test (λ x. hex_value (hex_digit x)) (λ x. x) 16 d h refl

url_decode_escape :
    (c : ℕ) (rest : List ℕ)
    → c < 256
    → url_decode (37 ∷ hex_digit (c / 16) ∷ hex_digit (c % 16) ∷ rest) ≡ c ∷ url_decode rest
unfolding url_decode
url_decode_escape c rest h =
    rw (hex_value-hex_digit (c / 16) (omega arith), hex_value-hex_digit (c % 16) (omega arith))
      (ap (λ x. x ∷ url_decode rest) (omega arith))

accepted-ne-percent : (c : ℕ) → is_accepted c ≡ true → (c == 37) ≡ false
unfolding is_accepted
accepted-ne-percent c h = ground arith

-- Reading the encoding of any bytes gives these bytes, so that no two texts have one encoding.
pub url_decode-encode :
    (bytes : List ℕ) → All (λ b. b < 256) bytes → url_decode (url_encode bytes) ≡ bytes
unfolding url_encode
url_decode-encode [] small = unfold url_decode in refl
url_decode-encode (c ∷ rest) (h, small) = elim (Bool-cases (is_accepted c)) [
  | inl kept ↦
      rw
        (
          kept,
          url_decode-cons c (url_encode rest) (accepted-ne-percent c kept),
          url_decode-encode rest small,
        )
        refl
  | inr escaped ↦
      rw (escaped, url_decode_escape c (url_encode rest) h, url_decode-encode rest small) refl
]
