-- ===== src/Helpers/Base64/Encoded.antt =====
-- What `base64Decode` makes of an encoded text.
use obmc_webapp.Prelude.{
  ℕ, ◌+◌, ◌-◌, ◌*◌, ◌/◌, ◌%◌, ◌<◌, bit_and, bit_or, ◌≡◌, refl, ap, true, false, List, [], ◌∷◌, ◌==◌,
  ltb, All, arith, if◌then◌else◌,
}
use obmc_webapp.Prelude.Ranges.{passes, value_of_test, values_of_tests}
use obmc_webapp.Helpers.Base64.{
  nop, padding, decoding_data, get_code_value, first_byte, second_byte, third_byte, with_byte,
  base64_decode,
}

-- The character of a code, in the order of RFC 4648.
unfoldable pub encoding : ℕ → ℕ
encoding v =
    if ltb v 26
    then 65 + v
    else if ltb v 52
    then 71 + v
    else if ltb v 62
    then v - 4
    else if v == 62
    then 43
    else 47

-- The encoding of RFC 4648, with padding.
unfoldable pub base64_encode : List ℕ → List ℕ
base64_encode [] = []
base64_encode (a ∷ []) = encoding (a / 4) ∷ encoding (a % 4 * 16) ∷ padding ∷ padding ∷ []
base64_encode (a ∷ b ∷ []) =
    encoding (a / 4) ∷ encoding (a % 4 * 16 + b / 16) ∷ encoding (b % 16 * 4) ∷ padding ∷ []
base64_encode (a ∷ b ∷ c ∷ rest) =
    encoding (a / 4)
    ∷ encoding (a % 4 * 16 + b / 16)
    ∷ encoding (b % 16 * 4 + c / 64)
    ∷ encoding (c % 64)
    ∷ base64_encode rest

get_code_value-encoding : (v : ℕ) → v < 64 → get_code_value (encoding v) ≡ v
unfolding get_code_value encoding passes decoding_data
get_code_value-encoding v small =
    value_of_test (λ x. get_code_value (encoding x)) (λ x. x) 64 v small refl

encoding-ne-padding : (v : ℕ) → v < 64 → (encoding v == padding) ≡ false
unfolding encoding
encoding-ne-padding v small = ground arith

code-ne-nop : (v : ℕ) → v < 64 → (v == nop) ≡ false
code-ne-nop v small = ground arith

first_byte_lem :
    (code0 code1 : ℕ) → code0 < 64 → code1 < 64 → first_byte code0 code1 ≡ code0 * 4 + code1 / 16
unfolding passes first_byte
first_byte_lem code0 code1 h k =
    let low : bit_and (code1 / 16) 3 ≡ code1 / 16 =
      value_of_test (λ x. bit_and x 3) (λ x. x) 4 (code1 / 16) (omega arith) refl in
    let join : bit_or (code0 * 4) (code1 / 16) ≡ code0 * 4 + code1 / 16 =
      values_of_tests (λ x y. bit_or (x * 4) y) (λ x y. x * 4 + y) 64 4 code0 (code1 / 16) h
        (omega arith) refl in
    rw (low, join) (omega arith)

second_byte_lem :
    (code1 code2 : ℕ)
    → code1 < 64
    → code2 < 64
    → second_byte code1 code2 ≡ code1 % 16 * 16 + code2 / 4
unfolding passes second_byte
second_byte_lem code1 code2 h k =
    let high : bit_and (code1 * 16) 240 ≡ code1 % 16 * 16 =
      value_of_test (λ x. bit_and (x * 16) 240) (λ x. x % 16 * 16) 64 code1 h refl in
    let low : bit_and (code2 / 4) 15 ≡ code2 / 4 =
      value_of_test (λ x. bit_and x 15) (λ x. x) 16 (code2 / 4) (omega arith) refl in
    let join : bit_or (code1 % 16 * 16) (code2 / 4) ≡ code1 % 16 * 16 + code2 / 4 =
      values_of_tests (λ x y. bit_or (x * 16) y) (λ x y. x * 16 + y) 16 16 (code1 % 16) (code2 / 4)
        (omega arith) (omega arith) refl in
    rw (high, low, join) (omega arith)

third_byte_lem :
    (code2 code3 : ℕ) → code2 < 64 → code3 < 64 → third_byte code2 code3 ≡ code2 % 4 * 64 + code3
unfolding passes third_byte
third_byte_lem code2 code3 h k =
    let high : bit_and (code2 * 64) 192 ≡ code2 % 4 * 64 =
      value_of_test (λ x. bit_and (x * 64) 192) (λ x. x % 4 * 64) 64 code2 h refl in
    let join : bit_or (code2 % 4 * 64) code3 ≡ code2 % 4 * 64 + code3 =
      values_of_tests (λ x y. bit_or (x * 64) y) (λ x y. x * 64 + y) 4 64 (code2 % 4) code3
        (omega arith) k refl in
    rw (high, join) (omega arith)

-- One round of the loop on the characters of three codes, and of four.
decode_three :
    (code0 code1 code2 : ℕ)
    → code0 < 64
    → code1 < 64
    → code2 < 64
    → base64_decode (encoding code0 ∷ encoding code1 ∷ encoding code2 ∷ padding ∷ [])
      ≡ with_byte
          (first_byte code0 code1)
          (with_byte (second_byte code1 code2) (bit_and code2 3 == 0, []))
unfolding base64_decode
decode_three code0 code1 code2 h k l =
    rw
      (
        get_code_value-encoding code0 h,
        get_code_value-encoding code1 k,
        get_code_value-encoding code2 l,
        code-ne-nop code0 h,
        code-ne-nop code1 k,
        code-ne-nop code2 l,
        encoding-ne-padding code2 l,
      )
      refl

decode_four :
    (code0 code1 code2 code3 : ℕ) (rest : List ℕ)
    → code0 < 64
    → code1 < 64
    → code2 < 64
    → code3 < 64
    → base64_decode (encoding code0 ∷ encoding code1 ∷ encoding code2 ∷ encoding code3 ∷ rest)
      ≡ with_byte (first_byte code0 code1) (
          with_byte
            (second_byte code1 code2)
            (with_byte (third_byte code2 code3) (base64_decode rest)))
unfolding base64_decode
decode_four code0 code1 code2 code3 rest h k l m =
    rw
      (
        get_code_value-encoding code0 h,
        get_code_value-encoding code1 k,
        get_code_value-encoding code2 l,
        get_code_value-encoding code3 m,
        code-ne-nop code0 h,
        code-ne-nop code1 k,
        code-ne-nop code2 l,
        code-ne-nop code3 m,
        encoding-ne-padding code2 l,
        encoding-ne-padding code3 m,
      )
      refl

decode_two :
    (code0 code1 : ℕ)
    → code0 < 64
    → code1 < 64
    → base64_decode (encoding code0 ∷ encoding code1 ∷ padding ∷ padding ∷ [])
      ≡ with_byte (first_byte code0 code1) (bit_and code1 15 == 0, [])
unfolding base64_decode
decode_two code0 code1 h k =
    rw
      (
        get_code_value-encoding code0 h,
        get_code_value-encoding code1 k,
        code-ne-nop code0 h,
        code-ne-nop code1 k,
      )
      refl

no_bits_below_four : (m : ℕ) → m < 4 → bit_and (m * 16) 15 ≡ 0
unfolding passes
no_bits_below_four m h = value_of_test (λ x. bit_and (x * 16) 15) (λ x. 0) 4 m h refl

no_bits_below_two : (m : ℕ) → m < 16 → bit_and (m * 4) 3 ≡ 0
unfolding passes
no_bits_below_two m h = value_of_test (λ x. bit_and (x * 4) 3) (λ x. 0) 16 m h refl

-- Each byte is what its two codes give.
first_of_codes : (a b : ℕ) → b < 256 → a / 4 * 4 + (a % 4 * 16 + b / 16) / 16 ≡ a
first_of_codes a b h = omega arith

second_of_codes :
    (a b c : ℕ)
    → c < 256
    → b < 256
    → (a % 4 * 16 + b / 16) % 16 * 16 + (b % 16 * 4 + c / 64) / 4 ≡ b
second_of_codes a b c h k = omega arith

third_of_codes : (b c : ℕ) → c < 256 → (b % 16 * 4 + c / 64) % 4 * 64 + c % 64 ≡ c
third_of_codes b c h = omega arith

-- Decoding the encoding of any bytes succeeds and writes these bytes, whatever their number: the
-- tables and the shifts of the decoder undo the encoding of RFC 4648, padding included.
pub base64_decode-encode :
    (bytes : List ℕ)
    → All (λ b. b < 256) bytes
    → base64_decode (base64_encode bytes) ≡ (true, bytes)
unfolding base64_encode with_byte
base64_decode-encode [] small = unfold base64_decode in refl
base64_decode-encode (a ∷ []) (h, _) =
    rw
      (
        decode_two (a / 4) (a % 4 * 16) (omega arith) (omega arith),
        first_byte_lem (a / 4) (a % 4 * 16) (omega arith) (omega arith),
        no_bits_below_four (a % 4) (omega arith),
      )
      (ap (λ x. (true, x ∷ [])) (omega arith))
base64_decode-encode (a ∷ b ∷ []) (h, (k, _)) =
    rw
      (
        decode_three (a / 4) (a % 4 * 16 + b / 16) (b % 16 * 4) (omega arith) (omega arith)
            (omega arith),
        first_byte_lem (a / 4) (a % 4 * 16 + b / 16) (omega arith) (omega arith),
        second_byte_lem (a % 4 * 16 + b / 16) (b % 16 * 4) (omega arith) (omega arith),
        no_bits_below_two (b % 16) (omega arith),
        first_of_codes a b k,
      )
      (ap (λ x. (true, a ∷ x ∷ [])) (omega arith))
base64_decode-encode (a ∷ b ∷ c ∷ rest) (h, (k, (l, small))) =
    rw
      (
        decode_four (a / 4) (a % 4 * 16 + b / 16) (b % 16 * 4 + c / 64) (c % 64)
            (base64_encode rest) (omega arith) (omega arith) (omega arith) (omega arith),
        first_byte_lem (a / 4) (a % 4 * 16 + b / 16) (omega arith) (omega arith),
        second_byte_lem (a % 4 * 16 + b / 16) (b % 16 * 4 + c / 64) (omega arith) (omega arith),
        third_byte_lem (b % 16 * 4 + c / 64) (c % 64) (omega arith) (omega arith),
        first_of_codes a b k,
        second_of_codes a b c l k,
        third_of_codes b c l,
        base64_decode-encode rest small,
      )
      refl
