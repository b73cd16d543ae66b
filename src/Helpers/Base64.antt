-- ===== src/Helpers/Base64.antt =====
-- src/core/helpers/utils.hpp: `base64Decode`. A `char` is its byte, a number below 256, so that the
-- mark -1 is 255; a shift to the left multiplies, a shift to the right divides.
pub mod Encoded
use obmc_webapp.Prelude.{
  ℕ, zero, suc, ◌*◌, ◌/◌, ◌%◌, bit_and, bit_or, Bool, true, false, List, [], ◌∷◌, ◌==◌,
  if◌then◌else◌,
}

abbrev pub nop : ℕ
nop = 255

-- the character that ends the input
abbrev pub padding : ℕ
padding = 61

unfoldable pub decoding_data : List ℕ
decoding_data =
    nop ∷ nop ∷ nop ∷ nop ∷ nop ∷ nop ∷ nop ∷ nop ∷ nop ∷ nop ∷ nop ∷ nop ∷ nop ∷ nop ∷ nop ∷ nop
    ∷ nop ∷ nop ∷ nop ∷ nop ∷ nop ∷ nop ∷ nop ∷ nop ∷ nop ∷ nop ∷ nop ∷ nop ∷ nop ∷ nop ∷ nop ∷ nop
    ∷ nop ∷ nop ∷ nop ∷ nop ∷ nop ∷ nop ∷ nop ∷ nop ∷ nop ∷ nop ∷ nop ∷ 62 ∷ nop ∷ nop ∷ nop ∷ 63
    ∷ 52 ∷ 53 ∷ 54 ∷ 55 ∷ 56 ∷ 57 ∷ 58 ∷ 59 ∷ 60 ∷ 61 ∷ nop ∷ nop ∷ nop ∷ nop ∷ nop ∷ nop ∷ nop ∷ 0
    ∷ 1 ∷ 2 ∷ 3 ∷ 4 ∷ 5 ∷ 6 ∷ 7 ∷ 8 ∷ 9 ∷ 10 ∷ 11 ∷ 12 ∷ 13 ∷ 14 ∷ 15 ∷ 16 ∷ 17 ∷ 18 ∷ 19 ∷ 20 ∷ 21
    ∷ 22 ∷ 23 ∷ 24 ∷ 25 ∷ nop ∷ nop ∷ nop ∷ nop ∷ nop ∷ nop ∷ 26 ∷ 27 ∷ 28 ∷ 29 ∷ 30 ∷ 31 ∷ 32 ∷ 33
    ∷ 34 ∷ 35 ∷ 36 ∷ 37 ∷ 38 ∷ 39 ∷ 40 ∷ 41 ∷ 42 ∷ 43 ∷ 44 ∷ 45 ∷ 46 ∷ 47 ∷ 48 ∷ 49 ∷ 50 ∷ 51 ∷ nop
    ∷ nop ∷ nop ∷ nop ∷ nop ∷ nop ∷ nop ∷ nop ∷ nop ∷ nop ∷ nop ∷ nop ∷ nop ∷ nop ∷ nop ∷ nop ∷ nop
    ∷ nop ∷ nop ∷ nop ∷ nop ∷ nop ∷ nop ∷ nop ∷ nop ∷ nop ∷ nop ∷ nop ∷ nop ∷ nop ∷ nop ∷ nop ∷ nop
    ∷ nop ∷ nop ∷ nop ∷ nop ∷ nop ∷ nop ∷ nop ∷ nop ∷ nop ∷ nop ∷ nop ∷ nop ∷ nop ∷ nop ∷ nop ∷ nop
    ∷ nop ∷ nop ∷ nop ∷ nop ∷ nop ∷ nop ∷ nop ∷ nop ∷ nop ∷ nop ∷ nop ∷ nop ∷ nop ∷ nop ∷ nop ∷ nop
    ∷ nop ∷ nop ∷ nop ∷ nop ∷ nop ∷ nop ∷ nop ∷ nop ∷ nop ∷ nop ∷ nop ∷ nop ∷ nop ∷ nop ∷ nop ∷ nop
    ∷ nop ∷ nop ∷ nop ∷ nop ∷ nop ∷ nop ∷ nop ∷ nop ∷ nop ∷ nop ∷ nop ∷ nop ∷ nop ∷ nop ∷ nop ∷ nop
    ∷ nop ∷ nop ∷ nop ∷ nop ∷ nop ∷ nop ∷ nop ∷ nop ∷ nop ∷ nop ∷ nop ∷ nop ∷ nop ∷ nop ∷ nop ∷ nop
    ∷ nop ∷ nop ∷ nop ∷ nop ∷ nop ∷ nop ∷ nop ∷ nop ∷ nop ∷ nop ∷ nop ∷ nop ∷ nop ∷ nop ∷ nop ∷ nop
    ∷ nop ∷ nop ∷ nop ∷ nop ∷ []

at_index : List ℕ → ℕ → ℕ
at_index [] i = nop
at_index (v ∷ rest) zero = v
at_index (v ∷ rest) (suc i) = at_index rest i

unfoldable pub get_code_value : ℕ → ℕ
unfolding at_index decoding_data
get_code_value c = at_index decoding_data c

-- The three bytes that four codes give.
unfoldable pub first_byte : ℕ → ℕ → ℕ
first_byte code0 code1 = bit_or (code0 * 4) (bit_and (code1 / 16) 3) % 256

unfoldable pub second_byte : ℕ → ℕ → ℕ
second_byte code1 code2 = bit_or (bit_and (code1 * 16) 240) (bit_and (code2 / 4) 15) % 256

unfoldable pub third_byte : ℕ → ℕ → ℕ
third_byte code2 code3 = bit_or (bit_and (code2 * 64) 192) code3 % 256

-- a byte in front of what the rest of the loop writes
unfoldable pub with_byte : ℕ → Bool × List ℕ → Bool × List ℕ
with_byte b (answer, output) = (answer, b ∷ output)

-- the answer and what has been written to `output` by then, from each point of the loop on
unfoldable pub base64_decode : List ℕ → Bool × List ℕ
base64_decode [] = (true, [])
base64_decode (c0 ∷ []) = (false, [])
base64_decode (c0 ∷ c1 ∷ []) =
    let code0 = get_code_value c0 in
    let code1 = get_code_value c1 in
    if code0 == nop
    then (false, [])
    else if code1 == nop
    then (false, [])
    else with_byte (first_byte code0 code1) (true, [])
base64_decode (c0 ∷ c1 ∷ c2 ∷ []) =
    let code0 = get_code_value c0 in
    let code1 = get_code_value c1 in
    let code2 = get_code_value c2 in
    if code0 == nop
    then (false, [])
    else if code1 == nop
    then (false, [])
    else with_byte (first_byte code0 code1) (
        if c2 == padding
        then (bit_and code1 15 == 0, [])
        else if code2 == nop
        then (false, [])
        else with_byte (second_byte code1 code2) (true, []))
base64_decode (c0 ∷ c1 ∷ c2 ∷ c3 ∷ rest) =
    let code0 = get_code_value c0 in
    let code1 = get_code_value c1 in
    let code2 = get_code_value c2 in
    let code3 = get_code_value c3 in
    let more = base64_decode rest in
    if code0 == nop
    then (false, [])
    else if code1 == nop
    then (false, [])
    else with_byte (first_byte code0 code1) (
        if c2 == padding
        then (bit_and code1 15 == 0, [])
        else if code2 == nop
        then (false, [])
        else with_byte (second_byte code1 code2) (
            if c3 == padding
            then (bit_and code2 3 == 0, [])
            else if code3 == nop
            then (false, [])
            else with_byte (third_byte code2 code3) more))
