-- ===== src/Tests/Texts.antt =====
-- The theorems on encodings and names at concrete inputs.
use obmc_webapp.Prelude.{◌≡◌, true, [], ◌∷◌, arith}
use obmc_webapp.Helpers.Base64.{base64_decode}
use obmc_webapp.Helpers.Base64.Encoded.{base64_encode, base64_decode-encode}
use obmc_webapp.Helpers.Text.{url_encode}
use obmc_webapp.Helpers.Text.Encoded.{url_decode, url_decode-encode}

base64_decode-encode_example :
    base64_decode (base64_encode (77 ∷ 255 ∷ 0 ∷ 7 ∷ [])) ≡ (true, 77 ∷ 255 ∷ 0 ∷ 7 ∷ [])
base64_decode-encode_example =
    base64_decode-encode (77 ∷ 255 ∷ 0 ∷ 7 ∷ [])
      (omega arith, (omega arith, (omega arith, (omega arith, tt))))

url_decode-encode_example : url_decode (url_encode (65 ∷ 32 ∷ 37 ∷ [])) ≡ 65 ∷ 32 ∷ 37 ∷ []
url_decode-encode_example =
    url_decode-encode (65 ∷ 32 ∷ 37 ∷ []) (omega arith, (omega arith, (omega arith, tt)))

-- The path "/a" and the name "p_0"
