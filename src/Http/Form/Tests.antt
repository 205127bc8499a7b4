-- ===== src/Http/Form/Tests.antt =====
-- Values that a client sends.
use esp8266_toolbox.Base.{◌≡◌, refl, [], ◌∷◌, arith}
use esp8266_toolbox.Http.Form.{decode_rounds, decode_map, decode_pass, replace_first, url_decode}
use esp8266_toolbox.Http.Form.Decode.{code, code_char, Encodes, end, plain, url_decode-Encodes}

-- "a&b" as "a%26b".
amp_Encodes : Encodes (97 ∷ 38 ∷ 98 ∷ []) (97 ∷ 37 ∷ 50 ∷ 54 ∷ 98 ∷ [])
unfolding code_char decode_map
amp_Encodes =
    plain 97 (omega arith)
      (code 38 50 54 refl (omega arith) (omega arith) (omega arith) (plain 98 (omega arith) end))

url_decode-Encodes_example : url_decode (97 ∷ 37 ∷ 50 ∷ 54 ∷ 98 ∷ []) ≡ 97 ∷ 38 ∷ 98 ∷ []
url_decode-Encodes_example = url_decode-Encodes amp_Encodes

-- "%2520" stands for "%20", and is decoded twice.
decoded_twice : url_decode (37 ∷ 50 ∷ 53 ∷ 50 ∷ 48 ∷ []) ≡ 32 ∷ []
unfolding url_decode decode_rounds decode_pass replace_first decode_map
decoded_twice = refl
