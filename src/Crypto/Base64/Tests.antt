-- ===== src/Crypto/Base64/Tests.antt =====
-- Runs of crypto/base64.c, and its theorems at concrete inputs.
use esp8266_toolbox.Base.{
  ℕ, ◌+◌, ◌*◌, ◌/◌, ◌<◌, ◌≤◌, ◌≡◌, refl, ◌⊎◌, List, [], ◌∷◌, All, length, arith,
}
use esp8266_toolbox.Crypto.Base64.{
  written, bad_input, overflow, decmap, encmap, is_symbol, all_symbols, is_last, decode_loop,
  encode_loop, encoded_size, b64_encode, b64_decode,
}
use esp8266_toolbox.Crypto.Base64.RoundTrip.{IsByte, b64_decode-b64_encode, b64_encode_bounds}
use esp8266_toolbox.Crypto.Base64.Bounds.{b64_decode_bounds}

-- "light work." and its code, from RFC 4648's kind of examples.
abbrev light : List ℕ
light = b'l' ∷ b'i' ∷ b'g' ∷ b'h' ∷ b't' ∷ b' ' ∷ b'w' ∷ b'o' ∷ b'r' ∷ b'k' ∷ b'.' ∷ []

abbrev light_code : List ℕ
light_code =
    b'b' ∷ b'G' ∷ b'l' ∷ b'n' ∷ b'a' ∷ b'H' ∷ b'Q' ∷ b'g' ∷ b'd' ∷ b'2' ∷ b'9' ∷ b'y' ∷ b'a' ∷ b'y'
    ∷ b'4' ∷ b'=' ∷ []

encode_light : b64_encode light 16 ≡ written light_code
unfolding b64_encode encoded_size encode_loop encmap
encode_light = refl

decode_light : b64_decode light_code 12 ≡ written light
unfolding b64_decode all_symbols is_symbol decode_loop decmap is_last
decode_light = refl

decode_refuses : (b64_decode (b'a' ∷ []) 12 ≡ bad_input) × (b64_decode light_code 11 ≡ overflow)
unfolding b64_decode all_symbols is_symbol
decode_refuses = (refl, refl)

b64_decode-b64_encode_example :
    (out : List ℕ) × (b64_encode light 16 ≡ written out) × (b64_decode out 12 ≡ written light)
unfolding encoded_size
b64_decode-b64_encode_example =
    b64_decode-b64_encode light 16 12 (omega arith) (omega arith) (omega arith)

b64_encode_bounds_example :
    ((b64_encode light 15 ≡ overflow) × (15 < encoded_size 11))
    ⊎ ((out : List ℕ) × (b64_encode light 15 ≡ written out)
        × (length out ≤ 15)
        × (length out ≡ (11 + 2) / 3 * 4))
b64_encode_bounds_example = b64_encode_bounds light 15

b64_decode_bounds_example : (11 ≤ 12) × (11 ≤ 16 / 4 * 3) × (16 / 4 * 3 ≤ 11 + 2) × All IsByte light
b64_decode_bounds_example = b64_decode_bounds light_code 12 light decode_light
