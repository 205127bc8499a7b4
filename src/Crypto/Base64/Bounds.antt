-- ===== src/Crypto/Base64/Bounds.antt =====
-- What the decoder of crypto/base64.c writes on any input.
use esp8266_toolbox.Base.{
  ℕ, ◌+◌, ◌*◌, ◌/◌, ◌%◌, ◌≤◌, ◌≡◌, bit_or, List, [], ◌∷◌, All, length, arith,
}
use esp8266_toolbox.Base.Bits.{◌<<<◌}
use esp8266_toolbox.Crypto.Base64.{written, decmap, decode_loop, is_last, b64_decode}
use esp8266_toolbox.Crypto.Base64.Groups.{octets-lt}
use esp8266_toolbox.Crypto.Base64.RoundTrip.{IsByte}

-- One group yields one to three bytes, and fewer than three only at the end.
length-decode_loop :
    (enc : List ℕ)
    → length enc % 4 ≡ 0
    → (length (decode_loop enc) ≤ length enc / 4 * 3)
      × (length enc / 4 * 3 ≤ length (decode_loop enc) + 2)
unfolding decode_loop is_last
length-decode_loop [] h = omega arith
length-decode_loop (c0 ∷ []) h = absurd (omega arith)
length-decode_loop (c0 ∷ c1 ∷ []) h = absurd (omega arith)
length-decode_loop (c0 ∷ c1 ∷ c2 ∷ []) h = absurd (omega arith)
length-decode_loop (c0 ∷ c1 ∷ c2 ∷ c3 ∷ []) h = ground arith
length-decode_loop (c0 ∷ c1 ∷ c2 ∷ c3 ∷ c4 ∷ rest) h =
    ground (arith, length-decode_loop (c4 ∷ rest))

decode_loop-IsByte : (enc : List ℕ) → All IsByte (decode_loop enc)
unfolding decode_loop is_last
decode_loop-IsByte (c0 ∷ c1 ∷ c2 ∷ c3 ∷ rest) = ground (
  arith,
  octets-lt (bit_or (decmap c0 <<< 18) (decmap c1 <<< 12)),
  octets-lt (bit_or (bit_or (decmap c0 <<< 18) (decmap c1 <<< 12)) (decmap c2 <<< 6)),
  octets-lt (
      bit_or (bit_or (bit_or (decmap c0 <<< 18) (decmap c1 <<< 12)) (decmap c2 <<< 6)) (decmap c3)),
  decode_loop-IsByte rest,
)
decode_loop-IsByte _ = tt

-- What a successful decoding writes fits the output, falls short of three bytes for each four symbols by at most two, and consists of bytes.
pub b64_decode_bounds :
    (enc : List ℕ) (dlen : ℕ) (out : List ℕ)
    → b64_decode enc dlen ≡ written out
    → (length out ≤ dlen)
      × (length out ≤ length enc / 4 * 3)
      × (length enc / 4 * 3 ≤ length out + 2)
      × All IsByte out
unfolding b64_decode
b64_decode_bounds enc dlen out h = ground (arith, length-decode_loop enc, decode_loop-IsByte enc)
