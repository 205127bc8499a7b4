-- ===== src/Crypto/Base64/RoundTrip.antt =====
-- What the encoder of crypto/base64.c writes, and that the decoder reads it back.
use esp8266_toolbox.Base.{
  ℕ, ◌+◌, ◌*◌, ◌/◌, ◌%◌, ◌<◌, ◌≤◌, ◌≡◌, refl, ◌∙◌, true, List, [], ◌∷◌, All, length, arith, ◌⊎◌,
  inl, inr,
}
use native.Mathlib.Decide.{dec_lt}
use esp8266_toolbox.Crypto.Base64.{
  written, overflow, encmap, is_symbol, all_symbols, encode_loop, decode_loop, encoded_size,
  b64_encode, b64_decode,
}
use esp8266_toolbox.Crypto.Base64.Symbols.{encmap_symbol}
use esp8266_toolbox.Crypto.Base64.Groups.{
  encode_one, encode_two, encode_three, decode_one, decode_two, decode_three,
}

abbrev pub IsByte : ℕ → Type 0
IsByte b = b < 256

decode-encode_loop : (xs : List ℕ) → All IsByte xs → decode_loop (encode_loop xs) ≡ xs
decode-encode_loop [] h = unfold encode_loop decode_loop in refl
decode-encode_loop (a ∷ []) h = ground (arith, encode_one a h.0, decode_one (a / 4) (a % 4 * 16))
decode-encode_loop (a ∷ b ∷ []) h = ground (
  arith,
  encode_two a b h.0 h.1.0,
  decode_two (a / 4) (a % 4 * 16 + b / 16) (omega arith) (omega arith) (b % 16 * 4),
)
decode-encode_loop (a ∷ b ∷ c ∷ rest) h = ground (
  arith,
  encode_three a b c h.0 h.1.0 h.1.1.0 rest,
  decode_three (a / 4) (a % 4 * 16 + b / 16) (omega arith) (omega arith) (b % 16 * 4 + c / 64)
      (c % 64) (encode_loop rest),
  decode-encode_loop rest h.1.1.1,
)

-- The loop writes exactly the size that the check asked for.
length-encode_loop : (xs : List ℕ) → length (encode_loop xs) ≡ encoded_size (length xs)
unfolding encode_loop encoded_size
length-encode_loop [] = refl
length-encode_loop (a ∷ []) = refl
length-encode_loop (a ∷ b ∷ []) = refl
length-encode_loop (a ∷ b ∷ c ∷ rest) = ground (arith, length-encode_loop rest)

all_symbols-four :
    (c0 c1 c2 c3 : ℕ) (rest : List ℕ)
    → is_symbol c0 ≡ true
    → is_symbol c1 ≡ true
    → is_symbol c2 ≡ true
    → is_symbol c3 ≡ true
    → all_symbols (c0 ∷ c1 ∷ c2 ∷ c3 ∷ rest) ≡ all_symbols rest
unfolding all_symbols
all_symbols-four c0 c1 c2 c3 rest h0 h1 h2 h3 = rw (h0, h1, h2, h3)

padding_symbol : is_symbol b'=' ≡ true
unfolding is_symbol
padding_symbol = refl

all_symbols-nil : all_symbols [] ≡ true
unfolding all_symbols
all_symbols-nil = refl

encode_symbols : (xs : List ℕ) → All IsByte xs → all_symbols (encode_loop xs) ≡ true
encode_symbols [] h = unfold encode_loop all_symbols in refl
encode_symbols (a ∷ []) h = ground (
  arith,
  encode_one a h.0,
  encmap_symbol (a / 4),
  encmap_symbol (a % 4 * 16),
  padding_symbol,
  all_symbols-four (encmap (a / 4)) (encmap (a % 4 * 16)) b'=' b'=' [],
  all_symbols-nil,
)
encode_symbols (a ∷ b ∷ []) h = ground (
  arith,
  encode_two a b h.0 h.1.0,
  encmap_symbol (a / 4),
  encmap_symbol (a % 4 * 16 + b / 16),
  encmap_symbol (b % 16 * 4),
  padding_symbol,
  all_symbols-four (encmap (a / 4)) (encmap (a % 4 * 16 + b / 16)) (encmap (b % 16 * 4)) b'=' [],
  all_symbols-nil,
)
encode_symbols (a ∷ b ∷ c ∷ rest) h = ground (
  arith,
  encode_three a b c h.0 h.1.0 h.1.1.0 rest,
  encmap_symbol (a / 4),
  encmap_symbol (a % 4 * 16 + b / 16),
  encmap_symbol (b % 16 * 4 + c / 64),
  encmap_symbol (c % 64),
  all_symbols-four (encmap (a / 4)) (encmap (a % 4 * 16 + b / 16)) (encmap (b % 16 * 4 + c / 64))
      (encmap (c % 64)) (encode_loop rest),
  encode_symbols rest h.1.1.1,
)

encoded_size_mod : (n : ℕ) → encoded_size n % 4 ≡ 0
unfolding encoded_size
encoded_size_mod n = omega arith

-- For bytes and buffers of sufficient size, encoding succeeds, and decoding what it wrote gives the bytes back.
pub b64_decode-b64_encode :
    (xs : List ℕ) (elen dlen : ℕ)
    → All IsByte xs
    → encoded_size (length xs) ≤ elen
    → encoded_size (length xs) / 4 * 3 ≤ dlen
    → (out : List ℕ) × (b64_encode xs elen ≡ written out) × (b64_decode out dlen ≡ written xs)
unfolding b64_encode b64_decode
b64_decode-b64_encode xs elen dlen bytes he hd = (
  encode_loop xs,
  ground arith,
  ground (
    arith,
    length-encode_loop xs,
    encode_symbols xs bytes,
    decode-encode_loop xs bytes,
    encoded_size_mod (length xs),
  ),
)

-- Encoding either answers overflow, exactly when the output is too small, or writes the padded size of whole groups and stays within the output.
pub b64_encode_bounds :
    (xs : List ℕ) (elen : ℕ)
    → ((b64_encode xs elen ≡ overflow) × (elen < encoded_size (length xs)))
      ⊎ ((out : List ℕ) × (b64_encode xs elen ≡ written out)
          × (length out ≤ elen)
          × (length out ≡ (length xs + 2) / 3 * 4))
unfolding b64_encode
b64_encode_bounds xs elen = elim (dec_lt elen (encoded_size (length xs))) [
  | yes small ↦ inl (ground arith, small)
  | no fits ↦ inr (
    encode_loop xs,
    ground arith,
    omega (arith, length-encode_loop xs),
    length-encode_loop xs ∙ padded (length xs),
  )
]
  where
    padded : (n : ℕ) → encoded_size n ≡ (n + 2) / 3 * 4
    padded n = unfold encoded_size in ground arith
