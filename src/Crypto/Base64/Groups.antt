-- ===== src/Crypto/Base64/Groups.antt =====
-- One round of each loop of crypto/base64.c in plain arithmetic.
use esp8266_toolbox.Base.{
  ℕ, ◌+◌, ◌*◌, ◌/◌, ◌%◌, ◌^◌, ◌<◌, ◌≡◌, ◌∙◌, ap, bit_and, bit_or, List, [], ◌∷◌, arith,
}
use esp8266_toolbox.Base.Bits.{◌<<<◌, ◌>>>◌, bit_or_disjoint, bit_and_field}
use esp8266_toolbox.Crypto.Base64.{encmap, encode_loop, decode_loop, is_last}
use esp8266_toolbox.Crypto.Base64.Symbols.{decmap-encmap, encmap_symbol}

module _ (a b : ℕ) (hb : b < 256) where
  join2 : bit_or (a <<< 16) (b <<< 8) ≡ a * 65536 + b * 256
  join2 = bit_or_disjoint 16 a (b * 2 ^ 8) (omega arith)

  join3 : (c : ℕ) → c < 256 → bit_or (bit_or (a <<< 16) (b <<< 8)) c ≡ a * 65536 + b * 256 + c
  join3 c hc =
      ap (λ (x : ℕ). bit_or x c) (join2 ∙ omega arith)
      ∙ bit_or_disjoint 8 (a * 256 + b) c hc
      ∙ omega arith

-- The four masks of the encoder pick the six-bit fields of the group.
sextets :
    (v : ℕ)
    → (bit_and v 0x00fc0000 >>> 18 ≡ v / 2 ^ 18 % 64)
      × (bit_and v 0x0003f000 >>> 12 ≡ v / 2 ^ 12 % 64)
      × (bit_and v 0x00000fc0 >>> 6 ≡ v / 2 ^ 6 % 64)
      × (bit_and v 0x0000003f ≡ v % 64)
sextets v = (
  bit_and_field 18 6 v,
  bit_and_field 12 6 v,
  bit_and_field 6 6 v,
  omega (arith, bit_and_field 0 6 v),
)

-- The three masks of the decoder pick the bytes of the group.
octets :
    (v : ℕ)
    → (bit_and v 0x00ff0000 >>> 16 ≡ v / 2 ^ 16 % 256)
      × (bit_and v 0x0000ff00 >>> 8 ≡ v / 2 ^ 8 % 256)
      × (bit_and v 0x000000ff ≡ v % 256)
octets v = (bit_and_field 16 8 v, bit_and_field 8 8 v, omega (arith, bit_and_field 0 8 v))

pub octets-lt :
    (v : ℕ)
    → (bit_and v 0x00ff0000 >>> 16 < 256)
      × (bit_and v 0x0000ff00 >>> 8 < 256)
      × (bit_and v 0x000000ff < 256)
octets-lt v = omega (arith, octets v)

module _ (a b c : ℕ) (ha : a < 256) (hb : b < 256) (hc : c < 256) where
  -- A full group of the encoder.
  pub encode_three :
      (rest : List ℕ)
      → encode_loop (a ∷ b ∷ c ∷ rest)
        ≡ encmap (a / 4)
          ∷ encmap (a % 4 * 16 + b / 16)
          ∷ encmap (b % 16 * 4 + c / 64)
          ∷ encmap (c % 64)
          ∷ encode_loop rest
  unfolding encode_loop
  encode_three rest = ground (arith, join3 a b hb c hc, sextets (a * 65536 + b * 256 + c))

pub encode_two :
    (a b : ℕ)
    → a < 256
    → b < 256
    → encode_loop (a ∷ b ∷ [])
      ≡ encmap (a / 4) ∷ encmap (a % 4 * 16 + b / 16) ∷ encmap (b % 16 * 4) ∷ b'=' ∷ []
unfolding encode_loop
encode_two a b ha hb = ground (arith, join2 a b hb, sextets (a * 65536 + b * 256))

pub encode_one :
    (a : ℕ)
    → a < 256
    → encode_loop (a ∷ []) ≡ encmap (a / 4) ∷ encmap (a % 4 * 16) ∷ b'=' ∷ b'=' ∷ []
unfolding encode_loop
encode_one a ha = ground (arith, sextets (a * 65536))

module _ (s0 s1 : ℕ) (h1 : s1 < 64) where
  pack2 : bit_or (s0 <<< 18) (s1 <<< 12) ≡ s0 * 262144 + s1 * 4096
  pack2 = bit_or_disjoint 18 s0 (s1 * 2 ^ 12) (omega arith)

  pack3 :
      (s2 : ℕ)
      → s2 < 64
      → bit_or (bit_or (s0 <<< 18) (s1 <<< 12)) (s2 <<< 6) ≡ s0 * 262144 + s1 * 4096 + s2 * 64
  pack3 s2 h2 =
      ap (λ (x : ℕ). bit_or x (s2 <<< 6)) (pack2 ∙ omega arith)
      ∙ bit_or_disjoint 12 (s0 * 64 + s1) (s2 * 2 ^ 6) (omega arith)
      ∙ omega arith

  pack4 :
      (s2 s3 : ℕ)
      → s2 < 64
      → s3 < 64
      → bit_or (bit_or (bit_or (s0 <<< 18) (s1 <<< 12)) (s2 <<< 6)) s3
        ≡ s0 * 262144 + s1 * 4096 + s2 * 64 + s3
  pack4 s2 s3 h2 h3 =
      ap (λ (x : ℕ). bit_or x s3) (pack3 s2 h2 ∙ omega arith)
      ∙ bit_or_disjoint 6 (s0 * 4096 + s1 * 64 + s2) s3 h3
      ∙ omega arith

module _ (s0 s1 : ℕ) (h0 : s0 < 64) (h1 : s1 < 64) where
  pub decode_one : decode_loop (encmap s0 ∷ encmap s1 ∷ b'=' ∷ b'=' ∷ []) ≡ (s0 * 4 + s1 / 16) ∷ []
  unfolding decode_loop is_last
  decode_one = ground (
    arith,
    decmap-encmap s0 h0,
    decmap-encmap s1 h1,
    pack2 s0 s1 h1,
    octets (s0 * 262144 + s1 * 4096),
  )

  pub decode_two :
      (s2 : ℕ)
      → s2 < 64
      → decode_loop (encmap s0 ∷ encmap s1 ∷ encmap s2 ∷ b'=' ∷ [])
        ≡ (s0 * 4 + s1 / 16) ∷ (s1 % 16 * 16 + s2 / 4) ∷ []
  unfolding decode_loop is_last
  decode_two s2 h2 = ground (
    arith,
    decmap-encmap s0 h0,
    decmap-encmap s1 h1,
    decmap-encmap s2 h2,
    encmap_symbol s2 h2,
    pack3 s0 s1 h1 s2 h2,
    octets (s0 * 262144 + s1 * 4096 + s2 * 64),
  )

  pub decode_three :
      (s2 s3 : ℕ) (rest : List ℕ)
      → s2 < 64
      → s3 < 64
      → decode_loop (encmap s0 ∷ encmap s1 ∷ encmap s2 ∷ encmap s3 ∷ rest)
        ≡ (s0 * 4 + s1 / 16) ∷ (s1 % 16 * 16 + s2 / 4) ∷ (s2 % 4 * 64 + s3) ∷ decode_loop rest
  unfolding decode_loop
  decode_three s2 s3 rest h2 h3 = ground (
    arith,
    decmap-encmap s0 h0,
    decmap-encmap s1 h1,
    decmap-encmap s2 h2,
    decmap-encmap s3 h3,
    encmap_symbol s3 h3,
    pack4 s0 s1 h1 s2 s3 h2 h3,
    octets (s0 * 262144 + s1 * 4096 + s2 * 64 + s3),
  )
