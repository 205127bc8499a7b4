-- ===== src/Crypto/Base64.antt =====
-- crypto/base64.c. A buffer that is read is the list of its bytes, and its length is the size that
-- the caller passes; of the output buffer only the size enters, and the result holds what is
-- written to it from its start.
pub mod Symbols
pub mod Groups
pub mod RoundTrip
pub mod Bounds
mod Tests
use esp8266_toolbox.Base.{
  ℕ, suc, ◌+◌, ◌-◌, ◌*◌, ◌/◌, ◌%◌, bit_and, bit_or, Bool, true, false, not, ◌&&◌, ◌||◌, List, [],
  ◌∷◌, length, leb, ltb, ◌==◌, if◌then◌else◌,
}
use esp8266_toolbox.Base.Bits.{◌<<<◌, ◌>>>◌}

-- The return value: `written out` is `length out`, the other two are -2 and -1.
pub data Result : Type 0 where
  written : List ℕ → Result
  bad_input overflow : Result

unfoldable pub decmap : ℕ → ℕ
decmap c =
    if leb 65 c && leb c 90
    then c - 65
    else if leb 97 c && leb c 122
    then (c - 97) + 26
    else if leb 48 c && leb c 57
    then (c - 48) + 52
    else if c == b'+'
    then 62
    else if c == b'/'
    then 63
    else 0

pub encmap : ℕ → ℕ
encmap b =
    if leb b 25
    then 65 + b
    else if leb 26 b && leb b 51
    then 97 + (b - 26)
    else if leb 52 b && leb b 61
    then 48 + (b - 52)
    else if b == 62
    then b'+'
    else b'/'

-- The test of `b64_decode` on one byte of its input.
unfoldable pub is_symbol : ℕ → Bool
is_symbol c =
    (leb 65 c && leb c 90)
    || (leb 97 c && leb c 122)
    || (leb 48 c && leb c 57)
    || (c == b'+')
    || (c == b'/')
    || (c == b'=')

unfoldable pub all_symbols : List ℕ → Bool
all_symbols [] = true
all_symbols (c ∷ cs) = if is_symbol c then all_symbols cs else false

-- `i + 4 >= elen`, from the bytes behind the group.
unfoldable pub is_last : List ℕ → Bool
is_last [] = true
is_last (c ∷ cs) = false

-- The loop of `b64_decode` over the groups that are left.
unfoldable pub decode_loop : List ℕ → List ℕ
decode_loop (c0 ∷ c1 ∷ c2 ∷ c3 ∷ rest) =
    let more = decode_loop rest in
    let v2 = bit_or (decmap c0 <<< 18) (decmap c1 <<< 12) in
    let v3 = bit_or v2 (decmap c2 <<< 6) in
    let v4 = bit_or v3 (decmap c3) in
    if is_last rest && (c2 == b'=') && (c3 == b'=')
    then (bit_and v2 0x00ff0000 >>> 16) ∷ []
    else if is_last rest && (c3 == b'=')
    then (bit_and v3 0x00ff0000 >>> 16) ∷ (bit_and v3 0x0000ff00 >>> 8) ∷ []
    else (bit_and v4 0x00ff0000 >>> 16)
      ∷ (bit_and v4 0x0000ff00 >>> 8)
      ∷ bit_and v4 0x000000ff
      ∷ more
decode_loop _ = []

unfoldable pub b64_decode : List ℕ → ℕ → Result
b64_decode enc dlen =
    if not (length enc % 4 == 0)
    then bad_input
    else if not (all_symbols enc)
    then bad_input
    else if ltb dlen (length enc / 4 * 3)
    then overflow
    else written (decode_loop enc)

-- The loop of `b64_encode` over the bytes that are left.
pub encode_loop : List ℕ → List ℕ
encode_loop [] = []
encode_loop (a ∷ []) =
    let v = a <<< 16 in
    encmap (bit_and v 0x00fc0000 >>> 18) ∷ encmap (bit_and v 0x0003f000 >>> 12) ∷ b'=' ∷ b'=' ∷ []
encode_loop (a ∷ b ∷ []) =
    let v = bit_or (a <<< 16) (b <<< 8) in
    encmap (bit_and v 0x00fc0000 >>> 18)
    ∷ encmap (bit_and v 0x0003f000 >>> 12)
    ∷ encmap (bit_and v 0x00000fc0 >>> 6)
    ∷ b'='
    ∷ []
encode_loop (a ∷ b ∷ c ∷ rest) =
    let v = bit_or (bit_or (a <<< 16) (b <<< 8)) c in
    encmap (bit_and v 0x00fc0000 >>> 18)
    ∷ encmap (bit_and v 0x0003f000 >>> 12)
    ∷ encmap (bit_and v 0x00000fc0 >>> 6)
    ∷ encmap (bit_and v 0x0000003f)
    ∷ encode_loop rest

-- The size that `b64_encode` asks of its output.
unfoldable pub encoded_size : ℕ → ℕ
encoded_size dlen = (dlen / 3 + (if ltb 0 (dlen % 3) then 1 else 0)) * 4

pub b64_encode : List ℕ → ℕ → Result
b64_encode dec elen =
    if ltb elen (encoded_size (length dec)) then overflow else written (encode_loop dec)
