-- ===== src/Crypto/Md5.antt =====
-- crypto/md5.c. The buffering is Crypto/Block; here are the compression function and the order of
-- bytes. An expression of type `uint32_t` is cut by `u32` where it can leave the range.
pub mod Refine
pub mod Size
mod Tests
use esp8266_toolbox.Base.{
  ℕ, zero, suc, ◌+◌, ◌-◌, ◌*◌, ◌%◌, ◌^◌, bit_and, bit_or, bit_xor, List, [], ◌∷◌, get_or, ltb,
  if◌then◌else◌, replicate,
}
use esp8266_toolbox.Base.Bits.{◌<<<◌, ◌>>>◌, u8, u32}
use esp8266_toolbox.Crypto.Block
use esp8266_toolbox.Crypto.Block.{BlockState}

abbrev pub md5_k : List ℕ
md5_k =
    0xd76aa478 ∷ 0xe8c7b756 ∷ 0x242070db ∷ 0xc1bdceee ∷ 0xf57c0faf ∷ 0x4787c62a ∷ 0xa8304613
    ∷ 0xfd469501 ∷ 0x698098d8 ∷ 0x8b44f7af ∷ 0xffff5bb1 ∷ 0x895cd7be ∷ 0x6b901122 ∷ 0xfd987193
    ∷ 0xa679438e ∷ 0x49b40821 ∷ 0xf61e2562 ∷ 0xc040b340 ∷ 0x265e5a51 ∷ 0xe9b6c7aa ∷ 0xd62f105d
    ∷ 0x02441453 ∷ 0xd8a1e681 ∷ 0xe7d3fbc8 ∷ 0x21e1cde6 ∷ 0xc33707d6 ∷ 0xf4d50d87 ∷ 0x455a14ed
    ∷ 0xa9e3e905 ∷ 0xfcefa3f8 ∷ 0x676f02d9 ∷ 0x8d2a4c8a ∷ 0xfffa3942 ∷ 0x8771f681 ∷ 0x6d9d6122
    ∷ 0xfde5380c ∷ 0xa4beea44 ∷ 0x4bdecfa9 ∷ 0xf6bb4b60 ∷ 0xbebfbc70 ∷ 0x289b7ec6 ∷ 0xeaa127fa
    ∷ 0xd4ef3085 ∷ 0x04881d05 ∷ 0xd9d4d039 ∷ 0xe6db99e5 ∷ 0x1fa27cf8 ∷ 0xc4ac5665 ∷ 0xf4292244
    ∷ 0x432aff97 ∷ 0xab9423a7 ∷ 0xfc93a039 ∷ 0x655b59c3 ∷ 0x8f0ccc92 ∷ 0xffeff47d ∷ 0x85845dd1
    ∷ 0x6fa87e4f ∷ 0xfe2ce6e0 ∷ 0xa3014314 ∷ 0x4e0811a1 ∷ 0xf7537e82 ∷ 0xbd3af235 ∷ 0x2ad7d2bb
    ∷ 0xeb86d391 ∷ []

abbrev pub md5_s : List ℕ
md5_s =
    7 ∷ 12 ∷ 17 ∷ 22 ∷ 7 ∷ 12 ∷ 17 ∷ 22 ∷ 7 ∷ 12 ∷ 17 ∷ 22 ∷ 7 ∷ 12 ∷ 17 ∷ 22 ∷ 5 ∷ 9 ∷ 14 ∷ 20 ∷ 5
    ∷ 9 ∷ 14 ∷ 20 ∷ 5 ∷ 9 ∷ 14 ∷ 20 ∷ 5 ∷ 9 ∷ 14 ∷ 20 ∷ 4 ∷ 11 ∷ 16 ∷ 23 ∷ 4 ∷ 11 ∷ 16 ∷ 23 ∷ 4 ∷ 11
    ∷ 16 ∷ 23 ∷ 4 ∷ 11 ∷ 16 ∷ 23 ∷ 6 ∷ 10 ∷ 15 ∷ 21 ∷ 6 ∷ 10 ∷ 15 ∷ 21 ∷ 6 ∷ 10 ∷ 15 ∷ 21 ∷ 6 ∷ 10
    ∷ 15 ∷ 21 ∷ []

-- The four words that `md5_init` stores.
abbrev pub md5_start : List ℕ
md5_start = 0x67452301 ∷ 0xefcdab89 ∷ 0x98badcfe ∷ 0x10325476 ∷ []

-- `buf` keeps what it held.
pub md5_init : BlockState → BlockState
md5_init state = record { buf = state.buf; buflen = 0; totallen = 0; h = md5_start }

-- `LROTATE`
pub lrotate : ℕ → ℕ → ℕ
lrotate x n = bit_or (u32 (x <<< n)) (x >>> (32 - n))

-- The first loop of `md5_consume`.
pub load_words : List ℕ → List ℕ
load_words (a ∷ b ∷ c ∷ d ∷ rest) =
    bit_or (bit_or (bit_or (d <<< 24) (c <<< 16)) (b <<< 8)) a ∷ load_words rest
load_words _ = []

-- `f` of round `i`, before the sum; `~x` is `0xffffffff - x`.
pub mix_word : ℕ → ℕ → ℕ → ℕ → ℕ
mix_word i b c d =
    if ltb i 16
    then bit_or (bit_and b c) (bit_and (0xffffffff - b) d)
    else if ltb i 32
    then bit_or (bit_and d b) (bit_and (0xffffffff - d) c)
    else if ltb i 48
    then bit_xor (bit_xor b c) d
    else bit_xor c (bit_or b (0xffffffff - d))

-- `g` of round `i`: which word of the block is used.
pub word_index : ℕ → ℕ
word_index i =
    if ltb i 16
    then i
    else if ltb i 32
    then (5 * i + 1) % 16
    else if ltb i 48
    then (3 * i + 5) % 16
    else (7 * i) % 16

-- The body of the loop over the rounds.
pub md5_round : List ℕ → List ℕ → ℕ → List ℕ
unfolding mix_word word_index lrotate
md5_round m hh i =
    let a = get_or hh 0 0 in
    let b = get_or hh 1 0 in
    let c = get_or hh 2 0 in
    let d = get_or hh 3 0 in
    let f = u32 (mix_word i b c d + a + get_or md5_k i 0 + get_or m (word_index i) 0) in
    d ∷ u32 (b + lrotate f (get_or md5_s i 0)) ∷ b ∷ c ∷ []

-- `n` rounds from round `i` on.
pub md5_rounds : ℕ → List ℕ → List ℕ → ℕ → List ℕ
unfolding md5_round
md5_rounds zero m hh i = hh
md5_rounds (suc n) m hh i = md5_rounds n m (md5_round m hh i) (i + 1)

-- The last loop: `state->h[i] += hh[i]`.
pub add_words : List ℕ → List ℕ → List ℕ
add_words (x ∷ xs) (y ∷ ys) = u32 (x + y) ∷ add_words xs ys
add_words _ _ = []

pub md5_consume : List ℕ → List ℕ → List ℕ
unfolding load_words md5_rounds add_words
md5_consume h chunk = add_words h (md5_rounds 64 (load_words chunk) h 0)

pub md5_proc : BlockState → List ℕ → BlockState
unfolding Block.proc
md5_proc state buf = Block.proc md5_consume state buf

-- The last eight bytes of the buffer: `total`, least significant byte first.
pub little_trailer : ℕ → List ℕ
little_trailer total =
    u8 total
    ∷ u8 (total >>> 8)
    ∷ u8 (total >>> 16)
    ∷ u8 (total >>> 24)
    ∷ u8 (total >>> 32)
    ∷ u8 (total >>> 40)
    ∷ u8 (total >>> 48)
    ∷ u8 (total >>> 56)
    ∷ []

-- The bytes of `hash`, least significant first.
pub little_bytes : List ℕ → List ℕ
little_bytes [] = []
little_bytes (x ∷ xs) = u8 x ∷ u8 (x >>> 8) ∷ u8 (x >>> 16) ∷ u8 (x >>> 24) ∷ little_bytes xs

pub md5_done : BlockState → BlockState × List ℕ
unfolding Block.done_block little_trailer little_bytes
md5_done state = let s = Block.done_block md5_consume little_trailer state in (s, little_bytes s.h)

-- The state is a local variable, so its buffer holds anything before.
pub md5 : List ℕ → List ℕ → List ℕ
unfolding md5_init md5_proc md5_done
md5 stack buf =
    (md5_done
      (md5_proc (md5_init (record { buf = stack; buflen = 0; totallen = 0; h = [] })) buf)).1
