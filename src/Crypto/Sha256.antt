-- ===== src/Crypto/Sha256.antt =====
-- crypto/sha256.c. The buffering is Crypto/Block; here are the compression function and the order of
-- bytes. An expression of type `uint32_t` is cut by `u32` where it can leave the range.
pub mod Rotate
pub mod Refine
pub mod Size
mod Tests
use esp8266_toolbox.Base.{
  ℕ, zero, suc, ◌+◌, ◌-◌, ◌*◌, ◌%◌, ◌^◌, bit_and, bit_or, bit_xor, List, [], ◌∷◌, ◌++◌, get_or,
  replicate,
}
use esp8266_toolbox.Base.Bits.{◌<<<◌, ◌>>>◌, u8, u32}
use esp8266_toolbox.Crypto.Block
use esp8266_toolbox.Crypto.Block.{BlockState}

abbrev pub sha256_k : List ℕ
sha256_k =
    0x428a2f98 ∷ 0x71374491 ∷ 0xb5c0fbcf ∷ 0xe9b5dba5 ∷ 0x3956c25b ∷ 0x59f111f1 ∷ 0x923f82a4
    ∷ 0xab1c5ed5 ∷ 0xd807aa98 ∷ 0x12835b01 ∷ 0x243185be ∷ 0x550c7dc3 ∷ 0x72be5d74 ∷ 0x80deb1fe
    ∷ 0x9bdc06a7 ∷ 0xc19bf174 ∷ 0xe49b69c1 ∷ 0xefbe4786 ∷ 0x0fc19dc6 ∷ 0x240ca1cc ∷ 0x2de92c6f
    ∷ 0x4a7484aa ∷ 0x5cb0a9dc ∷ 0x76f988da ∷ 0x983e5152 ∷ 0xa831c66d ∷ 0xb00327c8 ∷ 0xbf597fc7
    ∷ 0xc6e00bf3 ∷ 0xd5a79147 ∷ 0x06ca6351 ∷ 0x14292967 ∷ 0x27b70a85 ∷ 0x2e1b2138 ∷ 0x4d2c6dfc
    ∷ 0x53380d13 ∷ 0x650a7354 ∷ 0x766a0abb ∷ 0x81c2c92e ∷ 0x92722c85 ∷ 0xa2bfe8a1 ∷ 0xa81a664b
    ∷ 0xc24b8b70 ∷ 0xc76c51a3 ∷ 0xd192e819 ∷ 0xd6990624 ∷ 0xf40e3585 ∷ 0x106aa070 ∷ 0x19a4c116
    ∷ 0x1e376c08 ∷ 0x2748774c ∷ 0x34b0bcb5 ∷ 0x391c0cb3 ∷ 0x4ed8aa4a ∷ 0x5b9cca4f ∷ 0x682e6ff3
    ∷ 0x748f82ee ∷ 0x78a5636f ∷ 0x84c87814 ∷ 0x8cc70208 ∷ 0x90befffa ∷ 0xa4506ceb ∷ 0xbef9a3f7
    ∷ 0xc67178f2 ∷ []

-- The eight words that `sha256_init` stores.
abbrev pub sha256_start : List ℕ
sha256_start =
    0x6a09e667 ∷ 0xbb67ae85 ∷ 0x3c6ef372 ∷ 0xa54ff53a ∷ 0x510e527f ∷ 0x9b05688c ∷ 0x1f83d9ab
    ∷ 0x5be0cd19 ∷ []

-- `buf` keeps what it held.
pub sha256_init : BlockState → BlockState
sha256_init state = record { buf = state.buf; buflen = 0; totallen = 0; h = sha256_start }

pub rrotate : ℕ → ℕ → ℕ
rrotate x n =
    let left = x >>> n in
    let right = bit_and x (2 ^ (n + 1) - 1) in bit_or (u32 (right <<< (32 - n))) left

-- The first loop of `sha256_consume`.
pub load_words : List ℕ → List ℕ
load_words (a ∷ b ∷ c ∷ d ∷ rest) =
    bit_or (bit_or (bit_or (a <<< 24) (b <<< 16)) (c <<< 8)) d ∷ load_words rest
load_words _ = []

-- The second loop, from index `i` on; `w` holds the words before `i`.
pub extend_words : ℕ → ℕ → List ℕ → List ℕ
unfolding rrotate
extend_words zero i w = w
extend_words (suc n) i w =
    let x = get_or w (i - 15) 0 in
    let y = get_or w (i - 2) 0 in
    let s0 = bit_xor (bit_xor (rrotate x 7) (rrotate x 18)) (x >>> 3) in
    let s1 = bit_xor (bit_xor (rrotate y 17) (rrotate y 19)) (y >>> 10) in
    extend_words n (i + 1) (w ++ (u32 (get_or w (i - 16) 0 + s0 + get_or w (i - 7) 0 + s1) ∷ []))

-- The body of the third loop; `~x` is `0xffffffff - x`.
pub sha256_round : List ℕ → ℕ → ℕ → List ℕ
unfolding rrotate
sha256_round g k w =
    let e = get_or g 4 0 in
    let a = get_or g 0 0 in
    let b = get_or g 1 0 in
    let c = get_or g 2 0 in
    let big_s1 = bit_xor (bit_xor (rrotate e 6) (rrotate e 11)) (rrotate e 25) in
    let ch = bit_xor (bit_and e (get_or g 5 0)) (bit_and (0xffffffff - e) (get_or g 6 0)) in
    let temp1 = u32 (get_or g 7 0 + big_s1 + ch + k + w) in
    let big_s0 = bit_xor (bit_xor (rrotate a 2) (rrotate a 13)) (rrotate a 22) in
    let maj = bit_xor (bit_xor (bit_and a b) (bit_and a c)) (bit_and b c) in
    let temp2 = u32 (big_s0 + maj) in
    u32 (temp1 + temp2)
    ∷ a
    ∷ b
    ∷ c
    ∷ u32 (get_or g 3 0 + temp1)
    ∷ e
    ∷ get_or g 5 0
    ∷ get_or g 6 0
    ∷ []

pub sha256_rounds : List ℕ → List ℕ → List ℕ → List ℕ
unfolding sha256_round
sha256_rounds g (k ∷ ks) (w ∷ ws) = sha256_rounds (sha256_round g k w) ks ws
sha256_rounds g _ _ = g

-- The last loop: `state->h[i] += g[i]`.
pub add_words : List ℕ → List ℕ → List ℕ
add_words (x ∷ xs) (y ∷ ys) = u32 (x + y) ∷ add_words xs ys
add_words _ _ = []

pub sha256_consume : List ℕ → List ℕ → List ℕ
unfolding load_words extend_words sha256_rounds add_words
sha256_consume h chunk =
    add_words h (sha256_rounds h sha256_k (extend_words 48 16 (load_words chunk)))

pub sha256_proc : BlockState → List ℕ → BlockState
unfolding Block.proc
sha256_proc state buf = Block.proc sha256_consume state buf

-- The last eight bytes of the buffer: `total`, most significant byte first.
pub big_trailer : ℕ → List ℕ
big_trailer total =
    u8 (total >>> 56)
    ∷ u8 (total >>> 48)
    ∷ u8 (total >>> 40)
    ∷ u8 (total >>> 32)
    ∷ u8 (total >>> 24)
    ∷ u8 (total >>> 16)
    ∷ u8 (total >>> 8)
    ∷ u8 total
    ∷ []

-- The bytes of `hash`, most significant first.
pub big_bytes : List ℕ → List ℕ
big_bytes [] = []
big_bytes (x ∷ xs) = u8 (x >>> 24) ∷ u8 (x >>> 16) ∷ u8 (x >>> 8) ∷ u8 x ∷ big_bytes xs

pub sha256_done : BlockState → BlockState × List ℕ
unfolding Block.done_block big_trailer big_bytes
sha256_done state = let s = Block.done_block sha256_consume big_trailer state in (s, big_bytes s.h)
