-- ===== src/Crypto/Bigint.antt =====
-- crypto/bigint.c: numbers of up to 150 bytes. The static temporaries (`mul_pt`, `div_rt`, ...) are set
-- by each call before it reads them, so they enter as local values. What an operation leaves in its
-- output after an error is not modelled: the callers pass the error on and do not read it.
pub mod Value
pub mod Bits
pub mod Shift
pub mod Complement
pub mod Trim
pub mod Normalize
pub mod Ops
pub mod Hex
mod Tests
use esp8266_toolbox.Base.{
  ℕ, zero, suc, ◌+◌, ◌-◌, ◌*◌, ◌/◌, ◌%◌, ◌^◌, max, bit_and, bit_or, Bool, true, false, ◌&&◌, Option,
  none, some, List, [], ◌∷◌, ◌++◌, length, get_or, set, take, replicate, ltb, leb, ◌==◌,
  if◌then◌else◌,
}
use esp8266_toolbox.Base.Memory.{overlay, bzero}
use esp8266_toolbox.Base.Bits.{◌<<<◌, ◌>>>◌, u8}

abbrev pub data_maxlen : ℕ
data_maxlen = 150

-- `octets` is the array `data`, the lowest byte first.
pub record Bigint : Type 0 where
  pub bytes : ℕ
  pub bits : ℕ
  pub octets : List ℕ

-- A return value of 0, with what was computed, and the others.
pub data Rv {ℓ} (A : Type ℓ) : Type ℓ where
  ok : A → Rv A
  error : ℕ → Rv A

infixl 5 ◌>>=◌
abbrev pub ◌>>=◌ {ℓ κ} : {A : Type ℓ} {B : Type κ} → Rv A → (A → Rv B) → Rv B
ok a >>= f = f a
error e >>= f = error e

-- `BITS`
abbrev pub size : Bigint → ℕ
size i = i.bytes * 8 + i.bits

-- `BIT`
pub get_bit : Bigint → ℕ → ℕ
get_bit i n = if ltb n (size i) then bit_and (get_or i.octets (n / 8) 0 >>> (n % 8)) 1 else 0

pub set_bit : Bigint → ℕ → Bigint
set_bit i n =
    if ltb n (size i)
    then record i {
      octets = set i.octets (n / 8) (bit_or (get_or i.octets (n / 8) 0) (1 <<< (n % 8)));
    }
    else i

-- The complement is one of 32 bits.
pub clr_bit : Bigint → ℕ → Bigint
clr_bit i n =
    if ltb n (size i)
    then record i {
      octets =
          set i.octets (n / 8) (bit_and (get_or i.octets (n / 8) 0) (4294967295 - (1 <<< (n % 8))));
    }
    else i

-- The loop of `LEFT_SHIFT` and the statement after it, with `lb`.
pub shift_octets : ℕ → ℕ → List ℕ → List ℕ
shift_octets n lb [] = []
shift_octets zero lb (x ∷ xs) = u8 (bit_or (x <<< 1) lb) ∷ xs
shift_octets (suc n) lb (x ∷ xs) =
    u8 (bit_or (x <<< 1) lb) ∷ shift_octets n (bit_and (x >>> 7) 1) xs

-- `LEFT_SHIFT`
pub left_shift : Bigint → Rv Bigint
left_shift i =
    let octets = shift_octets i.bytes 0 i.octets in
    if i.bits + 1 == 8
    then (if leb (data_maxlen - 1) (i.bytes + 1)
        then error 1
        else ok (record { bytes = i.bytes + 1; bits = 0; octets = octets }))
    else ok (record { bytes = i.bytes; bits = i.bits + 1; octets = octets })

-- The first statements of `TWOS_COMP`, up to the ones' complement.
pub complement_octets : ℕ → ℕ → List ℕ → List ℕ
complement_octets n bits [] = []
complement_octets zero bits (x ∷ xs) =
    if ltb 0 bits then bit_and (4294967295 - x) ((1 <<< bits) - 1) ∷ xs else x ∷ xs
complement_octets (suc n) bits (x ∷ xs) = u8 (4294967295 - x) ∷ complement_octets n bits xs

pub clear_below : ℕ → Bigint → Bigint
clear_below zero i = i
clear_below (suc l) i = clear_below l (clr_bit i l)

-- The last loop of `TWOS_COMP`, with the rounds that are left and `k`.
pub increment : ℕ → ℕ → Bigint → Bigint
increment zero k i = i
increment (suc n) k i =
    let rest = increment n (k + 1) i in
    if get_bit i k == 0 then clear_below k (set_bit i k) else rest

pub twos_comp : Bigint → Bigint
twos_comp i = increment (size i) 0 (record i { octets = complement_octets i.bytes i.bits i.octets })

-- The bytes that `bytes` and `bits` count, a partial one included.
unfoldable pub used : Bigint → ℕ
used i = if ltb 0 i.bits then i.bytes + 1 else i.bytes

-- `data[bytes] &= (1 << bits) - 1` where there is a partial byte.
pub mask_partial : ℕ → ℕ → List ℕ → List ℕ
mask_partial bytes bits octets =
    if ltb 0 bits
    then set octets bytes (bit_and (get_or octets bytes 0) ((1 <<< bits) - 1))
    else octets

-- `j + 1` for the last `j` below the bound where `data[j]` is not 0, or 0.
pub top_byte : ℕ → List ℕ → ℕ
top_byte zero octets = 0
top_byte (suc j) octets =
    let rest = top_byte j octets in if get_or octets j 0 == 0 then rest else suc j

pub normalize : Bigint → Bigint
normalize i =
    let octets = bzero (mask_partial i.bytes i.bits i.octets) (used i) (data_maxlen - used i) in
    if ltb 0 i.bits && ltb 0 (bit_and (get_or octets i.bytes 0) ((1 <<< i.bits) - 1))
    then record i { octets = octets }
    else (let bytes = top_byte i.bytes octets in
        record { bytes = bytes; bits = if bytes == 0 then 1 else 0; octets = octets })

abbrev pub bigint_bits : Bigint → ℕ
bigint_bits = size

abbrev pub bigint_zero : Bigint
bigint_zero = record { bytes = 0; bits = 1; octets = replicate data_maxlen 0 }

unfoldable pub hexchar : ℕ → Option ℕ
hexchar c =
    if leb 48 c && leb c 57
    then some (c - 48)
    else if leb 65 c && leb c 70
    then some (c - 65 + 10)
    else if leb 97 c && leb c 102
    then some (c - 97 + 10)
    else none

-- The loop from the end of the text, given in reverse: `j` is one less than the characters left. The
-- character at the front of the text, if one is left over, makes a partial byte.
pub fromhex_loop : Bigint → List ℕ → Rv Bigint
fromhex_loop i [] = ok i
fromhex_loop i (c ∷ []) = elim (hexchar c) [
  | none ↦ error 2
  | some l ↦ ok (record i { octets = set i.octets i.bytes l; bits = 4 })
]
fromhex_loop i (c ∷ d ∷ text) = elim (hexchar c) [
  | none ↦ error 2
  | some l ↦ elim (hexchar d) [
    | none ↦ error 2
    | some h ↦
        let i' : Bigint = record i {
          bytes = i.bytes + 1;
          octets = set i.octets i.bytes (bit_or (h <<< 4) l);
        } in
        if leb (data_maxlen - 1) (i.bytes + 1) then error 1 else fromhex_loop i' text
  ]
]

unfoldable pub reversed : List ℕ → List ℕ → List ℕ
reversed [] done = done
reversed (c ∷ text) done = reversed text (c ∷ done)

-- How many characters the loop starts with: `j` is `strlen(s) - 1` in 16 bits with a sign, and the loop
-- takes nothing where this is negative.
abbrev pub fromhex_count : ℕ → ℕ
fromhex_count len = if leb (len % 65536) 32768 then len % 65536 else 0

pub bigint_fromhex : List ℕ → Rv Bigint
bigint_fromhex text =
    fromhex_loop (record bigint_zero { bits = 0 })
      (reversed (take (fromhex_count (length text)) text) [])

pub bigint_copy : Bigint → Bigint
bigint_copy s = record s {
  octets =
      mask_partial s.bytes s.bits (overlay (replicate data_maxlen 0) 0 (take (used s) s.octets));
}

pub all_zero : ℕ → List ℕ → Bool
all_zero zero octets = true
all_zero (suc n) [] = true
all_zero (suc n) (x ∷ octets) = if ltb 0 x then false else all_zero n octets

pub bigint_iszero : Bigint → Bool
bigint_iszero i =
    all_zero i.bytes i.octets
    && (if ltb 0 i.bits
        then leb (bit_and (get_or i.octets i.bytes 0) ((1 <<< i.bits) - 1)) 0
        else true)
