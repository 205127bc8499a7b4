-- ===== src/Crypto/Bigint/Ops.antt =====
-- crypto/bigint.c from `bigint_cmp` on: the operations on whole numbers, and `rsa_pubkey_decrypt` of
-- crypto/rsa.c.
pub mod Compare
pub mod AddLoop
pub mod Add
pub mod Multiply
pub mod Divide
pub mod Quotient
pub mod Rounds
pub mod Remainder
pub mod Expmod
use esp8266_toolbox.Base.{
  ℕ, zero, suc, ◌+◌, ◌-◌, ◌*◌, ◌/◌, ◌%◌, max, bit_or, Bool, true, false, Option, none, some, get_or,
  set, ltb, leb, ◌==◌, if◌then◌else◌,
}
use esp8266_toolbox.Crypto.Bigint.{
  Bigint, bigint_bits, bigint_copy, bigint_iszero, bigint_zero, clr_bit, data_maxlen, error,
  get_bit, left_shift, normalize, ok, Rv, set_bit, size, twos_comp, ◌>>=◌,
}

-- The results -1, 0 and 1 of `bigint_cmp`.
pub data Order : Type 0 where
  less equal greater : Order

-- Whether a bit from `low` on is set, among `n` bits.
pub any_bit : ℕ → ℕ → Bigint → Bool
any_bit zero low i = false
any_bit (suc n) low i =
    let rest = any_bit n low i in if get_bit i (low + n) == 1 then true else rest

pub order_of : ℕ → ℕ → Order → Order
order_of l r rest = if ltb r l then greater else if ltb l r then less else rest

-- "Compare the remaining bytes", from the byte `n` down.
pub cmp_bytes : ℕ → Bigint → Bigint → Order
cmp_bytes zero i j = order_of (get_or i.octets 0 0) (get_or j.octets 0 0) equal
cmp_bytes (suc n) i j =
    order_of (get_or i.octets (suc n) 0) (get_or j.octets (suc n) 0) (cmp_bytes n i j)

-- "Compare the leading bits", for `k + 1`. At a `k` of -1 the quotient of the next loop is 0.
pub cmp_bits : ℕ → Bigint → Bigint → Order
cmp_bits zero i j = cmp_bytes 0 i j
cmp_bits (suc k) i j =
    let rest = order_of (get_bit i k) (get_bit j k) (cmp_bits k i j) in
    if k % 8 == 0 then cmp_bytes (k / 8) i j else rest

pub bigint_cmp : Bigint → Bigint → Order
bigint_cmp i j =
    if ltb (size j) (size i)
    then (if any_bit (size i - size j) (size j) i then greater else cmp_bits (size j) i j)
    else if ltb (size i) (size j)
    then (if any_bit (size j - size i) (size i) j then less else cmp_bits (size i) i j)
    else cmp_bits (size i) i j

-- An input of `bigint_add` that may be its output.
pub data Operand : Type 0 where
  itself : Operand
  other : Bigint → Operand

abbrev pub read : Bigint → Operand → Bigint
read s itself = s
read s (other a) = a

-- `if (i >= BITS(s))` with its body.
pub grow : ℕ → Bigint → Rv Bigint
grow i s =
    if leb (size s) i
    then (if leb (data_maxlen - 1) ((i + 1) / 8)
        then error 1
        else ok (record s { bytes = (i + 1) / 8; bits = (i + 1) % 8 }))
    else ok s

-- The four cases of `n`.
pub put_sum : ℕ → ℕ → Bigint → Bigint × ℕ
put_sum n i s =
    if n == 3
    then (set_bit s i, 1)
    else if n == 2
    then (clr_bit s i, 1)
    else if n == 1
    then (set_bit s i, 0)
    else (clr_bit s i, 0)

-- The loop with the rounds that are left, `i`, `c` and the output.
pub add_loop : ℕ → ℕ → Operand → Operand → ℕ → Bigint → Rv (Bigint × ℕ)
add_loop zero i a b c s = ok (s, c)
add_loop (suc n) i a b c s = grow i s >>= λ s'.
    let put = put_sum (get_bit (read s' a) i + get_bit (read s' b) i + c) i s' in
    add_loop n (i + 1) a b put.1 put.0

-- `SET_BIT(s, i)` for the last carry. The second test of the source cannot hold after the first.
pub add_carry : ℕ → ℕ → Bigint → Rv Bigint
add_carry m c s =
    if c == 1
    then (grow m s >>= λ s'.
        let s'' = set_bit s' m in
        if leb (size s'') m
        then (if leb (data_maxlen - 1) (m / 8)
            then error 1
            else ok (record s'' { bytes = m / 8; bits = m % 8 }))
        else ok s'')
    else ok s

pub add_end : ℕ → ℕ → Bigint → Bigint
add_end m c s =
    if ltb (m + c) (size s)
    then normalize (record s { bytes = (m + c) / 8; bits = (m + c) % 8 })
    else s

pub bigint_add : Bigint → Operand → Operand → Rv Bigint
bigint_add s a b =
    let m = max (size (read s a)) (size (read s b)) in
    add_loop m 0 a b 0 s >>= λ r. add_carry m r.1 r.0 >>= λ s'. ok (add_end m r.1 s')

-- `if (BIT(b, i) == 1) bigint_add(&mul_pt, &mul_pt, &mul_at)`
pub mul_step : ℕ → Bigint → Bigint → Rv Bigint
mul_step bit at pt = if bit == 1 then bigint_add pt itself (other at) else ok pt

pub mul_loop : ℕ → ℕ → Bigint → Bigint → Bigint → Rv Bigint
mul_loop zero i b at pt = ok pt
mul_loop (suc n) i b at pt =
    mul_step (get_bit b i) at pt >>= λ pt'. left_shift at >>= λ at'. mul_loop n (i + 1) b at' pt'

pub bigint_mul : Bigint → Bigint → Rv Bigint
bigint_mul a b = mul_loop (size b) 0 b (bigint_copy a) bigint_zero >>= λ pt. ok (bigint_copy pt)

-- `++div_qt.bits == 8` with its body.
pub widen : Bigint → Rv Bigint
widen q =
    if q.bits + 1 == 8
    then (if leb (data_maxlen - 1) (q.bytes + 1)
        then error 1
        else ok (record q { bytes = q.bytes + 1; bits = 0 }))
    else ok (record q { bits = q.bits + 1 })

pub or_low : ℕ → Bigint → Bigint
or_low bit r = record r { octets = set r.octets 0 (bit_or (get_or r.octets 0 0) bit) }

pub cut_to : Bigint → Bigint → Bigint
cut_to b r =
    if ltb (size b) (size r) then normalize (record r { bytes = b.bytes; bits = b.bits }) else r

pub at_least : Order → Bool
at_least less = false
at_least equal = true
at_least greater = true

-- `r = r + (-b)`, with `bc` for `-b`, and the quotient's bit.
pub subtract : ℕ → Bigint → Bigint → Bigint → Bigint → Rv (Bigint × Bigint)
subtract i b bc q r = bigint_add r itself (other bc) >>= λ r'.
    let r'' = cut_to b r' in if at_least (bigint_cmp r'' b) then error 3 else ok (set_bit q i, r'')

-- The body of the loop of `bigint_div`.
pub div_step : ℕ → Bigint → Bigint → Bigint → Bigint × Bigint → Rv (Bigint × Bigint)
div_step i a b bc (q, r) = left_shift r >>= λ shifted.
    let r' = or_low (get_bit a i) shifted in
    widen q >>= λ q'. if at_least (bigint_cmp r' b) then subtract i b bc q' r' else ok (q', r')

-- From `n - 1` down.
pub div_loop : ℕ → Bigint → Bigint → Bigint → Bigint × Bigint → Rv (Bigint × Bigint)
div_loop zero a b bc qr = ok qr
div_loop (suc i) a b bc qr = div_step i a b bc qr >>= λ next. div_loop i a b bc next

-- The quotient and the remainder, which the source stores where it is given a pointer. The Boolean says
-- whether the two pointers are one.
pub bigint_div : Bool → Bigint → Bigint → Rv (Bigint × Bigint)
bigint_div same_output a b =
    if bigint_iszero b
    then error 2
    else if same_output
    then error 2
    else (div_loop (size a) a b (twos_comp (bigint_copy b)) (bigint_zero, bigint_zero) >>= λ qr.
        ok (bigint_copy (normalize qr.0), bigint_copy (normalize qr.1)))

-- `x = (x * y) % c`
pub mul_mod : Bigint → Bigint → Bigint → Rv Bigint
mul_mod x y c = bigint_mul x y >>= λ p. bigint_div false p c >>= λ qr. ok (qr.1)

pub multiply_if : ℕ → Bigint → Bigint → Bigint → Rv Bigint
multiply_if bit r c x = if bit == 1 then mul_mod x r c else ok x

pub expmod_loop : ℕ → Bigint → Bigint → Bigint → Bigint → Rv Bigint
expmod_loop zero r b c x = ok x
expmod_loop (suc i) r b c x = mul_mod x x c >>= λ square.
    multiply_if (get_bit b i) r c square >>= λ x'. expmod_loop i r b c x'

pub bigint_expmod : Bigint → Bigint → Bigint → Rv Bigint
bigint_expmod a b c = bigint_div false a c >>= λ qr.
    expmod_loop (size b) (qr.1) b c (set_bit bigint_zero 0) >>= λ x. ok (bigint_copy x)

-- crypto/rsa.c, with the key as an argument.
pub rsa_pubkey_decrypt : Bigint → Bigint → Bigint → Rv Bigint
rsa_pubkey_decrypt pubkey_mod pubkey_exp cipher =
    if ltb (bigint_bits pubkey_mod) (bigint_bits cipher)
    then error 1
    else bigint_expmod cipher pubkey_exp pubkey_mod
