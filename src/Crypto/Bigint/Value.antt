-- ===== src/Crypto/Bigint/Value.antt =====
-- The number that an array of bytes stands for, the lowest byte first, and what reads and writes of
-- bytes are on it.
use native.Mathlib.Nat.{
  add-mul-mod_self_right, div-add-mod', div-div-eq-div-mul, mod-eq_of_lt, mod-lt, mul_comm,
  zero-div, zero-mod,
}
use esp8266_toolbox.Base.{
  ℕ, zero, suc, ◌+◌, ◌*◌, ◌/◌, ◌%◌, ◌^◌, ◌<◌, ◌≤◌, ◌≡◌, refl, sym, ap, ◌∙◌, List, [], ◌∷◌, ◌++◌,
  length, All, get_or, set, take, replicate, arith,
}
use esp8266_toolbox.Base.Bits.{pow_facts, pow_split}

abbrev pub IsByte : ℕ → Type 0
IsByte x = x < 256

unfoldable pub value : List ℕ → ℕ
value [] = 0
value (x ∷ xs) = x + 256 * value xs

-- The weight of a byte.
pub pow_byte : (j : ℕ) → 2 ^ (8 * suc j) ≡ 2 ^ (8 * j) * 256
pow_byte j = sym (pow_split (8 * j) 8 (8 * suc j) (omega arith))

pub pow_pos : (k : ℕ) → 1 ≤ 2 ^ k
pow_pos k = (pow_facts k).0

div_byte : (v j : ℕ) → v / 2 ^ (8 * suc j) ≡ v / 256 / 2 ^ (8 * j)
div_byte v j =
    rw (pow_byte j, mul_comm (2 ^ (8 * j)) 256) (sym (div-div-eq-div-mul v 256 (2 ^ (8 * j))))

-- A read is a digit to the base 256.
pub get_or-value :
    (xs : List ℕ) (j : ℕ) → All IsByte xs → get_or xs j 0 ≡ value xs / 2 ^ (8 * j) % 256
unfolding value
get_or-value [] j h = rw (zero-div (2 ^ (8 * j))) refl
get_or-value (x ∷ xs) zero (hx, h) = omega arith
get_or-value (x ∷ xs) (suc j) (hx, h) =
    let e : (x + 256 * value xs) / 256 ≡ value xs = omega arith in
    rw (div_byte (x + 256 * value xs) j, e) (get_or-value xs j h)

-- A write replaces a digit.
pub set-value :
    (xs : List ℕ) (j y : ℕ)
    → j < length xs
    → value (set xs j y) + get_or xs j 0 * 2 ^ (8 * j) ≡ value xs + y * 2 ^ (8 * j)
unfolding value
set-value [] j y h = absurd (omega arith)
set-value (x ∷ xs) zero y h = omega arith
set-value (x ∷ xs) (suc j) y h =
    let ih = set-value xs j y (omega arith) in
    omega (
      arith,
      ih,
      ap (λ (t : ℕ). get_or xs j 0 * t) (pow_byte j),
      ap (λ (t : ℕ). y * t) (pow_byte j),
    )

pub set-IsByte : (xs : List ℕ) (j y : ℕ) → All IsByte xs → IsByte y → All IsByte (set xs j y)
set-IsByte [] j y h hy = tt
set-IsByte (x ∷ xs) zero y (hx, h) hy = (hy, h)
set-IsByte (x ∷ xs) (suc j) y (hx, h) hy = (hx, set-IsByte xs j y h hy)

pub get_or-IsByte : (xs : List ℕ) (j : ℕ) → All IsByte xs → IsByte (get_or xs j 0)
get_or-IsByte [] j h = omega arith
get_or-IsByte (x ∷ xs) zero (hx, h) = hx
get_or-IsByte (x ∷ xs) (suc j) (hx, h) = get_or-IsByte xs j h

pub replicate-value : (n : ℕ) → value (replicate n 0) ≡ 0
unfolding value
replicate-value zero = refl
replicate-value (suc n) = omega (arith, replicate-value n)

pub replicate-IsByte : (n : ℕ) → All IsByte (replicate n 0)
replicate-IsByte zero = tt
replicate-IsByte (suc n) = (omega arith, replicate-IsByte n)

pub append-zeros : (xs : List ℕ) (n : ℕ) → value (xs ++ replicate n 0) ≡ value xs
unfolding value
append-zeros [] n = replicate-value n
append-zeros (x ∷ xs) n = omega (arith, append-zeros xs n)

pub take-IsByte : (n : ℕ) (xs : List ℕ) → All IsByte xs → All IsByte (take n xs)
take-IsByte zero xs h = tt
take-IsByte (suc n) [] h = tt
take-IsByte (suc n) (x ∷ xs) (hx, h) = (hx, take-IsByte n xs h)

-- The number modulo a power, byte by byte.
pub mod_byte : (x v p : ℕ) → x < 256 → 1 ≤ p → (x + 256 * v) % (p * 256) ≡ x + 256 * (v % p)
mod_byte x v p hx hp =
    let r : ℕ = x + 256 * (v % p) in
    let small : r < p * 256 = omega (arith, mod-lt v {m = p} hp) in
    let whole : r + v / p * (p * 256) ≡ x + 256 * v = omega (arith, div-add-mod' v p) in
    ap (λ (t : ℕ). t % (p * 256)) (sym whole)
    ∙ add-mul-mod_self_right r (v / p) (p * 256)
    ∙ mod-eq_of_lt small

pub take-value : (n : ℕ) (xs : List ℕ) → All IsByte xs → value (take n xs) ≡ value xs % 2 ^ (8 * n)
unfolding value
take-value zero xs h = omega arith
take-value (suc n) [] h = sym (zero-mod (2 ^ (8 * suc n)))
take-value (suc n) (x ∷ xs) (hx, h) =
    rw (pow_byte n, mod_byte x (value xs) (2 ^ (8 * n)) hx (pow_pos (8 * n)), take-value n xs h)
      refl

-- The number fits the bytes that hold it.
pub value-bound : (xs : List ℕ) → All IsByte xs → value xs < 2 ^ (8 * length xs)
unfolding value
value-bound [] h = omega arith
value-bound (x ∷ xs) (hx, h) = omega (arith, value-bound xs h, pow_byte (length xs))
