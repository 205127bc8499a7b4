-- ===== src/Base/Bits.antt =====
-- The laws of C's `&`, `|` and `^` on unsigned numbers that the models need, from the recursion on
-- binary digits that the native operations stand for. A shift is a product or quotient by `2 ^ k`.
use Prim.Native.Nat.{digits, bitwise, bit_and-bitwise, bit_or-bitwise}
use native.Mathlib.Nat.{
  pow-suc, one-le-pow, div-div-eq-div-mul, div-one, mul_comm, mod-lt, mod-eq_of_lt, div-add-mod,
  add-mul-mod_self_right, mul-div_cancel,
}
use esp8266_toolbox.Base.{
  ℕ, zero, suc, ◌+◌, ◌-◌, ◌*◌, ◌/◌, ◌%◌, ◌^◌, ◌≤◌, ◌<◌, min, max, bit_and, bit_or, ◌≡◌, refl, sym,
  ◌∙◌, ap, arith,
}

infixl 72 ◌<<<◌ ◌>>>◌
abbrev pub ◌<<<◌ : ℕ → ℕ → ℕ
x <<< k = x * 2 ^ k

abbrev pub ◌>>>◌ : ℕ → ℕ → ℕ
x >>> k = x / 2 ^ k

abbrev pub u8 : ℕ → ℕ
u8 x = x % 256

abbrev pub u32 : ℕ → ℕ
u32 x = x % 4294967296

-- Any two sufficient amounts of fuel give one result, so the fuel drops out of the equations.
module _ (z : ℕ → ℕ) (f : ℕ → ℕ → ℕ) where
  fuel_irrelevant : (a b s t : ℕ) → a ≤ s → a ≤ t → digits z f s a b ≡ digits z f t a b
  fuel_irrelevant a b zero zero hs ht = refl
  fuel_irrelevant zero b zero (suc t) hs ht = refl
  fuel_irrelevant (suc a) b zero (suc t) hs ht = absurd (omega arith)
  fuel_irrelevant zero b (suc s) zero hs ht = refl
  fuel_irrelevant (suc a) b (suc s) zero hs ht = absurd (omega arith)
  fuel_irrelevant zero b (suc s) (suc t) hs ht = refl
  fuel_irrelevant (suc a) b (suc s) (suc t) hs ht =
      ap (λ (x : ℕ). x * 2 + f (suc a % 2) (b % 2))
        (fuel_irrelevant (suc a / 2) (b / 2) s t (omega arith) (omega arith))

  bitwise_halves :
      (a b : ℕ)
      → bitwise z f (suc a) b ≡ bitwise z f (suc a / 2) (b / 2) * 2 + f (suc a % 2) (b % 2)
  bitwise_halves a b =
      ap (λ (x : ℕ). x * 2 + f (suc a % 2) (b % 2))
        (fuel_irrelevant (suc a / 2) (b / 2) a (suc a / 2) (omega arith) (omega arith))

pub bit_and_halves : (a b : ℕ) → bit_and a b ≡ bit_and (a / 2) (b / 2) * 2 + min (a % 2) (b % 2)
bit_and_halves zero b = simp bit_and-bitwise (omega arith)
bit_and_halves (suc a) b = simp bit_and-bitwise (bitwise_halves (λ y. 0) min a b)

pub bit_or_halves : (a b : ℕ) → bit_or a b ≡ bit_or (a / 2) (b / 2) * 2 + max (a % 2) (b % 2)
bit_or_halves zero b = simp bit_or-bitwise (omega arith)
bit_or_halves (suc a) b = simp bit_or-bitwise (bitwise_halves (λ y. y) max a b)

two_pow : (q k : ℕ) → q * 2 ^ suc k ≡ q * 2 ^ k * 2
two_pow q k = omega (arith, ap (λ (t : ℕ). q * t) (pow-suc 2 k))

-- `2 ^ k` is at least 1, and the next power is its double.
pub pow_facts : (k : ℕ) → (1 ≤ 2 ^ k) × (2 ^ suc k ≡ 2 ^ k * 2)
pow_facts k = (one-le-pow k 2 (omega arith), pow-suc 2 k)

-- With fuel above both numbers: nothing or-ed in changes nothing, and nothing survives a mask of 0.
bit_or-zero_below : (n a : ℕ) → a ≤ n → bit_or a 0 ≡ a
bit_or-zero_below n zero h = refl
bit_or-zero_below zero (suc a) h = absurd (omega arith)
bit_or-zero_below (suc n) (suc a) h =
    omega (arith, bit_or_halves (suc a) 0, bit_or-zero_below n (suc a / 2) (omega arith))

bit_and-zero_below : (n a : ℕ) → a ≤ n → bit_and a 0 ≡ 0
bit_and-zero_below n zero h = refl
bit_and-zero_below zero (suc a) h = absurd (omega arith)
bit_and-zero_below (suc n) (suc a) h =
    omega (arith, bit_and_halves (suc a) 0, bit_and-zero_below n (suc a / 2) (omega arith))

pub bit_or-zero : (a : ℕ) → bit_or a 0 ≡ a
bit_or-zero a = bit_or-zero_below a a (omega arith)

pub bit_and-zero : (a : ℕ) → bit_and a 0 ≡ 0
bit_and-zero a = bit_and-zero_below a a (omega arith)

-- `(q << k) | r` is a sum where `r` fits the low `k` bits.
pub bit_or_disjoint : (k q r : ℕ) → r < 2 ^ k → bit_or (q * 2 ^ k) r ≡ q * 2 ^ k + r
bit_or_disjoint zero q r h = ground (arith, bit_or-zero q)
bit_or_disjoint (suc k) q r h =
    ground (
      arith,
      bit_or_halves (q * 2 ^ suc k) r,
      two_pow q k,
      pow_facts k,
      bit_or_disjoint k q (r / 2),
    )

-- The lowest digit of a remainder by a power of two.
mod_double : (a p : ℕ) → 1 ≤ p → a / 2 % p * 2 + a % 2 ≡ a % (p * 2)
mod_double a p h =
    let x : ℕ = a / 2 % p * 2 + a % 2 in
    let q : ℕ = a / 2 / p in
    let small : x < p * 2 = omega (arith, mod-lt (a / 2) {m = p} h) in
    let whole : x + q * (p * 2) ≡ a = omega (arith, div-add-mod (a / 2) p) in
    sym (mod-eq_of_lt small)
    ∙ sym (add-mul-mod_self_right x q (p * 2))
    ∙ ap (λ (n : ℕ). n % (p * 2)) whole

-- A mask of the low `k` bits is a remainder.
pub bit_and_ones : (k a : ℕ) → bit_and a (2 ^ k - 1) ≡ a % 2 ^ k
bit_and_ones zero a = rw bit_and-zero (omega arith)
bit_and_ones (suc k) a = ground (
  arith,
  bit_and_halves a (2 ^ suc k - 1),
  pow_facts k,
  bit_and_ones k (a / 2),
  mod_double a (2 ^ k),
)

div_double : (a k : ℕ) → a / 2 ^ suc k ≡ a / 2 / 2 ^ k
div_double a k = rw (pow-suc, mul_comm (2 ^ k) 2) (sym (div-div-eq-div-mul a 2 (2 ^ k)))

bit_and_half : (a b : ℕ) → bit_and a b / 2 ≡ bit_and (a / 2) (b / 2)
bit_and_half a b = omega (arith, bit_and_halves a b)

-- A shift right goes through `&`.
pub bit_and_shr : (k a b : ℕ) → bit_and a b / 2 ^ k ≡ bit_and (a / 2 ^ k) (b / 2 ^ k)
bit_and_shr zero a b = rw (div-one, div-one, div-one)
bit_and_shr (suc k) a b =
    rw (div_double (bit_and a b) k, div_double a k, div_double b k)
      (rw bit_and_half (bit_and_shr k (a / 2) (b / 2)))

-- `(v & mask) >> k`, where the mask has `w` ones from bit `k` on, is a field of `v`.
pub bit_and_field : (k w v : ℕ) → bit_and v ((2 ^ w - 1) * 2 ^ k) / 2 ^ k ≡ v / 2 ^ k % 2 ^ w
bit_and_field k w v =
    bit_and_shr k v ((2 ^ w - 1) * 2 ^ k)
    ∙ rw (mul-div_cancel (2 ^ w - 1) {n = 2 ^ k} (pow_facts k).0) (bit_and_ones w (v / 2 ^ k))

pub pow_split : (k m n : ℕ) → k + m ≡ n → 2 ^ k * 2 ^ m ≡ 2 ^ n
pow_split zero m n e = let e' : m ≡ n = omega arith in rw e' (omega arith)
pow_split (suc k) m zero e = absurd (omega arith)
pow_split (suc k) m (suc n) e = omega (
  arith,
  pow_facts k,
  pow_facts n,
  pow_split k m n (omega arith),
  ap (λ (t : ℕ). t * 2 ^ m) (pow_facts k).1,
)

-- A product cut to the range of its factors' product loses what the shift pushes out.
pub mod_product : (x p q : ℕ) → 1 ≤ p → 1 ≤ q → x * q % (p * q) ≡ x % p * q
mod_product x p q hp hq =
    let r : ℕ = x % p in
    let small : r * q < p * q = below (mod-lt x {m = p} hp) in
    let whole : r * q + x / p * (p * q) ≡ x * q =
      omega (arith, ap (λ (t : ℕ). t * q) (div-add-mod x p)) in
    ap (λ (n : ℕ). n % (p * q)) (sym whole)
    ∙ add-mul-mod_self_right (r * q) (x / p) (p * q)
    ∙ mod-eq_of_lt small
  where
    below : x % p < p → x % p * q < p * q
    below h = grind arith
