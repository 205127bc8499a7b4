-- ===== src/Crypto/Sha256/Rotate.antt =====
-- `rrotate` of crypto/sha256.c: the mask keeps one bit too many, and the shift pushes it out.
use native.Mathlib.Nat.{add-mul-mod_self_left, div-add-mod, div-lt_iff_lt-mul}
use native.Mathlib.Numerals.{add-one}
use esp8266_toolbox.Base.{
  ℕ, ◌+◌, ◌-◌, ◌*◌, ◌/◌, ◌%◌, ◌^◌, ◌<◌, ◌≡◌, sym, ◌∙◌, ap, bit_and, bit_or, arith,
}
use esp8266_toolbox.Base.Bits.{
  u32, bit_and_ones, bit_or_disjoint, pow_facts, pow_split, mod_product,
}
use esp8266_toolbox.Crypto.Sha256.{rrotate}

-- A remainder by a multiple has the same remainder.
drop_high : (x p : ℕ) → x % (p * 2) % p ≡ x % p
drop_high x p =
    sym (add-mul-mod_self_left (x % (p * 2)) p (2 * (x / (p * 2))))
    ∙ ap (λ (y : ℕ). y % p) (omega (arith, div-add-mod x (p * 2)))

module _ (x n : ℕ) (big : n < 32) (word : x < 2 ^ 32) where
  product : 2 ^ n * 2 ^ (32 - n) ≡ 2 ^ 32
  product = pow_split n (32 - n) 32 (omega arith)

  -- What the mask keeps, shifted and cut to a word.
  masked : u32 (bit_and x (2 ^ (n + 1) - 1) * 2 ^ (32 - n)) ≡ x % 2 ^ n * 2 ^ (32 - n)
  masked =
      ap (λ (y : ℕ). y * 2 ^ (32 - n) % 4294967296) (bit_and_ones (n + 1) x)
      ∙ ap (λ (m : ℕ). x % 2 ^ (n + 1) * 2 ^ (32 - n) % m) (sym product)
      ∙ mod_product (x % 2 ^ (n + 1)) (2 ^ n) (2 ^ (32 - n)) (pow_facts n).0 (pow_facts (32 - n)).0
      ∙ ap (λ (y : ℕ). y * 2 ^ (32 - n))
          (ap (λ (k : ℕ). x % 2 ^ k % 2 ^ n) (add-one n)
            ∙ ap (λ (p : ℕ). x % p % 2 ^ n) (pow_facts n).1
            ∙ drop_high x (2 ^ n))

  high : x / 2 ^ n < 2 ^ (32 - n)
  high = (div-lt_iff_lt-mul {k = 2 ^ n} (pow_facts n).0).1 (omega (arith, product))

  -- On a 32-bit word and by fewer than 32 places, `rrotate` moves the low bits to the top and the others down.
  pub rrotate_lem : rrotate x n ≡ x % 2 ^ n * 2 ^ (32 - n) + x / 2 ^ n
  unfolding rrotate
  rrotate_lem =
      ap (λ (r : ℕ). bit_or r (x / 2 ^ n)) masked
      ∙ bit_or_disjoint (32 - n) (x % 2 ^ n) (x / 2 ^ n) high
