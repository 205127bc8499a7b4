-- ===== src/Crypto/Bigint/Ops/Multiply.antt =====
-- `bigint_mul` on the numbers.
use native.Mathlib.Nat.{mod-eq_of_lt}
use esp8266_toolbox.Base.{ℕ, zero, suc, ◌+◌, ◌*◌, ◌%◌, ◌^◌, ◌<◌, ◌≤◌, ◌≡◌, refl, ap, arith}
use esp8266_toolbox.Base.Bits.{pow_facts}
use esp8266_toolbox.Crypto.Bigint.{Bigint, bigint_copy, bigint_zero, data_maxlen, ok}
use esp8266_toolbox.Crypto.Bigint.Ops.{bigint_mul, itself, mul_loop, mul_step, other}
use esp8266_toolbox.Crypto.Bigint.Value.{replicate-IsByte, replicate-value}
use esp8266_toolbox.Crypto.Bigint.Bits.{bit, get_bit_lem, Holds, max_size, mod_suc_pow}
use esp8266_toolbox.Crypto.Bigint.Shift.{left_shift-Holds}
use esp8266_toolbox.Crypto.Bigint.Trim.{bigint_copy-Holds}
use esp8266_toolbox.Crypto.Bigint.Ops.Add.{bigint_add-Holds}

pub bigint_zero-Holds : Holds bigint_zero 1 0
bigint_zero-Holds = record {
  full = refl;
  octets-IsByte = replicate-IsByte data_maxlen;
  partial = omega arith;
  width = omega arith;
  number = replicate-value data_maxlen;
  fits = omega arith;
}

mul_step-Holds :
    (d : ℕ) (at pt : Bigint) (n k x y : ℕ)
    → Holds at n x
    → Holds pt k y
    → d ≤ 1
    → k ≤ n + 1
    → n + 1 < max_size
    → (pt' : Bigint) × (k' : ℕ) × (mul_step d at pt ≡ ok pt')
      × Holds pt' k' (y + d * x)
      × (k' ≤ n + 2)
unfolding mul_step
mul_step-Holds zero at pt n k x y h g one wide room =
    let e : y ≡ y + 0 * x = omega arith in (pt, k, refl, rw (← e) g, omega (arith, wide))
mul_step-Holds (suc zero) at pt n k x y h g one wide room =
    let e : y + x ≡ y + 1 * x = omega arith in
    let (pt', k', e1, g', wide') =
      bigint_add-Holds pt itself (other at) k y k n y x g g h (omega (arith, wide, room))
        (omega (arith, wide, room)) in
    (pt', k', e1, rw (← e) g', omega (arith, wide, wide'))
mul_step-Holds (suc (suc d)) at pt n k x y h g one wide room = absurd (omega (arith, one))

-- The product with the bits of `b` that are done.
partial_product : (x y i : ℕ) → x * (y % 2 ^ i) + bit y i * (x * 2 ^ i) ≡ x * (y % 2 ^ suc i)
partial_product x y i = grind (arith, ap (λ (t : ℕ). x * t) (mod_suc_pow y i))

mul_loop-Holds :
    (rounds i : ℕ) (b at pt : Bigint) (n m k x y : ℕ)
    → Holds b m y
    → Holds at (n + i) (x * 2 ^ i)
    → Holds pt k (x * (y % 2 ^ i))
    → k ≤ n + i + 1
    → n + i + rounds < max_size
    → (pt' : Bigint) × (k' : ℕ) × (mul_loop rounds i b at pt ≡ ok pt')
      × Holds pt' k' (x * (y % 2 ^ (i + rounds)))
      × (k' ≤ n + i + rounds + 1)
unfolding mul_loop
mul_loop-Holds zero i b at pt n m k x y hb ha hp wide room =
    let e : i ≡ i + 0 = omega arith in (pt, k, refl, rw (← e) hp, omega (arith, wide))
mul_loop-Holds (suc rounds) i b at pt n m k x y hb ha hp wide room =
    let (pt1, k1, e1, h1, wide1) =
      mul_step-Holds (bit y i) at pt (n + i) k (x * 2 ^ i) (x * (y % 2 ^ i)) ha hp (omega arith)
        wide (omega (arith, room)) in
    let (at1, e2, h2) = left_shift-Holds at (n + i) (x * 2 ^ i) ha (omega (arith, room)) in
    let next : i + 1 ≡ suc i = omega arith in
    let width : n + i + 1 ≡ n + suc i = omega arith in
    let double : 2 * (x * 2 ^ i) ≡ x * 2 ^ suc i =
      omega (arith, ap (λ (t : ℕ). x * t) ((pow_facts i).1)) in
    let h1' : Holds pt1 k1 (x * (y % 2 ^ suc i)) = rw (partial_product x y i) at h1 in
    let h2' : Holds at1 (n + suc i) (x * 2 ^ suc i) = rw (width, double) at h2 in
    let (pt2, k2, e3, h3, wide3) =
      mul_loop-Holds rounds (suc i) b at1 pt1 n m k1 x y hb h2' h1' (omega (arith, wide1))
        (omega (arith, room)) in
    let end : suc i + rounds ≡ i + suc rounds = omega arith in
    let done : mul_loop (suc rounds) i b at pt ≡ ok pt2 =
      rw (get_bit_lem b m y i hb, e1, e2, next) e3 in
    (pt2, k2, done, rw (← end) h3, omega (arith, wide3))

-- `bigint_mul` of two Bigints holds their product, with at most one bit more than both have together,
-- where that is fewer than 1191 bits.
pub bigint_mul-Holds :
    (a b : Bigint) (n m x y : ℕ)
    → Holds a n x
    → Holds b m y
    → n + m < max_size
    → (p : Bigint) × (k : ℕ) × (bigint_mul a b ≡ ok p) × Holds p k (x * y) × (k ≤ n + m + 1)
unfolding bigint_mul
bigint_mul-Holds a b n m x y ha hb room =
    let start : Holds (bigint_copy a) (n + 0) (x * 2 ^ 0) =
      let e : n ≡ n + 0 = omega arith in
      let e' : x ≡ x * 2 ^ 0 = omega arith in
      rw (← e, ← e') (bigint_copy-Holds a n x ha (omega (arith, room))) in
    let none_yet : Holds bigint_zero 1 (x * (y % 2 ^ 0)) =
      let none : 0 ≡ y % 2 ^ 0 = omega arith in
      let e : 0 ≡ x * (y % 2 ^ 0) = omega (arith, ap (λ (t : ℕ). x * t) none) in
      rw (← e) bigint_zero-Holds in
    let (p, k, e, h, wide) =
      mul_loop-Holds m 0 b (bigint_copy a) bigint_zero n m 1 x y hb start none_yet (omega arith)
        (omega (arith, room)) in
    let whole : x * (y % 2 ^ (0 + m)) ≡ x * y =
      let z : 0 + m ≡ m = omega arith in rw z (ap (λ (t : ℕ). x * t) (mod-eq_of_lt hb.fits)) in
    (
      bigint_copy p,
      k,
      rw (hb.width, e) refl,
      rw whole at (bigint_copy-Holds p k _ h (omega (arith, wide, room))),
      omega (arith, wide),
    )
