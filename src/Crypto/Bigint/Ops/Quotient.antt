-- ===== src/Crypto/Bigint/Ops/Quotient.antt =====
-- `bigint_div` on the numbers: the quotient's bits.
use native.Mathlib.Nat.{add-mul-div_right, div-add-mod', div-eq_of_lt, mod-eq_of_lt, mod-lt}
use esp8266_toolbox.Base.{
  ℕ, suc, ◌+◌, ◌-◌, ◌*◌, ◌/◌, ◌%◌, ◌^◌, ◌<◌, ◌≤◌, ◌≡◌, sym, ap, ◌∙◌, Bool-cases, inl, inr, ltb, leb,
  arith,
}
use esp8266_toolbox.Base.Bits.{pow_facts}
use esp8266_toolbox.Crypto.Bigint.{Bigint, set_bit, size}
use esp8266_toolbox.Crypto.Bigint.Value.{pow_pos}
use esp8266_toolbox.Crypto.Bigint.Bits.{bit, Holds, max_size, mod_of_sum, set_bit-Holds}

-- The quotient as the loop has it when `i` rounds are left: its bits from `n / 2 + 1` on are lost.
unfoldable pub quotient_bits : ℕ → ℕ → ℕ → ℕ
quotient_bits n i x = x % 2 ^ (n / 2 + 1 - i) * 2 ^ i

mod_double : (x d k : ℕ) → d ≤ 1 → (2 * x + d) % 2 ^ suc k ≡ 2 * (x % 2 ^ k) + d
mod_double x d k one =
    let p = (pow_facts k).1 in
    let w : ℕ = 2 * (x % 2 ^ k) + d in
    let whole : w + x / 2 ^ k * 2 ^ suc k ≡ 2 * x + d =
      rw p (omega (arith, div-add-mod' x (2 ^ k))) in
    mod_of_sum (2 * x + d) w (x / 2 ^ k) (2 ^ suc k) whole
    ∙ mod-eq_of_lt (omega (arith, p, mod-lt x {m = 2 ^ k} (pow_pos k), one))

-- A digit that is kept, and one that is lost.
kept_digit :
    (n i x d : ℕ)
    → d ≤ 1
    → i ≤ n / 2
    → quotient_bits n i (2 * x + d) ≡ quotient_bits n (suc i) x + d * 2 ^ i
unfolding quotient_bits
kept_digit n i x d one kept =
    let e : n / 2 + 1 - i ≡ suc (n / 2 + 1 - suc i) = omega (arith, kept) in
    rw (e, mod_double x d (n / 2 + 1 - suc i) one)
      (omega (arith, ap (λ (t : ℕ). x % 2 ^ (n / 2 + 1 - suc i) * t) ((pow_facts i).1)))

lost_digit : (n i x y : ℕ) → n / 2 < i → quotient_bits n i x ≡ quotient_bits n (suc i) y
unfolding quotient_bits
lost_digit n i x y lost =
    let e : n / 2 + 1 - i ≡ 0 = omega (arith, lost) in
    let e' : n / 2 + 1 - suc i ≡ 0 = omega (arith, lost) in
    let nothing : x % 2 ^ 0 ≡ 0 = omega arith in
    let nothing' : y % 2 ^ 0 ≡ 0 = omega arith in rw (e, e', nothing, nothing') (omega arith)

-- The bit below the digits that are there is 0.
empty_bit : (n i x : ℕ) → bit (quotient_bits n (suc i) x) i ≡ 0
unfolding quotient_bits
empty_bit n i x =
    let y : ℕ = x % 2 ^ (n / 2 + 1 - suc i) in
    let e : y * 2 ^ suc i ≡ 0 + y * 2 * 2 ^ i =
      omega (arith, ap (λ (t : ℕ). y * t) ((pow_facts i).1)) in
    let q : y * 2 ^ suc i / 2 ^ i ≡ y * 2 =
      rw e (
        add-mul-div_right 0 (y * 2) (pow_pos i)
        ∙ omega (arith, div-eq_of_lt {n = 0} (pow_pos i))) in
    rw q (omega arith)

set_bit_beyond : (q : Bigint) (i : ℕ) → size q ≤ i → set_bit q i ≡ q
unfolding set_bit
set_bit_beyond q i h = ground (arith, h)

pub set_digit :
    (n i x c : ℕ) (q : Bigint)
    → Holds q (c + 1) (quotient_bits n (suc i) x)
    → c + i ≡ n
    → c + 1 ≤ max_size
    → Holds (set_bit q i) (c + 1) (quotient_bits n i (2 * x + 1))
set_digit n i x c q h rounds cap = elim (Bool-cases (ltb i (c + 1))) [
  | inl p ↦
      let (v', g, e) =
        set_bit-Holds q (c + 1) (quotient_bits n (suc i) x) i h (ground (arith, p)) cap in
      let total : v' ≡ quotient_bits n i (2 * x + 1) = omega (
        arith,
        e,
        ap (λ (t : ℕ). t * 2 ^ i) (empty_bit n i x),
        kept_digit n i x 1 (omega arith) (ground (arith, p, rounds)),
      ) in
      rw (← total) g
  | inr p ↦
      let same = lost_digit n i (2 * x + 1) x (ground (arith, p, rounds)) in
      rw (same, set_bit_beyond q i (ground (arith, p, h.width))) h
]

-- The other digits, which only widen the quotient.
pub clear_digit : (n i x : ℕ) → quotient_bits n (suc i) x ≡ quotient_bits n i (2 * x)
clear_digit n i x = elim (Bool-cases (leb i (n / 2))) [
  | inl p ↦
      let e : 2 * x ≡ 2 * x + 0 = omega arith in
      rw e (sym (kept_digit n i x 0 (omega arith) (ground (arith, p)) ∙ omega arith))
  | inr p ↦ sym (lost_digit n i (2 * x) x (ground (arith, p)))
]
