-- ===== src/Crypto/Bigint/Bits.antt =====
-- `BIT`, `SET_BIT` and `CLR_BIT` on the number that a Bigint stands for.
use native.Mathlib.Nat.{
  add-mul-mod_self_right, mod-eq_of_lt, div-lt_iff_lt-mul, mul-le-mul_right, div-eq_of_lt,
  pow-le-pow_right, div-div-eq-div-mul, div-add-mod', mod-lt,
}
use esp8266_toolbox.Base.{
  ℕ, zero, suc, ◌+◌, ◌-◌, ◌*◌, ◌/◌, ◌%◌, ◌^◌, ◌<◌, ◌≤◌, ◌≡◌, refl, sym, ap, Bool, List, ◌∙◌, true,
  Bool-cases, inl, inr, bit_and, bit_or, every_below, every_below_sound, ◌==◌, eq_of_test, ltb,
  length, length-set, get_or, set, All, arith,
}
use esp8266_toolbox.Base.Bits.{◌<<<◌, ◌>>>◌, bit_and_ones, pow_facts, pow_split}
use esp8266_toolbox.Crypto.Bigint.{Bigint, clr_bit, data_maxlen, get_bit, set_bit, size}
use esp8266_toolbox.Crypto.Bigint.Value.{
  get_or-IsByte, get_or-value, IsByte, pow_pos, set-IsByte, set-value, value,
}

-- The Bigint is a number `v` of `n` bits, with all of its other bits 0.
pub record Holds (i : Bigint) (n v : ℕ) : Type 0 where
  pub full : length i.octets ≡ data_maxlen
  pub octets-IsByte : All IsByte i.octets
  pub partial : i.bits < 8
  pub width : size i ≡ n
  pub number : value i.octets ≡ v
  pub fits : v < 2 ^ n

-- A bit of a number.
abbrev pub bit : ℕ → ℕ → ℕ
bit v k = v / 2 ^ k % 2

pow_position : (k : ℕ) → 2 ^ (8 * (k / 8)) * 2 ^ (k % 8) ≡ 2 ^ k
pow_position k = pow_split (8 * (k / 8)) (k % 8) k (omega arith)

-- Bits of a byte, for each position.
low_byte_bit : (w r : ℕ) → r < 8 → w % 256 / 2 ^ r % 2 ≡ w / 2 ^ r % 2
low_byte_bit w zero h = omega arith
low_byte_bit w (suc zero) h = omega arith
low_byte_bit w (suc (suc zero)) h = omega arith
low_byte_bit w (suc (suc (suc zero))) h = omega arith
low_byte_bit w (suc (suc (suc (suc zero)))) h = omega arith
low_byte_bit w (suc (suc (suc (suc (suc zero))))) h = omega arith
low_byte_bit w (suc (suc (suc (suc (suc (suc zero)))))) h = omega arith
low_byte_bit w (suc (suc (suc (suc (suc (suc (suc zero))))))) h = omega arith
low_byte_bit w (suc (suc (suc (suc (suc (suc (suc (suc r)))))))) h = absurd (omega arith)

or_test : ℕ → ℕ → Bool
or_test r x = bit_or x (1 <<< r) + bit x r * 2 ^ r == x + 2 ^ r

and_test : ℕ → ℕ → Bool
and_test r x = bit_and x (4294967295 - (1 <<< r)) + bit x r * 2 ^ r == x

or_table : every_below 8 (λ r. every_below 256 (or_test r)) ≡ true
unfolding every_below or_test
or_table = refl

and_table : every_below 8 (λ r. every_below 256 (and_test r)) ≡ true
unfolding every_below and_test
and_table = refl

byte_or : (x r : ℕ) → x < 256 → r < 8 → bit_or x (1 <<< r) + bit x r * 2 ^ r ≡ x + 2 ^ r
unfolding or_test
byte_or x r hx hr = eq_of_test _ _ (
    every_below_sound 256 (or_test r) x hx
      (every_below_sound 8 (λ r. every_below 256 (or_test r)) r hr or_table))

byte_and : (x r : ℕ) → x < 256 → r < 8 → bit_and x (4294967295 - (1 <<< r)) + bit x r * 2 ^ r ≡ x
unfolding and_test
byte_and x r hx hr = eq_of_test _ _ (
    every_below_sound 256 (and_test r) x hx
      (every_below_sound 8 (λ r. every_below 256 (and_test r)) r hr and_table))

-- The bit of a byte is the bit of the number.
octet-bit :
    (xs : List ℕ) (k : ℕ) → All IsByte xs → bit (get_or xs (k / 8) 0) (k % 8) ≡ bit (value xs) k
octet-bit xs k h =
    let low = low_byte_bit (value xs / 2 ^ (8 * (k / 8))) (k % 8) (omega arith) in
    rw (get_or-value xs (k / 8) h) (
      low
      ∙ ap (λ (t : ℕ). t % 2)
          (div-div-eq-div-mul (value xs) (2 ^ (8 * (k / 8))) (2 ^ (k % 8))
            ∙ ap (λ (t : ℕ). value xs / t) (pow_position k)))

-- A bit beyond the number is 0.
bit_beyond : (v n k : ℕ) → v < 2 ^ n → n ≤ k → bit v k ≡ 0
bit_beyond v n k h beyond =
    let small : v < 2 ^ k = omega (arith, pow-le-pow_right {n = 2} (omega arith) beyond) in
    rw (div-eq_of_lt small) refl

pub get_bit_lem : (i : Bigint) (n v k : ℕ) → Holds i n v → get_bit i k ≡ bit v k
unfolding get_bit
get_bit_lem i n v k h = elim (Bool-cases (ltb k (size i))) [
  | inl p ↦ rw p (
      bit_and_ones 1 (get_or i.octets (k / 8) 0 >>> (k % 8))
      ∙ octet-bit i.octets k h.octets-IsByte
      ∙ ap (λ (t : ℕ). bit t k) h.number)
  | inr p ↦ rw p (sym (bit_beyond v n k h.fits (ground (arith, p, h.width))))
]

-- A number around its bit `k`.
pub around_bit : (v k : ℕ) → v / 2 ^ suc k * 2 ^ suc k + bit v k * 2 ^ k + v % 2 ^ k ≡ v
around_bit v k =
    let half : v / 2 ^ suc k ≡ v / 2 ^ k / 2 =
      rw (pow_facts k).1 (sym (div-div-eq-div-mul v (2 ^ k) 2)) in
    let q : ℕ = v / 2 ^ k in
    let digits : q / 2 * 2 + q % 2 ≡ q = omega arith in
    rw half (
      omega (
        arith,
        div-add-mod' v (2 ^ k),
        ap (λ (t : ℕ). t * 2 ^ k) digits,
        ap (λ (t : ℕ). q / 2 * t) (pow_facts k).1,
      ))

-- One more bit of a number.
pub mod_suc_pow : (v k : ℕ) → v % 2 ^ suc k ≡ bit v k * 2 ^ k + v % 2 ^ k
mod_suc_pow v k =
    let r : ℕ = bit v k * 2 ^ k + v % 2 ^ k in
    let q : ℕ = v / 2 ^ suc k in
    let one : bit v k ≤ 1 = omega arith in
    let small : r < 2 ^ suc k = omega (
      arith,
      mod-lt v {m = 2 ^ k} (pow_pos k),
      (pow_facts k).1,
      mul-le-mul_right {m = bit v k} {n = 1} (2 ^ k) one,
    ) in
    let whole : r + q * 2 ^ suc k ≡ v = omega (arith, around_bit v k) in
    ap (λ (t : ℕ). t % 2 ^ suc k) (sym whole)
    ∙ add-mul-mod_self_right r q (2 ^ suc k)
    ∙ mod-eq_of_lt small

-- A multiple of the modulus does not count.
pub mod_of_sum : (v w b p : ℕ) → w + b * p ≡ v → v % p ≡ w % p
mod_of_sum v w b p e = ap (λ (t : ℕ). t % p) (sym e) ∙ add-mul-mod_self_right w b p

-- The mask of the low `k` bits, as the code writes it.
pub mask_lem : (x k : ℕ) → bit_and x ((1 <<< k) - 1) ≡ x % 2 ^ k
mask_lem x k = let e : (1 <<< k) - 1 ≡ 2 ^ k - 1 = omega arith in rw e (bit_and_ones k x)

-- A bit below the width can be set without leaving the width.
set_fits : (v n k : ℕ) → v < 2 ^ n → k < n → v + 2 ^ k < 2 ^ n + bit v k * 2 ^ k
set_fits v n k h below =
    let whole = pow_split (suc k) (n - suc k) n (omega arith) in
    let q = v / 2 ^ suc k in
    let high : q < 2 ^ (n - suc k) =
      (div-lt_iff_lt-mul (pow_pos (suc k))).1 (omega (arith, h, whole)) in
    let room : (q + 1) * 2 ^ suc k ≤ 2 ^ n = omega (
      arith,
      mul-le-mul_right {m = q + 1} {n = 2 ^ (n - suc k)} (2 ^ suc k) (omega (arith, high)),
      whole,
    ) in
    omega (arith, around_bit v k, mod-lt v {m = 2 ^ k} (pow_pos k), room, (pow_facts k).1)

-- A write of one byte that changes its bit `r` from `b` to `c` changes the number by the bit's weight.
write-value :
    (xs : List ℕ) (k b c y : ℕ)
    → All IsByte xs
    → k / 8 < length xs
    → y + b * 2 ^ (k % 8) ≡ get_or xs (k / 8) 0 + c * 2 ^ (k % 8)
    → value (set xs (k / 8) y) + b * 2 ^ k ≡ value xs + c * 2 ^ k
write-value xs k b c y h inside e =
    let w : ℕ = 2 ^ (8 * (k / 8)) in
    omega (
      arith,
      set-value xs (k / 8) y inside,
      ap (λ (t : ℕ). t * w) e,
      ap (λ (t : ℕ). b * t) (pow_position k),
      ap (λ (t : ℕ). c * t) (pow_position k),
    )

with_bit-IsByte : (x r : ℕ) → x < 256 → r < 8 → IsByte (bit_or x (1 <<< r))
with_bit-IsByte x r hx hr = omega (arith, byte_or x r hx hr, set_fits x 8 r hx hr)

without_bit-IsByte : (x r : ℕ) → x < 256 → r < 8 → IsByte (bit_and x (4294967295 - (1 <<< r)))
without_bit-IsByte x r hx hr = omega (arith, byte_and x r hx hr)

-- The least capacity that all bit positions below it have a byte.
abbrev pub max_size : ℕ
max_size = 1191

pub set_bit-Holds :
    (i : Bigint) (n v k : ℕ)
    → Holds i n v
    → k < n
    → n ≤ max_size
    → (v' : ℕ) × Holds (set_bit i k) n v' × (v' + bit v k * 2 ^ k ≡ v + 2 ^ k)
unfolding set_bit
set_bit-Holds i n v k h below cap =
    let p : ltb k (size i) ≡ true = ground (arith, h.width) in
    let x = get_or i.octets (k / 8) 0 in
    let x-IsByte = get_or-IsByte i.octets (k / 8) h.octets-IsByte in
    let r : k % 8 < 8 = omega arith in
    let same = octet-bit i.octets k h.octets-IsByte in
    let y = bit_or x (1 <<< (k % 8)) in
    let changed =
      write-value i.octets k (bit (value i.octets) k) 1 y h.octets-IsByte (omega (arith, h.full)) (
        ap (λ (t : ℕ). y + t * 2 ^ (k % 8)) (sym same)
        ∙ byte_or x (k % 8) x-IsByte r
        ∙ omega arith) in
    let e : value (set i.octets (k / 8) y) + bit v k * 2 ^ k ≡ v + 2 ^ k =
      rw (← h.number) (omega (arith, changed)) in
    rw p (
      value (set i.octets (k / 8) y),
      record {
        full = length-set i.octets (k / 8) y ∙ h.full;
        octets-IsByte =
            set-IsByte i.octets (k / 8) y h.octets-IsByte (with_bit-IsByte x (k % 8) x-IsByte r);
        partial = h.partial;
        width = h.width;
        number = refl;
        fits = omega (arith, e, set_fits v n k h.fits below);
      },
      e,
    )

pub clr_bit-Holds :
    (i : Bigint) (n v k : ℕ)
    → Holds i n v
    → k < n
    → n ≤ max_size
    → (v' : ℕ) × Holds (clr_bit i k) n v' × (v' + bit v k * 2 ^ k ≡ v)
unfolding clr_bit
clr_bit-Holds i n v k h below cap =
    let p : ltb k (size i) ≡ true = ground (arith, h.width) in
    let x = get_or i.octets (k / 8) 0 in
    let x-IsByte = get_or-IsByte i.octets (k / 8) h.octets-IsByte in
    let r : k % 8 < 8 = omega arith in
    let same = octet-bit i.octets k h.octets-IsByte in
    let y = bit_and x (4294967295 - (1 <<< (k % 8))) in
    let changed =
      write-value i.octets k (bit (value i.octets) k) 0 y h.octets-IsByte (omega (arith, h.full)) (
        ap (λ (t : ℕ). y + t * 2 ^ (k % 8)) (sym same)
        ∙ byte_and x (k % 8) x-IsByte r
        ∙ omega arith) in
    let e : value (set i.octets (k / 8) y) + bit v k * 2 ^ k ≡ v =
      rw (← h.number) (omega (arith, changed)) in
    rw p (
      value (set i.octets (k / 8) y),
      record {
        full = length-set i.octets (k / 8) y ∙ h.full;
        octets-IsByte =
            set-IsByte i.octets (k / 8) y h.octets-IsByte (without_bit-IsByte x (k % 8) x-IsByte r);
        partial = h.partial;
        width = h.width;
        number = refl;
        fits = omega (arith, e, h.fits);
      },
      e,
    )
