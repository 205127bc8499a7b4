-- ===== src/Crypto/Bigint/Complement.antt =====
-- `TWOS_COMP`: the number that is added for a subtraction.
use native.Mathlib.Nat.{mod-eq_of_lt, pow-le-pow_right}
use esp8266_toolbox.Base.{
  ℕ, zero, suc, ◌+◌, ◌-◌, ◌*◌, ◌%◌, ◌^◌, ◌<◌, ◌≤◌, ◌≡◌, refl, ap, ◌∙◌, Bool-cases, inl, inr, ltb,
  ◌==◌, eq_of_test, List, [], ◌∷◌, length, All, arith,
}
use esp8266_toolbox.Base.Bits.{pow_facts, pow_split}
use esp8266_toolbox.Crypto.Bigint.{
  Bigint, clear_below, clr_bit, complement_octets, get_bit, increment, set_bit, twos_comp,
}
use esp8266_toolbox.Crypto.Bigint.Value.{IsByte, pow_byte, value}
use esp8266_toolbox.Crypto.Bigint.Bits.{
  mask_lem, mod_of_sum, mod_suc_pow, bit, clr_bit-Holds, get_bit_lem, Holds, max_size,
  set_bit-Holds,
}

-- The ones of a partial byte, for each number of bits in it.
partial_ones :
    (x bits : ℕ) → bits < 8 → x < 2 ^ bits → (4294967295 - x) % 2 ^ bits + x + 1 ≡ 2 ^ bits
partial_ones x zero h hx = omega arith
partial_ones x (suc zero) h hx = omega arith
partial_ones x (suc (suc zero)) h hx = omega arith
partial_ones x (suc (suc (suc zero))) h hx = omega arith
partial_ones x (suc (suc (suc (suc zero)))) h hx = omega arith
partial_ones x (suc (suc (suc (suc (suc zero))))) h hx = omega arith
partial_ones x (suc (suc (suc (suc (suc (suc zero)))))) h hx = omega arith
partial_ones x (suc (suc (suc (suc (suc (suc (suc zero))))))) h hx = omega arith
partial_ones x (suc (suc (suc (suc (suc (suc (suc (suc bits)))))))) h hx = absurd (omega arith)

complement_octets-lem :
    (n bits : ℕ) (xs : List ℕ)
    → bits < 8
    → All IsByte xs
    → n < length xs
    → value xs < 2 ^ (8 * n) * 2 ^ bits
    → (value (complement_octets n bits xs) + value xs + 1 ≡ 2 ^ (8 * n) * 2 ^ bits)
      × (length (complement_octets n bits xs) ≡ length xs)
      × All IsByte (complement_octets n bits xs)
unfolding value complement_octets
complement_octets-lem n bits [] hb h inside fits = absurd (omega arith)
complement_octets-lem zero bits (x ∷ xs) hb (hx, h) inside fits =
    let cap : 2 ^ bits ≤ 128 =
      pow-le-pow_right {n = 2} (omega arith) {i = bits} {j = 7} (omega arith) in
    let none_above : value xs ≡ 0 = omega (arith, fits, cap) in
    let masked = mask_lem (4294967295 - x) bits in
    let ones = partial_ones x bits hb (omega (arith, fits)) in
    elim (Bool-cases (ltb 0 bits)) [
      | inl p ↦
          rw p
            (omega (arith, masked, ones, none_above), refl, (omega (arith, masked, ones, cap), h))
      | inr p ↦
          let e : bits ≡ 0 = ground (arith, p) in
          let one : 2 ^ bits ≡ 1 = rw e refl in rw p (omega (arith, one, fits), refl, (hx, h))
    ]
complement_octets-lem (suc n) bits (x ∷ xs) hb (hx, h) inside fits =
    let e = ap (λ (t : ℕ). t * 2 ^ bits) (pow_byte n) in
    let (number, len, bytes) =
      complement_octets-lem n bits xs hb h (omega (arith, inside)) (omega (arith, fits, e)) in
    (omega (arith, number, e), ap suc len, (omega arith, bytes))

-- Clearing the bits below `k` takes the remainder off.
clear_below-Holds :
    (k : ℕ) (i : Bigint) (n v : ℕ)
    → Holds i n v
    → k ≤ n
    → n ≤ max_size
    → (v' : ℕ) × Holds (clear_below k i) n v' × (v' + v % 2 ^ k ≡ v)
unfolding clear_below
clear_below-Holds zero i n v h below cap = (v, h, omega arith)
clear_below-Holds (suc k) i n v h below cap =
    let (v1, h1, e1) = clr_bit-Holds i n v k h (omega arith) cap in
    let (v2, h2, e2) = clear_below-Holds k (clr_bit i k) n v1 h1 (omega arith) cap in
    (v2, h2, omega (arith, e1, e2, mod_suc_pow v k, mod_of_sum v v1 (bit v k) (2 ^ k) e1))

-- The search for the first 0, past a run of ones: the run and the 0 become zeros and a one.
increment-Holds :
    (rounds k : ℕ) (i : Bigint) (n v : ℕ)
    → Holds i n v
    → k + rounds ≡ n
    → n ≤ max_size
    → v % 2 ^ k + 1 ≡ 2 ^ k
    → v + 1 < 2 ^ n
    → Holds (increment rounds k i) n (v + 1)
unfolding increment
increment-Holds zero k i n v h e cap run room =
    let all : k ≡ n = omega (arith, e) in
    let whole : v % 2 ^ k ≡ v = mod-eq_of_lt (rw all h.fits) in
    absurd (omega (arith, whole, run, room, ap (λ (t : ℕ). 2 ^ t) all))
increment-Holds (suc rounds) k i n v h e cap run room =
    let found : get_bit i k ≡ bit v k = get_bit_lem i n v k h in
    let low = mod_suc_pow v k in
    elim (Bool-cases (bit v k == 0)) [
      | inl p ↦
          let b0 = eq_of_test (bit v k) 0 p in
          let (v1, h1, e1) = set_bit-Holds i n v k h (omega (arith, e)) cap in
          let (v2, h2, e2) = clear_below-Holds k (set_bit i k) n v1 h1 (omega (arith, e)) cap in
          let e3 : v1 ≡ v + 2 ^ k = omega (arith, e1, ap (λ (t : ℕ). t * 2 ^ k) b0) in
          let low1 = mod_of_sum v1 v 1 (2 ^ k) (omega (arith, e3)) in
          let total : v2 ≡ v + 1 = omega (arith, e2, e3, low1, run) in rw (found, p, ← total) h2
      | inr p ↦
          let b1 : bit v k ≡ 1 = ground (arith, p) in
          let run' : v % 2 ^ (k + 1) + 1 ≡ 2 ^ (k + 1) =
            let next : k + 1 ≡ suc k = omega arith in
            rw next (omega (arith, low, run, ap (λ (t : ℕ). t * 2 ^ k) b1, (pow_facts k).1)) in
          rw (found, p) (increment-Holds rounds (k + 1) i n v h (omega (arith, e)) cap run' room)
    ]

-- For a number that is not 0, the result is what is missing to the next power.
pub twos_comp-Holds :
    (i : Bigint) (n v : ℕ) → Holds i n v → n ≤ max_size → 1 ≤ v → Holds (twos_comp i) n (2 ^ n - v)
unfolding twos_comp
twos_comp-Holds i n v h limit pos =
    let split = pow_split (i.bytes * 8) i.bits n h.width in
    let turn : 8 * i.bytes ≡ i.bytes * 8 = omega arith in
    let power : 2 ^ (8 * i.bytes) * 2 ^ i.bits ≡ 2 ^ n = rw turn split in
    let (number, len, bytes) =
      complement_octets-lem i.bytes i.bits i.octets h.partial h.octets-IsByte
        (omega (arith, h.width, h.full, limit)) (omega (arith, power, h.number, h.fits)) in
    let flipped : Holds (record i { octets = complement_octets i.bytes i.bits i.octets }) n
        (2 ^ n - 1 - v) =
      record {
        full = len ∙ h.full;
        octets-IsByte = bytes;
        partial = h.partial;
        width = h.width;
        number = omega (arith, number, power, h.number);
        fits = omega (arith, h.fits);
      } in
    let done =
      increment-Holds n 0 _ n (2 ^ n - 1 - v) flipped (omega arith) limit (omega arith)
        (omega (arith, h.fits, pos)) in
    let total : 2 ^ n - 1 - v + 1 ≡ 2 ^ n - v = omega (arith, h.fits) in rw (h.width, ← total) done
