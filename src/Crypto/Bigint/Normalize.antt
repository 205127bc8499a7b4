-- ===== src/Crypto/Bigint/Normalize.antt =====
-- `normalize`: the number is cut to the width, and the width made small.
use native.Mathlib.Nat.{div-lt_iff_lt-mul, mul-le-mul_right, div-add-mod', mod-eq_of_lt, mod-lt}
use esp8266_toolbox.Base.{
  ℕ, zero, suc, max, ◌+◌, ◌*◌, ◌/◌, ◌%◌, ◌^◌, ◌<◌, ◌≤◌, ◌≡◌, refl, ap, true, false, Bool-cases, inl,
  inr, ◌⊎◌, ltb, ◌==◌, ◌&&◌, if◌then◌else◌, List, length, All, get_or, arith, eq_of_test,
}
use esp8266_toolbox.Base.Bits.{pow_split}
use native.Mathlib.Nat.{pow-le-pow_right}
use esp8266_toolbox.Crypto.Bigint.{Bigint, data_maxlen, normalize, size, top_byte}
use esp8266_toolbox.Crypto.Bigint.Value.{get_or-value, IsByte, pow_byte, pow_pos, value}
use esp8266_toolbox.Crypto.Bigint.Bits.{Holds, mask_lem, max_size}
use esp8266_toolbox.Crypto.Bigint.Trim.{IsArray, normalized_octets, trimmed, trimmed-Cut}

-- The last byte that is not 0.
top_byte-lem :
    (n : ℕ) (xs : List ℕ)
    → All IsByte xs
    → value xs < 2 ^ (8 * n)
    → (top_byte n xs ≤ n)
      × (value xs < 2 ^ (8 * top_byte n xs))
      × ((top_byte n xs ≡ 0) ⊎ (2 ^ (8 * top_byte n xs) ≤ 256 * value xs))
unfolding top_byte
top_byte-lem zero xs h below = (omega arith, below, inl refl)
top_byte-lem (suc n) xs h below = elim (Bool-cases (get_or xs n 0 == 0)) [
  | inl p ↦
      let digit = get_or-value xs n h in
      let none = eq_of_test (get_or xs n 0) 0 p in
      let small : value xs / 2 ^ (8 * n) < 256 =
        (div-lt_iff_lt-mul (pow_pos (8 * n))).1 (omega (arith, below, pow_byte n)) in
      let nothing : value xs / 2 ^ (8 * n) ≡ 0 = omega (arith, digit, none, small) in
      let fits : value xs < 2 ^ (8 * n) = omega (
        arith,
        nothing,
        (div-lt_iff_lt-mul {x = value xs} {y = 1} (pow_pos (8 * n))).0 (omega (arith, nothing)),
      ) in
      let (a, b, c) = top_byte-lem n xs h fits in rw p (omega (arith, a), b, c)
  | inr p ↦
      let digit = get_or-value xs n h in
      let some_bit : 1 ≤ value xs / 2 ^ (8 * n) = ground (arith, digit, p) in
      rw p (
        omega arith,
        below,
        inr (
            omega (
              arith,
              pow_byte n,
              div-add-mod' (value xs) (2 ^ (8 * n)),
              mul-le-mul_right {m = 1} {n = value xs / 2 ^ (8 * n)} (2 ^ (8 * n)) some_bit,
            )),
      )
]

-- The width is at most 1, or it needs no more bytes than the number.
abbrev pub Tight : ℕ → ℕ → Type 0
Tight n v = (n ≤ 1) ⊎ (2 ^ (8 * ((n + 7) / 8)) ≤ 256 * v)

pub tight_width : (n v : ℕ) → Tight n v → (n ≤ 1) ⊎ (2 ^ n ≤ 256 * v)
tight_width n v (inl h) = inl h
tight_width n v (inr h) = inr (
    omega (
      arith,
      h,
      pow-le-pow_right {n = 2} (omega arith) {i = n} {j = 8 * ((n + 7) / 8)} (omega arith),
    ))

pub below-of_div_zero : (v p : ℕ) → 1 ≤ p → v / p ≡ 0 → v < p
below-of_div_zero v p h e =
    omega (arith, mod-lt v {m = p} h, div-add-mod' v p, ap (λ (t : ℕ). t * p) e)

-- The partial byte is all of the number from there on.
pub top_part :
    (xs : List ℕ) (j bits n : ℕ)
    → bits < 8
    → j * 8 + bits ≡ n
    → All IsByte xs
    → value xs < 2 ^ n
    → get_or xs j 0 % 2 ^ bits ≡ value xs / 2 ^ (8 * j)
top_part xs j bits n partial width bytes fits =
    let power = pow_split (8 * j) bits n (omega (arith, width)) in
    let small : value xs / 2 ^ (8 * j) < 2 ^ bits =
      (div-lt_iff_lt-mul (pow_pos (8 * j))).1 (omega (arith, power, fits)) in
    let cap : 2 ^ bits ≤ 256 =
      pow-le-pow_right {n = 2} (omega arith) {i = bits} {j = 8} (omega (arith, partial)) in
    let digit : get_or xs j 0 ≡ value xs / 2 ^ (8 * j) =
      omega (arith, get_or-value xs j bytes, small, cap) in
    rw digit (mod-eq_of_lt small)

tight_top :
    (i : Bigint) (n w : ℕ)
    → i.bits < 8
    → size i ≡ n
    → All IsByte (trimmed i)
    → value (trimmed i) ≡ w
    → w < 2 ^ n
    → (ltb 0 i.bits && ltb 0 (get_or (trimmed i) i.bytes 0 % 2 ^ i.bits)) ≡ true
    → 2 ^ (8 * ((n + 7) / 8)) ≤ 256 * w
tight_top i n w partial width bytes number fits p =
    let digit =
      top_part (trimmed i) i.bytes i.bits n partial width bytes (omega (arith, number, fits)) in
    let some_bit : 1 ≤ get_or (trimmed i) i.bytes 0 % 2 ^ i.bits = ground (arith, p) in
    let q : ℕ = value (trimmed i) / 2 ^ (8 * i.bytes) in
    let bits_left : 1 ≤ i.bits = ground (arith, p) in
    let bytes_used : (n + 7) / 8 ≡ suc i.bytes = omega (arith, width, partial, bits_left) in
    let full_byte : 2 ^ (8 * ((n + 7) / 8)) ≤ 2 ^ (8 * i.bytes) * 256 =
      rw bytes_used (omega (arith, pow_byte i.bytes)) in
    omega (
      arith,
      full_byte,
      number,
      div-add-mod' (value (trimmed i)) (2 ^ (8 * i.bytes)),
      mul-le-mul_right {m = 1} {n = q} (2 ^ (8 * i.bytes)) (omega (arith, digit, some_bit)),
    )

top_number :
    (t : ℕ) (i : Bigint) (n w : ℕ)
    → 8 * t ≤ n
    → length (trimmed i) ≡ data_maxlen
    → All IsByte (trimmed i)
    → value (trimmed i) ≡ w
    → value (trimmed i) < 2 ^ (8 * t)
    → (t ≡ 0) ⊎ (2 ^ (8 * t) ≤ 256 * value (trimmed i))
    → (n' : ℕ) × Holds
        (record { bytes = t; bits = if t == 0 then 1 else 0; octets = trimmed i })
        n'
        w
      × (n' ≤ max 1 n)
      × Tight n' w
top_number zero i n w low full bytes number below top = (
  1,
  record {
    full = full;
    octets-IsByte = bytes;
    partial = omega arith;
    width = omega arith;
    number = number;
    fits = omega (arith, below, number);
  },
  omega arith,
  inl (omega arith),
)
top_number (suc t) i n w low full bytes number below (inl none) = absurd (omega (arith, none))
top_number (suc t) i n w low full bytes number below (inr top) = (
  8 * suc t,
  record {
    full = full;
    octets-IsByte = bytes;
    partial = ground arith;
    width = ground arith;
    number = number;
    fits = omega (arith, below, number);
  },
  omega arith,
  inr (
      let bytes_used : (8 * suc t + 7) / 8 ≡ suc t = omega arith in
      rw bytes_used (omega (arith, top, number))),
)

whole_bytes :
    (i : Bigint) (n w : ℕ)
    → i.bits < 8
    → size i ≡ n
    → All IsByte (trimmed i)
    → value (trimmed i) ≡ w
    → w < 2 ^ n
    → (ltb 0 i.bits && ltb 0 (get_or (trimmed i) i.bytes 0 % 2 ^ i.bits)) ≡ false
    → value (trimmed i) < 2 ^ (8 * i.bytes)
whole_bytes i n w partial width bytes number fits p =
    let digit =
      top_part (trimmed i) i.bytes i.bits n partial width bytes (omega (arith, number, fits)) in
    elim (Bool-cases (ltb 0 i.bits)) [
      | inl q ↦
          let empty : get_or (trimmed i) i.bytes 0 % 2 ^ i.bits ≡ 0 = ground (arith, p, q) in
          omega (
            arith,
            below-of_div_zero (value (trimmed i)) (2 ^ (8 * i.bytes)) (pow_pos (8 * i.bytes))
                (omega (arith, digit, empty)),
          )
      | inr q ↦ let e : n ≡ 8 * i.bytes = ground (arith, q, width) in rw (number, ← e) fits
    ]

pub normalize-Holds :
    (i : Bigint) (n : ℕ)
    → IsArray i n
    → n ≤ max_size
    → (n' : ℕ) × Holds (normalize i) n' (value i.octets % 2 ^ n)
      × (n' ≤ max 1 n)
      × Tight n' (value i.octets % 2 ^ n)
unfolding normalize
normalize-Holds i n h limit =
    let (full, bytes, number) = trimmed-Cut i n h limit in
    let w : ℕ = value i.octets % 2 ^ n in
    let fits : w < 2 ^ n = mod-lt (value i.octets) {m = 2 ^ n} (pow_pos n) in
    rw (normalized_octets i n h limit, mask_lem (get_or (trimmed i) i.bytes 0) i.bits)
      (elim (Bool-cases (ltb 0 i.bits && ltb 0 (get_or (trimmed i) i.bytes 0 % 2 ^ i.bits))) [
        | inl p ↦ rw p (
          n,
          record {
            full = full;
            octets-IsByte = bytes;
            partial = h.partial;
            width = h.width;
            number = number;
            fits = fits;
          },
          omega arith,
          inr (tight_top i n w h.partial h.width bytes number fits p),
        )
        | inr p ↦
            let (low, below, some_top) =
              top_byte-lem i.bytes (trimmed i) bytes
                (whole_bytes i n w h.partial h.width bytes number fits p) in
            rw p (
              top_number (top_byte i.bytes (trimmed i)) i n w (omega (arith, h.width, low)) full
                bytes number below some_top)
      ])
