-- ===== src/Crypto/Bigint/Shift.antt =====
-- `LEFT_SHIFT` doubles the number and widens it by a bit.
use native.Mathlib.Nat.{pow-le-pow_right}
use esp8266_toolbox.Base.{
  ℕ, zero, suc, ◌+◌, ◌-◌, ◌*◌, ◌/◌, ◌%◌, ◌^◌, ◌<◌, ◌≡◌, refl, ap, ◌∙◌, false, Bool-cases, inl, inr,
  leb, bit_and, bit_or, ◌==◌, List, [], ◌∷◌, length, All, arith,
}
use esp8266_toolbox.Base.Bits.{◌<<<◌, ◌>>>◌, u8, bit_and_ones, bit_or_disjoint, pow_split}
use esp8266_toolbox.Crypto.Bigint.{Bigint, data_maxlen, left_shift, ok, shift_octets}
use esp8266_toolbox.Crypto.Bigint.Value.{IsByte, pow_byte, value}
use esp8266_toolbox.Crypto.Bigint.Bits.{Holds, max_size}

shifted_byte : (x lb : ℕ) → lb < 2 → u8 (bit_or (x <<< 1) lb) ≡ (x * 2 + lb) % 256
shifted_byte x lb h = rw (bit_or_disjoint 1 x lb h) refl

top_bit : (x : ℕ) → x < 256 → bit_and (x >>> 7) 1 ≡ x / 128
top_bit x h = bit_and_ones 1 (x >>> 7) ∙ omega arith

shift_octets-lem :
    (n lb : ℕ) (xs : List ℕ)
    → lb < 2
    → All IsByte xs
    → n < length xs
    → value xs < 2 ^ (8 * n) * 128
    → (value (shift_octets n lb xs) ≡ 2 * value xs + lb)
      × (length (shift_octets n lb xs) ≡ length xs)
      × All IsByte (shift_octets n lb xs)
unfolding value shift_octets
shift_octets-lem n lb [] hl h inside fits = absurd (omega arith)
shift_octets-lem zero lb (x ∷ xs) hl (hx, h) inside fits =
    rw (shifted_byte x lb hl) (omega (arith, fits), refl, (omega arith, h))
shift_octets-lem (suc n) lb (x ∷ xs) hl (hx, h) inside fits =
    let next = top_bit x hx in
    let (number, len, bytes) =
      shift_octets-lem n (x / 128) xs (omega arith) h (omega (arith, inside))
        (omega (arith, fits, pow_byte n)) in
    rw (shifted_byte x lb hl, next) (omega (arith, number), ap suc len, (omega arith, bytes))

-- The result, for a number that fits the array after the shift; one bit more is an overflow.
pub left_shift-Holds :
    (i : Bigint) (n v : ℕ)
    → Holds i n v
    → n < max_size
    → (i' : Bigint) × (left_shift i ≡ ok i') × Holds i' (n + 1) (2 * v)
unfolding left_shift
left_shift-Holds i n v h cap =
    let bound : value i.octets < 2 ^ (8 * i.bytes) * 128 = omega (
      arith,
      h.number,
      h.fits,
      pow-le-pow_right {n = 2} (omega arith) {i = n} {j = 8 * i.bytes + 7}
          (omega (arith, h.width, h.partial)),
      pow_split (8 * i.bytes) 7 (8 * i.bytes + 7) refl,
    ) in
    let (number, len, bytes) =
      shift_octets-lem i.bytes 0 i.octets (omega arith) h.octets-IsByte
        (omega (arith, h.width, h.full)) bound in
    let fits : 2 * v < 2 ^ (n + 1) = omega (arith, h.fits, pow_split n 1 (n + 1) refl) in
    elim (Bool-cases (i.bits + 1 == 8)) [
      | inl p ↦
          let q : leb (data_maxlen - 1) (i.bytes + 1) ≡ false = ground (arith, p, h.width) in
          rw (p, q)
            (
              _,
              refl,
              record {
                full = len ∙ h.full;
                octets-IsByte = bytes;
                partial = omega arith;
                width = ground (arith, p, h.width);
                number = omega (arith, number, h.number);
                fits = fits;
              },
            )
      | inr p ↦ rw p (
        _,
        refl,
        record {
          full = len ∙ h.full;
          octets-IsByte = bytes;
          partial = ground (arith, p, h.partial);
          width = omega (arith, h.width);
          number = omega (arith, number, h.number);
          fits = fits;
        },
      )
    ]
