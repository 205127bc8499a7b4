-- ===== src/Crypto/Bigint/Ops/Divide.antt =====
-- `bigint_div` on the numbers: the parts of a round of its loop.
use native.Mathlib.Nat.{mod-eq_of_lt, pow-le-pow_right}
use esp8266_toolbox.Base.{
  ℕ, suc, ◌+◌, ◌-◌, ◌*◌, ◌/◌, ◌%◌, ◌^◌, ◌<◌, ◌≤◌, ◌≡◌, refl, sym, ◌∙◌, true, false, Bool-cases, inl,
  inr, bit_or, ltb, leb, ◌==◌, length-set, get_or, arith,
}
use esp8266_toolbox.Base.Bits.{bit_or_disjoint, pow_facts, pow_split}
use esp8266_toolbox.Crypto.Bigint.{Bigint, data_maxlen, ok, size}
use esp8266_toolbox.Crypto.Bigint.Ops.{at_least, cut_to, equal, or_low, order_of, widen}
use esp8266_toolbox.Crypto.Bigint.Value.{
  get_or-IsByte, get_or-value, IsByte, set-IsByte, set-value, value,
}
use esp8266_toolbox.Crypto.Bigint.Bits.{Holds, max_size, mod_of_sum}
use esp8266_toolbox.Crypto.Bigint.Trim.{IsArray}
use esp8266_toolbox.Crypto.Bigint.Normalize.{normalize-Holds, Tight}

pub at_least_lem : (v w : ℕ) → at_least (order_of v w equal) ≡ leb w v
unfolding order_of at_least
at_least_lem v w = ground arith

-- The low bit of an even number.
pub or_low-Holds :
    (d : ℕ) (r : Bigint) (n v : ℕ)
    → Holds r n (2 * v)
    → d ≤ 1
    → 1 ≤ n
    → Holds (or_low d r) n (2 * v + d)
unfolding or_low
or_low-Holds d r n v h one wide =
    let x : ℕ = get_or r.octets 0 0 in
    let digit : x ≡ value r.octets / 2 ^ (8 * 0) % 256 = get_or-value r.octets 0 h.octets-IsByte in
    let even : x / 2 * 2 ≡ x = omega (arith, digit, h.number) in
    let y : bit_or x d ≡ x + d = rw (← even) (bit_or_disjoint 1 (x / 2) d (omega (arith, one))) in
    let written = set-value r.octets 0 (bit_or x d) (omega (arith, h.full)) in
    let below : IsByte (bit_or x d) =
      omega (arith, y, even, get_or-IsByte r.octets 0 h.octets-IsByte, one) in
    let double : 2 ^ n ≡ 2 ^ (n - 1) * 2 = sym (pow_split (n - 1) 1 n (omega (arith, wide))) in
    record {
      full = length-set r.octets 0 (bit_or x d) ∙ h.full;
      octets-IsByte = set-IsByte r.octets 0 (bit_or x d) h.octets-IsByte below;
      partial = h.partial;
      width = h.width;
      number = omega (arith, written, y, h.number);
      fits = omega (arith, h.fits, double, one);
    }

pub widen-Holds :
    (q : Bigint) (n v : ℕ)
    → Holds q n v
    → n < max_size
    → (q' : Bigint) × (widen q ≡ ok q') × Holds q' (suc n) v
unfolding widen
widen-Holds q n v h cap =
    let fits : v < 2 ^ suc n = omega (arith, h.fits, (pow_facts n).1) in
    elim (Bool-cases (q.bits + 1 == 8)) [
      | inl p ↦
          let p' : leb (data_maxlen - 1) (q.bytes + 1) ≡ false = ground (arith, p, h.width, cap) in
          rw (p, p')
            (
              _,
              refl,
              record {
                full = h.full;
                octets-IsByte = h.octets-IsByte;
                partial = omega arith;
                width = ground (arith, p, h.width);
                number = h.number;
                fits = fits;
              },
            )
      | inr p ↦ rw p (
        _,
        refl,
        record {
          full = h.full;
          octets-IsByte = h.octets-IsByte;
          partial = ground (arith, p, h.partial);
          width = omega (arith, h.width);
          number = h.number;
          fits = fits;
        },
      )
    ]

pub power_less : (m n : ℕ) → 2 ^ m < 2 ^ n → m < n
power_less m n h = elim (Bool-cases (ltb m n)) [
  | inl p ↦ ground (arith, p)
  | inr p ↦
      absurd (
        omega
          (arith, h, pow-le-pow_right {n = 2} (omega arith) {i = n} {j = m} (ground (arith, p))))
]

-- The sum with the complement, cut to the divisor's width.
pub cut_to-Holds :
    (b r : Bigint) (n m v w : ℕ)
    → Holds b m w
    → Holds r n (v + (2 ^ m - w))
    → w ≤ v
    → v < 2 * w
    → m ≤ max_size
    → (n' : ℕ) × Holds (cut_to b r) n' (v - w) × Tight n' (v - w)
unfolding cut_to
cut_to-Holds b r n m v w hb hr least most cap =
    let wide : m < n = power_less m n (omega (arith, hr.fits, least, hb.fits)) in
    let p : ltb (size b) (size r) ≡ true = ground (arith, hb.width, hr.width, wide) in
    let array : IsArray (record r { bytes = b.bytes; bits = b.bits }) m = record {
      full = hr.full;
      octets-IsByte = hr.octets-IsByte;
      partial = hb.partial;
      width = hb.width;
    } in
    let (n', h, small, tight) =
      normalize-Holds (record r { bytes = b.bytes; bits = b.bits }) m array cap in
    let e : value r.octets % 2 ^ m ≡ v - w =
      mod_of_sum (value r.octets) (v - w) 1 (2 ^ m) (omega (arith, hr.number, least, hb.fits))
      ∙ mod-eq_of_lt (omega (arith, hb.fits, least, most)) in
    rw (p, ← e) (n', h, tight)
