-- ===== src/Crypto/Bigint/Ops/Remainder.antt =====
-- `bigint_div` on the numbers: what it stores.
use native.Mathlib.Nat.{add-mul-div_right, div-eq_of_lt, mod-eq_of_lt, zero-mod}
use esp8266_toolbox.Base.{
  ℕ, ◌+◌, ◌-◌, ◌*◌, ◌/◌, ◌%◌, ◌^◌, max, ◌<◌, ◌≤◌, ◌≡◌, refl, sym, ap, ◌∙◌, false, Bool-cases, inl,
  inr, ◌⊎◌, eq_of_test, ◌==◌, arith,
}
use esp8266_toolbox.Crypto.Bigint.{
  Bigint, bigint_copy, bigint_iszero, bigint_zero, error, normalize, ok, twos_comp,
}
use esp8266_toolbox.Crypto.Bigint.Ops.{bigint_div}
use esp8266_toolbox.Crypto.Bigint.Value.{value}
use esp8266_toolbox.Crypto.Bigint.Bits.{Holds, max_size, mod_of_sum}
use esp8266_toolbox.Crypto.Bigint.Trim.{IsArray, bigint_copy-Holds}
use esp8266_toolbox.Crypto.Bigint.Normalize.{normalize-Holds, Tight}
use esp8266_toolbox.Crypto.Bigint.Complement.{twos_comp-Holds}
use esp8266_toolbox.Crypto.Bigint.Ops.Multiply.{bigint_zero-Holds}
use esp8266_toolbox.Crypto.Bigint.Ops.Quotient.{quotient_bits}
use esp8266_toolbox.Crypto.Bigint.Ops.Compare.{bigint_iszero_lem}
use esp8266_toolbox.Crypto.Bigint.Ops.Rounds.{Divided, div_loop-Divided, width_bound}

-- The quotient and the remainder are the only ones.
divided_once : (x w q r : ℕ) → r < w → x ≡ q * w + r → (q ≡ x / w) × (r ≡ x % w)
divided_once x w q r below e =
    let pos : 1 ≤ w = omega (arith, below) in
    let e' : x ≡ r + q * w = omega (arith, e) in
    (
      sym (rw e' (add-mul-div_right r q pos ∙ omega (arith, div-eq_of_lt below))),
      sym (mod_of_sum x r q w (sym e') ∙ mod-eq_of_lt below),
    )

all_bits : (n x : ℕ) → quotient_bits n 0 x ≡ x % 2 ^ (n / 2 + 1)
unfolding quotient_bits
all_bits n x = let e : n / 2 + 1 - 0 ≡ n / 2 + 1 = omega arith in rw e (omega arith)

-- Before the first round.
undivided : (n x w : ℕ) → x < 2 ^ n → 1 ≤ w → Divided n x w n (bigint_zero, bigint_zero)
unfolding quotient_bits
undivided n x w fits pos =
    let none : 0 ≡ 0 % 2 ^ (n / 2 + 1 - n) * 2 ^ n =
      rw (zero-mod (2 ^ (n / 2 + 1 - n))) (omega arith) in
    record {
      count = 0;
      quotient = 0;
      remainder = 0;
      width = 1;
      rounds = omega arith;
      quotient-Holds = rw (← none) bigint_zero-Holds;
      remainder-Holds = bigint_zero-Holds;
      remainder-Narrow = inl (omega arith);
      division = omega (arith, div-eq_of_lt fits);
      below = pos;
    }

Holds-IsArray : (i : Bigint) (n v : ℕ) → Holds i n v → IsArray i n
Holds-IsArray i n v h = record {
  full = h.full;
  octets-IsByte = h.octets-IsByte;
  partial = h.partial;
  width = h.width;
}

-- An output of the division.
stored :
    (i : Bigint) (n v : ℕ)
    → Holds i n v
    → n ≤ max_size
    → (k : ℕ) × Holds (bigint_copy (normalize i)) k v × (k ≤ max 1 n) × Tight k v
stored i n v h cap =
    let (k, g, small, tight) = normalize-Holds i n (Holds-IsArray i n v h) cap in
    let same : value i.octets % 2 ^ n ≡ v = rw h.number (mod-eq_of_lt h.fits) in
    rw (← same) (k, bigint_copy-Holds (normalize i) k _ g (omega (arith, small, cap)), small, tight)

-- The outputs for a divisor that is not 0.
pub bigint_div-Holds :
    (a b : Bigint) (n m x w : ℕ)
    → Holds a n x
    → Holds b m w
    → 1 ≤ w
    → n + 3 ≤ max_size
    → m + 9 ≤ max_size
    → (q : Bigint) × (r : Bigint) × (j : ℕ) × (k : ℕ) × (bigint_div false a b ≡ ok (q, r))
      × Holds q j (x / w % 2 ^ (n / 2 + 1))
      × Holds r k (x % w)
      × Tight k (x % w)
unfolding bigint_div
bigint_div-Holds a b n m x w ha hb pos n-cap m-cap =
    let some_bit : bigint_iszero b ≡ false = bigint_iszero_lem b m w hb ∙ ground (arith, pos) in
    let hc =
      twos_comp-Holds (bigint_copy b) m w (bigint_copy-Holds b m w hb (omega (arith, m-cap)))
        (omega (arith, m-cap)) pos in
    let (qr, e, s) =
      div_loop-Divided a b (twos_comp (bigint_copy b)) n m x w ha hb hc n-cap m-cap n
        (bigint_zero, bigint_zero) (undivided n x w ha.fits pos) in
    let (quotient, remainder) =
      divided_once x w s.quotient s.remainder s.below (omega (arith, s.division)) in
    let (j, hq, _, _) =
      stored (qr.0) (s.count + 1) _ s.quotient-Holds (omega (arith, s.rounds, n-cap)) in
    let narrow =
      width_bound s.width (s.count + 1) m s.remainder s.remainder-Narrow
        (omega (arith, s.below, hb.fits)) in
    let (k, hr, _, tight) =
      stored (qr.1) s.width s.remainder s.remainder-Holds
        (omega (arith, narrow, s.rounds, n-cap, m-cap)) in
    let kept : quotient_bits n 0 s.quotient ≡ x / w % 2 ^ (n / 2 + 1) =
      all_bits n s.quotient ∙ ap (λ (t : ℕ). t % 2 ^ (n / 2 + 1)) quotient in
    (
      _,
      _,
      j,
      k,
      rw (some_bit, ha.width, e) refl,
      rw kept at hq,
      rw remainder at hr,
      rw remainder at tight,
    )

-- `bigint_div` by 0 is the error 2. By another number it stores the remainder, and the quotient cut to
-- its lowest `n / 2 + 1` bits, where the dividend has `n` bits: at most 1188, with at most 1182 for the
-- divisor.
pub bigint_div_lem :
    (a b : Bigint) (n m x w : ℕ)
    → Holds a n x
    → Holds b m w
    → n + 3 ≤ max_size
    → m + 9 ≤ max_size
    → ((w ≡ 0) × (bigint_div false a b ≡ error 2))
      ⊎ ((q : Bigint) × (r : Bigint) × (j : ℕ) × (k : ℕ) × (bigint_div false a b ≡ ok (q, r))
          × Holds q j (x / w % 2 ^ (n / 2 + 1))
          × Holds r k (x % w))
unfolding bigint_div
bigint_div_lem a b n m x w ha hb n-cap m-cap = elim (Bool-cases (w == 0)) [
  | inl p ↦
      inl (
        eq_of_test w 0 p,
        let zero_divisor = bigint_iszero_lem b m w hb in rw (zero_divisor, p) refl,
      )
  | inr p ↦
      let (q, r, j, k, e, hq, hr, _) =
        bigint_div-Holds a b n m x w ha hb (ground (arith, p)) n-cap m-cap in
      inr (q, r, j, k, e, hq, hr)
]
