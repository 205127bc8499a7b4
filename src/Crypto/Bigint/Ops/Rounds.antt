-- ===== src/Crypto/Bigint/Ops/Rounds.antt =====
-- `bigint_div` on the numbers: the rounds of its loop.
use esp8266_toolbox.Base.{
  ℕ, zero, suc, ◌+◌, ◌-◌, ◌*◌, ◌/◌, ◌^◌, max, ◌<◌, ◌≤◌, ◌≡◌, refl, ap, ◌∙◌, Bool, false, Bool-cases,
  inl, inr, ◌⊎◌, leb, if◌then◌else◌, arith,
}
use esp8266_toolbox.Base.Bits.{pow_split}
use esp8266_toolbox.Crypto.Bigint.{Bigint, get_bit, left_shift, ok, set_bit}
use esp8266_toolbox.Crypto.Bigint.Ops.{
  at_least, bigint_cmp, div_loop, cut_to, div_step, itself, or_low, other, subtract, widen,
}
use esp8266_toolbox.Crypto.Bigint.Bits.{bit, get_bit_lem, Holds, max_size}
use esp8266_toolbox.Crypto.Bigint.Shift.{left_shift-Holds}
use esp8266_toolbox.Crypto.Bigint.Normalize.{Tight, tight_width}
use esp8266_toolbox.Crypto.Bigint.Ops.Divide.{
  at_least_lem, cut_to-Holds, or_low-Holds, power_less, widen-Holds,
}
use esp8266_toolbox.Crypto.Bigint.Ops.Quotient.{clear_digit, quotient_bits, set_digit}
use esp8266_toolbox.Crypto.Bigint.Ops.Compare.{bigint_cmp_lem}
use esp8266_toolbox.Crypto.Bigint.Ops.Add.{bigint_add-Holds}
use esp8266_toolbox.Crypto.Bigint.Ops.AddLoop.{half_power}

-- A width that grew from the start, or that is near the number's own.
abbrev pub Narrow : ℕ → ℕ → ℕ → Type 0
Narrow k c v = (k ≤ c) ⊎ (2 ^ k ≤ 256 * v)

-- Before the last `i` rounds of a division of `x`, of `n` bits, by `w`.
pub record Divided (n x w i : ℕ) (qr : Bigint × Bigint) : Type 0 where
  pub count : ℕ
  pub quotient : ℕ
  pub remainder : ℕ
  pub width : ℕ
  pub rounds : count + i ≡ n
  pub quotient-Holds : Holds (qr.0) (count + 1) (quotient_bits n i quotient)
  pub remainder-Holds : Holds (qr.1) width remainder
  pub remainder-Narrow : Narrow width (count + 1) remainder
  pub division : x / 2 ^ i ≡ quotient * w + remainder
  pub below : remainder < w

pub width_bound : (k c m v : ℕ) → Narrow k c v → v < 2 ^ m → k ≤ max c (m + 7)
width_bound k c m v (inl h) fits = omega (arith, h)
width_bound k c m v (inr h) fits =
    let e = pow_split m 8 (m + 8) refl in
    omega (arith, power_less k (m + 8) (omega (arith, h, e, fits)))

pub subtract-Holds :
    (i : ℕ) (b bc q r : Bigint) (k m v w : ℕ)
    → Holds b m w
    → Holds bc m (2 ^ m - w)
    → Holds r k v
    → w ≤ v
    → v < 2 * w
    → max k m < max_size
    → (r' : Bigint) × (k' : ℕ) × (subtract i b bc q r ≡ ok (set_bit q i, r'))
      × Holds r' k' (v - w)
      × Tight k' (v - w)
unfolding subtract
subtract-Holds i b bc q r k m v w hb hc hr least most room =
    let (s, n, e1, h1, small) =
      bigint_add-Holds r itself (other bc) k v k m v (2 ^ m - w) hr hr hc (omega (arith, room))
        room in
    let (n', h2, tight) = cut_to-Holds b s n m v w hb h1 least most (omega (arith, room)) in
    let p : leb w (v - w) ≡ false = ground (arith, least, most) in
    let ordered : at_least (bigint_cmp (cut_to b s) b) ≡ false =
      ap at_least (bigint_cmp_lem (cut_to b s) b n' m (v - w) w h2 hb)
      ∙ at_least_lem (v - w) w
      ∙ p in
    (cut_to b s, n', rw (e1, ordered) refl, h2, tight)

-- The number's next bit goes to what is divided.
pub next_dividend :
    (x w i q r : ℕ) → x / 2 ^ suc i ≡ q * w + r → x / 2 ^ i ≡ 2 * q * w + (2 * r + bit x i)
next_dividend x w i q r e =
    let half = half_power x i in
    let digits : x / 2 ^ i / 2 * 2 + bit x i ≡ x / 2 ^ i = omega arith in
    grind (arith, half, e, digits)

pub shifted-Narrow : (k c v d : ℕ) → Narrow k c v → Narrow (k + 1) (c + 1) (2 * v + d)
shifted-Narrow k c v d (inl h) = inl (omega (arith, h))
shifted-Narrow k c v d (inr h) = inr (omega (arith, h, pow_split k 1 (k + 1) refl))

pub div_step_lem :
    (i d : ℕ) (a b bc q q' r shifted : Bigint) (large : Bool)
    → left_shift r ≡ ok shifted
    → get_bit a i ≡ d
    → widen q ≡ ok q'
    → at_least (bigint_cmp (or_low d shifted) b) ≡ large
    → div_step i a b bc (q, r)
      ≡ (if large then subtract i b bc q' (or_low d shifted) else ok (q', or_low d shifted))
unfolding div_step
div_step_lem i d a b bc q q' r shifted large e1 e2 e3 e4 = rw (e1, e2, e3, e4) refl

module _ (a b bc : Bigint) (n m x w : ℕ) (ha : Holds a n x) (hb : Holds b m w)
    (hc : Holds bc m (2 ^ m - w)) (n-cap : n + 3 ≤ max_size) (m-cap : m + 9 ≤ max_size) where
  pub div_step-Divided :
      (i : ℕ) (qr : Bigint × Bigint)
      → Divided n x w (suc i) qr
      → (next : Bigint × Bigint) × (div_step i a b bc qr ≡ ok next) × Divided n x w i next
  div_step-Divided i (q, r) s =
      let narrow =
        width_bound s.width (s.count + 1) m s.remainder s.remainder-Narrow
          (omega (arith, s.below, hb.fits)) in
      let cap : s.width ≤ max (n + 1) (m + 7) = omega (arith, narrow, s.rounds) in
      let (shifted, e1, h1) =
        left_shift-Holds r s.width s.remainder s.remainder-Holds
          (omega (arith, cap, n-cap, m-cap)) in
      let one : bit x i ≤ 1 = omega arith in
      let v : ℕ = 2 * s.remainder + bit x i in
      let h2 = or_low-Holds (bit x i) shifted (s.width + 1) s.remainder h1 one (omega arith) in
      let (q', e3, h3) =
        widen-Holds q (s.count + 1) (quotient_bits n (suc i) s.quotient) s.quotient-Holds
          (omega (arith, s.rounds, n-cap)) in
      let dividend = next_dividend x w i s.quotient s.remainder s.division in
      let compared : at_least (bigint_cmp (or_low (bit x i) shifted) b) ≡ leb w v =
        ap at_least (bigint_cmp_lem (or_low (bit x i) shifted) b (s.width + 1) m v w h2 hb)
        ∙ at_least_lem v w in
      let step =
        div_step_lem i (bit x i) a b bc q q' r shifted (leb w v) e1 (get_bit_lem a n x i ha) e3
          compared in
      let again : suc (s.count + 1) ≡ suc s.count + 1 = omega arith in
      let rounds : suc s.count + i ≡ n = omega (arith, s.rounds) in
      elim (Bool-cases (leb w v)) [
        | inl p ↦
            let (r', k', e4, h4, tight) =
              subtract-Holds i b bc q' (or_low (bit x i) shifted) (s.width + 1) m v w hb hc h2
                (ground (arith, p)) (omega (arith, s.below, one))
                (omega (arith, cap, n-cap, m-cap)) in
            (
              (set_bit q' i, r'),
              step ∙ rw p e4,
              record {
                count = suc s.count;
                quotient = 2 * s.quotient + 1;
                remainder = v - w;
                width = k';
                rounds = rounds;
                quotient-Holds =
                    set_digit n i s.quotient (suc s.count) q' (rw again at h3) rounds
                      (omega (arith, s.rounds, n-cap));
                remainder-Holds = h4;
                remainder-Narrow = elim (tight_width k' (v - w) tight) [
                  | inl a ↦ inl (omega (arith, a))
                  | inr a ↦ inr a
                ];
                division = grind (arith, dividend, p);
                below = omega (arith, s.below, one);
              },
            )
        | inr p ↦ (
          (q', or_low (bit x i) shifted),
          step ∙ rw p refl,
          record {
            count = suc s.count;
            quotient = 2 * s.quotient;
            remainder = v;
            width = s.width + 1;
            rounds = rounds;
            quotient-Holds = rw (← again, ← clear_digit n i s.quotient) h3;
            remainder-Holds = h2;
            remainder-Narrow =
                elim (shifted-Narrow s.width (s.count + 1) s.remainder (bit x i)
                  s.remainder-Narrow) [ inl a ↦ inl (omega (arith, a)) | inr a ↦ inr a ];
            division = dividend;
            below = ground (arith, p);
          },
        )
      ]

  pub div_loop-Divided :
      (i : ℕ) (qr : Bigint × Bigint)
      → Divided n x w i qr
      → (end : Bigint × Bigint) × (div_loop i a b bc qr ≡ ok end) × Divided n x w 0 end
  unfolding div_loop
  div_loop-Divided zero qr s = (qr, refl, s)
  div_loop-Divided (suc i) qr s =
      let (next, e, s') = div_step-Divided i qr s in
      let (end, e', s'') = div_loop-Divided i next s' in (end, rw e e', s'')
