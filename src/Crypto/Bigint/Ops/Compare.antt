-- ===== src/Crypto/Bigint/Ops/Compare.antt =====
-- `bigint_cmp` and `bigint_iszero` on the numbers.
use native.Mathlib.Nat.{
  div-add-mod', div-div-eq-div-mul, div-eq_of_lt, div-lt_iff_lt-mul, mod-lt, mul-le-mul_right,
  pow-le-pow_right,
}
use esp8266_toolbox.Base.{
  ℕ, zero, suc, ◌+◌, ◌-◌, ◌*◌, ◌/◌, ◌%◌, ◌^◌, ◌<◌, ◌≤◌, ◌≡◌, refl, sym, ap, ◌∙◌, Bool-cases, inl,
  inr, ◌⊎◌, ltb, leb, ◌==◌, ◌&&◌, eq_of_test, if◌then◌else◌, List, [], ◌∷◌, get_or, take, arith,
}
use esp8266_toolbox.Base.Bits.{pow_facts, pow_split}
use esp8266_toolbox.Crypto.Bigint.{all_zero, Bigint, bigint_iszero}
use esp8266_toolbox.Crypto.Bigint.Ops.{
  any_bit, bigint_cmp, cmp_bits, cmp_bytes, equal, greater, less, Order, order_of,
}
use esp8266_toolbox.Crypto.Bigint.Value.{get_or-value, pow_byte, pow_pos, take-value, value}
use esp8266_toolbox.Crypto.Bigint.Bits.{bit, get_bit_lem, Holds, mask_lem}
use esp8266_toolbox.Crypto.Bigint.Normalize.{below-of_div_zero, top_part}

-- Whether bits from `low` on are set, where the number has none from `low + n` on.
any_bit_lem :
    (n low : ℕ) (i : Bigint) (m v : ℕ)
    → Holds i m v
    → v < 2 ^ (low + n)
    → any_bit n low i ≡ leb (2 ^ low) v
unfolding any_bit
any_bit_lem zero low i m v h fits =
    let e : 2 ^ (low + 0) ≡ 2 ^ low = ap (λ (t : ℕ). 2 ^ t) (omega arith) in ground (arith, fits, e)
any_bit_lem (suc n) low i m v h fits =
    let found = get_bit_lem i m v (low + n) h in
    let next : 2 ^ (low + suc n) ≡ 2 ^ (low + n) * 2 =
      let e : low + suc n ≡ suc (low + n) = omega arith in rw e ((pow_facts (low + n)).1) in
    let two : v / 2 ^ (low + n) < 2 =
      (div-lt_iff_lt-mul (pow_pos (low + n))).1 (omega (arith, fits, next)) in
    elim (Bool-cases (bit v (low + n) == 1)) [
      | inl p ↦
          let q : v / 2 ^ (low + n) ≡ 1 = ground (arith, p, two) in
          let large : 2 ^ (low + n) ≤ v =
            omega (arith, div-add-mod' v (2 ^ (low + n)), ap (λ (t : ℕ). t * 2 ^ (low + n)) q) in
          let least : 2 ^ low ≤ 2 ^ (low + n) =
            pow-le-pow_right {n = 2} (omega arith) {i = low} {j = low + n} (omega arith) in
          rw (found, p) (ground (arith, large, least))
      | inr p ↦
          let q : v / 2 ^ (low + n) ≡ 0 = ground (arith, p, two) in
          rw (found, p)
            (any_bit_lem n low i m v h (below-of_div_zero v (2 ^ (low + n)) (pow_pos (low + n)) q))
    ]

-- What decides is the high part, and the low part where the high parts are the same.
high_less : (v w p : ℕ) → 1 ≤ p → w / p < v / p → w < v
high_less v w p pos h = omega (
  arith,
  div-add-mod' v p,
  div-add-mod' w p,
  mod-lt w {m = p} pos,
  mul-le-mul_right {m = w / p + 1} {n = v / p} p (omega (arith, h)),
)

order_of_less : (l r : ℕ) (rest : Order) → l < r → order_of l r rest ≡ less
unfolding order_of
order_of_less l r rest h = ground (arith, h)

order_of_greater : (l r : ℕ) (rest : Order) → r < l → order_of l r rest ≡ greater
unfolding order_of
order_of_greater l r rest h = ground (arith, h)

order_of_same : (l r : ℕ) (rest : Order) → l ≡ r → order_of l r rest ≡ rest
unfolding order_of
order_of_same l r rest h = ground (arith, h)

compare_cases : (l r : ℕ) → (l < r) ⊎ ((l ≡ r) ⊎ (r < l))
compare_cases l r = elim (Bool-cases (ltb l r)) [
  | inl p ↦ inl (ground (arith, p))
  | inr p ↦ elim (Bool-cases (ltb r l)) [
    | inl q ↦ inr (inr (ground (arith, q)))
    | inr q ↦ inr (inl (ground (arith, p, q)))
  ]
]

order_by_high :
    (v w p : ℕ) (rest : Order)
    → 1 ≤ p
    → (v / p ≡ w / p → rest ≡ order_of v w equal)
    → order_of (v / p) (w / p) rest ≡ order_of v w equal
order_by_high v w p rest pos h = elim (compare_cases (v / p) (w / p)) [
  | inl a ↦
      order_of_less (v / p) (w / p) rest a ∙ sym (order_of_less v w equal (high_less w v p pos a))
  | inr (inl a) ↦ order_of_same (v / p) (w / p) rest a ∙ h a
  | inr (inr a) ↦
      order_of_greater (v / p) (w / p) rest a
      ∙ sym (order_of_greater v w equal (high_less v w p pos a))
]

order_of_digits :
    (a b base : ℕ) (rest : Order)
    → a / base ≡ b / base
    → order_of (a % base) (b % base) rest ≡ order_of a b rest
order_of_digits a b base rest e =
    let whole : a / base * base ≡ b / base * base = ap (λ (t : ℕ). t * base) e in
    elim (compare_cases a b) [
      | inl h ↦
          order_of_less (a % base) (b % base) rest
            (omega (arith, h, whole, div-add-mod' a base, div-add-mod' b base))
          ∙ sym (order_of_less a b rest h)
      | inr (inl h) ↦
          order_of_same (a % base) (b % base) rest (ap (λ (t : ℕ). t % base) h)
          ∙ sym (order_of_same a b rest h)
      | inr (inr h) ↦
          order_of_greater (a % base) (b % base) rest
            (omega (arith, h, whole, div-add-mod' a base, div-add-mod' b base))
          ∙ sym (order_of_greater a b rest h)
    ]

-- One digit decides, or what follows where the numbers from it on are the same.
order_step :
    (v w p base : ℕ) (rest : Order)
    → 1 ≤ p
    → v / (p * base) ≡ w / (p * base)
    → (v / p ≡ w / p → rest ≡ order_of v w equal)
    → order_of (v / p % base) (w / p % base) rest ≡ order_of v w equal
order_step v w p base rest pos e h =
    order_of_digits (v / p) (w / p) base rest
      (div-div-eq-div-mul v p base ∙ e ∙ sym (div-div-eq-div-mul w p base))
    ∙ order_by_high v w p rest pos h

bits_when_small : (n v w : ℕ) → v < 2 ^ n → w < 2 ^ n → v / 2 ^ n ≡ w / 2 ^ n
bits_when_small n v w a b = div-eq_of_lt a ∙ sym (div-eq_of_lt b)

module _ (i j : Bigint) (m k v w : ℕ) (h : Holds i m v) (g : Holds j k w) where
  digit_of : (n : ℕ) → get_or i.octets n 0 ≡ v / 2 ^ (8 * n) % 256
  digit_of n = rw (← h.number) (get_or-value i.octets n h.octets-IsByte)

  digit_of' : (n : ℕ) → get_or j.octets n 0 ≡ w / 2 ^ (8 * n) % 256
  digit_of' n = rw (← g.number) (get_or-value j.octets n g.octets-IsByte)

  cmp_bytes_lem :
      (n : ℕ) → v / 2 ^ (8 * suc n) ≡ w / 2 ^ (8 * suc n) → cmp_bytes n i j ≡ order_of v w equal
  unfolding cmp_bytes
  cmp_bytes_lem zero e =
      rw (digit_of 0, digit_of' 0)
        (order_step v w (2 ^ (8 * 0)) 256 equal (pow_pos 0) e
          (λ same. sym (order_of_same v w equal (omega (arith, same)))))
  cmp_bytes_lem (suc n) e =
      let e' : v / (2 ^ (8 * suc n) * 256) ≡ w / (2 ^ (8 * suc n) * 256) =
        rw (← pow_byte (suc n)) e in
      rw (digit_of (suc n), digit_of' (suc n))
        (order_step v w (2 ^ (8 * suc n)) 256 (cmp_bytes n i j) (pow_pos (8 * suc n)) e'
          (λ same. cmp_bytes_lem n same))

  -- From a byte's first bit on, the bytes are left.
  to_byte : (k : ℕ) → k % 8 ≡ 0 → 2 ^ suc k * 2 ^ 7 ≡ 2 ^ (8 * suc (k / 8))
  to_byte k e = pow_split (suc k) 7 (8 * suc (k / 8)) (omega (arith, e))

  cmp_bits_lem : (n : ℕ) → v / 2 ^ n ≡ w / 2 ^ n → cmp_bits n i j ≡ order_of v w equal
  unfolding cmp_bits
  cmp_bits_lem zero e = cmp_bytes_lem 0 (omega (arith, e))
  cmp_bits_lem (suc n) e = elim (Bool-cases (n % 8 == 0)) [
    | inl p ↦
        let high : v / 2 ^ (8 * suc (n / 8)) ≡ w / 2 ^ (8 * suc (n / 8)) =
          rw (← to_byte n (eq_of_test (n % 8) 0 p)) (
            sym (div-div-eq-div-mul v (2 ^ suc n) (2 ^ 7))
            ∙ ap (λ (t : ℕ). t / 2 ^ 7) e
            ∙ div-div-eq-div-mul w (2 ^ suc n) (2 ^ 7)) in
        rw p (cmp_bytes_lem (n / 8) high)
    | inr p ↦
        let e' : v / (2 ^ n * 2) ≡ w / (2 ^ n * 2) = rw (← (pow_facts n).1) e in
        rw (p, get_bit_lem i m v n h, get_bit_lem j k w n g)
          (order_step v w (2 ^ n) 2 (cmp_bits n i j) (pow_pos n) e' (λ same. cmp_bits_lem n same))
  ]

  wider_first :
      k ≤ m → (if any_bit (m - k) k i then greater else cmp_bits k i j) ≡ order_of v w equal
  wider_first wide =
      let whole : v < 2 ^ (k + (m - k)) =
        let e : m ≡ k + (m - k) = omega (arith, wide) in rw (← e) h.fits in
      let found = any_bit_lem (m - k) k i m v h whole in
      elim (Bool-cases (leb (2 ^ k) v)) [
        | inl p ↦ rw (found, p) (sym (order_of_greater v w equal (ground (arith, p, g.fits))))
        | inr p ↦ rw (found, p) (cmp_bits_lem k (bits_when_small k v w (ground (arith, p)) g.fits))
      ]

  wider_second : m ≤ k → (if any_bit (k - m) m j then less else cmp_bits m i j) ≡ order_of v w equal
  wider_second wide =
      let whole : w < 2 ^ (m + (k - m)) =
        let e : k ≡ m + (k - m) = omega (arith, wide) in rw (← e) g.fits in
      let found = any_bit_lem (k - m) m j k w g whole in
      elim (Bool-cases (leb (2 ^ m) w)) [
        | inl p ↦ rw (found, p) (sym (order_of_less v w equal (ground (arith, p, h.fits))))
        | inr p ↦ rw (found, p) (cmp_bits_lem m (bits_when_small m v w h.fits (ground (arith, p))))
      ]

  same_width : m ≡ k → cmp_bits m i j ≡ order_of v w equal
  same_width e = cmp_bits_lem m (bits_when_small m v w h.fits (rw e g.fits))

pub bigint_cmp_lem :
    (i j : Bigint) (m k v w : ℕ) → Holds i m v → Holds j k w → bigint_cmp i j ≡ order_of v w equal
unfolding bigint_cmp
bigint_cmp_lem i j m k v w h g =
    rw (h.width, g.width)
      (elim (Bool-cases (ltb k m)) [
        | inl p ↦ rw p (wider_first i j m k v w h g (ground (arith, p)))
        | inr p ↦ elim (Bool-cases (ltb m k)) [
          | inl q ↦ rw (p, q) (wider_second i j m k v w h g (ground (arith, q)))
          | inr q ↦ rw (p, q) (same_width i j m k v w h g (ground (arith, p, q)))
        ]
      ])

-- `bigint_cmp` of two Bigints that hold numbers is -1, 0 or 1 as the first number is less than the
-- second, the same or greater, whatever the widths of the two are.
pub bigint_cmp_cases :
    (i j : Bigint) (m k v w : ℕ)
    → Holds i m v
    → Holds j k w
    → ((v < w) × (bigint_cmp i j ≡ less))
      ⊎ (((v ≡ w) × (bigint_cmp i j ≡ equal)) ⊎ ((w < v) × (bigint_cmp i j ≡ greater)))
bigint_cmp_cases i j m k v w h g =
    let e = bigint_cmp_lem i j m k v w h g in
    elim (compare_cases v w) [
      | inl c ↦ inl (c, e ∙ order_of_less v w equal c)
      | inr (inl c) ↦ inr (inl (c, e ∙ order_of_same v w equal c))
      | inr (inr c) ↦ inr (inr (c, e ∙ order_of_greater v w equal c))
    ]

-- A number is 0 where its bytes are.
all_zero_lem : (n : ℕ) (xs : List ℕ) → all_zero n xs ≡ (value (take n xs) == 0)
unfolding all_zero value
all_zero_lem zero xs = refl
all_zero_lem (suc n) [] = refl
all_zero_lem (suc n) (x ∷ xs) = ground (arith, all_zero_lem n xs)

zero_parts : (v p : ℕ) → 1 ≤ p → (v % p == 0 && leb (v / p) 0) ≡ (v == 0)
zero_parts v p pos = ground (
  arith,
  div-add-mod' v p,
  mul-le-mul_right {m = 1} {n = v / p} p,
  ap (λ (t : ℕ). t * p) {x = v / p} {y = 0},
)

pub bigint_iszero_lem : (i : Bigint) (m v : ℕ) → Holds i m v → bigint_iszero i ≡ (v == 0)
unfolding bigint_iszero
bigint_iszero_lem i m v h =
    let low = take-value i.bytes i.octets h.octets-IsByte in
    let high =
      top_part i.octets i.bytes i.bits m h.partial h.width h.octets-IsByte
        (omega (arith, h.number, h.fits)) in
    rw
      (
        all_zero_lem i.bytes i.octets,
        mask_lem (get_or i.octets i.bytes 0) i.bits,
        low,
        high,
        h.number,
      )
      (elim (Bool-cases (ltb 0 i.bits)) [
        | inl p ↦ rw p (zero_parts v (2 ^ (8 * i.bytes)) (pow_pos (8 * i.bytes)))
        | inr p ↦
            let e : m ≡ 8 * i.bytes = ground (arith, p, h.width) in
            let small : v < 2 ^ (8 * i.bytes) = rw (← e) h.fits in
            let none : v / 2 ^ (8 * i.bytes) ≡ 0 = div-eq_of_lt small in
            let both = zero_parts v (2 ^ (8 * i.bytes)) (pow_pos (8 * i.bytes)) in
            rw p (ap (λ (t : ℕ). v % 2 ^ (8 * i.bytes) == 0 && leb t 0) (sym none) ∙ both)
      ])
