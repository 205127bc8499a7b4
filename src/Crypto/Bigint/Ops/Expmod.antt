-- ===== src/Crypto/Bigint/Ops/Expmod.antt =====
-- `bigint_expmod` and `rsa_pubkey_decrypt` on the numbers.
use native.Mathlib.Nat.{
  add-mul-mod_self_right, div-add-mod', div-eq_of_lt, mod-lt, mod-mod, mod-eq_of_lt, mul_comm,
  pow-suc, pow-zero,
}
use esp8266_toolbox.Base.{
  ℕ, zero, suc, ◌+◌, ◌*◌, ◌/◌, ◌%◌, ◌^◌, ◌<◌, ◌≤◌, ◌≡◌, refl, sym, ap, ◌∙◌, Bool-cases, inl, inr,
  ◌⊎◌, false, ltb, arith,
}
use esp8266_toolbox.Crypto.Bigint.{Bigint, bigint_copy, bigint_zero, error, ok, set_bit}
use esp8266_toolbox.Crypto.Bigint.Ops.{
  bigint_expmod, expmod_loop, mul_mod, multiply_if, rsa_pubkey_decrypt,
}
use esp8266_toolbox.Crypto.Bigint.Bits.{bit, get_bit_lem, Holds, max_size, set_bit-Holds}
use esp8266_toolbox.Crypto.Bigint.Trim.{bigint_copy-Holds}
use esp8266_toolbox.Crypto.Bigint.Normalize.{Tight, tight_width}
use esp8266_toolbox.Crypto.Bigint.Ops.AddLoop.{half_power}
use esp8266_toolbox.Crypto.Bigint.Ops.Multiply.{bigint_mul-Holds, bigint_zero-Holds}
use esp8266_toolbox.Crypto.Bigint.Ops.Remainder.{bigint_div-Holds}
use esp8266_toolbox.Crypto.Bigint.Ops.Rounds.{width_bound}

-- Factors count up to their remainders.
factor_mod : (x y c : ℕ) → x * y % c ≡ x % c * y % c
factor_mod x y c =
    let whole : x % c * y + x / c * y * c ≡ x * y =
      grind (arith, ap (λ (t : ℕ). t * y) (div-add-mod' x c)) in
    ap (λ (t : ℕ). t % c) (sym whole) ∙ add-mul-mod_self_right (x % c * y) (x / c * y) c

product_mod : (x y x' y' c : ℕ) → x % c ≡ x' % c → y % c ≡ y' % c → x * y % c ≡ x' * y' % c
product_mod x y x' y' c e e' =
    factor_mod x y c
    ∙ ap (λ (t : ℕ). t * y % c) e
    ∙ sym (factor_mod x' y c)
    ∙ ap (λ (t : ℕ). t % c) (mul_comm x' y)
    ∙ factor_mod y x' c
    ∙ ap (λ (t : ℕ). t * x' % c) e'
    ∙ sym (factor_mod y' x' c)
    ∙ ap (λ (t : ℕ). t % c) (mul_comm y' x')

power_add : (x m n : ℕ) → x ^ (m + n) ≡ x ^ m * x ^ n
power_add x m zero = let e : m + 0 ≡ m = omega arith in rw (e, pow-zero x) (omega arith)
power_add x m (suc n) =
    let e : m + suc n ≡ suc (m + n) = omega arith in
    rw (e, pow-suc x (m + n), power_add x m n, pow-suc x n) (grind arith)

-- A remainder's width.
abbrev room : ℕ → ℕ
room m = m + 7

module _ (c : Bigint) (m w : ℕ) (hc : Holds c m w) (pos : 1 ≤ w) (cap : m ≤ 586) where
  remainder_width : (k v : ℕ) → Tight k (v % w) → k ≤ room m
  remainder_width k v tight =
      let below : v % w < w = mod-lt v {m = w} pos in
      omega (
        arith,
        width_bound k 1 m (v % w) (tight_width k (v % w) tight) (omega (arith, below, hc.fits)),
      )

  mul_mod-Holds :
      (x y : Bigint) (k l v u : ℕ)
      → Holds x k v
      → Holds y l u
      → k ≤ room m
      → l ≤ room m
      → (r : Bigint) × (j : ℕ) × (mul_mod x y c ≡ ok r)
        × Holds r j (v * u % w)
        × (j ≤ room m)
        × Tight j (v * u % w)
  unfolding mul_mod
  mul_mod-Holds x y k l v u hx hy wide wide' =
      let (p, n, e1, h1, narrow) =
        bigint_mul-Holds x y k l v u hx hy (omega (arith, wide, wide', cap)) in
      let (q, r, _, j, e2, _, h2, tight) =
        bigint_div-Holds p c n m (v * u) w h1 hc pos (omega (arith, narrow, wide, wide', cap))
          (omega (arith, cap)) in
      (r, j, rw (e1, e2) refl, h2, remainder_width j (v * u) tight, tight)

  multiply_if-Holds :
      (d : ℕ) (r x : Bigint) (k l v u : ℕ)
      → Holds r k (v % w)
      → Holds x l u
      → k ≤ room m
      → l ≤ room m
      → Tight l u
      → d ≤ 1
      → (x' : Bigint) × (j : ℕ) × (u' : ℕ) × (multiply_if d r c x ≡ ok x')
        × Holds x' j u'
        × (j ≤ room m)
        × Tight j u'
        × (u' % w ≡ u * v ^ d % w)
        × (u < w → u' < w)
  unfolding multiply_if
  multiply_if-Holds zero r x k l v u hr hx wide wide' tight one =
      let e : u ≡ u * v ^ 0 = rw (pow-zero v) (omega arith) in
      (x, l, u, refl, hx, wide', tight, ap (λ (t : ℕ). t % w) e, λ h. h)
  multiply_if-Holds (suc zero) r x k l v u hr hx wide wide' _ one =
      let (x', j, e, h, narrow, tight) = mul_mod-Holds x r l k u (v % w) hx hr wide' wide in
      let same : v ≡ v ^ 1 = rw (pow-suc v 0, pow-zero v) (omega arith) in
      (
        x',
        j,
        u * (v % w) % w,
        e,
        h,
        narrow,
        tight,
        mod-mod (u * (v % w)) w
            ∙ product_mod u (v % w) u (v ^ 1) w refl (mod-mod v w ∙ ap (λ (t : ℕ). t % w) same),
        λ _. mod-lt (u * (v % w)) {m = w} pos,
      )
  multiply_if-Holds (suc (suc d)) r x k l v u hr hx wide wide' tight one =
      absurd (omega (arith, one))

  -- A power with one more bit of its exponent.
  next_power :
      (v e i u u' : ℕ)
      → u % w ≡ v ^ (e / 2 ^ suc i) % w
      → u' % w ≡ u * u % w * v ^ bit e i % w
      → u' % w ≡ v ^ (e / 2 ^ i) % w
  next_power v e i u u' before step =
      let h : ℕ = e / 2 ^ suc i in
      let digits : e / 2 ^ i ≡ h + h + bit e i = omega (arith, half_power e i) in
      let square : u * u % w % w ≡ v ^ h * v ^ h % w =
        mod-mod (u * u) w ∙ product_mod u u (v ^ h) (v ^ h) w before before in
      let powers : v ^ h * v ^ h * v ^ bit e i ≡ v ^ (e / 2 ^ i) =
        ap (λ (t : ℕ). t * v ^ bit e i) (sym (power_add v h h))
        ∙ sym (power_add v (h + h) (bit e i))
        ∙ ap (λ (t : ℕ). v ^ t) (sym digits) in
      step
      ∙ product_mod (u * u % w) (v ^ bit e i) (v ^ h * v ^ h) (v ^ bit e i) w square refl
      ∙ ap (λ (t : ℕ). t % w) powers

  expmod_loop-Holds :
      (i : ℕ) (r b x : Bigint) (k l n v e u : ℕ)
      → Holds r k (v % w)
      → Holds b n e
      → Holds x l u
      → k ≤ room m
      → l ≤ room m
      → u % w ≡ v ^ (e / 2 ^ i) % w
      → (i ≡ 0 → u < w)
      → Tight l u
      → (x' : Bigint) × (j : ℕ) × (expmod_loop i r b c x ≡ ok x')
        × Holds x' j (v ^ e % w)
        × (j ≤ room m)
        × Tight j (v ^ e % w)
  unfolding expmod_loop
  expmod_loop-Holds zero r b x k l n v e u hr hb hx wide wide' known small tight =
      let whole : e / 2 ^ 0 ≡ e = omega arith in
      let done : u ≡ v ^ e % w =
        sym (mod-eq_of_lt (small refl)) ∙ known ∙ ap (λ (t : ℕ). v ^ t % w) whole in
      (x, l, refl, rw (← done) hx, wide', rw (← done) tight)
  expmod_loop-Holds (suc i) r b x k l n v e u hr hb hx wide wide' known small tight =
      let (square, j, e1, h1, narrow, tight1) = mul_mod-Holds x x l l u u hx hx wide' wide' in
      let (x', j', u', e2, h2, narrow', tight2, step, below) =
        multiply_if-Holds (bit e i) r square k j v (u * u % w) hr h1 wide narrow tight1
          (omega arith) in
      let (x'', j'', e3, h3, narrow'', tight3) =
        expmod_loop-Holds i r b x' k j' n v e u' hr hb h2 wide narrow'
          (next_power v e i u u' known step) (λ _. below (mod-lt (u * u) {m = w} pos)) tight2 in
      (x'', j'', rw (e1, get_bit_lem b n e i hb, e2) e3, h3, narrow'', tight3)

-- The start of the loop.
one-Holds : Holds (set_bit bigint_zero 0) 1 1
one-Holds =
    let (v, h, e) = set_bit-Holds bigint_zero 1 0 0 bigint_zero-Holds (omega arith) (omega arith) in
    let one : v ≡ 1 = omega (arith, e) in rw one at h

-- The result is the remainder of the power.
pub bigint_expmod-Holds :
    (a b c : Bigint) (k n m v e w : ℕ)
    → Holds a k v
    → Holds b n e
    → Holds c m w
    → 1 ≤ w
    → 1 ≤ n
    → k + 3 ≤ max_size
    → m ≤ 586
    → (r : Bigint) × (j : ℕ) × (bigint_expmod a b c ≡ ok r)
      × Holds r j (v ^ e % w)
      × Tight j (v ^ e % w)
unfolding bigint_expmod
bigint_expmod-Holds a b c k n m v e w ha hb hc pos some_bits k-cap cap =
    let (q, r, _, j, e1, _, h1, tight) =
      bigint_div-Holds a c k m v w ha hc pos k-cap (omega (arith, cap)) in
    let narrow = remainder_width c m w hc pos cap j v tight in
    let nothing : e / 2 ^ n ≡ 0 = div-eq_of_lt hb.fits in
    let start : 1 % w ≡ v ^ (e / 2 ^ n) % w = rw (nothing, pow-zero v) refl in
    let (x, l, e2, h2, narrow', tight') =
      expmod_loop-Holds c m w hc pos cap n r b (set_bit bigint_zero 0) j 1 n v e 1 h1 hb one-Holds
        narrow (omega arith) start (λ none. absurd (omega (arith, none, some_bits)))
        (inl (omega arith)) in
    (
      bigint_copy x,
      l,
      rw (hb.width, e1, e2) refl,
      bigint_copy-Holds x l _ h2 (omega (arith, narrow', cap)),
      tight',
    )

-- A cipher that is not wider than the modulus, and the width of the result.
pub rsa_pubkey_decrypt-Holds :
    (pubkey_mod pubkey_exp cipher : Bigint) (k n m v e w : ℕ)
    → Holds cipher k v
    → Holds pubkey_exp n e
    → Holds pubkey_mod m w
    → 1 ≤ w
    → 1 ≤ n
    → m ≤ 586
    → k ≤ m
    → (r : Bigint) × (j : ℕ) × (rsa_pubkey_decrypt pubkey_mod pubkey_exp cipher ≡ ok r)
      × Holds r j (v ^ e % w)
      × Tight j (v ^ e % w)
unfolding rsa_pubkey_decrypt
rsa_pubkey_decrypt-Holds pubkey_mod pubkey_exp cipher k n m v e w ha hb hc pos some_bits cap
      narrow =
    let p : ltb m k ≡ false = ground (arith, narrow) in
    rw (ha.width, hc.width, p)
      (bigint_expmod-Holds cipher pubkey_exp pubkey_mod k n m v e w ha hb hc pos some_bits
        (omega (arith, narrow, cap)) cap)

-- `rsa_pubkey_decrypt` of a cipher that is not wider than the modulus, which is not 0 and has at most
-- 586 bits, is the cipher to the power of the exponent, modulo the modulus; a wider cipher is the
-- error 1.
pub rsa_pubkey_decrypt_lem :
    (pubkey_mod pubkey_exp cipher : Bigint) (k n m v e w : ℕ)
    → Holds cipher k v
    → Holds pubkey_exp n e
    → Holds pubkey_mod m w
    → 1 ≤ w
    → 1 ≤ n
    → m ≤ 586
    → ((k ≤ m)
        × ((r : Bigint) × (j : ℕ) × (rsa_pubkey_decrypt pubkey_mod pubkey_exp cipher ≡ ok r)
            × Holds r j (v ^ e % w)))
      ⊎ ((m < k) × (rsa_pubkey_decrypt pubkey_mod pubkey_exp cipher ≡ error 1))
unfolding rsa_pubkey_decrypt
rsa_pubkey_decrypt_lem pubkey_mod pubkey_exp cipher k n m v e w ha hb hc pos some_bits cap =
    elim (Bool-cases (ltb m k)) [
      | inl p ↦ inr (ground (arith, p), rw (ha.width, hc.width, p) refl)
      | inr p ↦
          let narrow : k ≤ m = ground (arith, p) in
          let (r, j, e', h, _) =
            rsa_pubkey_decrypt-Holds pubkey_mod pubkey_exp cipher k n m v e w ha hb hc pos some_bits
              cap narrow in
          inl (narrow, (r, j, e', h))
    ]
