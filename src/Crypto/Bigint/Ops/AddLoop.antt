-- ===== src/Crypto/Bigint/Ops/AddLoop.antt =====
-- `bigint_add` on the numbers: its loop, whose output may be one of its inputs.
use native.Mathlib.Nat.{
  add-mul-div_right, add-mul-mod_self_right, div-div-eq-div-mul, div-eq_of_lt, mod-eq_of_lt, mod-lt,
  mul-le-mul_right, pow-le-pow_right,
}
use esp8266_toolbox.Base.{
  ℕ, zero, suc, ◌+◌, ◌-◌, ◌*◌, ◌/◌, ◌%◌, ◌^◌, max, ◌<◌, ◌≤◌, ◌≡◌, refl, sym, ap, ◌∙◌, false,
  Bool-cases, inl, inr, leb, arith,
}
use esp8266_toolbox.Base.Bits.{pow_facts}
use esp8266_toolbox.Crypto.Bigint.{Bigint, data_maxlen, get_bit, ok, size}
use esp8266_toolbox.Crypto.Bigint.Ops.{add_loop, grow, itself, Operand, other, put_sum, read}
use esp8266_toolbox.Crypto.Bigint.Value.{pow_pos}
use esp8266_toolbox.Crypto.Bigint.Bits.{
  around_bit, bit, clr_bit-Holds, get_bit_lem, Holds, max_size, mod_suc_pow, set_bit-Holds,
}

-- A number whose bit `k` is replaced by `d`.
pub replaced_bit :
    (v v' k d : ℕ)
    → d ≤ 1
    → v' + bit v k * 2 ^ k ≡ v + d * 2 ^ k
    → (v' % 2 ^ suc k ≡ d * 2 ^ k + v % 2 ^ k) × (v' / 2 ^ suc k ≡ v / 2 ^ suc k)
replaced_bit v v' k d one e =
    let r : ℕ = d * 2 ^ k + v % 2 ^ k in
    let q : ℕ = v / 2 ^ suc k in
    let small : r < 2 ^ suc k = omega (
      arith,
      mod-lt v {m = 2 ^ k} (pow_pos k),
      (pow_facts k).1,
      mul-le-mul_right {m = d} {n = 1} (2 ^ k) one,
    ) in
    let whole : r + q * 2 ^ suc k ≡ v' = omega (arith, e, around_bit v k) in
    (
      ap (λ (t : ℕ). t % 2 ^ suc k) (sym whole)
          ∙ add-mul-mod_self_right r q (2 ^ suc k)
          ∙ mod-eq_of_lt small,
      ap (λ (t : ℕ). t / 2 ^ suc k) (sym whole)
          ∙ add-mul-div_right r q (pow_pos (suc k))
          ∙ omega (arith, div-eq_of_lt small),
    )

-- The next higher part of two numbers that have one high part.
pub half_power : (v k : ℕ) → v / 2 ^ suc k ≡ v / 2 ^ k / 2
half_power v k = rw (pow_facts k).1 (sym (div-div-eq-div-mul v (2 ^ k) 2))

-- An operand from the bit `i` on is the number `x`, where the output is `s` by now.
abbrev pub Stands : Operand → ℕ → ℕ → ℕ → Type 0
Stands itself i s x = s / 2 ^ i ≡ x / 2 ^ i
Stands (other o) i s x = (n : ℕ) × Holds o n x

pub operand_bit :
    (a : Operand) (i x : ℕ) (s : Bigint) (n v : ℕ)
    → Holds s n v
    → Stands a i v x
    → get_bit (read s a) i ≡ bit x i
operand_bit itself i x s n v h st = get_bit_lem s n v i h ∙ ap (λ (t : ℕ). t % 2) st
operand_bit (other o) i x s n v h (m, g) = get_bit_lem o m x i g

pub next_bit :
    (a : Operand) (i v v' x : ℕ)
    → v' / 2 ^ suc i ≡ v / 2 ^ suc i
    → Stands a i v x
    → Stands a (suc i) v' x
next_bit itself i v v' x e st = e ∙ half_power v i ∙ ap (λ (t : ℕ). t / 2) st ∙ sym (half_power x i)
next_bit (other o) i v v' x e st = st

pub grow-Holds :
    (i : ℕ) (s : Bigint) (n v : ℕ)
    → Holds s n v
    → i ≤ n
    → i < max_size
    → (s' : Bigint) × (grow i s ≡ ok s') × Holds s' (max n (suc i)) v
unfolding grow
grow-Holds i s n v h reach cap = elim (Bool-cases (leb (size s) i)) [
  | inl p ↦
      let q : leb (data_maxlen - 1) ((i + 1) / 8) ≡ false = ground (arith, cap) in
      let e : max n (suc i) ≡ suc i = ground (arith, p, h.width, reach) in
      let larger : 2 ^ n ≤ 2 ^ suc i =
        pow-le-pow_right {n = 2} (omega arith) {i = n} {j = suc i} (omega (arith, e)) in
      rw (p, q, e)
        (
          _,
          refl,
          record {
            full = h.full;
            octets-IsByte = h.octets-IsByte;
            partial = omega arith;
            width = omega arith;
            number = h.number;
            fits = omega (arith, h.fits, larger);
          },
        )
  | inr p ↦ let e : max n (suc i) ≡ n = ground (arith, p, h.width) in rw (p, e) (s, refl, h)
]

-- The digit and the carry.
pub put_sum-Holds :
    (sum i : ℕ) (s : Bigint) (n v : ℕ)
    → sum ≤ 3
    → Holds s n v
    → i < n
    → n ≤ max_size
    → (d : ℕ) × (v' : ℕ) × Holds ((put_sum sum i s).0) n v'
      × (v' + bit v i * 2 ^ i ≡ v + d * 2 ^ i)
      × (d ≤ 1)
      × (d + 2 * (put_sum sum i s).1 ≡ sum)
      × ((put_sum sum i s).1 ≤ 1)
unfolding put_sum
put_sum-Holds zero i s n v le h below cap =
    let (v', g, e) = clr_bit-Holds s n v i h below cap in
    (0, v', g, omega (arith, e), omega arith, refl, omega arith)
put_sum-Holds (suc zero) i s n v le h below cap =
    let (v', g, e) = set_bit-Holds s n v i h below cap in
    (1, v', g, omega (arith, e), omega arith, refl, omega arith)
put_sum-Holds (suc (suc zero)) i s n v le h below cap =
    let (v', g, e) = clr_bit-Holds s n v i h below cap in
    (0, v', g, omega (arith, e), omega arith, refl, omega arith)
put_sum-Holds (suc (suc (suc zero))) i s n v le h below cap =
    let (v', g, e) = set_bit-Holds s n v i h below cap in
    (1, v', g, omega (arith, e), omega arith, refl, omega arith)
put_sum-Holds (suc (suc (suc (suc sum)))) i s n v le h below cap = absurd (omega (arith, le))

-- The low bits after a round.
pub next_sum :
    (i x y v v' c c' d : ℕ)
    → v % 2 ^ i + c * 2 ^ i ≡ x % 2 ^ i + y % 2 ^ i
    → v' % 2 ^ suc i ≡ d * 2 ^ i + v % 2 ^ i
    → d + 2 * c' ≡ bit x i + bit y i + c
    → v' % 2 ^ suc i + c' * 2 ^ suc i ≡ x % 2 ^ suc i + y % 2 ^ suc i
next_sum i x y v v' c c' d sum low digits =
    let weight : d * 2 ^ i + c' * (2 ^ i * 2) ≡ bit x i * 2 ^ i + bit y i * 2 ^ i + c * 2 ^ i =
      omega (arith, ap (λ (t : ℕ). t * 2 ^ i) digits) in
    let double : c' * 2 ^ suc i ≡ c' * (2 ^ i * 2) = ap (λ (t : ℕ). c' * t) ((pow_facts i).1) in
    omega (arith, sum, low, weight, double, mod_suc_pow x i, mod_suc_pow y i)

-- What is known after the rounds up to the bit `i`.
pub record Sum (i x y n : ℕ) (s : Bigint) (c : ℕ) : Type 0 where
  pub low : ℕ
  pub low-Holds : Holds s n low
  pub sum : low % 2 ^ i + c * 2 ^ i ≡ x % 2 ^ i + y % 2 ^ i
  pub carry : c ≤ 1
  pub reach : i ≤ n
  pub cap : n ≤ max_size

module _ (a b : Operand) (x y : ℕ) where
  pub add_loop-Sum :
      (rounds i c : ℕ) (s : Bigint) (n v : ℕ)
      → Holds s n v
      → Stands a i v x
      → Stands b i v y
      → v % 2 ^ i + c * 2 ^ i ≡ x % 2 ^ i + y % 2 ^ i
      → c ≤ 1
      → i ≤ n
      → n ≤ max_size
      → i + rounds ≤ max_size
      → (s' : Bigint) × (c' : ℕ) × (add_loop rounds i a b c s ≡ ok (s', c'))
        × Sum (i + rounds) x y (max n (i + rounds)) s' c'
  unfolding add_loop
  add_loop-Sum zero i c s n v h sa sb sum carry reach cap room =
      let e : i ≡ i + 0 = omega arith in
      let e' : n ≡ max n (i + 0) = omega (arith, reach) in
      (
        s,
        c,
        refl,
        record {
          low = v;
          low-Holds = rw (← e') h;
          sum = rw (← e) sum;
          carry = carry;
          reach = omega arith;
          cap = omega (arith, cap, room);
        },
      )
  add_loop-Sum (suc rounds) i c s n v h sa sb sum carry reach cap room =
      let (s1, e1, h1) = grow-Holds i s n v h reach (omega (arith, room)) in
      let total : ℕ = bit x i + bit y i + c in
      let (d, v2, h2, e2, one, digits, carry2) =
        put_sum-Holds total i s1 (max n (suc i)) v (omega (arith, carry)) h1 (omega arith)
          (omega (arith, cap, room)) in
      let (low, high) = replaced_bit v v2 i d one e2 in
      let put = put_sum total i s1 in
      let next : suc i ≡ i + 1 = omega arith in
      let (s', c', e3, known) =
        add_loop-Sum rounds (suc i) (put.1) (put.0) (max n (suc i)) v2 h2
          (next_bit a i v v2 x high sa) (next_bit b i v v2 y high sb)
          (next_sum i x y v v2 c (put.1) d sum low digits) carry2 (omega arith)
          (omega (arith, cap, room)) (omega (arith, room)) in
      let end : suc i + rounds ≡ i + suc rounds = omega arith in
      let wide : max (max n (suc i)) (suc i + rounds) ≡ max n (suc i + rounds) = omega arith in
      let done : add_loop (suc rounds) i a b c s ≡ ok (s', c') =
        rw
          (
            e1,
            operand_bit a i x s1 (max n (suc i)) v h1 sa,
            operand_bit b i y s1 (max n (suc i)) v h1 sb,
            ← next,
          )
          e3 in
      (s', c', done, rw (← end, ← wide) known)
