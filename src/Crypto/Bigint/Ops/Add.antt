-- ===== src/Crypto/Bigint/Ops/Add.antt =====
-- `bigint_add` on the numbers: the last carry, the width and the whole.
use native.Mathlib.Nat.{mod-eq_of_lt, pow-le-pow_right}
use esp8266_toolbox.Base.{
  ℕ, zero, suc, ◌+◌, ◌/◌, ◌%◌, ◌^◌, max, ◌<◌, ◌≤◌, ◌≡◌, refl, sym, ap, ◌∙◌, false, Bool-cases, inl,
  inr, ltb, leb, arith,
}
use esp8266_toolbox.Crypto.Bigint.{Bigint, ok, set_bit, size}
use esp8266_toolbox.Crypto.Bigint.Ops.{add_carry, add_end, bigint_add, itself, Operand, other, read}
use esp8266_toolbox.Crypto.Bigint.Bits.{Holds, max_size, set_bit-Holds}
use esp8266_toolbox.Crypto.Bigint.Trim.{IsArray}
use esp8266_toolbox.Crypto.Bigint.Normalize.{normalize-Holds}
use esp8266_toolbox.Crypto.Bigint.Ops.AddLoop.{Stands, Sum, add_loop-Sum, grow-Holds, replaced_bit}

-- The last carry, which is one bit more.
add_carry-Sum :
    (m c x y n : ℕ) (s : Bigint)
    → Sum m x y n s c
    → x < 2 ^ m
    → y < 2 ^ m
    → m + c ≤ max_size
    → (s' : Bigint) × (add_carry m c s ≡ ok s')
      × (v : ℕ) × Holds s' (max n (m + c)) v
      × (v % 2 ^ (m + c) ≡ x + y)
unfolding add_carry
add_carry-Sum m zero x y n s known hx hy room =
    let e : m ≡ m + 0 = omega arith in
    let e' : n ≡ max n m = omega (arith, known.reach) in
    let total : known.low % 2 ^ m ≡ x + y =
      omega (arith, known.sum, mod-eq_of_lt hx, mod-eq_of_lt hy) in
    (s, refl, known.low, rw (← e, ← e') known.low-Holds, rw (← e) total)
add_carry-Sum m (suc zero) x y n s known hx hy room =
    let next : suc m ≡ m + 1 = omega arith in
    let (s1, e1, h1) =
      grow-Holds m s n known.low known.low-Holds known.reach (omega (arith, room)) in
    let (v2, h2, e2) =
      set_bit-Holds s1 (max n (suc m)) known.low m h1 (omega arith)
        (omega (arith, known.cap, room)) in
    let (low, high) = replaced_bit known.low v2 m 1 (omega arith) (omega (arith, e2)) in
    let total : v2 % 2 ^ suc m ≡ x + y =
      omega (arith, low, known.sum, mod-eq_of_lt hx, mod-eq_of_lt hy) in
    let q : leb (size (set_bit s1 m)) m ≡ false = ground (arith, h2.width) in
    (set_bit s1 m, rw (e1, q) refl, v2, rw (← next) h2, rw (← next) total)
add_carry-Sum m (suc (suc c)) x y n s known hx hy room = absurd (omega (arith, known.carry))

-- What is above the sum goes.
add_end-Holds :
    (m c n v : ℕ) (s : Bigint)
    → Holds s (max n (m + c)) v
    → max n (m + c) ≤ max_size
    → (n' : ℕ) × Holds (add_end m c s) n' (v % 2 ^ (m + c)) × (n' ≤ max 1 (m + c))
unfolding add_end
add_end-Holds m c n v s h cap = elim (Bool-cases (ltb (m + c) (size s))) [
  | inl p ↦
      let array : IsArray (record s { bytes = (m + c) / 8; bits = (m + c) % 8 }) (m + c) = record {
        full = h.full;
        octets-IsByte = h.octets-IsByte;
        partial = omega arith;
        width = omega arith;
      } in
      let (n', g, small, tight) =
        normalize-Holds (record s { bytes = (m + c) / 8; bits = (m + c) % 8 }) (m + c) array
          (omega (arith, cap)) in
      rw (p, ← h.number) (n', g, small)
  | inr p ↦
      let e : max n (m + c) ≡ m + c = ground (arith, p, h.width) in
      let same : v ≡ v % 2 ^ (m + c) = sym (mod-eq_of_lt (rw (← e) h.fits)) in
      rw (p, ← same) (m + c, rw (← e) h, omega arith)
]

-- An operand's own number.
abbrev Is : Operand → Bigint → ℕ → ℕ → Type 0
Is a s n x = Holds (read s a) n x

first_bit :
    (a : Operand) (s : Bigint) (n v k x : ℕ) → Holds s n v → Holds (read s a) k x → Stands a 0 v x
first_bit itself s n v k x h g = ap (λ (t : ℕ). t / 2 ^ 0) (sym h.number ∙ g.number)
first_bit (other o) s n v k x h g = (k, g)

below_max : (x k m : ℕ) → x < 2 ^ k → k ≤ m → x < 2 ^ m
below_max x k m h le = omega (arith, h, pow-le-pow_right {n = 2} (omega arith) {i = k} {j = m} le)

-- `bigint_add` of two Bigints, each of which may be the output too, holds their sum, with at most one
-- bit more than the wider one has, where that one has fewer than 1191 bits.
pub bigint_add-Holds :
    (s : Bigint) (a b : Operand) (n v j k x y : ℕ)
    → Holds s n v
    → Holds (read s a) j x
    → Holds (read s b) k y
    → n ≤ max_size
    → max j k < max_size
    → (s' : Bigint) × (n' : ℕ) × (bigint_add s a b ≡ ok s')
      × Holds s' n' (x + y)
      × (n' ≤ max j k + 1)
unfolding bigint_add
bigint_add-Holds s a b n v j k x y h ha hb cap room =
    let m : ℕ = max j k in
    let (s1, c, e1, known) =
      add_loop-Sum a b x y m 0 0 s n v h (first_bit a s n v j x h ha) (first_bit b s n v k y h hb)
        (omega arith) (omega arith) (omega arith) cap (omega (arith, room)) in
    let start : 0 + m ≡ m = omega arith in
    let known' : Sum m x y (max n m) s1 c = rw start at known in
    let (s2, e2, v2, h2, total) =
      add_carry-Sum m c x y (max n m) s1 known' (below_max x j m ha.fits (omega arith))
        (below_max y k m hb.fits (omega arith)) (omega (arith, room, known'.carry)) in
    let (n', h3, small) =
      add_end-Holds m c (max n m) v2 s2 h2 (omega (arith, cap, room, known'.carry)) in
    (
      add_end m c s2,
      n',
      rw (ha.width, hb.width, e1, e2) refl,
      rw (← total) h3,
      omega (arith, small, known'.carry),
    )
