-- ===== src/Crypto/Bigint/Trim.antt =====
-- The bytes that `bigint_copy` and `normalize` leave: what is above the width goes.
use native.Mathlib.Nat.{add-mul-mod_self_right, mod-eq_of_lt, mod-le}
use esp8266_toolbox.Base.{
  ℕ, zero, suc, ◌+◌, ◌-◌, ◌*◌, ◌%◌, ◌^◌, ◌<◌, ◌≤◌, ◌≡◌, refl, sym, ap, ◌∙◌, Bool-cases, inl, inr,
  ltb, bit_and, List, [], ◌∷◌, ◌++◌, length, All, All-append, take, drop, set, get_or, replicate,
  arith, length-take, length-set, length-append, length-replicate,
}
use esp8266_toolbox.Base.Memory.{overlay, overlay_to_end, bzero}
use esp8266_toolbox.Base.Bits.{◌<<<◌, pow_split}
use esp8266_toolbox.Crypto.Bigint.{Bigint, bigint_copy, data_maxlen, mask_partial, size, used}
use esp8266_toolbox.Crypto.Bigint.Value.{
  append-zeros, get_or-IsByte, IsByte, mod_byte, pow_byte, pow_pos, replicate-IsByte, set-IsByte,
  take-IsByte, take-value, value,
}
use esp8266_toolbox.Crypto.Bigint.Bits.{Holds, mask_lem, max_size}

-- The bits of a partial byte are the lowest bits of the number.
low_partial : (x w bits : ℕ) → bits < 8 → (x + 256 * w) % 2 ^ bits ≡ x % 2 ^ bits
low_partial x w bits h =
    let e = pow_split bits (8 - bits) 8 (omega arith) in
    let f : x + w * 2 ^ (8 - bits) * 2 ^ bits ≡ x + 256 * w =
      omega (arith, ap (λ (t : ℕ). w * t) e) in
    ap (λ (t : ℕ). t % 2 ^ bits) (sym f) ∙ add-mul-mod_self_right x (w * 2 ^ (8 - bits)) (2 ^ bits)

cut-value :
    (j bits : ℕ) (xs : List ℕ)
    → bits < 8
    → All IsByte xs
    → j < length xs
    → value (take (suc j) (set xs j (get_or xs j 0 % 2 ^ bits)))
      ≡ value xs % (2 ^ (8 * j) * 2 ^ bits)
unfolding value
cut-value j bits [] hb h inside = absurd (omega arith)
cut-value zero bits (x ∷ xs) hb (hx, h) inside =
    let one : 2 ^ (8 * 0) * 2 ^ bits ≡ 2 ^ bits = omega arith in
    rw (one, low_partial x (value xs) bits hb) (omega arith)
cut-value (suc j) bits (x ∷ xs) hb (hx, h) inside =
    let e : 2 ^ (8 * suc j) * 2 ^ bits ≡ 2 ^ (8 * j) * 2 ^ bits * 256 =
      omega (arith, ap (λ (t : ℕ). t * 2 ^ bits) (pow_byte j)) in
    let pos : 1 ≤ 2 ^ (8 * j) * 2 ^ bits =
      omega (arith, pow_split (8 * j) bits (8 * j + bits) refl, pow_pos (8 * j + bits)) in
    rw
      (
        e,
        mod_byte x (value xs) (2 ^ (8 * j) * 2 ^ bits) hx pos,
        cut-value j bits xs hb h (omega (arith, inside)),
      )
      refl

-- Arrays of the right size and of bytes, with the number that the lowest `n` bits of `i` make.
abbrev Cut : Bigint → ℕ → List ℕ → Type 0
Cut i n octets =
    (length octets ≡ data_maxlen) × All IsByte octets × (value octets ≡ value i.octets % 2 ^ n)

-- What `Holds` asks of the array and of the partial byte, whatever the bits above the width are.
pub record IsArray (i : Bigint) (n : ℕ) : Type 0 where
  pub full : length i.octets ≡ data_maxlen
  pub octets-IsByte : All IsByte i.octets
  pub partial : i.bits < 8
  pub width : size i ≡ n

pub trimmed : Bigint → List ℕ
trimmed i =
    take (used i) (mask_partial i.bytes i.bits i.octets) ++ replicate (data_maxlen - used i) 0

padded :
    (ys : List ℕ) (u : ℕ)
    → length ys ≡ data_maxlen
    → All IsByte ys
    → u ≤ data_maxlen
    → (length (take u ys ++ replicate (data_maxlen - u) 0) ≡ data_maxlen)
      × All IsByte (take u ys ++ replicate (data_maxlen - u) 0)
      × (value (take u ys ++ replicate (data_maxlen - u) 0) ≡ value (take u ys))
padded ys u full h fits = (
  ground (
    arith,
    length-append (take u ys) (replicate (data_maxlen - u) 0),
    length-take u ys,
    length-replicate {A = ℕ} (data_maxlen - u) 0,
  ),
  All-append IsByte (take u ys) (replicate (data_maxlen - u) 0) (take-IsByte u ys h)
      (replicate-IsByte (data_maxlen - u)),
  append-zeros (take u ys) (data_maxlen - u),
)

pub trimmed-Cut : (i : Bigint) (n : ℕ) → IsArray i n → n ≤ max_size → Cut i n (trimmed i)
unfolding trimmed used mask_partial
trimmed-Cut i n h limit =
    let power = pow_split (8 * i.bytes) i.bits n (omega (arith, h.width)) in
    let x = get_or i.octets i.bytes 0 in
    elim (Bool-cases (ltb 0 i.bits)) [
      | inl p ↦
          let y = x % 2 ^ i.bits in
          let y-IsByte : IsByte y =
            omega (arith, mod-le x (2 ^ i.bits), get_or-IsByte i.octets i.bytes h.octets-IsByte) in
          let (len, bytes, number) =
            padded (set i.octets i.bytes y) (i.bytes + 1) (length-set i.octets i.bytes y ∙ h.full)
              (set-IsByte i.octets i.bytes y h.octets-IsByte y-IsByte)
              (omega (arith, h.width, limit)) in
          let next : i.bytes + 1 ≡ suc i.bytes = omega arith in
          let cut =
            cut-value i.bytes i.bits i.octets h.partial h.octets-IsByte
              (omega (arith, h.width, limit, h.full)) in
          rw (p, mask_lem x i.bits)
            (
              len,
              bytes,
              number
                  ∙ ap (λ (t : ℕ). value (take t (set i.octets i.bytes y))) next
                  ∙ cut
                  ∙ ap (λ (t : ℕ). value i.octets % t) power,
            )
      | inr p ↦
          let none : i.bits ≡ 0 = ground (arith, p) in
          let whole : 2 ^ (8 * i.bytes) ≡ 2 ^ n =
            ap (λ (t : ℕ). 2 ^ t) (omega (arith, none, h.width)) in
          let (len, bytes, number) =
            padded i.octets i.bytes h.full h.octets-IsByte (omega (arith, h.width, limit)) in
          rw p (
            len,
            bytes,
            number
                ∙ take-value i.bytes i.octets h.octets-IsByte
                ∙ ap (λ (t : ℕ). value i.octets % t) whole,
          )
    ]

-- The arrays that the two functions make.
mask_partial-length :
    (bytes bits : ℕ) (xs : List ℕ) → length (mask_partial bytes bits xs) ≡ length xs
unfolding mask_partial
mask_partial-length bytes bits xs =
    ground (arith, length-set xs bytes (bit_and (get_or xs bytes 0) ((1 <<< bits) - 1)))

used-bound : (i : Bigint) (n : ℕ) → IsArray i n → n ≤ max_size → used i ≤ data_maxlen
unfolding used
used-bound i n h limit = ground (arith, h.width)

pub normalized_octets :
    (i : Bigint) (n : ℕ)
    → IsArray i n
    → n ≤ max_size
    → bzero (mask_partial i.bytes i.bits i.octets) (used i) (data_maxlen - used i) ≡ trimmed i
unfolding bzero trimmed
normalized_octets i n h limit =
    overlay_to_end (mask_partial i.bytes i.bits i.octets) (used i)
      (replicate (data_maxlen - used i) 0)
      (omega (
        arith,
        mask_partial-length i.bytes i.bits i.octets,
        h.full,
        length-replicate {A = ℕ} (data_maxlen - used i) 0,
        used-bound i n h limit,
      ))

set-take :
    (j y : ℕ) (xs zs : List ℕ)
    → j < length xs
    → (set (take (suc j) xs ++ zs) j y ≡ take (suc j) (set xs j y) ++ zs)
      × (get_or (take (suc j) xs ++ zs) j 0 ≡ get_or xs j 0)
set-take j y [] zs inside = absurd (omega arith)
set-take zero y (x ∷ xs) zs inside = (refl, refl)
set-take (suc j) y (x ∷ xs) zs inside =
    let (a, b) = set-take j y xs zs (omega (arith, inside)) in (ap (λ (t : List ℕ). x ∷ t) a, b)

drop-replicate : (n m k : ℕ) → m - n ≡ k → drop n (replicate {A = ℕ} m 0) ≡ replicate k 0
drop-replicate zero m k e =
    let same : m ≡ k = omega (arith, e) in ap (λ (l : ℕ). replicate {A = ℕ} l 0) same
drop-replicate (suc n) zero zero e = refl
drop-replicate (suc n) zero (suc k) e = absurd (omega (arith, e))
drop-replicate (suc n) (suc m) k e = drop-replicate n m k (omega (arith, e))

copied_octets :
    (i : Bigint) (n : ℕ)
    → IsArray i n
    → n ≤ max_size
    → mask_partial i.bytes i.bits (overlay (replicate data_maxlen 0) 0 (take (used i) i.octets))
      ≡ trimmed i
unfolding trimmed mask_partial used overlay
copied_octets i n h limit = elim (Bool-cases (ltb 0 i.bits)) [
  | inl p ↦
      rw (p, rest (i.bytes + 1) (omega (arith, h.width, limit)))
        (masked (i.bytes + 1) (replicate (data_maxlen - (i.bytes + 1)) 0) (omega arith))
  | inr p ↦ rw (p, rest i.bytes (omega (arith, h.width, limit))) refl
]
  where
    rest :
        (u : ℕ)
        → u ≤ data_maxlen
        → drop (0 + length (take u i.octets)) (replicate {A = ℕ} data_maxlen 0)
          ≡ replicate (data_maxlen - u) 0
    rest u fits =
        let e : 0 + length (take u i.octets) ≡ u = omega (arith, length-take u i.octets, h.full) in
        rw e (drop-replicate u data_maxlen (data_maxlen - u) refl)

    masked :
        (u : ℕ) (zs : List ℕ)
        → u ≡ suc i.bytes
        → set
            (take u i.octets ++ zs)
            i.bytes
            (bit_and (get_or (take u i.octets ++ zs) i.bytes 0) ((1 <<< i.bits) - 1))
          ≡ take u (set i.octets i.bytes (bit_and (get_or i.octets i.bytes 0) ((1 <<< i.bits) - 1)))
            ++ zs
    masked u zs e =
        let inside : i.bytes < length i.octets = omega (arith, h.full, h.width, limit) in
        let (_, same) = set-take i.bytes 0 i.octets zs inside in
        rw (e, same) ((set-take i.bytes _ i.octets zs inside).0)

-- A copy is the same number, with the bits above its width cleared.
pub bigint_copy-Holds :
    (i : Bigint) (n v : ℕ) → Holds i n v → n ≤ max_size → Holds (bigint_copy i) n v
unfolding bigint_copy
bigint_copy-Holds i n v h limit =
    let array : IsArray i n = record {
      full = h.full;
      octets-IsByte = h.octets-IsByte;
      partial = h.partial;
      width = h.width;
    } in
    let (full, bytes, number) = trimmed-Cut i n array limit in
    let same : value i.octets % 2 ^ n ≡ v = rw h.number (mod-eq_of_lt h.fits) in
    rw (copied_octets i n array limit) (record {
      full = full;
      octets-IsByte = bytes;
      partial = h.partial;
      width = h.width;
      number = number ∙ same;
      fits = h.fits;
    })
