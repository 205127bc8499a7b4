-- ===== src/Crypto/Bigint/Hex.antt =====
-- `bigint_fromhex`: from the text of a number to the number.
use native.Mathlib.Nat.{div-eq_of_lt, mul-le-mul_right}
use esp8266_toolbox.Base.{
  ℕ, suc, ◌+◌, ◌-◌, ◌*◌, ◌^◌, ◌<◌, ◌≤◌, ◌≡◌, refl, sym, ap, ◌∙◌, false, Bool-cases, inl, inr, ◌⊎◌,
  bit_or, leb, if◌then◌else◌, some, List, [], ◌∷◌, length, length-set, take, take_all, All, set,
  get_or, arith,
}
use esp8266_toolbox.Base.Bits.{◌<<<◌, bit_or_disjoint, pow_split}
use esp8266_toolbox.Crypto.Bigint.{
  Bigint, bigint_fromhex, bigint_zero, fromhex_count, data_maxlen, error, fromhex_loop, hexchar, ok,
  reversed,
}
use esp8266_toolbox.Crypto.Bigint.Value.{
  get_or-value, IsByte, pow_byte, set-IsByte, set-value, value,
}
use esp8266_toolbox.Crypto.Bigint.Bits.{Holds}
use esp8266_toolbox.Crypto.Bigint.Ops.Multiply.{bigint_zero-Holds}

-- The text's characters stand for the digits.
unfoldable pub Reads : List ℕ → List ℕ → Type 0
Reads [] [] = Unit
Reads [] (d ∷ digits) = ⊥
Reads (c ∷ text) [] = ⊥
Reads (c ∷ text) (d ∷ digits) = (hexchar c ≡ some d) × Reads text digits

-- The number that hexadecimal digits make, the highest first.
unfoldable pub hex_value : ℕ → List ℕ → ℕ
hex_value high [] = high
hex_value high (d ∷ digits) = hex_value (high * 16 + d) digits

-- The same, the lowest first.
unfoldable low_value : List ℕ → ℕ
low_value [] = 0
low_value (d ∷ digits) = d + 16 * low_value digits

low_value-reversed :
    (digits done : List ℕ) → low_value (reversed digits done) ≡ hex_value (low_value done) digits
unfolding low_value hex_value reversed
low_value-reversed [] done = refl
low_value-reversed (d ∷ digits) done =
    let e : d + 16 * low_value done ≡ low_value done * 16 + d = omega arith in
    low_value-reversed digits (d ∷ done) ∙ ap (λ (t : ℕ). hex_value t digits) e

Reads-reversed :
    (text digits done done' : List ℕ)
    → Reads text digits
    → Reads done done'
    → Reads (reversed text done) (reversed digits done')
unfolding Reads reversed
Reads-reversed [] [] done done' h g = g
Reads-reversed [] (d ∷ digits) done done' h g = absurd h
Reads-reversed (c ∷ text) [] done done' h g = absurd h
Reads-reversed (c ∷ text) (d ∷ digits) done done' (e, h) g =
    Reads-reversed text digits (c ∷ done) (d ∷ done') h (e, g)

length-reversed : (xs done : List ℕ) → length (reversed xs done) ≡ length xs + length done
unfolding reversed
length-reversed [] done = omega arith
length-reversed (x ∷ xs) done = omega (arith, length-reversed xs (x ∷ done))

hexchar_bound : (c d : ℕ) → hexchar c ≡ some d → d < 16
unfolding hexchar
hexchar_bound c d e = ground (arith, e)

-- A byte, or the lower half of one, above the others.
put_byte :
    (xs : List ℕ) (k y v : ℕ)
    → All IsByte xs
    → k < length xs
    → value xs ≡ v
    → v < 2 ^ (8 * k)
    → value (set xs k y) ≡ v + y * 2 ^ (8 * k)
put_byte xs k y v bytes inside number below =
    let digit : get_or xs k 0 ≡ 0 =
      rw (get_or-value xs k bytes, number, div-eq_of_lt below) (omega arith) in
    omega (arith, set-value xs k y inside, number, ap (λ (t : ℕ). t * 2 ^ (8 * k)) digit)

-- The text that is read so far holds `k` bytes.
record Bytes (i : Bigint) (k v : ℕ) : Type 0 where
  held : Holds i (8 * k) v
  whole : i.bits ≡ 0

next_byte :
    (i : Bigint) (k v h l : ℕ)
    → Bytes i k v
    → h < 16
    → l < 16
    → k < 149
    → Bytes
        (record i { bytes = i.bytes + 1; octets = set i.octets i.bytes (bit_or (h <<< 4) l) })
        (k + 1)
        (v + (l + 16 * h) * 2 ^ (8 * k))
next_byte i k v h l b hh hl room =
    let at : i.bytes ≡ k = omega (arith, b.held.width, b.whole) in
    let byte : bit_or (h <<< 4) l ≡ h * 2 ^ 4 + l = bit_or_disjoint 4 h l (omega (arith, hl)) in
    let next : 8 * (k + 1) ≡ 8 * suc k = omega arith in
    let power : 2 ^ (8 * (k + 1)) ≡ 2 ^ (8 * k) * 256 = rw next (pow_byte k) in
    let written =
      put_byte i.octets k (bit_or (h <<< 4) l) v b.held.octets-IsByte
        (omega (arith, b.held.full, room)) b.held.number b.held.fits in
    let whole : bit_or (h <<< 4) l * 2 ^ (8 * k) ≡ (l + 16 * h) * 2 ^ (8 * k) =
      ap (λ (t : ℕ). t * 2 ^ (8 * k)) (omega (arith, byte)) in
    let small : (l + 16 * h) * 2 ^ (8 * k) ≤ 255 * 2 ^ (8 * k) =
      mul-le-mul_right {m = l + 16 * h} {n = 255} (2 ^ (8 * k)) (omega (arith, hh, hl)) in
    record {
      held = record {
        full = length-set i.octets i.bytes (bit_or (h <<< 4) l) ∙ b.held.full;
        octets-IsByte =
            set-IsByte i.octets i.bytes (bit_or (h <<< 4) l) b.held.octets-IsByte
              (omega (arith, byte, hh, hl));
        partial = b.held.partial;
        width = omega (arith, at, b.whole);
        number = rw at (omega (arith, written, whole));
        fits = omega (arith, b.held.fits, power, small);
      };
      whole = b.whole;
    }

last_digit :
    (i : Bigint) (k v l : ℕ)
    → Bytes i k v
    → l < 16
    → k < 149
    → Holds
        (record i { octets = set i.octets i.bytes l; bits = 4 })
        (8 * k + 4)
        (v + l * 2 ^ (8 * k))
last_digit i k v l b hl room =
    let at : i.bytes ≡ k = omega (arith, b.held.width, b.whole) in
    let power : 2 ^ (8 * k + 4) ≡ 2 ^ (8 * k) * 16 = sym (pow_split (8 * k) 4 (8 * k + 4) refl) in
    let written =
      put_byte i.octets k l v b.held.octets-IsByte (omega (arith, b.held.full, room)) b.held.number
        b.held.fits in
    let small : l * 2 ^ (8 * k) ≤ 15 * 2 ^ (8 * k) =
      mul-le-mul_right {m = l} {n = 15} (2 ^ (8 * k)) (omega (arith, hl)) in
    record {
      full = length-set i.octets i.bytes l ∙ b.held.full;
      octets-IsByte = set-IsByte i.octets i.bytes l b.held.octets-IsByte (omega (arith, hl));
      partial = omega arith;
      width = omega (arith, at);
      number = rw at (omega (arith, written));
      fits = omega (arith, b.held.fits, power, small);
    }

one_left :
    (i : Bigint) (c l : ℕ)
    → hexchar c ≡ some l
    → fromhex_loop i (c ∷ []) ≡ ok (record i { octets = set i.octets i.bytes l; bits = 4 })
unfolding fromhex_loop
one_left i c l e = rw (e, fromhex_loop) refl

abbrev with_byte : Bigint → ℕ → ℕ → Bigint
with_byte i h l = record i {
  bytes = i.bytes + 1;
  octets = set i.octets i.bytes (bit_or (h <<< 4) l);
}

two_left :
    (i : Bigint) (c d l h : ℕ) (text : List ℕ)
    → hexchar c ≡ some l
    → hexchar d ≡ some h
    → fromhex_loop i (c ∷ d ∷ text) ≡ (
        if leb (data_maxlen - 1) (i.bytes + 1)
        then error 1
        else fromhex_loop (with_byte i h l) text)
unfolding fromhex_loop
two_left i c d l h text e e' = rw (e, e', fromhex_loop) refl

fromhex_loop-Holds :
    (text digits : List ℕ) (i : Bigint) (k v : ℕ)
    → Reads text digits
    → Bytes i k v
    → 8 * k + 4 * length text < 1192
    → (i' : Bigint) × (fromhex_loop i text ≡ ok i')
      × Holds i' (8 * k + 4 * length text) (v + low_value digits * 2 ^ (8 * k))
unfolding fromhex_loop Reads low_value
fromhex_loop-Holds [] [] i k v h b room =
    let e : 8 * k ≡ 8 * k + 4 * length {A = ℕ} [] = omega arith in
    let e' : v ≡ v + 0 * 2 ^ (8 * k) = omega arith in (i, refl, rw (← e, ← e') b.held)
fromhex_loop-Holds [] (d ∷ digits) i k v h b room = absurd h
fromhex_loop-Holds (c ∷ text) [] i k v h b room = absurd h
fromhex_loop-Holds (c ∷ []) (l ∷ []) i k v (e, h) b room =
    let l' : l ≡ l + 16 * 0 = omega arith in
    let len : 8 * k + 4 ≡ 8 * k + 4 * length (c ∷ []) = omega arith in
    (
      _,
      one_left i c l e,
      rw (← len, ← l') (last_digit i k v l b (hexchar_bound c l e) (omega (arith, room))),
    )
fromhex_loop-Holds (c ∷ []) (l ∷ d ∷ digits) i k v (e, h) b room = absurd h
fromhex_loop-Holds (c ∷ d ∷ text) (l ∷ []) i k v (e, h) b room = absurd h
fromhex_loop-Holds (c ∷ d ∷ text) (l ∷ h ∷ digits) i k v (e, (e', rest)) b room =
    let at : i.bytes ≡ k = omega (arith, b.held.width, b.whole) in
    let fits : leb (data_maxlen - 1) (i.bytes + 1) ≡ false = ground (arith, at, room) in
    let (i', done, held) =
      fromhex_loop-Holds text digits (with_byte i h l) (k + 1) _ rest
        (next_byte i k v h l b (hexchar_bound d h e') (hexchar_bound c l e) (omega (arith, room)))
        (omega (arith, room)) in
    let len : 8 * (k + 1) + 4 * length text ≡ 8 * k + 4 * length (c ∷ d ∷ text) = omega arith in
    let power : 2 ^ (8 * (k + 1)) ≡ 2 ^ (8 * k) * 256 =
      let next : 8 * (k + 1) ≡ 8 * suc k = omega arith in rw next (pow_byte k) in
    let total : v + (l + 16 * h) * 2 ^ (8 * k) + low_value digits * 2 ^ (8 * (k + 1))
        ≡ v + (l + 16 * (h + 16 * low_value digits)) * 2 ^ (8 * k) =
      rw power (omega arith) in
    (i', two_left i c d l h text e e' ∙ rw fits done, rw (← len, ← total) held)

-- A text that is too long.
fromhex_loop_overflow :
    (text digits : List ℕ) (i : Bigint) (k : ℕ)
    → Reads text digits
    → i.bytes ≡ k
    → k < 149
    → 1192 ≤ 8 * k + 4 * length text
    → fromhex_loop i text ≡ error 1
unfolding Reads
fromhex_loop_overflow [] digits i k h at room long = absurd (omega (arith, room, long))
fromhex_loop_overflow (c ∷ []) digits i k h at room long = absurd (omega (arith, room, long))
fromhex_loop_overflow (c ∷ d ∷ text) [] i k h at room long = absurd h
fromhex_loop_overflow (c ∷ d ∷ text) (l ∷ []) i k (e, h) at room long = absurd h
fromhex_loop_overflow (c ∷ d ∷ text) (l ∷ h ∷ digits) i k (e, (e', rest)) at room long =
    elim (Bool-cases (leb (data_maxlen - 1) (i.bytes + 1))) [
      | inl p ↦ two_left i c d l h text e e' ∙ rw p refl
      | inr p ↦
          two_left i c d l h text e e'
          ∙ rw p (
              fromhex_loop_overflow text digits (with_byte i h l) (k + 1) rest (omega (arith, at))
                (ground (arith, p, at)) (omega (arith, long)))
    ]

whole_text : (text : List ℕ) → length text ≤ 32768 → take (fromhex_count (length text)) text ≡ text
whole_text text h =
    let e : fromhex_count (length text) ≡ length text = ground (arith, h) in
    rw e (take_all (length text) text (omega arith))

no_text :
    (text : List ℕ)
    → 32768 < length text
    → length text ≤ 65536
    → take (fromhex_count (length text)) text ≡ []
no_text text h limit =
    let e : fromhex_count (length text) ≡ 0 = ground (arith, h, limit) in rw e refl

-- What is left where `j` is negative: no digit was read.
abbrev pub nothing_read : Bigint
nothing_read = record bigint_zero { bits = 0 }

-- `bigint_fromhex` of a text of at most 65536 hexadecimal digits holds their number, with four bits for
-- each digit, where there are at most 297 of them. A text of up to 32768 digits is the error 1. One
-- that is longer still is read as no digits at all, without an error.
pub bigint_fromhex_lem :
    (text digits : List ℕ)
    → Reads text digits
    → length text ≤ 65536
    → ((length text ≤ 297)
        × ((i : Bigint) × (bigint_fromhex text ≡ ok i)
            × Holds i (4 * length text) (hex_value 0 digits)))
      ⊎ ((297 < length text) × (length text ≤ 32768) × (bigint_fromhex text ≡ error 1))
      ⊎ ((32768 < length text) × (bigint_fromhex text ≡ ok nothing_read))
unfolding bigint_fromhex fromhex_loop reversed
bigint_fromhex_lem text digits h limit =
    let start : Bytes (record bigint_zero { bits = 0 }) 0 0 = record {
      held = record {
        full = refl;
        octets-IsByte = bigint_zero-Holds.octets-IsByte;
        partial = omega arith;
        width = omega arith;
        number = bigint_zero-Holds.number;
        fits = omega arith;
      };
      whole = refl;
    } in
    let backwards = Reads-reversed text digits [] [] h (unfold Reads in tt) in
    let len = length-reversed text [] in
    elim (Bool-cases (leb (length text) 297)) [
      | inl p ↦
          let short : length text ≤ 297 = ground (arith, p) in
          let (i, e, held) =
            fromhex_loop-Holds (reversed text []) (reversed digits []) _ 0 0 backwards start
              (omega (arith, len, short)) in
          let width : 8 * 0 + 4 * length (reversed text []) ≡ 4 * length text =
            omega (arith, len) in
          let number : 0 + low_value (reversed digits []) * 2 ^ (8 * 0) ≡ hex_value 0 digits =
            omega (
              arith,
              low_value-reversed digits [],
              ap (λ (t : ℕ). hex_value t digits) {x = low_value []} {y = 0}
                  (unfold low_value in refl),
            ) in
          inl
            (short, (i, rw (whole_text text (omega (arith, short))) e, rw (← width, ← number) held))
      | inr p ↦
          let long : 297 < length text = ground (arith, p) in
          elim (Bool-cases (leb (length text) 32768)) [
            | inl q ↦
                let few : length text ≤ 32768 = ground (arith, q) in
                inr (
                  inl (
                    long,
                    few,
                    rw (whole_text text few) (
                        fromhex_loop_overflow (reversed text []) (reversed digits []) _ 0 backwards
                          refl (omega arith) (omega (arith, len, long))),
                  ))
            | inr q ↦
                let many : 32768 < length text = ground (arith, q) in
                inr (inr (many, rw (no_text text many limit) refl))
          ]
    ]
