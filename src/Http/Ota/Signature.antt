-- ===== src/Http/Ota/Signature.antt =====
-- The signature of http/url_ota.c against the number that it stands for.
use native.Mathlib.Nat.{mod-eq_of_lt, pow-le-pow_right, pow-suc, zero-mod}
use native.Mathlib.Decide.{dec_lt}
use esp8266_toolbox.Base.{
  ℕ, zero, suc, ◌+◌, ◌-◌, ◌*◌, ◌/◌, ◌%◌, ◌^◌, ◌≤◌, ◌<◌, ◌≡◌, refl, sym, ap, ap₂, ◌∙◌, inl, inr,
  true, false, not, some, none, Bool-cases, ltb, List, [], ◌∷◌, ◌++◌, length, length-take,
  replicate, replicate-add, take, All, if◌then◌else◌, append_assoc, arith,
}
use esp8266_toolbox.Crypto.Bigint.{Bigint, bigint_fromhex, hexchar, ok, reversed, used}
use esp8266_toolbox.Crypto.Bigint.Bits.{Holds}
use esp8266_toolbox.Crypto.Bigint.Hex.{bigint_fromhex_lem, hex_value, Reads}
use esp8266_toolbox.Crypto.Bigint.Normalize.{Tight}
use esp8266_toolbox.Crypto.Bigint.Ops.Expmod.{rsa_pubkey_decrypt-Holds, rsa_pubkey_decrypt_lem}
use esp8266_toolbox.Crypto.Bigint.Value.{IsByte, pow_byte, take-IsByte, take-value, value}
use esp8266_toolbox.Http.Ota.Verify.{
  check_hash, check_text, Device, forged, genuine, hash3_of, Judgement, overflow, same_strings,
}

-- The lowest `n` bytes of a number, the highest first, before others.
unfoldable pub bytes_before : ℕ → ℕ → List ℕ → List ℕ
bytes_before zero v done = done
bytes_before (suc n) v done = bytes_before n (v / 256) (v % 256 ∷ done)

abbrev pub big_endian : ℕ → ℕ → List ℕ
big_endian n v = bytes_before n v []

reversed-value :
    (xs done : List ℕ) → All IsByte xs → reversed xs done ≡ bytes_before (length xs) (value xs) done
unfolding reversed bytes_before value
reversed-value [] done h = refl
reversed-value (x ∷ xs) done h =
    let high : (x + 256 * value xs) / 256 ≡ value xs = omega (arith, h.0) in
    let low : (x + 256 * value xs) % 256 ≡ x = omega (arith, h.0) in
    reversed-value xs (x ∷ done) h.1
    ∙ ap₂ (λ (q r : ℕ). bytes_before (length xs) q (r ∷ done)) (sym high) (sym low)

zeros_before : (k : ℕ) (done : List ℕ) → bytes_before k 0 done ≡ replicate k 0 ++ done
unfolding bytes_before
zeros_before zero done = refl
zeros_before (suc k) done =
    let one : replicate k 0 ++ 0 ∷ done ≡ replicate (k + 1) 0 ++ done =
      rw replicate-add (sym (append_assoc (replicate k 0) (replicate 1 0) done)) in
    let e : k + 1 ≡ suc k = omega arith in
    zeros_before k (0 ∷ done) ∙ one ∙ ap (λ (t : ℕ). replicate t 0 ++ done) e

bytes_before-pad :
    (n k v : ℕ) (done : List ℕ)
    → v < 2 ^ (8 * n)
    → bytes_before (n + k) v done ≡ replicate k 0 ++ bytes_before n v done
unfolding bytes_before
bytes_before-pad zero k v done h =
    let none_left : v ≡ 0 = omega (arith, h) in
    let e : 0 + k ≡ k = omega arith in rw (e, none_left) (zeros_before k done)
bytes_before-pad (suc n) k v done h =
    let e : suc n + k ≡ suc (n + k) = omega arith in
    rw (e) (bytes_before-pad n k (v / 256) (v % 256 ∷ done) (omega (arith, h, pow_byte n)))

used-width : (i : Bigint) (j v : ℕ) → Holds i j v → used i ≡ (j + 7) / 8
unfolding used
used-width i j v h = ground (arith, h.width, h.partial)

-- The number fits 32 bytes if and only if the Bigint takes no more of them.
used_fits : (j v : ℕ) → Tight j v → v < 2 ^ j → ltb 32 ((j + 7) / 8) ≡ not (ltb v (2 ^ 256))
used_fits j v tight fits = elim (dec_lt 32 ((j + 7) / 8)) [
  | yes p ↦
      let some_bits : 2 ^ (8 * ((j + 7) / 8)) ≤ 256 * v = elim tight [
        | inl few ↦ absurd (omega (arith, few, p))
        | inr h ↦ h
      ] in
      let large : 2 ^ 264 ≤ 2 ^ (8 * ((j + 7) / 8)) =
        pow-le-pow_right {n = 2} (omega arith) {i = 264} {j = 8 * ((j + 7) / 8)}
          (omega (arith, p)) in
      let over : 2 ^ 256 ≤ v = omega (arith, some_bits, large) in ground (arith, p, over)
  | no p ↦
      let small : 2 ^ j ≤ 2 ^ 256 =
        pow-le-pow_right {n = 2} (omega arith) {i = j} {j = 256} (omega (arith, p)) in
      let below : v < 2 ^ 256 = omega (arith, small, fits) in ground (arith, p, below)
]

-- The bytes that the loops copy.
copied :
    (clear : Bigint) (j v : ℕ)
    → Holds clear j v
    → (j + 7) / 8 ≤ 32
    → replicate (32 - (j + 7) / 8) 0 ++ reversed (take ((j + 7) / 8) clear.octets) []
      ≡ big_endian 32 v
copied clear j v h few =
    let s : ℕ = (j + 7) / 8 in
    let xs : List ℕ = take s clear.octets in
    let count : length xs ≡ s = omega (arith, length-take s clear.octets, h.full, few) in
    let wide : 2 ^ j ≤ 2 ^ (8 * s) =
      pow-le-pow_right {n = 2} (omega arith) {i = j} {j = 8 * s} (omega arith) in
    let fits : v < 2 ^ (8 * s) = omega (arith, h.fits, wide) in
    let number : value xs ≡ v =
      take-value s clear.octets h.octets-IsByte
      ∙ ap (λ (t : ℕ). t % 2 ^ (8 * s)) h.number
      ∙ mod-eq_of_lt fits in
    let all : s + (32 - s) ≡ 32 = omega (arith, few) in
    ap (λ q. replicate (32 - s) 0 ++ q)
      (reversed-value xs [] (take-IsByte s clear.octets h.octets-IsByte)
        ∙ ap₂ (λ (n w : ℕ). bytes_before n w []) count number)
    ∙ sym (bytes_before-pad s (32 - s) v [] fits)
    ∙ ap (λ (n : ℕ). bytes_before n v []) all

-- `hash3` is the number in 32 bytes, where that is enough.
hash3_of_lem :
    (clear : Bigint) (j v : ℕ)
    → Holds clear j v
    → Tight j v
    → hash3_of clear ≡ (if ltb v (2 ^ 256) then some (big_endian 32 v) else none)
unfolding hash3_of
hash3_of_lem clear j v h tight =
    let test = used_fits j v tight h.fits in
    elim (Bool-cases (ltb v (2 ^ 256))) [
      | inl p ↦
          rw (used-width clear j v h, test, p)
            (ap some (copied clear j v h (ground (arith, test, p))))
      | inr p ↦ rw (used-width clear j v h, test, p) refl
    ]

-- What a signature should be worth: the text's number is not wider than the modulus, and its power is
-- the hash.
unfoldable pub expected : ℕ → ℕ → ℕ → List ℕ → List ℕ → List ℕ → Judgement
expected m w e text digits hash =
    let s = hex_value 0 digits ^ e % w in
    if ltb m (4 * length text)
    then forged
    else if ltb s (2 ^ 256)
    then (if same_strings 32 hash (big_endian 32 s) then genuine else forged)
    else overflow

check_hash_lem :
    (clear : Bigint) (j v : ℕ) (hash : List ℕ)
    → Holds clear j v
    → Tight j v
    → check_hash hash clear ≡ (
        if ltb v (2 ^ 256)
        then (if same_strings 32 hash (big_endian 32 v) then genuine else forged)
        else overflow)
unfolding check_hash
check_hash_lem clear j v hash h tight = elim (Bool-cases (ltb v (2 ^ 256))) [
  | inl p ↦ rw (hash3_of_lem clear j v h tight, check_hash, p) refl
  | inr p ↦ rw (hash3_of_lem clear j v h tight, check_hash, p) refl
]

wide_signature :
    (d : Device) (n m e w : ℕ) (text digits hash : List ℕ) (i : Bigint)
    → Holds d.pubkey_exp n e
    → Holds d.pubkey_mod m w
    → 1 ≤ w
    → 1 ≤ n
    → m ≤ 586
    → bigint_fromhex text ≡ ok i
    → Holds i (4 * length text) (hex_value 0 digits)
    → m < 4 * length text
    → check_text d text hash ≡ expected m w e text digits hash
unfolding check_text expected
wide_signature d n m e w text digits hash i hb hc pos some_bits cap e1 hi p =
    let test : ltb m (4 * length text) ≡ true = ground (arith, p) in
    elim (rsa_pubkey_decrypt_lem d.pubkey_mod d.pubkey_exp i (4 * length text) n m
      (hex_value 0 digits) e w hi hb hc pos some_bits cap) [
        | inl (narrow, _) ↦ absurd (omega (arith, narrow, p))
        | inr (_, e2) ↦ rw (test) (rw (e1, check_text) (rw (e2, check_text) refl))
      ]

narrow_signature :
    (d : Device) (n m e w : ℕ) (text digits hash : List ℕ) (i : Bigint)
    → Holds d.pubkey_exp n e
    → Holds d.pubkey_mod m w
    → 1 ≤ w
    → 1 ≤ n
    → m ≤ 586
    → bigint_fromhex text ≡ ok i
    → Holds i (4 * length text) (hex_value 0 digits)
    → 4 * length text ≤ m
    → check_text d text hash ≡ expected m w e text digits hash
unfolding check_text expected
narrow_signature d n m e w text digits hash i hb hc pos some_bits cap e1 hi p =
    let test : ltb m (4 * length text) ≡ false = ground (arith, p) in
    let (r, j, e2, hr, tight) =
      rsa_pubkey_decrypt-Holds d.pubkey_mod d.pubkey_exp i (4 * length text) n m
        (hex_value 0 digits) e w hi hb hc pos some_bits cap p in
    rw (test) (
      rw (e1, check_text)
        (rw (e2, check_text) (check_hash_lem r j (hex_value 0 digits ^ e % w) hash hr tight)))

power_of_zero : (e w : ℕ) → 1 ≤ e → 0 ^ e % w ≡ 0
power_of_zero zero w h = absurd (omega (arith, h))
power_of_zero (suc e) w h =
    let product : 0 ^ e * 0 ≡ 0 = omega arith in rw (pow-suc 0 e, product) (zero-mod w)

-- For a key whose modulus is not 0 and has at most 586 bits, and a text of at most 32768 hexadecimal
-- digits, more than the client's arrays have bytes: the
-- signature is forged where the text stands for more bits than the modulus has, or where the 32 bytes
-- of its power modulo the modulus and the hash differ as texts, which end at the first zero byte. It
-- is genuine where they do not differ. A power of more than 32 bytes is written past the end.
pub check_text_lem :
    (d : Device) (n m e w : ℕ) (text digits hash : List ℕ)
    → Holds d.pubkey_exp n e
    → Holds d.pubkey_mod m w
    → 1 ≤ w
    → 1 ≤ n
    → m ≤ 586
    → Reads text digits
    → length text ≤ 32768
    → check_text d text hash ≡ expected m w e text digits hash
unfolding check_text expected
check_text_lem d n m e w text digits hash hb hc pos some_bits cap h limit =
    elim (bigint_fromhex_lem text digits h (omega (arith, limit))) [
      | inr (inr (many, _)) ↦ absurd (omega (arith, many, limit))
      | inr (inl (long, _, e1)) ↦
          let wide : ltb m (4 * length text) ≡ true = ground (arith, long, cap) in
          rw (wide) (rw (e1, check_text) refl)
      | inl (_, (i, e1, hi)) ↦ elim (dec_lt m (4 * length text)) [
        | yes p ↦ wide_signature d n m e w text digits hash i hb hc pos some_bits cap e1 hi p
        | no p ↦
            narrow_signature d n m e w text digits hash i hb hc pos some_bits cap e1 hi
              (omega (arith, p))
      ]
    ]

-- For a key whose modulus is not 0 and has 4 to 586 bits, and whose exponent is not 0: the text "0" is
-- a genuine signature of every hash that starts with a zero byte.
pub zero_signature :
    (d : Device) (n m e w : ℕ) (rest : List ℕ)
    → Holds d.pubkey_exp n e
    → Holds d.pubkey_mod m w
    → 1 ≤ w
    → 1 ≤ e
    → 1 ≤ n
    → 4 ≤ m
    → m ≤ 586
    → check_text d (48 ∷ []) (0 ∷ rest) ≡ genuine
unfolding expected same_strings bytes_before hex_value Reads hexchar
zero_signature d n m e w rest hb hc pos power some_bits room cap =
    let wide : ltb m 4 ≡ false = ground (arith, room) in
    let zero_power : 0 ^ e % w ≡ 0 = power_of_zero e w power in
    check_text_lem d n m e w (48 ∷ []) (0 ∷ []) (0 ∷ rest) hb hc pos some_bits cap (refl, tt)
      (omega arith)
    ∙ rw (wide, zero_power) refl
