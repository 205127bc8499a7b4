-- ===== src/Crypto/Bigint/Tests.antt =====
-- Runs of crypto/bigint.c and crypto/rsa.c, and their theorems at concrete inputs.
use esp8266_toolbox.Base.{
  ℕ, ◌+◌, ◌*◌, ◌/◌, ◌%◌, ◌^◌, ◌<◌, ◌≤◌, ◌≡◌, refl, ◌⊎◌, max, List, [], ◌∷◌, replicate, arith, false,
}
use esp8266_toolbox.Crypto.Bigint.{Bigint, bigint_fromhex, error, hexchar, ok}
use esp8266_toolbox.Crypto.Bigint.Ops.{
  bigint_add, bigint_cmp, bigint_div, bigint_mul, equal, greater, itself, less, other,
  rsa_pubkey_decrypt,
}
use esp8266_toolbox.Crypto.Bigint.Value.{replicate-IsByte, replicate-value, value}
use esp8266_toolbox.Crypto.Bigint.Bits.{Holds}
use esp8266_toolbox.Crypto.Bigint.Hex.{bigint_fromhex_lem, hex_value, nothing_read, Reads}
use esp8266_toolbox.Crypto.Bigint.Ops.Compare.{bigint_cmp_cases}
use esp8266_toolbox.Crypto.Bigint.Ops.Add.{bigint_add-Holds}
use esp8266_toolbox.Crypto.Bigint.Ops.Multiply.{bigint_mul-Holds}
use esp8266_toolbox.Crypto.Bigint.Ops.Remainder.{bigint_div_lem}
use esp8266_toolbox.Crypto.Bigint.Ops.Expmod.{rsa_pubkey_decrypt_lem}

-- A number of two bytes.
abbrev number_of : ℕ → ℕ → Bigint
number_of low high = record { bytes = 2; bits = 0; octets = low ∷ high ∷ replicate 148 0 }

number_of-Holds :
    (low high : ℕ) → low < 256 → high < 256 → Holds (number_of low high) 16 (low + 256 * high)
unfolding value
number_of-Holds low high hl hh = record {
  full = refl;
  octets-IsByte = (hl, (hh, replicate-IsByte 148));
  partial = omega arith;
  width = omega arith;
  number = omega (arith, replicate-value 148);
  fits = omega (arith, hl, hh);
}

-- 889 is 7 times 127, 35 the exponent.
abbrev modulus : Bigint
modulus = number_of 121 3

modulus-Holds : Holds modulus 16 889
modulus-Holds = number_of-Holds 121 3 (omega arith) (omega arith)

abbrev exponent : Bigint
exponent = number_of 35 0

exponent-Holds : Holds exponent 16 35
exponent-Holds = number_of-Holds 35 0 (omega arith) (omega arith)

abbrev cipher : Bigint
cipher = number_of 35 1

cipher-Holds : Holds cipher 16 291
cipher-Holds = number_of-Holds 35 1 (omega arith) (omega arith)

rsa_pubkey_decrypt_lem_example :
    ((16 ≤ 16)
      × ((r : Bigint) × (j : ℕ) × (rsa_pubkey_decrypt modulus exponent cipher ≡ ok r)
          × Holds r j (291 ^ 35 % 889)))
    ⊎ ((16 < 16) × (rsa_pubkey_decrypt modulus exponent cipher ≡ error 1))
rsa_pubkey_decrypt_lem_example =
    rsa_pubkey_decrypt_lem modulus exponent cipher 16 16 16 291 35 889 cipher-Holds exponent-Holds
      modulus-Holds (omega arith) (omega arith) (omega arith)

-- The clear text.
clear_number : 291 ^ 35 % 889 ≡ 611
clear_number = omega arith

-- The divisor 1. The quotient that is stored for 889 is 377.
abbrev one_number : ℕ
one_number = 1

lost_bits : 889 / one_number % 2 ^ (16 / 2 + 1) ≡ 377
lost_bits = omega arith

abbrev cipher_number : ℕ
cipher_number = 291

bigint_div_lem_example :
    ((one_number ≡ 0) × (bigint_div false modulus (number_of 1 0) ≡ error 2))
    ⊎ ((q : Bigint) × (r : Bigint) × (j : ℕ) × (k : ℕ) × (bigint_div false modulus (number_of 1 0)
          ≡ ok (q, r))
        × Holds q j (889 / 1 % 2 ^ (16 / 2 + 1))
        × Holds r k (889 % 1))
bigint_div_lem_example =
    bigint_div_lem modulus (number_of 1 0) 16 16 889 1 modulus-Holds
      (number_of-Holds 1 0 (omega arith) (omega arith)) (omega arith) (omega arith)

bigint_mul-Holds_example :
    (p : Bigint) × (k : ℕ) × (bigint_mul cipher exponent ≡ ok p)
    × Holds p k (291 * 35)
    × (k ≤ 16 + 16 + 1)
bigint_mul-Holds_example =
    bigint_mul-Holds cipher exponent 16 16 291 35 cipher-Holds exponent-Holds (omega arith)

bigint_add-Holds_example :
    (s : Bigint) × (n : ℕ) × (bigint_add cipher itself (other modulus) ≡ ok s)
    × Holds s n (291 + 889)
    × (n ≤ max 16 16 + 1)
bigint_add-Holds_example =
    bigint_add-Holds cipher itself (other modulus) 16 291 16 16 291 889 cipher-Holds cipher-Holds
      modulus-Holds (omega arith) (omega arith)

bigint_cmp_cases_example :
    ((291 < 889) × (bigint_cmp cipher modulus ≡ less))
    ⊎ (((cipher_number ≡ 889) × (bigint_cmp cipher modulus ≡ equal))
        ⊎ ((889 < 291) × (bigint_cmp cipher modulus ≡ greater)))
bigint_cmp_cases_example = bigint_cmp_cases cipher modulus 16 16 291 889 cipher-Holds modulus-Holds

-- "1bF", an odd number of digits in both cases.
abbrev odd_text : List ℕ
odd_text = b'1' ∷ b'b' ∷ b'F' ∷ []

odd_text-Reads : Reads odd_text (1 ∷ 11 ∷ 15 ∷ [])
unfolding Reads hexchar
odd_text-Reads = (refl, (refl, (refl, tt)))

bigint_fromhex_lem_example :
    ((3 ≤ 297)
      × ((i : Bigint) × (bigint_fromhex odd_text ≡ ok i)
          × Holds i (4 * 3) (hex_value 0 (1 ∷ 11 ∷ 15 ∷ []))))
    ⊎ ((297 < 3) × (3 ≤ 32768) × (bigint_fromhex odd_text ≡ error 1))
    ⊎ ((32768 < 3) × (bigint_fromhex odd_text ≡ ok nothing_read))
bigint_fromhex_lem_example =
    bigint_fromhex_lem odd_text (1 ∷ 11 ∷ 15 ∷ []) odd_text-Reads (omega arith)
