-- ===== src/Http/Lexer/Tokens.antt =====
-- `parsetoken` on a line: the blanks before a word are skipped, and the word ends at the first blank.
use esp8266_toolbox.Base.{
  ℕ, zero, suc, ◌+◌, ◌-◌, ap, ◌≤◌, ◌<◌, ◌<◌, ◌≡◌, ◌≢◌, refl, List, [], ◌∷◌, ◌++◌, length, arith,
  All, true, false, some,
}
use esp8266_toolbox.Http.Lexer.{
  cr, distance, found, is_blank, parsetoken, prepend, skip_blanks, token_end, token_from,
}

abbrev pub IsBlank : ℕ → Type 0
IsBlank c = is_blank c ≡ true

abbrev pub IsInk : ℕ → Type 0
IsInk c = is_blank c ≡ false

pub distance-length :
    (from to : List ℕ)
    → length to ≤ length from
    → length from < 4294967296
    → distance from to ≡ length from - length to
unfolding distance
distance-length from to h bound = omega (arith, h, bound)

pub ink-NotCr : (xs : List ℕ) → All IsInk xs → All (λ c. c ≢ cr) xs
ink-NotCr [] h = tt
ink-NotCr (x ∷ xs) (hx, h) = (ground (arith, hx), ink-NotCr xs h)

skip_blanks-append :
    (blanks : List ℕ) (c : ℕ) (memory : List ℕ) (len n : ℕ)
    → All IsBlank blanks
    → IsInk c
    → len ≡ length blanks + n
    → skip_blanks (blanks ++ c ∷ memory) len ≡ found (c ∷ memory, n)
unfolding skip_blanks
skip_blanks-append [] c memory zero n blank ink e =
    rw ink (ap (λ t. found (c ∷ memory, t)) (omega (arith, e)))
skip_blanks-append [] c memory (suc len) n blank ink e =
    rw ink (ap (λ t. found (c ∷ memory, t)) (omega (arith, e)))
skip_blanks-append (b ∷ blanks) c memory zero n blank ink e = absurd (omega (arith, e))
skip_blanks-append (b ∷ blanks) c memory (suc len) n (hb, blank) ink e =
    rw hb (skip_blanks-append blanks c memory len n blank ink (omega (arith, e)))

token_end-append :
    (word : List ℕ) (d : ℕ) (memory : List ℕ) (n : ℕ)
    → All IsInk word
    → IsBlank d
    → length word ≤ n
    → token_end (word ++ d ∷ memory) (some n) ≡ found (record { text = word; next = d ∷ memory })
unfolding token_end prepend
token_end-append [] d memory zero ink blank h = refl
token_end-append [] d memory (suc n) ink blank h = rw blank refl
token_end-append (c ∷ word) d memory zero ink blank h = absurd (omega (arith, h))
token_end-append (c ∷ word) d memory (suc n) (hc, ink) blank h =
    rw (hc, token_end-append word d memory n ink blank (omega (arith, h))) refl

-- Blanks, then a word that the length reaches to its end, then a blank: the token is the word.
pub parsetoken-word :
    (blanks : List ℕ) (c : ℕ) (word : List ℕ) (d : ℕ) (memory : List ℕ) (len : ℕ)
    → All IsBlank blanks
    → All IsInk (c ∷ word)
    → IsBlank d
    → length blanks + length (c ∷ word) ≤ len
    → parsetoken (blanks ++ (c ∷ (word ++ d ∷ memory))) len
      ≡ found (record { text = c ∷ word; next = d ∷ memory })
unfolding parsetoken token_from prepend
parsetoken-word blanks c word d memory len blank (hc, ink) hd fits =
    let n = len - length blanks - 1 in
    rw
      (
        skip_blanks-append blanks c (word ++ d ∷ memory) len (suc n) blank hc (omega (arith, fits)),
        parsetoken,
        token_end-append word d memory n ink hd (omega (arith, fits)),
      )
      refl
