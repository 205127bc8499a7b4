-- ===== src/Http/Process/Fields.antt =====
-- The header lines: what `http_process` makes of headers that a client prints by the protocol.
use mathlib.Core.List.{append_assoc}
use esp8266_toolbox.Base.{
  ℕ, ◌+◌, ◌≤◌, ◌<◌, ◌≡◌, ◌≢◌, refl, ◌∙◌, Bool, false, true, ◌⊎◌, List, [], ◌∷◌, ◌++◌, length,
  length-append, arith, All, All-append, ltb, if◌then◌else◌, Bool-cases, inl, inr,
}
use esp8266_toolbox.Http.Lexer.{cr, lf, distance, found, parseline}
use esp8266_toolbox.Http.Lexer.Lines.{parseline-line}
use esp8266_toolbox.Http.Lexer.Tokens.{distance-length, ink-NotCr, IsInk, parsetoken-word}
use esp8266_toolbox.Http.Process.Decimal.{atoi-decimal, decimal, Ends, IsDigit}
use esp8266_toolbox.Http.Process.{
  atoi, digits_from, goes_on, header_line, host_size, host_word, HttpClient, length_word, need,
  set_host, set_postlen, token_is,
}

-- A header without its colon: the name "Host:" ends in one. Neither text is empty.
pub record Field : Type 0 where
  pub name_first : ℕ
  pub name_rest : List ℕ
  pub value_first : ℕ
  pub value_rest : List ℕ

abbrev pub name : Field → List ℕ
name f = f.name_first ∷ f.name_rest

abbrev pub value : Field → List ℕ
value f = f.value_first ∷ f.value_rest

-- "Host: 192.168.4.1\r\n" and what comes after it.
abbrev pub print_field : Field → List ℕ → List ℕ
print_field f rest = name f ++ (32 ∷ (value f ++ (cr ∷ lf ∷ rest)))

-- Whether the code takes the name for `word`.
unfoldable pub named : Field → List ℕ → Bool
named f word = token_is (record { text = name f; next = [] }) word

-- The value of a header that is taken for the length is a decimal number that an `int` can be.
abbrev pub IsCount : Field → Type 0
IsCount f =
    (named f host_word ≡ true)
    ⊎ ((named f length_word ≡ false) ⊎ (All IsDigit (value f) × (decimal (value f) < 2147483648)))

abbrev pub IsField : Field → Type 0
IsField f = All IsInk (name f) × All IsInk (value f) × (length (value f) ≤ host_size) × IsCount f

-- What a header is for.
unfoldable pub apply_field : Field → HttpClient → HttpClient
apply_field f c =
    if named f host_word
    then set_host (value f) c
    else if named f length_word
    then set_postlen (decimal (value f)) c
    else c

pub print_field-length :
    (f : Field) (rest : List ℕ)
    → length (print_field f rest) ≡ length (name f) + length (value f) + 3 + length rest
print_field-length f rest =
    length-append (name f) (32 ∷ (value f ++ (cr ∷ lf ∷ rest)))
    ∙ omega (arith, length-append (value f) (cr ∷ lf ∷ rest))

pub field-parseline :
    (f : Field) (rest : List ℕ) (len : ℕ)
    → IsField f
    → length (name f) + length (value f) + 3 ≤ len
    → parseline (print_field f rest) len ≡ found rest
field-parseline f rest len (ink, ink', short, _) fits =
    let line = name f ++ (32 ∷ value f) in
    let same : line ++ (cr ∷ lf ∷ rest) ≡ print_field f rest =
      append_assoc (name f) (32 ∷ value f) (cr ∷ lf ∷ rest) in
    let bound : length line + 2 ≤ len =
      ground (arith, length-append (name f) (32 ∷ value f), fits) in
    rw (← same) (
      parseline-line line rest len
        (All-append (λ c. c ≢ cr) (name f) (32 ∷ value f) (ink-NotCr (name f) ink)
          (ground arith, ink-NotCr (value f) ink'))
        bound)

cr-Ends : (rest : List ℕ) → Ends (cr ∷ rest)
unfolding digits_from
cr-Ends rest n = refl

-- What is stored for the length.
count_stored :
    (f : Field) (rest : List ℕ)
    → IsCount f
    → named f host_word ≡ false
    → named f length_word ≡ true
    → atoi (value f ++ (cr ∷ rest)) ≡ decimal (value f)
count_stored f rest (inl host) no_host len = absurd (ground (arith, host, no_host))
count_stored f rest (inr (inl other)) no_host len = absurd (ground (arith, other, len))
count_stored f rest (inr (inr (digits, small))) no_host len =
    atoi-decimal f.value_first f.value_rest (cr ∷ rest) digits (cr-Ends rest) small

pub header_line-field :
    (c : HttpClient) (f : Field) (rest : List ℕ)
    → IsField f
    → length (print_field f rest) < 4294967296
    → header_line c (print_field f rest) rest ≡ goes_on (apply_field f c) rest
unfolding header_line need apply_field named token_is
header_line-field c f rest (ink, ink', short, count) bound =
    let lines = print_field-length f rest in
    let after = 32 ∷ (value f ++ (cr ∷ lf ∷ rest)) in
    let after_lines = length-append (value f) (cr ∷ lf ∷ rest) in
    let d0 = distance-length (print_field f rest) rest (omega (arith, lines)) bound in
    let t0 =
      parsetoken-word [] f.name_first f.name_rest 32 (value f ++ (cr ∷ lf ∷ rest))
        (distance (print_field f rest) rest) tt ink refl (omega (arith, lines, d0)) in
    let d1 =
      distance-length after rest (omega (arith, after_lines))
        (omega (arith, after_lines, lines, bound)) in
    let t1 =
      parsetoken-word (32 ∷ []) f.value_first f.value_rest cr (lf ∷ rest) (distance after rest)
        (refl, tt) ink' refl (omega (arith, d1, after_lines)) in
    let small : ltb host_size (length (value f)) ≡ false = ground (arith, short) in
    elim (Bool-cases (named f host_word)) [
      | inl p ↦ rw (t0, header_line, t1, p, small) refl
      | inr p ↦ elim (Bool-cases (named f length_word)) [
        | inl q ↦ rw (t0, header_line, t1, p, q, count_stored f (lf ∷ rest) count p q) refl
        | inr q ↦ rw (t0, header_line, p, q) refl
      ]
    ]
