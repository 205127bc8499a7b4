-- ===== src/Http/Form.antt =====
-- http/utils.c, and the loop over the fields of a form that http/url_smtp.c and http/url_wifi.c share.
-- A text is the bytes of a C string before its NUL.
pub mod Decode
pub mod Fields
mod Tests
use mathlib.Core.Option
use esp8266_toolbox.Base.{
  ℕ, zero, suc, Bool, true, false, ◌&&◌, Option, none, some, List, [], ◌∷◌, length, ◌==◌,
  if◌then◌else◌,
}

-- An entry of `map`: the two digits behind the percent sign, and the character.
pub record Code : Type 0 where
  pub hi : ℕ
  pub lo : ℕ
  pub char : ℕ

abbrev code_of : ℕ → ℕ → ℕ → Code
code_of hi lo char = record { hi = hi; lo = lo; char = char }

-- `map`
unfoldable pub decode_map : List Code
decode_map =
    code_of b'2' b'0' b' '
    ∷ code_of b'2' b'1' b'!'
    ∷ code_of b'2' b'2' 34
    ∷ code_of b'2' b'3' b'#'
    ∷ code_of b'2' b'4' b'$'
    ∷ code_of b'2' b'5' b'%'
    ∷ code_of b'2' b'6' b'&'
    ∷ code_of b'2' b'7' 39
    ∷ code_of b'2' b'8' b'('
    ∷ code_of b'2' b'9' b')'
    ∷ code_of b'2' b'A' b'*'
    ∷ code_of b'2' b'a' b'*'
    ∷ code_of b'2' b'B' b'+'
    ∷ code_of b'2' b'b' b'+'
    ∷ code_of b'2' b'C' b','
    ∷ code_of b'2' b'c' b','
    ∷ code_of b'2' b'D' b'-'
    ∷ code_of b'2' b'd' b'-'
    ∷ code_of b'2' b'E' b'.'
    ∷ code_of b'2' b'e' b'.'
    ∷ code_of b'2' b'F' b'/'
    ∷ code_of b'2' b'f' b'/'
    ∷ code_of b'3' b'A' b':'
    ∷ code_of b'3' b'a' b':'
    ∷ code_of b'3' b'B' b';'
    ∷ code_of b'3' b'b' b';'
    ∷ code_of b'3' b'C' b'<'
    ∷ code_of b'3' b'c' b'<'
    ∷ code_of b'3' b'D' b'='
    ∷ code_of b'3' b'd' b'='
    ∷ code_of b'3' b'E' b'>'
    ∷ code_of b'3' b'e' b'>'
    ∷ code_of b'3' b'F' b'?'
    ∷ code_of b'3' b'f' b'?'
    ∷ code_of b'4' b'0' b'@'
    ∷ code_of b'5' b'B' b'['
    ∷ code_of b'5' b'b' b'['
    ∷ code_of b'5' b'C' 92
    ∷ code_of b'5' b'c' 92
    ∷ code_of b'5' b'D' b']'
    ∷ code_of b'5' b'd' b']'
    ∷ code_of b'5' b'E' b'^'
    ∷ code_of b'5' b'e' b'^'
    ∷ code_of b'5' b'F' b'_'
    ∷ code_of b'5' b'f' b'_'
    ∷ code_of b'6' b'0' b'`'
    ∷ code_of b'7' b'B' b'{'
    ∷ code_of b'7' b'b' b'{'
    ∷ code_of b'7' b'C' b'|'
    ∷ code_of b'7' b'c' b'|'
    ∷ code_of b'7' b'D' b'}'
    ∷ code_of b'7' b'd' b'}'
    ∷ code_of b'7' b'E' b'~'
    ∷ code_of b'7' b'e' b'~'
    ∷ []

-- The text starts with the code.
has_code : Code → List ℕ → Bool
has_code k (x ∷ y ∷ z ∷ text) = (x == b'%') && ((y == k.hi) && (z == k.lo))
has_code k _ = false

-- The text behind its first three characters, behind the character of the code.
abbrev put_char : Code → List ℕ → List ℕ
put_char k (x ∷ y ∷ z ∷ text) = k.char ∷ text
put_char k text = text

-- `strstr`, and the replacement of what it finds; none where it finds nothing.
pub replace_first : Code → List ℕ → Option (List ℕ)
unfolding has_code
replace_first k [] = none
replace_first k (x ∷ text) =
    if has_code k (x ∷ text)
    then some (put_char k (x ∷ text))
    else Option.map (λ rest. x ∷ rest) (replace_first k text)

-- The `for` loop, with `f`.
pub decode_pass : List Code → List ℕ → List ℕ × Bool
decode_pass [] s = (s, false)
decode_pass (k ∷ codes) s = elim (replace_first k s) [
  | none ↦ decode_pass codes s
  | some s' ↦ ((decode_pass codes s').0, true)
]

-- The `while` loop. A replacement takes two characters away, so that as many rounds as there are
-- characters and one more are enough.
pub decode_rounds : ℕ → List ℕ → List ℕ
decode_rounds zero s = s
decode_rounds (suc fuel) s =
    let (s', f) = decode_pass decode_map s in elim f [ true ↦ decode_rounds fuel s' | false ↦ s' ]

unfoldable pub url_decode : List ℕ → List ℕ
url_decode s = decode_rounds (suc (length s)) s

-- `index(text, c)`: what stands before the first `c`, and behind it.
unfoldable pub split_at : ℕ → List ℕ → Option (List ℕ × List ℕ)
split_at c [] = none
split_at c (x ∷ text) =
    if x == c then some ([], text) else Option.map (λ r. (x ∷ r.0, r.1)) (split_at c text)

-- How the loop over the fields ends: by `goto form`, by `goto fail`, or by `break`.
pub data Parsed (S : Type 0) : Type 0 where
  incomplete overflow parsed : S → Parsed S

-- `set` is what the body of the loop does with a key and a value, with none for a value that does not
-- fit.
module _ {S : Type 0} (set : S → List ℕ → List ℕ → Option S) where
  -- The last field.
  unfoldable pub last_field : S → List ℕ → List ℕ → Parsed S
  last_field s key val = elim (set s key val) [ none ↦ overflow s | some s' ↦ parsed s' ]

  -- A round takes at least two characters, so that as many rounds as there are characters are enough.
  pub form_loop : ℕ → S → List ℕ → Parsed S
  form_loop zero s text = incomplete s
  form_loop (suc fuel) s text = elim (split_at b'=' text) [
    | none ↦ incomplete s
    | some (key, rest) ↦ elim (split_at b'&' rest) [
      | none ↦ last_field s key (url_decode rest)
      | some (val, next) ↦ elim (set s key (url_decode val)) [
        | none ↦ overflow s
        | some s' ↦ form_loop fuel s' next
      ]
    ]
  ]

  -- From the question mark on.
  pub parse_form : S → List ℕ → Parsed S
  parse_form s url = elim (split_at b'?' url) [
    | none ↦ incomplete s
    | some (page, text) ↦ form_loop (suc (length text)) s text
  ]
