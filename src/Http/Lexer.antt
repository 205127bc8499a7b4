-- ===== src/Http/Lexer.antt =====
-- http/process.c: `parseline` and `parsetoken`. A pointer is the memory from it on, up to the end of
-- what is known of the memory; a read past that is an outcome of its own.
pub mod Lines
pub mod Tokens
use esp8266_toolbox.Base.{
  ℕ, zero, suc, ◌+◌, ◌-◌, Bool, true, false, ◌&&◌, Option, none, some, List, [], ◌∷◌, length, ◌==◌,
  if◌then◌else◌,
}
use esp8266_toolbox.Base.Bits.{u32}

pub data Scan {ℓ} (A : Type ℓ) : Type ℓ where
  found : A → Scan A
  null : Scan A
  overrun : Scan A

-- The line feed and the carriage return.
abbrev pub lf : ℕ
lf = 10

abbrev pub cr : ℕ
cr = 13

-- The memory after the first line. The second argument is `len - i + 1`.
unfoldable pub parseline : List ℕ → ℕ → Scan (List ℕ)
parseline memory zero = null
parseline memory (suc zero) = null
parseline [] (suc (suc n)) = overrun
parseline (a ∷ []) (suc (suc n)) = if a == cr then overrun else if n == 0 then null else overrun
parseline (a ∷ b ∷ memory) (suc (suc n)) =
    let rest = parseline (b ∷ memory) (suc n) in
    if (a == cr) && (b == lf) then found memory else rest

abbrev pub is_blank : ℕ → Bool
is_blank c = if c == 32 then true else if c == cr then true else c == lf

-- The first loop: where it stops, and `len - i` there.
pub skip_blanks : List ℕ → ℕ → Scan (List ℕ × ℕ)
skip_blanks [] n = overrun
skip_blanks (c ∷ memory) zero = if is_blank c then null else found (c ∷ memory, zero)
skip_blanks (c ∷ memory) (suc n) =
    let rest = skip_blanks memory n in if is_blank c then rest else found (c ∷ memory, suc n)

-- What a token is: its text, and the memory from the first byte after it.
pub record Token : Type 0 where
  pub text : List ℕ
  pub next : List ℕ

pub prepend : ℕ → Scan Token → Scan Token
prepend c (found t) = found (record { text = c ∷ t.text; next = t.next })
prepend c null = null
prepend c overrun = overrun

-- The second loop. The number is `len - i`, and none stands for an `i` that is past `len` already,
-- where the test `i == len` never holds.
pub token_end : List ℕ → Option ℕ → Scan Token
token_end [] n = overrun
token_end (c ∷ memory) none =
    let rest = prepend c (token_end memory none) in
    if is_blank c then found (record { text = []; next = c ∷ memory }) else rest
token_end (c ∷ memory) (some zero) = found (record { text = []; next = c ∷ memory })
token_end (c ∷ memory) (some (suc n)) =
    let rest = prepend c (token_end memory (some n)) in
    if is_blank c then found (record { text = []; next = c ∷ memory }) else rest

-- From the first byte of a token, with `len - i` there.
pub token_from : List ℕ × ℕ → Scan Token
token_from ([], n) = overrun
token_from (c ∷ memory, zero) = prepend c (token_end memory none)
token_from (c ∷ memory, suc n) = prepend c (token_end memory (some n))

pub parsetoken : List ℕ → ℕ → Scan Token
parsetoken memory len = elim (skip_blanks memory len) [
  | found at ↦ token_from at
  | null ↦ null
  | overrun ↦ overrun
]

-- The difference of two pointers into one memory as a 32-bit `size_t`.
pub distance : List ℕ → List ℕ → ℕ
distance from to = u32 (length from + 4294967296 - length to)
