-- ===== src/Http/Process.antt =====
-- http/process.c: `http_process`, from the bytes that arrived to the handler that answers.
pub mod Dispatch
pub mod Decimal
pub mod Ends
pub mod Headers
pub mod Fields
pub mod Request
use esp8266_toolbox.Base.{
  ℕ, zero, suc, ◌+◌, ◌-◌, ◌*◌, Bool, true, false, ◌&&◌, ◌||◌, Option, none, some, List, [], ◌∷◌,
  ◌++◌, length, take, drop, set, min, ◌==◌, ltb, leb, if◌then◌else◌,
}
use esp8266_toolbox.Base.Bits.{u32}
use esp8266_toolbox.Base.Memory.{overlay}
use esp8266_toolbox.Http.Lexer.{
  Scan, found, null, overrun, parseline, parsetoken, Token, cr, lf, distance,
}

-- Without the connection, which only log messages use.
pub record HttpClient : Type 0 where
  pub state : ℕ
  pub method : ℕ
  pub url : List ℕ
  pub host : List ℕ
  pub buf : List ℕ
  pub bufused : ℕ
  pub postused : ℕ
  pub postlen : ℕ

abbrev pub state_headers : ℕ
state_headers = 0

abbrev pub state_postdata : ℕ
state_postdata = 1

abbrev pub state_response : ℕ
state_response = 2

abbrev pub method_get : ℕ
method_get = 0

abbrev pub method_post : ℕ
method_post = 1

abbrev pub url_size : ℕ
url_size = 256

abbrev pub host_size : ℕ
host_size = 64

-- `os_strncmp(a, b, n) == 0`, where `a` is memory and `b` the text of a string literal.
unfoldable pub same_prefix : ℕ → List ℕ → List ℕ → Bool
same_prefix zero a b = true
same_prefix (suc n) (x ∷ a) (y ∷ b) = (x == y) && same_prefix n a b
same_prefix (suc n) (x ∷ a) [] = x == 0
same_prefix (suc n) [] b = false

-- `os_strncmp(token, word, MIN(nexttoken-token, length of word)) == 0`
unfoldable pub token_is : Token → List ℕ → Bool
token_is t word = same_prefix (min (length t.text) (length word)) t.text word

abbrev pub get_word : List ℕ
get_word = 71 ∷ 69 ∷ 84 ∷ []

abbrev pub post_word : List ℕ
post_word = 80 ∷ 79 ∷ 83 ∷ 84 ∷ []

-- "Host:"
abbrev pub host_word : List ℕ
host_word = 72 ∷ 111 ∷ 115 ∷ 116 ∷ 58 ∷ []

-- "Content-Length:"
abbrev pub length_word : List ℕ
length_word =
    67 ∷ 111 ∷ 110 ∷ 116 ∷ 101 ∷ 110 ∷ 116 ∷ 45 ∷ 76 ∷ 101 ∷ 110 ∷ 103 ∷ 116 ∷ 104 ∷ 58 ∷ []

pub method_of : Token → Option ℕ
method_of t =
    if token_is t get_word
    then some method_get
    else if token_is t post_word
    then some method_post
    else none

unfoldable pub digits_from : ℕ → List ℕ → ℕ
digits_from n [] = n
digits_from n (c ∷ memory) =
    let rest = digits_from (n * 10 + (c - 48)) memory in if leb 48 c && leb c 57 then rest else n

-- `isspace`
abbrev pub is_space : ℕ → Bool
is_space c = (c == 32) || (leb 9 c && leb c 13)

-- `atoi`, stored in 32 bits. A number that is no `int` is undefined behaviour in C; the library's
-- `strtol`, on which it stands, gives the nearest one.
unfoldable pub atoi : List ℕ → ℕ
atoi [] = 0
atoi (c ∷ text) =
    let rest = atoi text in
    if is_space c
    then rest
    else if c == 43
    then min (digits_from 0 text) 2147483647
    else if c == 45
    then u32 (4294967296 - min (digits_from 0 text) 2147483648)
    else min (digits_from 0 (c ∷ text)) 2147483647

-- `return` with its value; what the next part of the function works with; an access outside of the
-- memory; the `os_memmove` with a negative count, with the client and the size of the header that it
-- takes away; and a loop whose fuel was too little, which stands for nothing that the program does.
pub data Verdict {ℓ} (A : Type ℓ) : Type ℓ where
  returns : HttpClient → ℕ → Verdict A
  goes_on : HttpClient → A → Verdict A
  outside : Verdict A
  negative : HttpClient → ℕ → Verdict A
  exhausted : Verdict A

pub set_method : ℕ → HttpClient → HttpClient
set_method m c = record {
  state = c.state;
  method = m;
  url = c.url;
  host = c.host;
  buf = c.buf;
  bufused = c.bufused;
  postused = c.postused;
  postlen = c.postlen;
}

-- The copy into `url` and the NUL after it, which at 256 bytes falls on the first byte of `host`.
pub set_url : List ℕ → HttpClient → HttpClient
set_url text c = record {
  state = c.state;
  method = c.method;
  url = overlay c.url 0 (take url_size (text ++ 0 ∷ []));
  host = if length text == url_size then overlay c.host 0 (0 ∷ []) else c.host;
  buf = c.buf;
  bufused = c.bufused;
  postused = c.postused;
  postlen = c.postlen;
}

-- The same for `host`, where the byte after it is the first one of `buf`.
pub set_host : List ℕ → HttpClient → HttpClient
set_host text c = record {
  state = c.state;
  method = c.method;
  url = c.url;
  host = overlay c.host 0 (take host_size (text ++ 0 ∷ []));
  buf = if length text == host_size then overlay c.buf 0 (0 ∷ []) else c.buf;
  bufused = c.bufused;
  postused = c.postused;
  postlen = c.postlen;
}

pub set_postlen : ℕ → HttpClient → HttpClient
set_postlen n c = record {
  state = c.state;
  method = c.method;
  url = c.url;
  host = c.host;
  buf = c.buf;
  bufused = c.bufused;
  postused = c.postused;
  postlen = n;
}

-- A lookup of a token that must be there.
pub need {ℓ} : {A : Type ℓ} → HttpClient → Scan Token → (Token → Verdict A) → Verdict A
need c (found t) rest = rest t
need c null rest = returns c 1
need c overrun rest = outside

-- The request line at `buf`: the memory after it.
pub request_line : HttpClient → List ℕ → Verdict (List ℕ)
request_line c buf = elim (parseline buf c.bufused) [
  | overrun ↦ outside
  | null ↦ returns c 0
  | found nextline ↦ need c (parsetoken buf (distance buf nextline)) (λ t. elim (method_of t) [
    | none ↦ returns c 1
    | some m ↦ need (set_method m c) (parsetoken t.next (distance t.next nextline)) (λ u.
        if ltb url_size (length u.text)
        then returns (set_method m c) 1
        else goes_on (set_url u.text (set_method m c)) nextline)
  ])
]

pub starts_with_end : List ℕ → Bool
starts_with_end (a ∷ b ∷ memory) = (a == cr) && (b == lf)
starts_with_end _ = false

-- One header line at `buf`, which ends before `nextline`.
pub header_line : HttpClient → List ℕ → List ℕ → Verdict (List ℕ)
header_line c buf nextline = need c (parsetoken buf (distance buf nextline)) (λ t.
    if token_is t host_word
    then need c (parsetoken t.next (distance t.next nextline)) (λ u.
      if ltb host_size (length u.text) then returns c 1 else goes_on (set_host u.text c) nextline)
    else if token_is t length_word
    then need c (parsetoken t.next (distance t.next nextline))
        (λ u. goes_on (set_postlen (atoi (u.text ++ u.next)) c) nextline)
    else goes_on c nextline)

-- The header lines. The source's `len -= nextline-buf` stands after `buf = nextline` and so takes
-- nothing off: `len` is the same in every round. A round moves `buf`, so `fuel` above the length of
-- the memory is enough.
pub header_loop : ℕ → HttpClient → ℕ → List ℕ → Verdict (List ℕ)
header_loop zero c len buf = exhausted
header_loop (suc fuel) c len buf =
    if leb 2 len && starts_with_end buf then goes_on c (drop 2 buf) else elim (parseline buf len) [
      | overrun ↦ outside
      | null ↦ returns c 0
      | found nextline ↦ elim (header_line c buf nextline) [
        | outside ↦ outside
        | negative c' n ↦ negative c' n
        | exhausted ↦ exhausted
        | returns c' rv ↦ returns c' rv
        | goes_on c' buf' ↦ header_loop fuel c' len buf'
      ]
    ]
