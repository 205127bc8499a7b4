-- ===== src/Http/Process/Headers.antt =====
-- The request line: what `http_process` makes of a line that a client prints by the protocol.
use mathlib.Core.List.{append_assoc}
use esp8266_toolbox.Base.{
  ℕ, ◌+◌, ◌≤◌, ◌<◌, ◌≡◌, ◌≢◌, refl, ap, ◌∙◌, false, some, List, [], ◌∷◌, ◌++◌, length,
  length-append, arith, All, All-append, ltb,
}
use esp8266_toolbox.Http.Lexer.{cr, lf, distance, found, parseline, parsetoken}
use esp8266_toolbox.Http.Lexer.Lines.{parseline-line}
use esp8266_toolbox.Http.Lexer.Tokens.{distance-length, ink-NotCr, IsInk, parsetoken-word}
use esp8266_toolbox.Http.Process.{
  get_word, goes_on, HttpClient, method_get, method_of, method_post, need, post_word, request_line,
  same_prefix, set_method, set_url, token_is, url_size,
}

-- The two methods that the server knows.
pub data Verb : Type 0 where
  get post : Verb

abbrev pub verb_word : Verb → List ℕ
verb_word get = get_word
verb_word post = post_word

abbrev pub verb_code : Verb → ℕ
verb_code get = method_get
verb_code post = method_post

-- "GET /page HTTP/1.1\r\n" and what comes after it.
abbrev pub request : Verb → List ℕ → List ℕ → List ℕ → List ℕ
request verb url version rest =
    verb_word verb ++ (32 ∷ (url ++ (32 ∷ (version ++ (cr ∷ lf ∷ rest)))))

after_verb-length :
    (url version rest : List ℕ)
    → length (32 ∷ (url ++ (32 ∷ (version ++ (cr ∷ lf ∷ rest)))))
      ≡ length url + length version + 4 + length rest
after_verb-length url version rest = ground (
  arith,
  length-append url (32 ∷ (version ++ (cr ∷ lf ∷ rest))),
  length-append version (cr ∷ lf ∷ rest),
)

pub request-length :
    (verb : Verb) (url version rest : List ℕ)
    → length (request verb url version rest)
      ≡ length (verb_word verb) + length url + length version + 4 + length rest
request-length verb url version rest =
    length-append (verb_word verb) (32 ∷ (url ++ (32 ∷ (version ++ (cr ∷ lf ∷ rest)))))
    ∙ omega (arith, after_verb-length url version rest)

verb-NotCr : (verb : Verb) → All (λ c. c ≢ cr) (verb_word verb)
verb-NotCr get = (ground arith, (ground arith, (ground arith, tt)))
verb-NotCr post = (ground arith, (ground arith, (ground arith, (ground arith, tt))))

request-parseline :
    (verb : Verb) (url version rest : List ℕ) (len : ℕ)
    → All IsInk url
    → All (λ c. c ≢ cr) version
    → length (verb_word verb) + length url + length version + 4 ≤ len
    → parseline (request verb url version rest) len ≡ found rest
request-parseline verb url version rest len ink no_cr fits =
    let line = verb_word verb ++ (32 ∷ (url ++ (32 ∷ version))) in
    let tail =
      All-append (λ c. c ≢ cr) url (32 ∷ version) (ink-NotCr url ink) (ground arith, no_cr) in
    let same : line ++ (cr ∷ lf ∷ rest) ≡ request verb url version rest =
      append_assoc (verb_word verb) (32 ∷ (url ++ (32 ∷ version))) (cr ∷ lf ∷ rest)
      ∙ ap (λ t. verb_word verb ++ (32 ∷ t)) (append_assoc url (32 ∷ version) (cr ∷ lf ∷ rest)) in
    let bound : length line + 2 ≤ len = ground (
      arith,
      length-append (verb_word verb) (32 ∷ (url ++ (32 ∷ version))),
      length-append url (32 ∷ version),
    ) in
    rw (← same) (
      parseline-line line rest len
        (All-append (λ c. c ≢ cr) (verb_word verb) (32 ∷ (url ++ (32 ∷ version))) (verb-NotCr verb)
          (ground arith, tail))
        bound)

-- The word of a method is read as the method.
method_of-verb :
    (verb : Verb) (next : List ℕ)
    → method_of (record { text = verb_word verb; next = next }) ≡ some (verb_code verb)
unfolding method_of token_is same_prefix
method_of-verb get next = refl
method_of-verb post next = refl

first_token :
    (verb : Verb) (u : ℕ) (url version rest : List ℕ) (len : ℕ)
    → length (verb_word verb) ≤ len
    → parsetoken (request verb (u ∷ url) version rest) len
      ≡ found (record {
        text = verb_word verb;
        next = 32 ∷ (u ∷ url ++ (32 ∷ (version ++ (cr ∷ lf ∷ rest))));
      })
first_token get u url version rest len fits =
    parsetoken-word [] 71 (69 ∷ 84 ∷ []) 32 (u ∷ url ++ (32 ∷ (version ++ (cr ∷ lf ∷ rest)))) len tt
      (refl, (refl, (refl, tt))) refl (omega (arith, fits))
first_token post u url version rest len fits =
    parsetoken-word [] 80 (79 ∷ 83 ∷ 84 ∷ []) 32 (u ∷ url ++ (32 ∷ (version ++ (cr ∷ lf ∷ rest))))
      len tt (refl, (refl, (refl, (refl, tt)))) refl (omega (arith, fits))

-- A request line by the protocol, all of it received and with a page name that fits into `url`: the
-- method and the page are stored, and parsing goes on right after the line.
pub request_line-request :
    (c : HttpClient) (verb : Verb) (u : ℕ) (url version rest : List ℕ)
    → All IsInk (u ∷ url)
    → All (λ c. c ≢ cr) version
    → length (u ∷ url) ≤ url_size
    → length (verb_word verb) + length (u ∷ url) + length version + 4 ≤ c.bufused
    → length (request verb (u ∷ url) version rest) < 4294967296
    → request_line c (request verb (u ∷ url) version rest)
      ≡ goes_on (set_url (u ∷ url) (set_method (verb_code verb) c)) rest
unfolding request_line need
request_line-request c verb u url version rest ink no_cr fits received bound =
    let e = request-parseline verb (u ∷ url) version rest c.bufused ink no_cr received in
    let lines = request-length verb (u ∷ url) version rest in
    let d0 =
      distance-length (request verb (u ∷ url) version rest) rest (omega (arith, lines)) bound in
    let after = 32 ∷ (u ∷ url ++ (32 ∷ (version ++ (cr ∷ lf ∷ rest)))) in
    let t0 =
      first_token verb u url version rest (distance (request verb (u ∷ url) version rest) rest)
        (omega (arith, lines, d0)) in
    let rest_lines = after_verb-length (u ∷ url) version rest in
    let d1 =
      distance-length after rest (omega (arith, rest_lines))
        (omega (arith, rest_lines, lines, bound)) in
    let t1 =
      parsetoken-word (32 ∷ []) u url 32 (version ++ (cr ∷ lf ∷ rest)) (distance after rest)
        (refl, tt) ink refl (omega (arith, d1, rest_lines)) in
    let small : ltb url_size (length (u ∷ url)) ≡ false = ground (arith, fits) in
    rw (e, request_line, t0, need, method_of-verb verb after, t1, small) refl
