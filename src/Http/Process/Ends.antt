-- ===== src/Http/Process/Ends.antt =====
-- The loop over the header lines ends: each line moves it on.
use esp8266_toolbox.Base.{
  ℕ, zero, suc, ◌-◌, ◌<◌, ◌≢◌, subst, Bool, true, false, Bool-cases, inl, inr, List, [], ◌∷◌, ◌++◌,
  length, none, some, Option, ◌&&◌, ◌==◌, leb, ltb, if◌then◌else◌, arith,
}
use esp8266_toolbox.Http.Lexer.{
  cr, found, distance, lf, null, overrun, parseline, parsetoken, Scan, Token,
}
use esp8266_toolbox.Http.Process.{
  exhausted, goes_on, header_line, header_loop, host_size, host_word, HttpClient, length_word,
  method_of, need, negative, outside, request_line, returns, set_method, set_url, starts_with_end,
  token_is, url_size, Verdict,
}
use esp8266_toolbox.Http.Process.Dispatch.{finish_headers, process_headers}

-- What is found is shorter.
Shorter : ℕ → Scan (List ℕ) → Type 0
Shorter n (found rest) = length rest < n
Shorter n null = Unit
Shorter n overrun = Unit

parseline-Shorter : (memory : List ℕ) (n : ℕ) → Shorter (length memory) (parseline memory n)
unfolding parseline Shorter
parseline-Shorter memory zero = tt
parseline-Shorter memory (suc zero) = tt
parseline-Shorter [] (suc (suc n)) = tt
parseline-Shorter (a ∷ []) (suc (suc n)) = elim (Bool-cases (a == cr)) [
  | inl p ↦ rw p tt
  | inr p ↦ elim (Bool-cases (n == 0)) [ inl q ↦ rw (p, q) tt | inr q ↦ rw (p, q) tt ]
]
parseline-Shorter (a ∷ b ∷ memory) (suc (suc n)) = elim (Bool-cases ((a == cr) && (b == lf))) [
  | inl p ↦ rw p (omega arith)
  | inr p ↦ rw p (wider (parseline (b ∷ memory) (suc n)) (parseline-Shorter (b ∷ memory) (suc n)))
]
  where
    wider :
        (v : Scan (List ℕ)) → Shorter (length (b ∷ memory)) v → Shorter (length (a ∷ b ∷ memory)) v
    wider (found rest) h = omega (arith, h)
    wider null h = tt
    wider overrun h = tt

-- Not out of fuel, and with less memory where it goes on.
Moves : ℕ → Verdict (List ℕ) → Type 0
Moves n (goes_on c rest) = length rest < n
Moves n exhausted = ⊥
Moves n (returns c rv) = Unit
Moves n outside = Unit
Moves n (negative c k) = Unit

need-Moves :
    (n : ℕ) (c : HttpClient) (v : Scan Token) (next : Token → Verdict (List ℕ))
    → ((t : Token) → Moves n (next t))
    → Moves n (need c v next)
unfolding need Moves
need-Moves n c (found t) next h = h t
need-Moves n c null next h = tt
need-Moves n c overrun next h = tt

if-Moves :
    (n : ℕ) (b : Bool) (v w : Verdict (List ℕ))
    → Moves n v
    → Moves n w
    → Moves n (if b then v else w)
if-Moves n true v w h k = h
if-Moves n false v w h k = k

option-Moves :
    (n : ℕ) (o : Option ℕ) (v : Verdict (List ℕ)) (w : ℕ → Verdict (List ℕ))
    → Moves n v
    → ((m : ℕ) → Moves n (w m))
    → Moves n (elim o [ none ↦ v | some m ↦ w m ])
option-Moves n none v w h k = h
option-Moves n (some m) v w h k = k m

header_line-Moves :
    (n : ℕ) (c : HttpClient) (buf nextline : List ℕ)
    → length nextline < n
    → Moves n (header_line c buf nextline)
unfolding header_line Moves
header_line-Moves n c buf nextline h =
    need-Moves n c (parsetoken buf (distance buf nextline)) _ (λ t.
      if-Moves n (token_is t host_word) _ _
        (need-Moves n c (parsetoken t.next (distance t.next nextline)) _
          (λ u. if-Moves n (ltb host_size (length u.text)) _ _ tt h))
        (if-Moves n (token_is t length_word) _ _
          (need-Moves n c (parsetoken t.next (distance t.next nextline)) _ (λ u. h)) h))

Stops : {A : Type 0} → Verdict A → Type 0
Stops exhausted = ⊥
Stops (goes_on c rest) = Unit
Stops (returns c rv) = Unit
Stops outside = Unit
Stops (negative c k) = Unit

-- After a header line, with what the rest of the loop does.
after_line :
    (n : ℕ) (v : Verdict (List ℕ)) (next : HttpClient → List ℕ → Verdict (List ℕ))
    → Moves n v
    → ((c : HttpClient) (buf : List ℕ) → length buf < n → Stops (next c buf))
    → Stops (elim v [
      | outside ↦ outside
      | negative c' k ↦ negative c' k
      | exhausted ↦ exhausted
      | returns c' rv ↦ returns c' rv
      | goes_on c' buf' ↦ next c' buf'
    ])
unfolding Moves Stops
after_line n (goes_on c' buf') next h again = again c' buf' h
after_line n exhausted next h again = absurd h
after_line n (returns c' rv) next h again = tt
after_line n outside next h again = tt
after_line n (negative c' k) next h again = tt

header_loop-Stops :
    (fuel : ℕ) (c : HttpClient) (len : ℕ) (buf : List ℕ)
    → length buf < fuel
    → Stops (header_loop fuel c len buf)
unfolding header_loop Stops
header_loop-Stops zero c len buf h = absurd (omega (arith, h))
header_loop-Stops (suc fuel) c len buf h = elim (Bool-cases (leb 2 len && starts_with_end buf)) [
  | inl p ↦ rw p tt
  | inr p ↦ rw p (
      line (parseline buf len) (parseline-Shorter buf len)
        (λ c' buf' k. header_loop-Stops fuel c' len buf' (omega (arith, h, k))))
]
  where
    line :
        (v : Scan (List ℕ))
        → Shorter (length buf) v
        → ((c' : HttpClient) (buf' : List ℕ)
            → length buf' < length buf
            → Stops (header_loop fuel c' len buf'))
        → Stops (elim v [
          | overrun ↦ outside
          | null ↦ returns c 0
          | found nextline ↦ elim (header_line c buf nextline) [
            | outside ↦ outside
            | negative c' n ↦ negative c' n
            | exhausted ↦ exhausted
            | returns c' rv ↦ returns c' rv
            | goes_on c' buf' ↦ header_loop fuel c' len buf'
          ]
        ])
    line (found nextline) k again =
        after_line (length buf) (header_line c buf nextline) _
          (header_line-Moves (length buf) c buf nextline (unfold Shorter in k)) again
    line null k again = tt
    line overrun k again = tt

-- The request line, of whatever the next one is.
request_line-Moves :
    (c : HttpClient) (memory : List ℕ) → Moves (length memory) (request_line c memory)
unfolding request_line Moves Shorter
request_line-Moves c memory =
    start (parseline memory c.bufused) (parseline-Shorter memory c.bufused)
  where
    start :
        (v : Scan (List ℕ))
        → Shorter (length memory) v
        → Moves (length memory) (elim v [
          | overrun ↦ outside
          | null ↦ returns c 0
          | found nextline ↦ need c (parsetoken memory (distance memory nextline)) (λ t.
              elim (method_of t) [
                | none ↦ returns c 1
                | some m ↦
                    need (set_method m c) (parsetoken t.next (distance t.next nextline)) (λ u.
                      if ltb url_size (length u.text)
                      then returns (set_method m c) 1
                      else goes_on (set_url u.text (set_method m c)) nextline)
              ])
        ])
    start (found nextline) k =
        need-Moves (length memory) c (parsetoken memory (distance memory nextline)) _ (λ t.
          option-Moves (length memory) (method_of t) (returns c 1) _ tt (λ m.
            need-Moves (length memory) (set_method m c)
              (parsetoken t.next (distance t.next nextline)) _
              (λ u. if-Moves (length memory) (ltb url_size (length u.text)) _ _ tt k)))
    start null k = tt
    start overrun k = tt

finish_headers-Stops :
    (c : HttpClient) (memory rest : List ℕ) → Stops (finish_headers c memory rest)
unfolding finish_headers Stops
finish_headers-Stops c memory rest =
    elim (Bool-cases (ltb c.bufused (length memory - length rest))) [
      | inl p ↦ rw p tt
      | inr p ↦ rw p tt
    ]

process_headers-Stops : (c : HttpClient) (beyond : List ℕ) → Stops (process_headers c beyond)
unfolding process_headers Stops
process_headers-Stops c beyond =
    first (request_line c (c.buf ++ beyond)) (request_line-Moves c (c.buf ++ beyond))
  where
    headers :
        (v : Verdict (List ℕ))
        → Stops v
        → Stops (elim v [
          | outside ↦ outside
          | negative c2 n ↦ negative c2 n
          | exhausted ↦ exhausted
          | returns c2 rv ↦ returns c2 rv
          | goes_on c2 rest ↦ finish_headers c2 (c.buf ++ beyond) rest
        ])
    headers (goes_on c2 rest) h = finish_headers-Stops c2 (c.buf ++ beyond) rest
    headers exhausted h = absurd h
    headers (returns c2 rv) h = tt
    headers outside h = tt
    headers (negative c2 n) h = tt

    first :
        (v : Verdict (List ℕ))
        → Moves (length (c.buf ++ beyond)) v
        → Stops (elim v [
          | outside ↦ outside
          | negative c1 n ↦ negative c1 n
          | exhausted ↦ exhausted
          | returns c1 rv ↦ returns c1 rv
          | goes_on c1 nextline ↦ elim (header_loop (suc (length nextline)) c1 c.bufused nextline) [
            | outside ↦ outside
            | negative c2 n ↦ negative c2 n
            | exhausted ↦ exhausted
            | returns c2 rv ↦ returns c2 rv
            | goes_on c2 rest ↦ finish_headers c2 (c.buf ++ beyond) rest
          ]
        ])
    first (goes_on c1 nextline) h =
        headers (header_loop (suc (length nextline)) c1 c.bufused nextline)
          (header_loop-Stops (suc (length nextline)) c1 c.bufused nextline (omega arith))
    first exhausted h = absurd (unfold Moves in h)
    first (returns c1 rv) h = tt
    first outside h = tt
    first (negative c1 n) h = tt

-- Whatever has arrived and whatever stands in the memory behind it, parsing a request ends: the loop over
-- the header lines takes no more rounds than the memory has bytes.
pub process_headers_ends : (c : HttpClient) (beyond : List ℕ) → process_headers c beyond ≢ exhausted
unfolding Stops
process_headers_ends c beyond e = subst Stops e (process_headers-Stops c beyond)
