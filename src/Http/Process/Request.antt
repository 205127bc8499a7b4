-- ===== src/Http/Process/Request.antt =====
-- A whole request: `http_process` against what the request says.
use esp8266_toolbox.Base.{
  ℕ, zero, suc, ◌+◌, ◌-◌, ◌≤◌, ◌<◌, ◌≡◌, ◌≢◌, refl, ap, ◌∙◌, true, false, ◌&&◌, List, [], ◌∷◌, ◌++◌,
  length, arith, All, ◌==◌, ltb, leb, if◌then◌else◌, Bool-cases, inl, inr, length-append,
  take-append_length,
}
use esp8266_toolbox.Base.Memory.{overlay}
use esp8266_toolbox.Http.Lexer.{cr, lf}
use esp8266_toolbox.Http.Lexer.Tokens.{IsInk}
use esp8266_toolbox.Http.Process.{
  goes_on, negative, header_loop, host_word, HttpClient, length_word, method_get, set_host,
  set_postlen, set_method, set_url, starts_with_end, state_postdata, state_response, url_size,
}
use esp8266_toolbox.Http.Process.Dispatch.{finish_headers, process_headers}
use esp8266_toolbox.Http.Process.Headers.{
  Verb, verb_code, verb_word, request, request_line-request, request-length,
}
use esp8266_toolbox.Http.Process.Fields.{
  apply_field, Field, field-parseline, header_line-field, IsField, name, named, print_field,
  print_field-length, value,
}

-- All header lines, the empty line, and what comes after it.
abbrev pub print_fields : List Field → List ℕ → List ℕ
print_fields [] body = cr ∷ lf ∷ body
print_fields (f ∷ fields) body = print_field f (print_fields fields body)

pub apply_fields : List Field → HttpClient → HttpClient
apply_fields [] c = c
apply_fields (f ∷ fields) c = apply_fields fields (apply_field f c)

print_fields-length :
    (fields : List Field) (body : List ℕ) → length body + 2 ≤ length (print_fields fields body)
print_fields-length [] body = omega arith
print_fields-length (f ∷ fields) body =
    omega (arith, print_field-length f (print_fields fields body), print_fields-length fields body)

not_end : (a : ℕ) (memory : List ℕ) → IsInk a → starts_with_end (a ∷ memory) ≡ false
unfolding starts_with_end
not_end a [] ink = refl
not_end a (b ∷ memory) ink = let p : (a == cr) ≡ false = ground (arith, ink) in rw p refl

-- A header line of at most `len` bytes.
abbrev pub Fits : ℕ → Field → Type 0
Fits len f = IsField f × (length (name f) + length (value f) + 3 ≤ len)

-- Lines that fit all together fit one by one.
fields-Fits :
    (fields : List Field) (len : ℕ) (body : List ℕ)
    → All IsField fields
    → length (print_fields fields body) ≤ len + length body
    → All (Fits len) fields
fields-Fits [] len body valid fits = tt
fields-Fits (f ∷ fields) len body (valid, valids) fits =
    let lines = print_field-length f (print_fields fields body) in
    let more = print_fields-length fields body in
    (
      (valid, omega (arith, lines, more, fits)),
      fields-Fits fields len body valids (omega (arith, lines, fits)),
    )

-- The loop stores header after header. Only the length of each line counts, not that of all of them.
header_loop-fields :
    (fields : List Field) (fuel : ℕ) (c : HttpClient) (len : ℕ) (body : List ℕ)
    → 2 ≤ len
    → All (Fits len) fields
    → length (print_fields fields body) < fuel
    → length (print_fields fields body) < 4294967296
    → header_loop fuel c len (print_fields fields body) ≡ goes_on (apply_fields fields c) body
unfolding header_loop apply_fields starts_with_end
header_loop-fields fields zero c len body two valid fuel_ok bound = absurd (omega (arith, fuel_ok))
header_loop-fields [] (suc fuel) c len body two valid fuel_ok bound =
    let p : leb 2 len ≡ true = ground (arith, two) in rw p refl
header_loop-fields (f ∷ fields) (suc fuel) c len body two ((valid, short), valids) fuel_ok bound =
    let rest = print_fields fields body in
    let lines = print_field-length f rest in
    let p : (leb 2 len && starts_with_end (print_field f rest)) ≡ false =
      rw (not_end f.name_first (f.name_rest ++ (32 ∷ (value f ++ (cr ∷ lf ∷ rest)))) valid.0.0)
        (ground arith) in
    let line = field-parseline f rest len valid short in
    let stored = header_line-field c f rest valid bound in
    rw (p, line, stored)
      (header_loop-fields fields fuel (apply_field f c) len body two valids
        (omega (arith, lines, fuel_ok)) (omega (arith, lines, bound)))

apply_field-bufused : (f : Field) (c : HttpClient) → (apply_field f c).bufused ≡ c.bufused
unfolding apply_field set_host set_postlen
apply_field-bufused f c = elim (Bool-cases (named f host_word)) [
  | inl p ↦ rw p refl
  | inr p ↦ elim (Bool-cases (named f length_word)) [
    | inl q ↦ rw (p, q) refl
    | inr q ↦ rw (p, q) refl
  ]
]

apply_field-method : (f : Field) (c : HttpClient) → (apply_field f c).method ≡ c.method
unfolding apply_field set_host set_postlen
apply_field-method f c = elim (Bool-cases (named f host_word)) [
  | inl p ↦ rw p refl
  | inr p ↦ elim (Bool-cases (named f length_word)) [
    | inl q ↦ rw (p, q) refl
    | inr q ↦ rw (p, q) refl
  ]
]

apply_fields-bufused :
    (fields : List Field) (c : HttpClient)
    → ((apply_fields fields c).bufused ≡ c.bufused) × ((apply_fields fields c).method ≡ c.method)
unfolding apply_fields
apply_fields-bufused [] c = (refl, refl)
apply_fields-bufused (f ∷ fields) c =
    let (h, k) = apply_fields-bufused fields (apply_field f c) in
    (h ∙ apply_field-bufused f c, k ∙ apply_field-method f c)

-- The client once its request line and headers are stored: what was received after them is at the front
-- of the buffer, and the method decides the next state.
pub after_headers : Verb → HttpClient → List ℕ → HttpClient
after_headers verb c received = record {
  state = if verb_code verb == method_get then state_response else state_postdata;
  method = c.method;
  url = c.url;
  host = c.host;
  buf = overlay c.buf 0 received;
  bufused = length received;
  postused = c.postused;
  postlen = c.postlen;
}

-- A request by the protocol whose line and headers have all arrived, with `received` after them and
-- anything in the memory behind, all of it below 2^32 bytes. The page has 1 to 256 bytes and no blank,
-- and each header is a name and a value of at most 64 bytes without blanks, where that of a length is a
-- decimal number below 2^31. Then the method, the page
-- and what the headers say are stored, and parsing ends with `received` at the front of the buffer.
pub process_headers-request :
    (c : HttpClient) (beyond : List ℕ) (verb : Verb) (u : ℕ) (url version : List ℕ)
    (fields : List Field) (received stale : List ℕ)
    → let stored = apply_fields fields (set_url (u ∷ url) (set_method (verb_code verb) c)) in
      let rest = print_fields fields (received ++ stale) in
      c.buf ++ beyond ≡ request verb (u ∷ url) version rest
      → c.bufused + length stale ≡ length (request verb (u ∷ url) version rest)
      → length (request verb (u ∷ url) version rest) < 4294967296
      → All IsInk (u ∷ url)
      → length (u ∷ url) ≤ url_size
      → All (λ c. c ≢ cr) version
      → All IsField fields
      → process_headers c beyond
        ≡ goes_on (after_headers verb stored received) (after_headers verb stored received)
unfolding process_headers finish_headers after_headers set_url set_method
process_headers-request c beyond verb u url version fields received stale memory used bound ink fits
      no_cr valid =
    let body = received ++ stale in
    let rest = print_fields fields body in
    let lines = request-length verb (u ∷ url) version rest in
    let more = print_fields-length fields body in
    let split = length-append received stale in
    let first =
      request_line-request c verb u url version rest ink no_cr fits
        (omega (arith, lines, more, split, used)) bound in
    let c1 = set_url (u ∷ url) (set_method (verb_code verb) c) in
    let each = fields-Fits fields c.bufused body valid (omega (arith, lines, split, used)) in
    let loop =
      header_loop-fields fields (suc (length rest)) c1 c.bufused body
        (omega (arith, lines, more, split, used)) each (omega arith)
        (omega (arith, lines, bound)) in
    let (same_used, same_method) = apply_fields-bufused fields c1 in
    let whole = ap length memory in
    let consumed : length (c.buf ++ beyond) - length body ≡ c.bufused - length received =
      omega (arith, whole, lines, more, split, used) in
    let left : c.bufused - (c.bufused - length received) ≡ length received =
      omega (arith, lines, more, split, used) in
    let inside : ltb c.bufused (c.bufused - length received) ≡ false = ground arith in
    rw
      (
        memory,
        process_headers,
        first,
        loop,
        finish_headers,
        same_used,
        same_method,
        consumed,
        inside,
        left,
        take-append_length received stale,
      )
      refl

-- The headers end behind what has arrived.
finish_headers-negative :
    (c : HttpClient) (memory rest : List ℕ)
    → ltb c.bufused (length memory - length rest) ≡ true
    → finish_headers c memory rest ≡ negative c (length memory - length rest)
unfolding finish_headers
finish_headers-negative c memory rest p = rw p refl

-- A request of the same form whose line has arrived, but whose headers end behind the bytes that have
-- arrived, in whatever the memory holds there, each header line being at most as long as what has
-- arrived. The code takes those lines for headers, stores what they say, and then moves a negative
-- number of bytes: the line and all the headers are taken away, which are more than have arrived.
pub process_headers_past_end :
    (c : HttpClient) (beyond : List ℕ) (verb : Verb) (u : ℕ) (url version : List ℕ)
    (fields : List Field) (body : List ℕ)
    → let line = length (verb_word verb) + length (u ∷ url) + length version + 4 in
      c.buf ++ beyond ≡ request verb (u ∷ url) version (print_fields fields body)
      → length (request verb (u ∷ url) version (print_fields fields body)) < 4294967296
      → All IsInk (u ∷ url)
      → length (u ∷ url) ≤ url_size
      → All (λ c. c ≢ cr) version
      → line ≤ c.bufused
      → c.bufused + length body < length (c.buf ++ beyond)
      → All (Fits c.bufused) fields
      → process_headers c beyond
        ≡ negative
            (apply_fields fields (set_url (u ∷ url) (set_method (verb_code verb) c)))
            (length (request verb (u ∷ url) version (print_fields fields body)) - length body)
unfolding process_headers set_url set_method
process_headers_past_end c beyond verb u url version fields body memory bound ink fits no_cr line
      past each =
    let rest = print_fields fields body in
    let lines = request-length verb (u ∷ url) version rest in
    let c1 = set_url (u ∷ url) (set_method (verb_code verb) c) in
    let first = request_line-request c verb u url version rest ink no_cr fits line bound in
    let loop =
      header_loop-fields fields (suc (length rest)) c1 c.bufused body (omega (arith, line)) each
        (omega arith) (omega (arith, lines, bound)) in
    let (same_used, same_method) = apply_fields-bufused fields c1 in
    let stored = apply_fields fields c1 in
    let over : ltb stored.bufused (length (c.buf ++ beyond) - length body) ≡ true =
      ground (arith, past, same_used) in
    let whole = ap (λ q. length q - length body) memory in
    rw (memory, process_headers, first, loop)
      (finish_headers-negative stored (c.buf ++ beyond) body over ∙ ap (negative stored) whole)
