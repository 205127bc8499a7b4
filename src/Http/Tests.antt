-- ===== src/Http/Tests.antt =====
-- Requests that arrived whole, and one whose header lies behind the received bytes.
use esp8266_toolbox.Base.{inl, inr, ℕ, ◌≡◌, ◌≢◌, refl, List, [], ◌∷◌, arith, replicate, All}
use esp8266_toolbox.Http.Lexer.{cr}
use esp8266_toolbox.Http.Process.{
  exhausted, goes_on, HttpClient, negative, same_prefix, token_is, set_method, set_url,
}
use esp8266_toolbox.Http.Process.Dispatch.{process_headers}
use esp8266_toolbox.Http.Process.Headers.{post, request}
use esp8266_toolbox.Http.Process.Ends.{process_headers_ends}
use esp8266_toolbox.Http.Process.Decimal.{decimal}
use esp8266_toolbox.Http.Process.Fields.{Field, IsField, named}
use esp8266_toolbox.Http.Process.Request.{
  after_headers, apply_fields, print_fields, process_headers-request, process_headers_past_end,
}

-- "H", for brevity
abbrev version : List ℕ
version = 72 ∷ []

version-NotCr : All (λ c. c ≢ cr) version
version-NotCr = (ground arith, tt)

-- "Host: a" and "Content-Length: 12"
abbrev host_field : Field
host_field = record {
  name_first = 72;
  name_rest = 111 ∷ 115 ∷ 116 ∷ 58 ∷ [];
  value_first = 97;
  value_rest = [];
}

abbrev length_field : Field
length_field = record {
  name_first = 67;
  name_rest = 111 ∷ 110 ∷ 116 ∷ 101 ∷ 110 ∷ 116 ∷ 45 ∷ 76 ∷ 101 ∷ 110 ∷ 103 ∷ 116 ∷ 104 ∷ 58 ∷ [];
  value_first = 49;
  value_rest = 50 ∷ [];
}

host_field-IsField : IsField host_field
unfolding named token_is same_prefix
host_field-IsField = ((refl, (refl, (refl, (refl, (refl, tt))))), (refl, tt), omega arith, inl refl)

length_field-IsField : IsField length_field
length_field-IsField = (
  (
    refl,
    (
      refl,
      (
        refl,
        (
          refl,
          (
            refl,
            (refl, (refl, (refl, (refl, (refl, (refl, (refl, (refl, (refl, (refl, tt)))))))))),
          ),
        ),
      ),
    ),
  ),
  (refl, (refl, tt)),
  omega arith,
  inr (inr (omega arith, unfold decimal in omega arith)),
)

-- A client whose buffer holds a message of which `used` bytes have arrived.
abbrev client : List ℕ → ℕ → HttpClient
client message used = record {
  state = 0;
  method = 0;
  url = replicate 256 0;
  host = replicate 64 0;
  buf = message;
  bufused = used;
  postused = 0;
  postlen = 0;
}

-- "POST /p H", the headers, and the first two bytes of the data.
abbrev message : List ℕ
message =
    request post (47 ∷ 112 ∷ []) version
      (print_fields (host_field ∷ length_field ∷ []) (120 ∷ 121 ∷ []))

abbrev stored : HttpClient
stored =
    after_headers post
      (apply_fields (host_field ∷ length_field ∷ [])
        (set_url (47 ∷ 112 ∷ []) (set_method 1 (client message 44))))
      (120 ∷ 121 ∷ [])

process_headers-request_example : process_headers (client message 44) [] ≡ goes_on stored stored
process_headers-request_example =
    process_headers-request (client message 44) [] post 47 (112 ∷ []) version
      (host_field ∷ length_field ∷ []) (120 ∷ 121 ∷ []) [] refl (omega arith) (omega arith)
      (refl, (refl, tt)) (omega arith) version-NotCr
      (host_field-IsField, (length_field-IsField, tt))

-- Only the request line has arrived.
abbrev late : List ℕ
late = request post (47 ∷ 112 ∷ []) version (print_fields (host_field ∷ []) [])

process_headers_past_end_example :
    process_headers (client late 11) []
    ≡ negative
        (apply_fields (host_field ∷ []) (set_url (47 ∷ 112 ∷ []) (set_method 1 (client late 11))))
        22
process_headers_past_end_example =
    process_headers_past_end (client late 11) [] post 47 (112 ∷ []) version (host_field ∷ []) []
      refl (omega arith) (refl, (refl, tt)) (omega arith) version-NotCr (omega arith) (omega arith)
      ((host_field-IsField, omega arith), tt)

process_headers_ends_example : process_headers (client late 11) [] ≢ exhausted
process_headers_ends_example = process_headers_ends (client late 11) []
