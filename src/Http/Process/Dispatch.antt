-- ===== src/Http/Process/Dispatch.antt =====
-- The rest of `http_process`: the end of the headers, and the choice of a handler.
use esp8266_toolbox.Base.{
  ℕ, suc, ◌-◌, Bool, true, false, ◌&&◌, List, [], ◌∷◌, ◌++◌, length, take, ◌==◌, ltb, if◌then◌else◌,
}
use esp8266_toolbox.Base.Memory.{overlay}
use esp8266_toolbox.Http.Process.{
  header_loop, HttpClient, method_get, request_line, returns, exhausted, goes_on, negative, outside,
  state_headers, state_postdata, state_response, Verdict,
}

-- `os_memmove` of what is after the headers to the front of `buf`. With the headers past `bufused`,
-- its count is negative.
unfoldable pub finish_headers : HttpClient → List ℕ → List ℕ → Verdict HttpClient
finish_headers c memory rest =
    let consumed = length memory - length rest in
    if ltb c.bufused consumed
    then negative c consumed
    else (let c' : HttpClient = record {
      state = if c.method == method_get then state_response else state_postdata;
      method = c.method;
      url = c.url;
      host = c.host;
      buf = overlay c.buf 0 (take (c.bufused - consumed) rest);
      bufused = c.bufused - consumed;
      postused = c.postused;
      postlen = c.postlen;
    } in
        goes_on c' c')

-- The part under `client->state == HTTP_STATE_HEADERS`. The memory after `buf` is `beyond`.
unfoldable pub process_headers : HttpClient → List ℕ → Verdict HttpClient
process_headers c beyond = elim (request_line c (c.buf ++ beyond)) [
  | outside ↦ outside
  | negative c1 n ↦ negative c1 n
  | exhausted ↦ exhausted
  | returns c1 rv ↦ returns c1 rv
  | goes_on c1 nextline ↦ elim (header_loop (suc (length nextline)) c1 c.bufused nextline) [
    | outside ↦ outside
    | negative c2 n ↦ negative c2 n
    | exhausted ↦ exhausted
    | returns c2 rv ↦ returns c2 rv
    | goes_on c2 rest ↦ finish_headers c2 (c.buf ++ beyond) rest
  ]
]

-- The text of a C string up to a question mark.
pub base_of : List ℕ → List ℕ
base_of [] = []
base_of (c ∷ text) =
    let rest = base_of text in if c == 0 then [] else if c == 63 then [] else c ∷ rest

pub same_text : List ℕ → List ℕ → Bool
same_text [] [] = true
same_text (x ∷ a) (y ∷ b) = (x == y) && same_text a b
same_text _ _ = false

abbrev pub Handler : Type 0
Handler = HttpClient → Verdict HttpClient

-- `http_urls` with `http_url_404` for a page that it does not have.
pub handler_for : List (List ℕ × Handler) → Handler → List ℕ → Handler
handler_for [] not_found base = not_found
handler_for ((page, handler) ∷ urls) not_found base =
    if same_text page base then handler else handler_for urls not_found base

abbrev pub baseurl_size : ℕ
baseurl_size = 128

-- The text of `url` runs on into `host` when `url` has no NUL. A base of 128 bytes puts the NUL past
-- the end of `baseurl`.
pub dispatch : List (List ℕ × Handler) → Handler → Handler
dispatch urls not_found c =
    let base = base_of (c.url ++ c.host) in
    if ltb baseurl_size (length base)
    then returns c 1
    else if length base == baseurl_size
    then outside
    else handler_for urls not_found base c

pub process_request : List (List ℕ × Handler) → Handler → Handler
process_request urls not_found c =
    if c.state == state_postdata
    then dispatch urls not_found c
    else if c.state == state_response
    then dispatch urls not_found c
    else returns c 0

pub http_process : List (List ℕ × Handler) → Handler → HttpClient → List ℕ → Verdict HttpClient
http_process urls not_found c beyond =
    if c.state == state_headers
    then elim (process_headers c beyond) [
      | outside ↦ outside
      | negative c1 n ↦ negative c1 n
      | exhausted ↦ exhausted
      | returns c1 rv ↦ returns c1 rv
      | goes_on c1 _ ↦ process_request urls not_found c1
    ]
    else process_request urls not_found c
