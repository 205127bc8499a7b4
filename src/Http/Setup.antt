-- ===== src/Http/Setup.antt =====
-- The pages of http/url_smtp.c and http/url_wifi.c that change settings, and what all pages do with
-- posted data (http/private.h). Which page is sent stands
-- for the text in the output buffer. After a page the connection is killed, so that the client, into
-- whose `url` the handlers have written NULs, is kept only where none was sent.
pub mod Account
pub mod Asked
pub mod Forms
mod Tests
use esp8266_toolbox.Base.{
  ℕ, zero, suc, ◌+◌, ◌-◌, ◌%◌, min, Bool, true, false, not, ◌&&◌, ◌||◌, Option, none, some, List,
  [], ◌∷◌, ◌++◌, length, take, drop, ◌==◌, leb, if◌then◌else◌,
}
use esp8266_toolbox.Base.Bits.{u32}
use esp8266_toolbox.Base.Memory.{overlay, text_of}
use esp8266_toolbox.Http.Form.{incomplete, overflow, parse_form, Parsed, parsed}
use esp8266_toolbox.Http.Process.{atoi, HttpClient, state_postdata, state_response}
use esp8266_toolbox.Smtp.{SmtpServer}

-- `HTTP_IGNORE_POSTDATA`: the client, and whether the function goes on; it returns 0 otherwise.
pub ignore_postdata : HttpClient → HttpClient × Bool
ignore_postdata c =
    let len = min c.bufused (u32 (c.postlen + 4294967296 - c.postused)) in
    let c' : HttpClient = record c {
      postused = u32 (c.postused + len);
      buf = overlay c.buf 0 (take (c.bufused - len) (drop len c.buf));
      bufused = c.bufused - len;
    } in
    if c.state == state_postdata
    then (if c'.postused == c'.postlen
        then (record c' { state = state_response }, true)
        else (c', false))
    else (c, true)

-- `smtp_server`: the account, and the addresses.
pub record SmtpSettings : Type 0 where
  pub server : SmtpServer
  pub from : List ℕ
  pub to : List ℕ

-- `os_strncmp(key, word, length of word) == 0`
unfoldable pub is_key : List ℕ → List ℕ → Bool
is_key [] key = true
is_key (x ∷ word) [] = false
is_key (x ∷ word) (y ∷ key) = (x == y) && is_key word key

-- A copy with its NUL into an array of `size` bytes.
abbrev fitting {ℓ} : {A : Type ℓ} → ℕ → List ℕ → A → Option A
fitting size val result = if leb size (length val) then none else some result

abbrev host_key : List ℕ
host_key = b'h' ∷ b'o' ∷ b's' ∷ b't' ∷ []

abbrev port_key : List ℕ
port_key = b'p' ∷ b'o' ∷ b'r' ∷ b't' ∷ []

abbrev user_key : List ℕ
user_key = b'u' ∷ b's' ∷ b'e' ∷ b'r' ∷ []

abbrev pass_key : List ℕ
pass_key = b'p' ∷ b'a' ∷ b's' ∷ b's' ∷ []

abbrev from_key : List ℕ
from_key = b'f' ∷ b'r' ∷ b'o' ∷ b'm' ∷ []

abbrev to_key : List ℕ
to_key = b't' ∷ b'o' ∷ []

abbrev ssid_key : List ℕ
ssid_key = b's' ∷ b's' ∷ b'i' ∷ b'd' ∷ []

-- The chain of `else if`.
pub set_account : SmtpSettings → List ℕ → List ℕ → Option SmtpSettings
set_account s key val =
    if is_key host_key key
    then fitting 64 val (record s { server = record s.server { host = val } })
    else if is_key port_key key
    then some (record s { server = record s.server { port = atoi val % 65536 } })
    else if is_key user_key key
    then fitting 64 val (record s { server = record s.server { user = val } })
    else if is_key pass_key key
    then fitting 64 val (record s { server = record s.server { pass = val } })
    else some s

pub set_from : SmtpSettings → List ℕ → List ℕ → Option SmtpSettings
set_from s key val =
    if is_key from_key key then fitting 128 val (record s { from = val }) else some s

pub set_to : SmtpSettings → List ℕ → List ℕ → Option SmtpSettings
set_to s key val = if is_key to_key key then fitting 128 val (record s { to = val }) else some s

-- The body of the loop of `http_url_smtp_setup`.
pub set_smtp : SmtpSettings → List ℕ → List ℕ → Option SmtpSettings
set_smtp s key val = elim (set_account s key val) [
  | none ↦ none
  | some s1 ↦ elim (set_from s1 key val) [ none ↦ none | some s2 ↦ set_to s2 key val ]
]

pub is_empty : List ℕ → Bool
is_empty [] = true
is_empty (c ∷ text) = false

-- Whether the settings lack something.
pub lacking : SmtpSettings → Bool
lacking s =
    is_empty s.server.host
    || ((s.server.port == 0)
        || (is_empty s.server.user
            || (is_empty s.server.pass || (is_empty s.from || is_empty s.to))))

-- The page that is sent, with the return value 1: "202 Accepted", the form, or "400 Bad Request". No
-- page, with the return value 0 and what the client is then, while posted data is missing.
pub data Page : Type 0 where
  accepted form bad_request : Page
  unfinished : HttpClient → Page

-- What the loop leaves. Settings are in force even where it ends with the form or a failure. With
-- `accepted` the timer for `smtp_param_write` is set, which stores them.
pub smtp_page : Parsed SmtpSettings → Page × SmtpSettings
smtp_page (incomplete s) = (form, s)
smtp_page (overflow s) = (bad_request, s)
smtp_page (parsed s) = if lacking s then (form, s) else (accepted, s)

-- The text of `url` runs on into `host` and `buf` where it has no NUL.
abbrev pub url_text : HttpClient → List ℕ
url_text c = text_of (c.url ++ (c.host ++ c.buf))

pub http_url_smtp_setup : HttpClient → SmtpSettings → Page × SmtpSettings
http_url_smtp_setup c s =
    let (c', goes) = ignore_postdata c in
    if goes then smtp_page (parse_form set_smtp s (url_text c')) else (unfinished c', s)

-- `struct station_config`, of which the page sets two fields.
pub record StationConfig : Type 0 where
  pub ssid : List ℕ
  pub password : List ℕ

-- The body of the loop of `http_url_wifi_setup`.
pub set_wifi : StationConfig → List ℕ → List ℕ → Option StationConfig
set_wifi s key val =
    if is_key ssid_key key
    then fitting 32 val (record s { ssid = val })
    else if is_key pass_key key
    then fitting 64 val (record s { password = val })
    else some s

-- The Boolean is what `wifi_station_set_config` returns. The result has the configuration that the
-- SDK was asked to connect with.
pub wifi_page : Bool → Parsed StationConfig → Page × Option StationConfig
wifi_page set_config (incomplete s) = (form, none)
wifi_page set_config (overflow s) = (bad_request, none)
wifi_page set_config (parsed s) =
    if is_empty s.ssid || is_empty s.password
    then (form, none)
    else if set_config
    then (accepted, some s)
    else (bad_request, none)

pub http_url_wifi_setup : Bool → HttpClient → Page × Option StationConfig
http_url_wifi_setup set_config c =
    let (c', goes) = ignore_postdata c in
    if goes
    then wifi_page set_config
        (parse_form set_wifi (record { ssid = []; password = [] }) (url_text c'))
    else (unfinished c', none)
