-- ===== src/Http/Logs.antt =====
-- The pages of http/url_logs.c that change the level of a subsystem.
pub mod Visits
mod Tests
use esp8266_toolbox.Base.{
  ℕ, Bool, true, false, ◌||◌, Option, none, some, List, [], ◌∷◌, if◌then◌else◌,
}
use esp8266_toolbox.Http.Process.{HttpClient}
use esp8266_toolbox.Http.Setup.{ignore_postdata, is_key, url_text}
use esp8266_toolbox.Log.{log_lower, log_raise}

-- `CRYPTO_LOG_LEVEL` and so on.
pub record LogLevels : Type 0 where
  pub crypto : ℕ
  pub driver : ℕ
  pub http : ℕ
  pub main : ℕ
  pub ota : ℕ
  pub smtp : ℕ

-- `os_strstr(text, word) != NULL`
pub contains : List ℕ → List ℕ → Bool
contains word [] = is_key word []
contains word (x ∷ text) = is_key word (x ∷ text) || contains word text

abbrev pub crypto_name : List ℕ
crypto_name = b'c' ∷ b'r' ∷ b'y' ∷ b'p' ∷ b't' ∷ b'o' ∷ []

abbrev pub driver_name : List ℕ
driver_name = b'd' ∷ b'r' ∷ b'i' ∷ b'v' ∷ b'e' ∷ b'r' ∷ []

abbrev pub http_name : List ℕ
http_name = b'h' ∷ b't' ∷ b't' ∷ b'p' ∷ []

abbrev pub main_name : List ℕ
main_name = b'm' ∷ b'a' ∷ b'i' ∷ b'n' ∷ []

abbrev pub ota_name : List ℕ
ota_name = b'o' ∷ b't' ∷ b'a' ∷ []

abbrev pub smtp_name : List ℕ
smtp_name = b's' ∷ b'm' ∷ b't' ∷ b'p' ∷ []

-- The chain of tests, with what is done to the level; none where nothing was found.
pub change_level : (ℕ → ℕ) → List ℕ → LogLevels → Option LogLevels
change_level change url l =
    if contains (b'?' ∷ crypto_name) url
    then some (record l { crypto = change l.crypto })
    else if contains (b'?' ∷ driver_name) url
    then some (record l { driver = change l.driver })
    else if contains (b'?' ∷ http_name) url
    then some (record l { http = change l.http })
    else if contains (b'?' ∷ main_name) url
    then some (record l { main = change l.main })
    else if contains (b'?' ∷ ota_name) url
    then some (record l { ota = change l.ota })
    else if contains (b'?' ∷ smtp_name) url
    then some (record l { smtp = change l.smtp })
    else none

-- "200 OK" and "400 Bad Request", with the return value 1; no page and 0 while posted data is
-- missing, with what the client is then.
pub data LevelPage : Type 0 where
  changed not_found : LevelPage
  unfinished : HttpClient → LevelPage

pub level_page : Option LogLevels → LogLevels → LevelPage × LogLevels
level_page none l = (not_found, l)
level_page (some l') l = (changed, l')

pub http_url_logs_lower : HttpClient → LogLevels → LevelPage × LogLevels
http_url_logs_lower c l =
    let (c', goes) = ignore_postdata c in
    if goes then level_page (change_level log_lower (url_text c') l) l else (unfinished c', l)

pub http_url_logs_raise : HttpClient → LogLevels → LevelPage × LogLevels
http_url_logs_raise c l =
    let (c', goes) = ignore_postdata c in
    if goes then level_page (change_level log_raise (url_text c') l) l else (unfinished c', l)
