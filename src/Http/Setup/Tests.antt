-- ===== src/Http/Setup/Tests.antt =====
-- Forms that a client sends.
use esp8266_toolbox.Base.{ℕ, zero, suc, ◌≡◌, ◌≢◌, refl, List, [], ◌∷◌, ◌++◌, replicate, All, arith}
use esp8266_toolbox.Http.Form.Decode.{Encodes, end, plain}
use esp8266_toolbox.Http.Form.Fields.{IsField, print_form}
use esp8266_toolbox.Http.Process.{HttpClient}
use esp8266_toolbox.Http.Setup.{
  bad_request, from_key, host_key, port_key, user_key, http_url_smtp_setup, pass_key, SmtpSettings,
  ssid_key,
}
use esp8266_toolbox.Http.Setup.Account.{Account, field, fields}
use esp8266_toolbox.Http.Setup.Asked.{Asks}
use esp8266_toolbox.Http.Setup.Forms.{http_url_smtp_setup_partial}

abbrev one : ℕ → List ℕ
one c = c ∷ []

one-Encodes : (c : ℕ) → c ≢ 37 → Encodes (one c) (one c)
one-Encodes c ne = plain c ne end

-- "x", "y", "h", "9", "u" and "p".
abbrev account : Account
account = record {
  from = one 120;
  to = one 121;
  host = one 104;
  port = one 57;
  user = one 117;
  pass = one 112;
}

abbrev page_name : List ℕ
page_name = 47 ∷ 115 ∷ []

-- A request with a text for `url`.
abbrev asking : List ℕ → HttpClient
asking url = record {
  state = 2;
  method = 0;
  url = url ++ 0 ∷ [];
  host = [];
  buf = [];
  bufused = 0;
  postused = 0;
  postlen = 0;
}

one-IsField :
    (name : List ℕ) (c : ℕ)
    → All (λ x. x ≢ 61) name
    → c ≢ 37
    → c ≢ 38
    → IsField (field name (one c) (one c))
one-IsField name c h ne ne' = record {
  no_equals = h;
  no_ampersand = (ne', tt);
  encoded = one-Encodes c ne;
}

abbrev smtp_url : List ℕ
smtp_url =
    page_name ++ 63 ∷ print_form (field from_key account.from account.from) (fields account account)

abbrev old_settings : SmtpSettings
old_settings = record {
  server = record { host = []; port = 0; user = []; pass = [] };
  from = [];
  to = [];
}

abbrev wifi_url : List ℕ
wifi_url =
    page_name
    ++ 63
      ∷ print_form (field ssid_key (one 110) (one 110)) (field pass_key (one 112) (one 112) ∷ [])

-- An address of 128 bytes.
abbrev long_account : Account
long_account = record account { to = replicate 128 121 }

replicate-Encodes : (n c : ℕ) → c ≢ 37 → Encodes (replicate n c) (replicate n c)
replicate-Encodes zero c ne = end
replicate-Encodes (suc n) c ne = plain c ne (replicate-Encodes n c ne)

abbrev long_url : List ℕ
long_url =
    page_name
    ++ 63 ∷ print_form (field from_key account.from account.from) (fields long_account long_account)

long-Asks :
    Asks
      (asking long_url)
      page_name
      (field from_key account.from account.from)
      (fields long_account long_account)
      []
unfolding print_form
long-Asks = record {
  answering = refl;
  url = refl;
  text = omega arith;
  page_name = omega arith;
  well_formed = (
    one-IsField from_key 120 (omega arith) (omega arith) (omega arith),
    (
      record {
        no_equals = omega arith;
        no_ampersand = omega arith;
        encoded = replicate-Encodes 128 121 (omega arith);
      },
      (
        one-IsField host_key 104 (omega arith) (omega arith) (omega arith),
        (
          one-IsField port_key 57 (omega arith) (omega arith) (omega arith),
          (
            one-IsField user_key 117 (omega arith) (omega arith) (omega arith),
            (one-IsField pass_key 112 (omega arith) (omega arith) (omega arith), tt),
          ),
        ),
      ),
    ),
  );
}

http_url_smtp_setup_partial_example :
    http_url_smtp_setup (asking long_url) old_settings
    ≡ (bad_request, record old_settings { from = account.from })
http_url_smtp_setup_partial_example =
    http_url_smtp_setup_partial old_settings (asking long_url) long_account long_account page_name
      [] (omega arith) (omega arith) long-Asks
