-- ===== src/Http/Logs/Tests.antt =====
-- Raising and lowering the level of the OTA updates.
use esp8266_toolbox.Base.{ℕ, ◌≡◌, refl, [], ◌∷◌, ◌++◌, arith}
use esp8266_toolbox.Http.Process.{HttpClient}
use esp8266_toolbox.Http.Logs.{
  changed, http_url_logs_lower, http_url_logs_raise, LogLevels, ota_name,
}
use esp8266_toolbox.Http.Logs.Visits.{logs_raise-logs_lower, ota, Visits}

abbrev levels : ℕ → LogLevels
levels n = record { crypto = 20; driver = 20; http = 20; main = 20; ota = n; smtp = 50 }

-- "/r?ota" and "/l?ota"
abbrev visitor : ℕ → HttpClient
visitor c = record {
  state = 2;
  method = 0;
  url = (b'/' ∷ c ∷ b'?' ∷ ota_name) ++ 0 ∷ [];
  host = [];
  buf = [];
  bufused = 0;
  postused = 0;
  postlen = 0;
}

raising-Visits : Visits (visitor b'r') (b'/' ∷ b'r' ∷ []) ota []
raising-Visits = record {
  answering = refl;
  url = refl;
  text = omega arith;
  page_name = omega arith;
}

lowering-Visits : Visits (visitor b'l') (b'/' ∷ b'l' ∷ []) ota []
lowering-Visits = record {
  answering = refl;
  url = refl;
  text = omega arith;
  page_name = omega arith;
}

logs_raise-logs_lower_example :
    (http_url_logs_raise (visitor b'r') (levels 20) ≡ (changed, levels 30))
    × (http_url_logs_lower (visitor b'l') (http_url_logs_raise (visitor b'r') (levels 20)).1
        ≡ (changed, levels 20))
logs_raise-logs_lower_example =
    logs_raise-logs_lower (visitor b'r') (visitor b'l') (b'/' ∷ b'r' ∷ []) (b'/' ∷ b'l' ∷ []) ota []
      [] (levels 20) (omega arith) (omega arith) raising-Visits lowering-Visits
