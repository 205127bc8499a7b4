-- ===== src/Uptime/Tests.antt =====
-- The theorems on uptime.c at concrete times.
use esp8266_toolbox.Base.{ℕ, ◌+◌, ◌≡◌, refl, true, List, [], ◌∷◌, arith}
use esp8266_toolbox.Uptime.{uptime_us, uptime_handler}
use esp8266_toolbox.Uptime.Clock.{
  reading, updates, uptime_us_exact, uptime_us_behind, uptime_handler_lem,
}

-- Handlers every hour, three hours after boot: the counter wrapped twice.
abbrev hourly : List ℕ
hourly = 7200000000 ∷ 3600000000 ∷ []

uptime_us_exact_example :
    uptime_us (updates (10800000000 ∷ hourly)) (reading 10900000000) ≡ 10900000000
uptime_us_exact_example =
    uptime_us_exact 10800000000 10900000000 hourly (omega arith) (omega arith) refl (omega arith)

uptime_us_behind_example : uptime_us (updates hourly) (reading 8600000000) + 4294967296 ≡ 8600000000
uptime_us_behind_example =
    uptime_us_behind 7200000000 8600000000 (3600000000 ∷ []) (omega arith) refl (omega arith)

-- Handlers every hour; the first day ends while the one at 24 hours runs.
abbrev first_day : List ℕ
first_day =
    79200000000 ∷ 75600000000 ∷ 72000000000 ∷ 68400000000 ∷ 64800000000 ∷ 61200000000 ∷ 57600000000
    ∷ 54000000000 ∷ 50400000000 ∷ 46800000000 ∷ 43200000000 ∷ 39600000000 ∷ 36000000000
    ∷ 32400000000 ∷ 28800000000 ∷ 25200000000 ∷ 21600000000 ∷ 18000000000 ∷ 14400000000
    ∷ 10800000000 ∷ 7200000000 ∷ 3600000000 ∷ []

uptime_handler_lem_example :
    uptime_handler
      (updates (82800000000 ∷ first_day))
      (reading 86399999990)
      (reading 86399999995)
      (reading 86400000000)
    ≡ (updates (86399999995 ∷ 82800000000 ∷ first_day), true)
uptime_handler_lem_example =
    uptime_handler_lem 82800000000 86399999990 86399999995 86400000000 first_day (omega arith)
      (omega arith) (omega arith) (omega arith) refl (omega arith)
