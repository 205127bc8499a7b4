-- ===== src/Uptime.antt =====
-- uptime.c. `system_get_time()` of the SDK is a parameter: each call of it is an argument, the
-- reading of a 32-bit counter of microseconds.
pub mod Clock
mod Tests
use esp8266_toolbox.Base.{ℕ, ◌+◌, ◌*◌, ◌/◌, ◌%◌, Bool, bit_or, ltb, if◌then◌else◌}
use esp8266_toolbox.Base.Bits.{◌<<<◌, u32}

pub record Uptime : Type 0 where
  pub high : ℕ
  pub last : ℕ

-- The values at boot.
pub at_boot : Uptime
at_boot = record { high = 0; last = 0 }

pub uptime_us : Uptime → ℕ → ℕ
uptime_us s reading = bit_or (s.high <<< 32) reading

pub days : ℕ → ℕ
days us = u32 (us / 1000000 / 86400)

-- The update in the middle of `uptime_handler`.
pub uptime_update : Uptime → ℕ → Uptime
uptime_update s t = record { high = if ltb t s.last then u32 (s.high + 1) else s.high; last = t }

-- `uptime_handler` with its three readings, and whether it sends the daily mail.
pub uptime_handler : Uptime → ℕ → ℕ → ℕ → Uptime × Bool
unfolding uptime_us days uptime_update
uptime_handler s before t after =
    let days1 = days (uptime_us s before) in
    let s' = uptime_update s t in let days2 = days (uptime_us s' after) in (s', ltb days1 days2)
