-- ===== src/Log/Levels.antt =====
-- The levels of log/log.c.
use esp8266_toolbox.Base.{ℕ, ◌+◌, ◌≡◌, ◌⊎◌, true, arith}
use esp8266_toolbox.Log.{log_raise, log_lower, is_logged}

-- The five levels of log/log.h.
abbrev pub IsLevel : ℕ → Type 0
IsLevel l = (l ≡ 10) ⊎ (l ≡ 20) ⊎ (l ≡ 30) ⊎ (l ≡ 40) ⊎ (l ≡ 50)

-- On the five levels, raising goes up one level and lowering takes it back, except at the top, which
-- raising keeps; lowering goes down and raising takes it back, except at the bottom, which lowering
-- keeps.
pub log_raise-log_lower :
    (l : ℕ)
    → IsLevel l
    → IsLevel (log_raise l)
      × IsLevel (log_lower l)
      × ((l ≡ 50) × (log_raise l ≡ 50) ⊎ (log_raise l ≡ l + 10) × (log_lower (log_raise l) ≡ l))
      × ((l ≡ 10) × (log_lower l ≡ 10) ⊎ (log_lower l + 10 ≡ l) × (log_raise (log_lower l) ≡ l))
unfolding log_raise log_lower
log_raise-log_lower l h = ground arith

-- Whatever the level of a subsystem, what it records after raising it records before, and it records
-- after lowering what it recorded before.
pub is_logged_mono :
    (l severity : ℕ)
    → is_logged (log_raise l) severity ≡ true
    → (is_logged l severity ≡ true) × (is_logged (log_lower l) severity ≡ true)
unfolding log_raise log_lower is_logged
is_logged_mono l severity h = ground arith
