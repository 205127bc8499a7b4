-- ===== src/Log/Tests.antt =====
-- Runs of log/log.c, and its theorems at concrete inputs.
use esp8266_toolbox.Base.{
  ℕ, ◌+◌, ◌-◌, ◌*◌, ◌/◌, ◌<◌, ◌≤◌, ◌≡◌, refl, List, [], ◌∷◌, length, take, drop, replicate, arith,
}
use esp8266_toolbox.Log.{stamp, main_size, entry_text, log_entry}
use esp8266_toolbox.Log.Entry.{stamp_lem, log_entry_lem}

-- One day, 1:02:03.456
abbrev later : ℕ
later = 90123456789

stamp_lem_example :
    let s = stamp later in
    (s.hrs < 24)
    × (s.mins < 60)
    × (s.secs < 60)
    × (s.ms < 1000)
    × ((((s.days * 24 + s.hrs) * 60 + s.mins) * 60 + s.secs) * 1000 + s.ms ≡ later / 1000)
stamp_lem_example = stamp_lem later (omega arith)

log_entry_lem_example :
    let main : List ℕ = replicate main_size 7 in
    let text : List ℕ = 1 ∷ 2 ∷ [] in
    (length (log_entry main text) ≡ main_size)
    × (length (entry_text text) ≤ 255)
    × (take (length (entry_text text)) (log_entry main text) ≡ entry_text text)
    × (drop (length (entry_text text)) (log_entry main text)
        ≡ take (main_size - length (entry_text text)) main)
log_entry_lem_example = log_entry_lem (replicate main_size 7) (1 ∷ 2 ∷ []) refl
