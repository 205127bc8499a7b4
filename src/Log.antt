-- ===== src/Log.antt =====
-- log/log.c and log/log.h: the levels of the subsystems, and the buffer of the latest entries.
pub mod Levels
pub mod Entry
mod Tests
use esp8266_toolbox.Base.{
  ℕ, ◌+◌, ◌-◌, ◌*◌, ◌/◌, ◌%◌, Bool, List, [], ◌∷◌, ◌++◌, length, take, replicate, leb, ltb,
  if◌then◌else◌,
}
use esp8266_toolbox.Base.Memory.{overlay}

-- `log_raise` and `log_lower` on the level of one subsystem.
pub log_raise : ℕ → ℕ
log_raise sys =
    if ltb sys 10
    then 10
    else if ltb sys 20
    then 20
    else if ltb sys 30
    then 30
    else if ltb sys 40
    then 40
    else if ltb sys 50
    then 50
    else sys

pub log_lower : ℕ → ℕ
log_lower sys =
    if ltb 50 sys
    then 50
    else if ltb 40 sys
    then 40
    else if ltb 30 sys
    then 30
    else if ltb 20 sys
    then 20
    else if ltb 10 sys
    then 10
    else sys

-- The test in front of every entry: is one of this severity recorded?
pub is_logged : ℕ → ℕ → Bool
is_logged sys severity = leb sys severity

-- The time that `log_entry` prints, with the widths of its variables.
pub record Stamp : Type 0 where
  pub days : ℕ
  pub hrs : ℕ
  pub mins : ℕ
  pub secs : ℕ
  pub ms : ℕ

pub stamp : ℕ → Stamp
stamp time_us =
    let time_secs = time_us / 1000000 in
    record {
      days = time_secs / 86400 % 4294967296;
      hrs = time_secs % 86400 / 3600 % 256;
      mins = time_secs % 86400 % 3600 / 60 % 256;
      secs = time_secs % 86400 % 3600 % 60 % 256;
      ms = time_us % 1000000 / 1000 % 65536;
    }

-- `sizeof(logbuf.main)` is `4*1024-500`, and `sizeof(logbuf.entry)` is 256.
abbrev pub main_size : ℕ
main_size = 3596

abbrev pub entry_size : ℕ
entry_size = 256

-- `log_init`: the buffer of entries, zeroed.
pub log_init : List ℕ
log_init = replicate main_size 0

-- What `logbuf.entry` holds up to its end, where `text` is what the format gives: `os_snprintf`
-- stores at most 255 characters, and a text that was cut ends in "...\n".
pub entry_text : List ℕ → List ℕ
entry_text text =
    if leb entry_size (length text)
    then take (entry_size - 5) text ++ (b'.' ∷ b'.' ∷ b'.' ∷ 10 ∷ [])
    else text

-- What `log_entry` does to `logbuf.main`: `os_memmove` of its front to behind the entry, and `os_memcpy`
-- of the entry. `strlen` stops in front of a NUL, and `text` has none.
pub log_entry : List ℕ → List ℕ → List ℕ
log_entry main text =
    let len = length (entry_text text) in
    overlay (overlay main len (take (main_size - len) main)) 0 (entry_text text)
