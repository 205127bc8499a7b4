-- ===== src/Log/Entry.antt =====
-- The time stamps and the entry buffer of log/log.c.
use esp8266_toolbox.Base.{
  ℕ, ◌+◌, ◌-◌, ◌*◌, ◌/◌, ◌≤◌, ◌<◌, ◌≡◌, false, leb, Bool-cases, inl, inr, List, [], ◌∷◌, ◌++◌, sym,
  ap, ◌∙◌, length, take, drop, length-append, length-take, take-append_length, drop-append_length,
  arith,
}
use esp8266_toolbox.Base.Memory.{overlay, overlay_to_end}
use esp8266_toolbox.Log.{stamp, main_size, entry_size, entry_text, log_entry}

-- For an uptime below 2^64 microseconds, each part of the printed time is in its clock range, and together they are the time in milliseconds, if the days fit their 32 bits.
pub stamp_lem :
    (t : ℕ)
    → t / 86400000000 < 4294967296
    → let s = stamp t in
      (s.hrs < 24)
      × (s.mins < 60)
      × (s.secs < 60)
      × (s.ms < 1000)
      × ((((s.days * 24 + s.hrs) * 60 + s.mins) * 60 + s.secs) * 1000 + s.ms ≡ t / 1000)
unfolding stamp
stamp_lem t h = omega arith

not_leb : (a b : ℕ) → leb a b ≡ false → b < a
not_leb a b h = ground arith

-- The text of an entry is at most 255 characters long.
length-entry_text : (text : List ℕ) → length (entry_text text) ≤ 255
unfolding entry_text
length-entry_text text = elim (Bool-cases (leb entry_size (length text))) [
  | inl long ↦ rw long (
      omega (
        arith,
        length-append (take (entry_size - 5) text) (b'.' ∷ b'.' ∷ b'.' ∷ 10 ∷ []),
        length-take (entry_size - 5) text,
      ))
  | inr short ↦ rw short (omega (arith, not_leb entry_size (length text) short))
]

-- The two copies leave the entry and what was moved behind it.
log_entry-append :
    (main text : List ℕ)
    → length main ≡ main_size
    → log_entry main text ≡ entry_text text ++ take (main_size - length (entry_text text)) main
unfolding log_entry overlay
log_entry-append main text size =
    let e = entry_text text in
    let rest = take (main_size - length e) main in
    let short : length e ≤ 255 = length-entry_text text in
    let all : length e + length rest ≡ length main =
      omega (arith, short, size, length-take (main_size - length e) main) in
    let moved : overlay main (length e) rest ≡ take (length e) main ++ rest =
      overlay_to_end main (length e) rest (omega (arith, all)) in
    let front : length (take (length e) main) ≡ length e =
      omega (arith, short, size, length-take (length e) main) in
    let same : 0 + length e ≡ length e = omega arith in
    let behind : drop (length e) (take (length e) main ++ rest) ≡ rest =
      ap (λ (n : ℕ). drop n (take (length e) main ++ rest)) (sym front)
      ∙ drop-append_length (take (length e) main) rest in
    ap (λ q. e ++ q)
      (ap (drop (0 + length e)) moved
        ∙ ap (λ (n : ℕ). drop n (take (length e) main ++ rest)) same
        ∙ behind)

-- Recording an entry keeps the size of the buffer, puts the entry, of at most 255 characters, in front,
-- and keeps behind it what was there, less what falls off the end.
pub log_entry_lem :
    (main text : List ℕ)
    → length main ≡ main_size
    → (length (log_entry main text) ≡ main_size)
      × (length (entry_text text) ≤ 255)
      × (take (length (entry_text text)) (log_entry main text) ≡ entry_text text)
      × (drop (length (entry_text text)) (log_entry main text)
          ≡ take (main_size - length (entry_text text)) main)
log_entry_lem main text size =
    let e = entry_text text in
    let rest = take (main_size - length e) main in
    let short : length e ≤ 255 = length-entry_text text in
    let whole = log_entry-append main text size in
    (
      ap (length {A = ℕ}) whole
          ∙ omega
              (arith, short, size, length-append e rest, length-take (main_size - length e) main),
      short,
      ap (take (length e)) whole ∙ take-append_length e rest,
      ap (drop (length e)) whole ∙ drop-append_length e rest,
    )
