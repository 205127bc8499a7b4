-- ===== src/Uptime/Clock.antt =====
-- The 64-bit clock that uptime.c makes of the wrapping counter.
use esp8266_toolbox.Base.{
  ℕ, ◌+◌, ◌*◌, ◌/◌, ◌%◌, ◌≤◌, ◌<◌, ◌-◌, ◌≡◌, refl, Bool-cases, inl, inr, ltb, ◌==◌, if◌then◌else◌,
  List, [], ◌∷◌, arith,
}
use esp8266_toolbox.Base.Bits.{bit_or_disjoint}
use esp8266_toolbox.Uptime.{Uptime, at_boot, days, uptime_us, uptime_update, uptime_handler}

-- The counter of the hardware at time `t` in microseconds since boot.
abbrev pub reading : ℕ → ℕ
reading t = t % 4294967296

uptime_us_sum : (s : Uptime) (r : ℕ) → r < 4294967296 → uptime_us s r ≡ s.high * 4294967296 + r
unfolding uptime_us
uptime_us_sum s r h = bit_or_disjoint 32 s.high r h

-- Handlers at the times of a list, latest first, each less than a period of the counter after the one before.
abbrev pub IsSchedule : List ℕ → Type 0
IsSchedule [] = Unit
IsSchedule (t ∷ []) = t < 4294967296
IsSchedule (t ∷ r ∷ rest) = (r ≤ t) × (t < r + 4294967296) × IsSchedule (r ∷ rest)

abbrev pub updates : List ℕ → Uptime
updates [] = at_boot
updates (t ∷ rest) = uptime_update (updates rest) (reading t)

updates_exact :
    (t : ℕ) (rest : List ℕ)
    → IsSchedule (t ∷ rest)
    → t / 4294967296 < 4294967296
    → ((updates (t ∷ rest)).high ≡ t / 4294967296) × ((updates (t ∷ rest)).last ≡ reading t)
unfolding uptime_update at_boot
updates_exact t [] h small = ground arith
updates_exact t (r ∷ rest) h small = ground (arith, updates_exact r rest)

-- If the handler runs at least once in each period of the counter, then at the time of a run, and until the counter next wraps, `uptime_us` is the time since boot, below 2^64.
pub uptime_us_exact :
    (t now : ℕ) (rest : List ℕ)
    → IsSchedule (t ∷ rest)
    → t ≤ now
    → now / 4294967296 ≡ t / 4294967296
    → t / 4294967296 < 4294967296
    → uptime_us (updates (t ∷ rest)) (reading now) ≡ now
uptime_us_exact t now rest h later same small =
    omega (arith, updates_exact t rest h small, uptime_us_sum (updates (t ∷ rest)) (reading now))

-- Between a wrap of the counter and the next run of the handler `uptime_us` is a whole period behind: it has gone backwards.
pub uptime_us_behind :
    (t now : ℕ) (rest : List ℕ)
    → IsSchedule (t ∷ rest)
    → now / 4294967296 ≡ t / 4294967296 + 1
    → t / 4294967296 < 4294967296
    → uptime_us (updates (t ∷ rest)) (reading now) + 4294967296 ≡ now
uptime_us_behind t now rest h wrapped small =
    omega (arith, updates_exact t rest h small, uptime_us_sum (updates (t ∷ rest)) (reading now))

days_of : (us : ℕ) → us < 18446744073709551616 → days us ≡ us / 86400000000
unfolding days
days_of us h = omega (arith, h)

-- What `uptime_us` gives before a run: without a wrap of the counter since the run at `r`, the time; with
-- one, a period less.
abbrev pub seen : ℕ → ℕ → ℕ
seen r before = if before / 4294967296 == r / 4294967296 then before else before - 4294967296

seen_lem :
    (r before : ℕ) (rest : List ℕ)
    → IsSchedule (r ∷ rest)
    → r ≤ before
    → before < r + 4294967296
    → r / 4294967296 < 4294967296
    → uptime_us (updates (r ∷ rest)) (reading before) ≡ seen r before
seen_lem r before rest h low high small =
    elim (Bool-cases (before / 4294967296 == r / 4294967296)) [
      | inl p ↦ rw p (uptime_us_exact r before rest h low (ground (arith, p)) small)
      | inr p ↦
          let next : before / 4294967296 ≡ r / 4294967296 + 1 = ground (arith, p, low, high) in
          rw p (omega (arith, uptime_us_behind r before rest h next small))
    ]

-- A run of the handler at `t`, after one at `r`, with its first reading before and its last one after the
-- update, and without a wrap of the counter from the update on: the clock is updated for `t`, and the
-- daily mail is sent if and only if the day of the last reading is later than the day that the first
-- reading shows, which is a whole period of the counter late where the counter wrapped since `r`.
pub uptime_handler_lem :
    (r before t after : ℕ) (rest : List ℕ)
    → IsSchedule (t ∷ r ∷ rest)
    → r ≤ before
    → before ≤ t
    → t ≤ after
    → after / 4294967296 ≡ t / 4294967296
    → t / 4294967296 < 4294967296
    → uptime_handler (updates (r ∷ rest)) (reading before) (reading t) (reading after)
      ≡ (updates (t ∷ r ∷ rest), ltb (seen r before / 86400000000) (after / 86400000000))
unfolding uptime_handler
uptime_handler_lem r before t after rest h low order later same small =
    let first =
      seen_lem r before rest h.2 low (omega (arith, order, h.1))
        (omega (arith, low, order, small)) in
    let last = uptime_us_exact t after (r ∷ rest) h later same small in
    let below : seen r before ≤ before = ground arith in
    let d1 : days (seen r before) ≡ seen r before / 86400000000 =
      days_of (seen r before) (omega (arith, below, order, small)) in
    let d2 : days after ≡ after / 86400000000 = days_of after (omega (arith, same, small)) in
    rw (first, last, d1, d2) refl
