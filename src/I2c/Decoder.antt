-- ===== src/I2c/Decoder.antt =====
-- The I2C bus protocol as a listener sees it, written without a look at i2c/i2c_master.c: what a
-- sequence of line levels means.
use esp8266_toolbox.Base.{ℕ, Option, none, some, List, [], ◌∷◌, ◌≡◌}
use esp8266_toolbox.I2c.{Level, low, high, Event, lines, wait, sampled, Bus}

-- A bit counts when its clock pulse ends. SDA that moves under a high clock is a START or a STOP.
-- `into k` is a level read under a high clock.
pub data Symbol : Type 0 where
  start stop : Symbol
  out : Level → Symbol
  into : ℕ → Symbol

-- `pulse` is the bit of the clock pulse that is under way. Symbols are newest first.
pub record Heard : Type 0 where
  pub sda : Level
  pub scl : Level
  pub pulse : Option Level
  pub symbols : List Symbol

abbrev pub finish_pulse : Option Level → List Symbol → List Symbol
finish_pulse none symbols = symbols
finish_pulse (some level) symbols = out level ∷ symbols

abbrev pub under_high_clock :
    Level → Level → Option Level → List Symbol → Option Level × List Symbol
under_high_clock low low pulse symbols = (pulse, symbols)
under_high_clock high high pulse symbols = (pulse, symbols)
under_high_clock high low pulse symbols = (none, start ∷ symbols)
under_high_clock low high pulse symbols = (none, stop ∷ symbols)

-- From the old level of the clock to the new one.
abbrev pub hear_lines : Level → Level → Level → Heard → Heard
hear_lines low low sda h = record { sda = sda; scl = low; pulse = h.pulse; symbols = h.symbols }
hear_lines low high sda h = record { sda = sda; scl = high; pulse = some sda; symbols = h.symbols }
hear_lines high low sda h = record {
  sda = sda;
  scl = low;
  pulse = none;
  symbols = finish_pulse h.pulse h.symbols;
}
hear_lines high high sda h =
    let next = under_high_clock h.sda sda h.pulse h.symbols in
    record { sda = sda; scl = high; pulse = next.0; symbols = next.1 }

abbrev pub hear_sample : Level → ℕ → Heard → Heard
hear_sample low k h = h
hear_sample high k h = record {
  sda = h.sda;
  scl = h.scl;
  pulse = h.pulse;
  symbols = into k ∷ h.symbols;
}

abbrev pub hear : Event → Heard → Heard
hear (lines sda scl) h = hear_lines h.scl scl sda h
hear (wait us) h = h
hear (sampled k) h = hear_sample h.scl k h

-- Both lines are pulled up before anything happens.
unfoldable pub heard : List Event → Heard
heard [] = record { sda = high; scl = high; pulse = none; symbols = [] }
heard (event ∷ events) = hear event (heard events)

abbrev pub number_of : Level → ℕ
number_of low = 0
number_of high = 1

-- Between two operations: no pulse is under way, the static variables hold what the lines carry, and
-- `symbols` were heard so far.
unfoldable pub Between : Bus → Level → Level → List Symbol → Type 0
Between bus sda scl symbols =
    (bus.m_n_last_sda ≡ number_of sda)
    × (bus.m_n_last_scl ≡ number_of scl)
    × (heard bus.trace ≡ record { sda = sda; scl = scl; pulse = none; symbols = symbols })
