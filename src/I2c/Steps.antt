-- ===== src/I2c/Steps.antt =====
-- What a listener hears of the conditions and of single bits: `i2c_master_start`, `i2c_master_stop`,
-- the acknowledge slots, and one round of the read and write loops.
use esp8266_toolbox.Base.{
  ℕ, ◌%◌, Bool-cases, List, ◌∷◌, ◌==◌, if◌then◌else◌, bit_and, ◌≡◌, refl, arith, inl, inr,
}
use esp8266_toolbox.Base.Bits.{◌>>>◌, bit_and_ones}
use esp8266_toolbox.I2c.{
  Level, low, high, Event, Bus, i2c_master_wait, hold, i2c_master_start, i2c_master_stop,
  i2c_master_set_ack, write_bit, i2c_master_get_dc, i2c_master_get_ack,
}
use esp8266_toolbox.I2c.Decoder.{Symbol, start, stop, out, into, heard, number_of, Between}

pub stop-Between :
    (bus : Bus) (sda : Level) (s : List Symbol)
    → Between bus sda low s
    → Between (i2c_master_stop bus) high high (stop ∷ s)
unfolding Between i2c_master_stop heard
stop-Between bus low s (a, b, c) = (refl, refl, rw (b, c) refl)
stop-Between bus high s (a, b, c) = (refl, refl, rw (b, c) refl)

pub start-Between_idle :
    (bus : Bus) (s : List Symbol)
    → Between bus high high s
    → Between (i2c_master_start bus) low high (start ∷ s)
unfolding Between i2c_master_start heard
start-Between_idle bus s (a, b, c) = (refl, refl, rw (b, c) refl)

pub start-Between_again :
    (bus : Bus) (sda : Level) (s : List Symbol)
    → Between bus sda low s
    → Between (i2c_master_start bus) low high (start ∷ s)
unfolding Between i2c_master_start heard
start-Between_again bus low s (a, b, c) = (refl, refl, rw (b, c) refl)
start-Between_again bus high s (a, b, c) = (refl, refl, rw (b, c) refl)

pub set_ack-Between :
    (level sda : Level) (bus : Bus) (s : List Symbol)
    → Between bus sda low s
    → Between (i2c_master_set_ack (number_of level) bus) high low (out level ∷ s)
unfolding Between i2c_master_set_ack heard
set_ack-Between low low bus s (a, b, c) = (refl, refl, rw (a, c) refl)
set_ack-Between low high bus s (a, b, c) = (refl, refl, rw (a, c) refl)
set_ack-Between high low bus s (a, b, c) = (refl, refl, rw (a, c) refl)
set_ack-Between high high bus s (a, b, c) = (refl, refl, rw (a, c) refl)

-- The level that a bit of a number asks for.
pub bit_of : ℕ → ℕ → Level
bit_of w i = if w >>> i % 2 == 0 then low else high

number_of-bit_of : (w i : ℕ) → bit_and (w >>> i) 1 ≡ number_of (bit_of w i)
unfolding bit_of
number_of-bit_of w i = ground (arith, bit_and_ones 1 (w >>> i))

-- A round of the write loop once the driven bit is known.
write_bit_known :
    (w i : ℕ) (b sda : Level) (bus : Bus) (s : List Symbol)
    → bit_and (w >>> i) 1 ≡ number_of b
    → Between bus sda low s
    → Between (write_bit w i bus) b low (out b ∷ s)
unfolding Between write_bit heard
write_bit_known w i low sda bus s e (x, y, z) = elim (Bool-cases (i == 0)) [
  | inl p ↦ rw (p, e, z) (refl, refl, refl)
  | inr p ↦ rw (p, e, z) (refl, refl, refl)
]
write_bit_known w i high sda bus s e (x, y, z) = elim (Bool-cases (i == 0)) [
  | inl p ↦ rw (p, e, z) (refl, refl, refl)
  | inr p ↦ rw (p, e, z) (refl, refl, refl)
]

pub write_bit-Between :
    (w i : ℕ) (sda : Level) (bus : Bus) (s : List Symbol)
    → Between bus sda low s
    → Between (write_bit w i bus) (bit_of w i) low (out (bit_of w i) ∷ s)
write_bit-Between w i sda bus s h =
    write_bit_known w i (bit_of w i) sda bus s (number_of-bit_of w i) h

-- The call that opens a byte or an acknowledge slot: the clock goes low, after a START or between bytes.
pub open-Between :
    (sda scl : Level) (bus : Bus) (s : List Symbol)
    → Between bus sda scl s
    → Between (hold bus.m_n_last_sda 0 5 bus) sda low s
unfolding Between heard
open-Between low low bus s (a, b, c) = rw (a, c) (refl, refl, refl)
open-Between low high bus s (a, b, c) = rw (a, c) (refl, refl, refl)
open-Between high low bus s (a, b, c) = rw (a, c) (refl, refl, refl)
open-Between high high bus s (a, b, c) = rw (a, c) (refl, refl, refl)

pub wait-Between :
    (us : ℕ) (sda scl : Level) (bus : Bus) (s : List Symbol)
    → Between bus sda scl s
    → Between (i2c_master_wait us bus) sda scl s
unfolding Between heard
wait-Between us sda scl bus s h = h

-- What the device answered is in the trace, and the value that the master computes is that answer.
module _ (gpio_input : List Event → ℕ) where
  pub get_ack-Between :
      (sda scl : Level) (bus : Bus) (s : List Symbol)
      → Between bus sda scl s
      → Between
          (i2c_master_get_ack gpio_input bus).0
          high
          low
          (out high ∷ into (i2c_master_get_ack gpio_input bus).1 ∷ s)
  unfolding Between heard i2c_master_get_ack i2c_master_get_dc
  get_ack-Between sda scl bus s h =
      let (a, b, c) = open-Between sda scl bus s h in (refl, refl, rw c refl)
