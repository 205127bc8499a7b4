-- ===== src/I2c.antt =====
-- i2c/i2c_master.c: the two-wire bus driven by software. The module's two static variables and
-- everything that the module does to the pins, newest first, make the state.
pub mod Decoder
pub mod Steps
pub mod Bytes
use esp8266_toolbox.Base.{
  ℕ, zero, suc, ◌+◌, ◌-◌, Bool, true, false, ◌&&◌, List, [], ◌∷◌, ◌==◌, if◌then◌else◌, bit_and,
  bit_or,
}
use esp8266_toolbox.Base.Bits.{◌<<<◌, ◌>>>◌, u8}

pub data Level : Type 0 where
  low high : Level

-- The four `I2C_MASTER_SDA_.._SCL_..` macros, a delay in microseconds, and a read of the SDA pin.
pub data Event : Type 0 where
  lines : Level → Level → Event
  wait : ℕ → Event
  sampled : ℕ → Event

pub record Bus : Type 0 where
  pub m_n_last_sda : ℕ
  pub m_n_last_scl : ℕ
  pub trace : List Event

-- A read of the pin that gave `k`.
abbrev pub sample : ℕ → Bus → Bus
sample k bus = record {
  m_n_last_sda = bus.m_n_last_sda;
  m_n_last_scl = bus.m_n_last_scl;
  trace = sampled k ∷ bus.trace;
}

abbrev pub i2c_master_wait : ℕ → Bus → Bus
i2c_master_wait us bus = record {
  m_n_last_sda = bus.m_n_last_sda;
  m_n_last_scl = bus.m_n_last_scl;
  trace = wait us ∷ bus.trace;
}

-- `i2c_master_setDC`'s choice of a macro.
abbrev pub macro_of : ℕ → ℕ → Event
macro_of sda scl =
    if (0 == sda) && (0 == scl)
    then lines low low
    else if (0 == sda) && (1 == scl)
    then lines low high
    else if (1 == sda) && (0 == scl)
    then lines high low
    else lines high high

abbrev pub i2c_master_set_dc : ℕ → ℕ → Bus → Bus
i2c_master_set_dc sda scl bus = record {
  m_n_last_sda = bit_and sda 1;
  m_n_last_scl = bit_and scl 1;
  trace = macro_of (bit_and sda 1) (bit_and scl 1) ∷ bus.trace;
}

-- `i2c_master_setDC(sda, scl); i2c_master_wait(us);`, the pair of calls that the code is made of.
abbrev pub hold : ℕ → ℕ → ℕ → Bus → Bus
hold sda scl us bus = i2c_master_wait us (i2c_master_set_dc sda scl bus)

pub i2c_master_stop : Bus → Bus
i2c_master_stop bus =
    let waited = i2c_master_wait 5 bus in
    hold 1 1 5 (hold 0 1 5 (hold 0 waited.m_n_last_scl 5 waited))

pub i2c_master_start : Bus → Bus
i2c_master_start bus = hold 0 1 5 (hold 1 1 5 (hold 1 bus.m_n_last_scl 5 bus))

pub init_clocks : ℕ → Bus → Bus
init_clocks zero bus = bus
init_clocks (suc n) bus = init_clocks n (hold 1 1 5 (hold 1 0 5 bus))

pub i2c_master_init : Bus → Bus
i2c_master_init bus = i2c_master_stop (init_clocks 28 (hold 1 0 5 (hold 0 0 5 (hold 1 0 5 bus))))

pub i2c_master_set_ack : ℕ → Bus → Bus
i2c_master_set_ack level bus =
    hold 1 0 5 (hold level 0 5 (hold level 1 8 (hold level 0 5 (hold bus.m_n_last_sda 0 5 bus))))

abbrev pub i2c_master_send_ack : Bus → Bus
i2c_master_send_ack bus = i2c_master_set_ack 0 bus

abbrev pub i2c_master_send_nack : Bus → Bus
i2c_master_send_nack bus = i2c_master_set_ack 1 bus

-- The body of the write loop, for the loop's `i`.
pub write_bit : ℕ → ℕ → Bus → Bus
write_bit wrdata i bus =
    let dat = wrdata >>> i in
    let clocked = hold dat 1 5 (hold dat 0 5 bus) in
    hold dat 0 5 (if i == 0 then i2c_master_wait 3 clocked else clocked)

-- The loop from `n - 1` down to 0.
pub write_loop : ℕ → ℕ → Bus → Bus
write_loop zero wrdata bus = bus
write_loop (suc n) wrdata bus = write_loop n wrdata (write_bit wrdata n bus)

pub i2c_master_write_byte : ℕ → Bus → Bus
i2c_master_write_byte wrdata bus =
    let waited = i2c_master_wait 5 bus in write_loop 8 wrdata (hold waited.m_n_last_sda 0 5 waited)

-- The level of the SDA pin as a function of all that happened on the bus before: the device and the
-- pull-up are not in this repository.
module _ (gpio_input : List Event → ℕ) where
  pub i2c_master_get_dc : Bus → Bus × ℕ
  i2c_master_get_dc bus = let sda_out = gpio_input bus.trace in (sample sda_out bus, sda_out)

  pub i2c_master_get_ack : Bus → Bus × ℕ
  i2c_master_get_ack bus =
      let got = i2c_master_get_dc (hold 1 1 5 (hold 1 0 5 (hold bus.m_n_last_sda 0 5 bus))) in
      (hold 1 0 5 (i2c_master_wait 5 got.0), got.1)

  abbrev pub i2c_master_check_ack : Bus → Bus × Bool
  i2c_master_check_ack bus =
      let got = i2c_master_get_ack bus in (got.0, if got.1 == 0 then true else false)

  -- The body of the read loop, for the loop's `i`: the bus and `retVal` afterwards.
  pub read_bit : ℕ → Bus × ℕ → Bus × ℕ
  read_bit i (bus, retVal) =
      let got = i2c_master_get_dc (hold 1 1 5 (hold 1 0 5 (i2c_master_wait 5 bus))) in
      let waited = i2c_master_wait 5 got.0 in
      (if i == 7 then i2c_master_wait 3 waited else waited, bit_or retVal (u8 (got.1 <<< (7 - i))))

  -- The loop's last `n` rounds, with `i` from `8 - n`.
  pub read_loop : ℕ → Bus × ℕ → Bus × ℕ
  read_loop zero read = read
  read_loop (suc n) read = read_loop n (read_bit (7 - n) read)

  pub i2c_master_read_byte : Bus → Bus × ℕ
  i2c_master_read_byte bus =
      let waited = i2c_master_wait 5 bus in
      let read = read_loop 8 (hold waited.m_n_last_sda 0 5 waited, 0) in (hold 1 0 5 read.0, read.1)
