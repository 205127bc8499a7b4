-- ===== src/Drivers/Tsl2561.antt =====
-- drivers/tsl2561.c: the light sensor behind the two-wire bus. A function that stores through a
-- pointer and returns 0 or -1 gives the stored value as an option; log messages are left out.
pub mod Lux
pub mod Frames
pub mod Reading
mod Tests
use esp8266_toolbox.Base.{
  ℕ, zero, suc, ◌+◌, ◌-◌, ◌*◌, ◌/◌, ◌%◌, Bool, true, false, Option, none, some, ◌==◌, ltb, leb,
  if◌then◌else◌, bit_or, List,
}
use esp8266_toolbox.Base.Bits.{◌<<<◌, ◌>>>◌, u32, u8}
use esp8266_toolbox.I2c.{
  Event, Bus, i2c_master_wait, i2c_master_start, i2c_master_stop, i2c_master_write_byte,
  i2c_master_check_ack, i2c_master_read_byte, i2c_master_send_ack, i2c_master_send_nack,
}

abbrev pub i2c_addr : ℕ
i2c_addr = 0x39

abbrev pub reg_control : ℕ
reg_control = 0x00

abbrev pub reg_timing : ℕ
reg_timing = 0x01

abbrev pub reg_id : ℕ
reg_id = 0x0a

abbrev pub reg_data0low : ℕ
reg_data0low = 0x0c

abbrev pub reg_data1low : ℕ
reg_data1low = 0x0e

-- `scale` before the shift for the gain.
pub time_scale : ℕ → ℕ
time_scale zero = 0x7517
time_scale (suc zero) = 0x0fe7
time_scale (suc (suc _)) = 1024

-- `b` and `m` for the type and the ratio.
pub coefficients : ℕ → ℕ → ℕ × ℕ
coefficients zero ratio =
    if leb ratio 0x0040
    then (0x01f2, 0x01be)
    else if leb ratio 0x0080
    then (0x0214, 0x02d1)
    else if leb ratio 0x00c0
    then (0x023f, 0x037b)
    else if leb ratio 0x0100
    then (0x0270, 0x03fe)
    else if leb ratio 0x0138
    then (0x016f, 0x01fc)
    else if leb ratio 0x019a
    then (0x00d2, 0x00fb)
    else if leb ratio 0x029a
    then (0x0018, 0x0012)
    else (0x0000, 0x0000)
coefficients (suc _) ratio =
    if leb ratio 0x0043
    then (0x0204, 0x01ad)
    else if leb ratio 0x0085
    then (0x0228, 0x02c1)
    else if leb ratio 0x00c8
    then (0x0253, 0x0363)
    else if leb ratio 0x010a
    then (0x0282, 0x03df)
    else if leb ratio 0x014d
    then (0x0177, 0x01dd)
    else if leb ratio 0x019a
    then (0x0101, 0x0127)
    else if leb ratio 0x029a
    then (0x0037, 0x002b)
    else (0x0000, 0x0000)

-- `ratio` of two scaled channel values.
pub ratio_of : ℕ → ℕ → ℕ
ratio_of data0 data1 = u32 ((if data0 == 0 then 0 else u32 (data1 <<< 10) / data0) + 1) >>> 1

-- The rest of `calc_lux` once `data0`, `data1`, `b` and `m` are known. All of it is arithmetic on
-- 32 bits, and the result is cut to 16 bits.
pub weigh : ℕ → ℕ → ℕ × ℕ → ℕ
weigh data0 data1 (b, m) =
    let left = u32 (data0 * b) in
    let right = u32 (data1 * m) in
    let rv = if ltb left right then 0 else u32 (left + 4294967296 - right) in
    (u32 (rv + 8192) >>> 14) % 65536

pub calc_lux : ℕ → ℕ → ℕ → ℕ → ℕ → ℕ
calc_lux gain time type raw0 raw1 =
    let scale = if gain == 0 then u32 (time_scale time <<< 4) else time_scale time in
    let data0 = u32 (raw0 * scale) >>> 10 in
    let data1 = u32 (raw1 * scale) >>> 10 in
    weigh data0 data1 (coefficients type (ratio_of data0 data1))

-- `for (i=0; i<500; i++) os_delay_us(1000);`, where the watchdog calls are left out.
pub delay_loop : ℕ → Bus → Bus
delay_loop zero bus = bus
delay_loop (suc n) bus = delay_loop n (i2c_master_wait 1000 bus)

module _ (gpio_input : List Event → ℕ) where
  -- The code's step `writeByte(w); if (!checkAck()) { stop(); return -1; }` before the rest.
  pub offered {ℓ} : {A : Type ℓ} → ℕ → Bus → (Bus → Bus × Option A) → Bus × Option A
  offered w bus rest =
      let answer = i2c_master_check_ack gpio_input (i2c_master_write_byte w bus) in
      if answer.1 then rest answer.0 else (i2c_master_stop answer.0, none)

  -- What both read functions do before they read, and then the rest.
  pub selected {ℓ} : {A : Type ℓ} → ℕ → Bus → (Bus → Bus × Option A) → Bus × Option A
  selected reg bus rest = offered (u8 (i2c_addr <<< 1)) (i2c_master_start bus) (λ b.
      offered (bit_or 0x80 reg) b
        (λ c. offered (bit_or (u8 (i2c_addr <<< 1)) 0x01) (i2c_master_start c) rest))

  pub read_one : Bus → Bus × Option ℕ
  read_one bus =
      let val = i2c_master_read_byte gpio_input bus in
      (i2c_master_stop (i2c_master_send_nack val.0), some val.1)

  pub read_two : Bus → Bus × Option ℕ
  read_two bus =
      let low = i2c_master_read_byte gpio_input bus in
      let high = i2c_master_read_byte gpio_input (i2c_master_send_ack low.0) in
      (i2c_master_stop (i2c_master_send_nack high.0), some (bit_or (high.1 <<< 8) low.1))

  pub tsl2561_readbyte : ℕ → Bus → Bus × Option ℕ
  tsl2561_readbyte reg bus = if ltb 0x0f reg then (bus, none) else selected reg bus read_one

  pub tsl2561_readword : ℕ → Bus → Bus × Option ℕ
  tsl2561_readword reg bus = if ltb 0x0f reg then (bus, none) else selected reg bus read_two

  -- The value 0 stands for success.
  pub tsl2561_writebyte : ℕ → ℕ → Bus → Bus × Option ℕ
  tsl2561_writebyte reg val bus =
      if ltb 0x0f reg
      then (bus, none)
      else offered (u8 (i2c_addr <<< 1)) (i2c_master_start bus)
          (λ b. offered (bit_or 0x80 reg) b (λ c. offered val c (λ d. (i2c_master_stop d, some 0))))

  -- `if (step) return -1;` before the rest.
  pub checked {ℓ} : {A : Type ℓ} → Bus × Option A → (A → Bus → Bus × Option ℕ) → Bus × Option ℕ
  checked (bus, none) rest = (bus, none)
  checked (bus, some a) rest = rest a bus

  -- `tsl2561_lux` from the power-on command on.
  pub measure : ℕ → Bus → Bus × Option ℕ
  measure type bus1 = checked (tsl2561_writebyte reg_control 0x03 bus1) (λ _ bus2.
      checked (tsl2561_writebyte reg_timing 0x12 bus2) (λ _ bus3.
        checked (tsl2561_readword reg_data0low (delay_loop 500 bus3)) (λ data0 bus4.
          checked (tsl2561_readword reg_data1low bus4) (λ data1 bus5.
            checked (tsl2561_writebyte reg_control 0x00 bus5)
              (λ _ bus6. (bus6, some (calc_lux 1 2 type data0 data1)))))))

  -- The result -1 is none.
  pub tsl2561_lux : Bus → Bus × Option ℕ
  tsl2561_lux bus = checked (tsl2561_readbyte reg_id bus) (λ id bus1.
      if (id >>> 4) == 1
      then measure 1 bus1
      else if (id >>> 4) == 5
      then measure 0 bus1
      else (bus1, none))
