-- ===== src/Drivers/Tsl2561/Tests.antt =====
-- A measurement with a device on the bus, and conversions at the edges.
use esp8266_toolbox.Base.{ℕ, suc, ◌%◌, ◌<◌, ◌≡◌, refl, List, [], ◌∷◌, arith, ◌==◌, if◌then◌else◌}
use esp8266_toolbox.I2c.{high, Event, sampled, Bus}
use esp8266_toolbox.I2c.Decoder.{heard, Between}
use esp8266_toolbox.Drivers.Tsl2561.{
  calc_lux, coefficients, tsl2561_lux, tsl2561_writebyte, ratio_of, time_scale, weigh,
}
use esp8266_toolbox.Drivers.Tsl2561.Lux.{
  calc_lux_exact, full_scale, ideal_count, ideal_lux, ideal_ratio,
}
use esp8266_toolbox.Drivers.Tsl2561.Frames.{Meets, WriteFrame, tsl2561_writebyte-Meets}
use esp8266_toolbox.Drivers.Tsl2561.Reading.{LuxFrame, tsl2561_lux-Meets}

abbrev idle : Bus
idle = record { m_n_last_sda = 1; m_n_last_scl = 1; trace = [] }

idle-Between : Between idle high high []
unfolding Between heard
idle-Between = (refl, refl, refl)

samples : List Event → ℕ
samples [] = 0
samples (sampled k ∷ t) = suc (samples t)
samples (_ ∷ t) = samples t

-- A device that acknowledges everything, whose identification is 0x50 and whose first channel reads
-- 0x2000: it leaves the line high at the fifth, the seventh and the thirty-first read only.
device : List Event → ℕ
device t =
    if samples t == 4 then 1 else if samples t == 6 then 1 else if samples t == 30 then 1 else 0

device-bit : (t : List Event) → device t < 2
unfolding device
device-bit t = ground arith

tsl2561_lux-Meets_example : Meets (tsl2561_lux device idle) LuxFrame []
tsl2561_lux-Meets_example = tsl2561_lux-Meets device device-bit idle [] idle-Between

tsl2561_writebyte-Meets_example :
    Meets (tsl2561_writebyte device 0x00 0x03 idle) (WriteFrame 0x00 0x03) []
tsl2561_writebyte-Meets_example =
    tsl2561_writebyte-Meets device device-bit 0x00 0x03 idle [] (omega arith) idle-Between

-- The counts of an office.
calc_lux_exact_example :
    calc_lux 0 0 1 5047 0
    ≡ ideal_lux
        (ideal_count 0 0 5047)
        (ideal_count 0 0 0)
        (coefficients 1 (ideal_ratio (ideal_count 0 0 5047) (ideal_count 0 0 0)))
      % 65536
unfolding full_scale
calc_lux_exact_example = calc_lux_exact 0 0 1 5047 0 (omega arith) (omega arith)

-- Gain 1x and 13.7 ms at the device's largest count: 74446 lux do not fit in 16 bits.
cut_lux : calc_lux 0 0 1 5047 0 ≡ 8910
unfolding calc_lux weigh coefficients ratio_of time_scale
cut_lux = refl
