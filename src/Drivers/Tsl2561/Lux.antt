-- ===== src/Drivers/Tsl2561/Lux.antt =====
-- `calc_lux` at the gain and the integration time that `tsl2561_lux` uses, where no step wraps around.
use esp8266_toolbox.Base.{
  ℕ, zero, suc, ◌+◌, ◌-◌, ◌*◌, ◌/◌, ◌%◌, ◌<◌, ◌≤◌, ◌≡◌, ◌==◌, if◌then◌else◌, arith,
}
use esp8266_toolbox.Base.Bits.{◌<<<◌, ◌>>>◌, u32}
use esp8266_toolbox.Drivers.Tsl2561.{calc_lux, time_scale, coefficients, ratio_of, weigh}

-- The largest count that the device's 16-bit counter reaches in an integration time of 13.7, 101 and
-- 402 milliseconds, from the datasheet.
unfoldable pub full_scale : ℕ → ℕ
full_scale zero = 5047
full_scale (suc zero) = 37177
full_scale (suc (suc _)) = 65535

-- A count as one at gain 16x and 402 ms, without the bounds of machine words.
pub ideal_count : ℕ → ℕ → ℕ → ℕ
ideal_count gain time raw = raw * (time_scale time * (if gain == 0 then 16 else 1)) / 1024

-- The infrared channel over the visible one in units of 1/512, rounded to the nearest.
pub ideal_ratio : ℕ → ℕ → ℕ
ideal_ratio data0 data1 = ((if data0 == 0 then 0 else data1 * 1024 / data0) + 1) / 2

-- The datasheet's linear formula in units of 2⁻¹⁴ lux, rounded to the nearest lux. Subtraction stops
-- at 0.
pub ideal_lux : ℕ → ℕ → ℕ × ℕ → ℕ
ideal_lux data0 data1 (b, m) = (data0 * b - data1 * m + 8192) / 16384

coefficients_small :
    (type ratio : ℕ) → ((coefficients type ratio).0 ≤ 642) × ((coefficients type ratio).1 ≤ 1022)
unfolding coefficients
coefficients_small zero ratio = ground arith
coefficients_small (suc type) ratio = ground arith

small_product : (x y c : ℕ) → x ≤ 2364805 → y ≤ c → c ≤ 1022 → x * y ≤ 2416830710
small_product x y c hx hy hc = grind arith

small_lux : (x y : ℕ) → x < 65536 → y ≤ 642 → x * y ≤ 42073470
small_lux x y hx hy = grind arith

weigh_exact :
    (data0 data1 b m : ℕ)
    → data0 ≤ 2364805
    → data1 ≤ 2364805
    → b ≤ 642
    → m ≤ 1022
    → weigh data0 data1 (b, m) ≡ ideal_lux data0 data1 (b, m) % 65536
unfolding weigh ideal_lux
weigh_exact data0 data1 b m h0 h1 hb hm = ground (
  arith,
  small_product data0 b 642 h0 hb (omega arith),
  small_product data1 m 1022 h1 hm (omega arith),
)

ratio_exact : (data0 data1 : ℕ) → data1 ≤ 2364805 → ratio_of data0 data1 ≡ ideal_ratio data0 data1
unfolding ratio_of ideal_ratio
ratio_exact data0 data1 h = ground arith

-- `scale` as `calc_lux` computes it.
scale_exact :
    (gain time raw : ℕ)
    → raw ≤ full_scale time
    → (u32 (raw * (if gain == 0 then u32 (time_scale time <<< 4) else time_scale time)) >>> 10
        ≡ ideal_count gain time raw)
      × (ideal_count gain time raw ≤ 2364805)
unfolding ideal_count full_scale time_scale
scale_exact gain zero raw h = ground arith
scale_exact gain (suc zero) raw h = ground arith
scale_exact gain (suc (suc time)) raw h = ground arith

-- For counts that the device can give in the integration time, at either gain and for either package,
-- no step of the code's 32-bit arithmetic wraps around: the result is the rounded value of the
-- datasheet's formula, cut to 16 bits at the end.
pub calc_lux_exact :
    (gain time type raw0 raw1 : ℕ)
    → raw0 ≤ full_scale time
    → raw1 ≤ full_scale time
    → let data0 = ideal_count gain time raw0 in
      let data1 = ideal_count gain time raw1 in
      calc_lux gain time type raw0 raw1
      ≡ ideal_lux data0 data1 (coefficients type (ideal_ratio data0 data1)) % 65536
unfolding calc_lux
calc_lux_exact gain time type raw0 raw1 h0 h1 =
    let (e0, b0) = scale_exact gain time raw0 h0 in
    let (e1, b1) = scale_exact gain time raw1 h1 in
    let data0 = ideal_count gain time raw0 in
    let data1 = ideal_count gain time raw1 in
    let (hb, hm) = coefficients_small type (ideal_ratio data0 data1) in
    rw (e0, e1, ratio_exact data0 data1 b1) (weigh_exact data0 data1 _ _ b0 b1 hb hm)

ideal_count_plain : (raw : ℕ) → ideal_count 1 2 raw ≡ raw
unfolding ideal_count time_scale
ideal_count_plain raw = omega arith

-- In the setting of `tsl2561_lux` every pair of 16-bit counts gives at most 2568 lux, so nothing is cut.
pub calc_lux_bound :
    (type raw0 raw1 : ℕ)
    → raw0 < 65536
    → raw1 < 65536
    → (calc_lux 1 2 type raw0 raw1
        ≡ ideal_lux raw0 raw1 (coefficients type (ideal_ratio raw0 raw1)))
      × (calc_lux 1 2 type raw0 raw1 ≤ 2568)
unfolding ideal_lux full_scale
calc_lux_bound type raw0 raw1 h0 h1 =
    let (hb, hm) = coefficients_small type (ideal_ratio raw0 raw1) in
    let exact = calc_lux_exact 1 2 type raw0 raw1 (omega arith) (omega arith) in
    let product = small_lux raw0 _ h0 hb in
    let cut = rw (ideal_count_plain raw0, ideal_count_plain raw1) at exact in
    ground (arith, cut, product, hb)
