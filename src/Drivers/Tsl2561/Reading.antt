-- ===== src/Drivers/Tsl2561/Reading.antt =====
-- `tsl2561_lux`: a whole measurement, as a listener on the bus hears it.
use esp8266_toolbox.Base.{
  ℕ, zero, suc, ◌<◌, ◌==◌, if◌then◌else◌, arith, Bool-cases, inl, inr, Option, none, some, List,
}
use esp8266_toolbox.Base.Bits.{◌>>>◌}
use esp8266_toolbox.I2c.{high, Event, Bus, i2c_master_wait}
use esp8266_toolbox.I2c.Decoder.{Symbol, Between}
use esp8266_toolbox.I2c.Steps.{wait-Between}
use esp8266_toolbox.I2c.Bytes.{from_bits-bound}
use esp8266_toolbox.Drivers.Tsl2561.{checked, coefficients, delay_loop, measure, tsl2561_lux}
use esp8266_toolbox.Drivers.Tsl2561.Lux.{calc_lux_bound, ideal_lux, ideal_ratio}
use esp8266_toolbox.Drivers.Tsl2561.Frames.{
  ByteSent, acked, refused, Exchange, Meets, OneRead, Selected, TwoRead, two, WriteFrame,
  tsl2561_readbyte-Meets, tsl2561_readword-Meets, tsl2561_writebyte-Meets,
}

-- An exchange that fails ends the whole, and the value of one that succeeds goes to the next.
pub data Then (First : Exchange) (Rest : ℕ → Exchange)
    : Option ℕ → List Symbol → List Symbol → Type 0 where
  failed : {s s' : List Symbol} → First none s s' → Then First Rest none s s'
  went_on :
      {a : ℕ} {r : Option ℕ} {s s' s'' : List Symbol}
      → First (some a) s s'
      → Rest a r s' s''
      → Then First Rest r s s''

-- Nothing more is sent, and the result is known.
pub data Silent (result : Option ℕ) : Option ℕ → List Symbol → List Symbol → Type 0 where
  silent : {s : List Symbol} → Silent result result s s

abbrev pub lux_of : ℕ → ℕ → ℕ → ℕ
lux_of type data0 data1 = ideal_lux data0 data1 (coefficients type (ideal_ratio data0 data1))

-- Power on, 16x gain and 402 ms, both channels, power off.
abbrev pub Measurement : ℕ → Exchange
Measurement type = Then (WriteFrame 0x00 0x03) (λ _. Then (WriteFrame 0x01 0x12) (λ _.
    Then (Selected 0x0c TwoRead) (λ data0.
      Then (Selected 0x0e TwoRead)
        (λ data1. Then (WriteFrame 0x00 0x00) (λ _. Silent (some (lux_of type data0 data1)))))))

-- The part number in the upper half of the identification decides.
abbrev pub PartFrame : ℕ → Exchange
PartFrame id =
    if (id >>> 4) == 1
    then Measurement 1
    else if (id >>> 4) == 5
    then Measurement 0
    else Silent none

abbrev pub LuxFrame : Exchange
LuxFrame = Then (Selected 0x0a OneRead) PartFrame

abbrev Word : Option ℕ → Type 0
Word none = Unit
Word (some v) = v < 65536

TwoRead-Word : {r : Option ℕ} {s s' : List Symbol} → TwoRead r s s' → Word r
TwoRead-Word (two lows highs len small len' small') =
    let l = from_bits-bound 8 0 lows len small in
    let h = from_bits-bound 8 0 highs len' small' in omega (arith, l, h)

sent-Word :
    {w : ℕ} {Rest : Exchange} {r : Option ℕ} {s s' : List Symbol}
    → ((r : Option ℕ) (s s' : List Symbol) → Rest r s s' → Word r)
    → ByteSent w Rest r s s'
    → Word r
sent-Word rest (acked h) = rest _ _ _ h
sent-Word rest (refused ne) = tt

selected-Word : (reg : ℕ) {r : Option ℕ} {s s' : List Symbol} → Selected reg TwoRead r s s' → Word r
selected-Word reg h =
    sent-Word (λ r s s' h. sent-Word (λ r s s' h. sent-Word (λ r s s' h. TwoRead-Word h) h) h) h

delay_loop-Between :
    (n : ℕ) (bus : Bus) (s : List Symbol)
    → Between bus high high s
    → Between (delay_loop n bus) high high s
unfolding delay_loop
delay_loop-Between zero bus s h = h
delay_loop-Between (suc n) bus s h =
    delay_loop-Between n (i2c_master_wait 1000 bus) s (wait-Between 1000 high high bus s h)

module _ (gpio_input : List Event → ℕ) (gpio_bit : (t : List Event) → gpio_input t < 2) where
  checked-Meets :
      (result : Bus × Option ℕ) (rest : ℕ → Bus → Bus × Option ℕ) (First : Exchange)
      (Rest : ℕ → Exchange) (s : List Symbol)
      → Meets result First s
      → ((a : ℕ) (bus : Bus) (s' : List Symbol)
          → First (some a) s s'
          → Between bus high high s'
          → Meets (rest a bus) (Rest a) s')
      → Meets (checked gpio_input result rest) (Then First Rest) s
  unfolding checked
  checked-Meets (bus, none) rest First Rest s (s', h, idle) goes_on = (s', failed h, idle)
  checked-Meets (bus, some a) rest First Rest s (s', h, idle) goes_on =
      let (s'', k, after) = goes_on a bus s' h idle in (s'', went_on h k, after)

  measure-Meets :
      (type : ℕ) (bus : Bus) (s : List Symbol)
      → Between bus high high s
      → Meets (measure gpio_input type bus) (Measurement type) s
  unfolding measure
  measure-Meets type bus s h =
      checked-Meets _ _ _ _ s
        (tsl2561_writebyte-Meets gpio_input gpio_bit 0x00 0x03 bus s (omega arith) h)
        (λ _ bus2 s2 _ h2.
          checked-Meets _ _ _ _ s2
            (tsl2561_writebyte-Meets gpio_input gpio_bit 0x01 0x12 bus2 s2 (omega arith) h2)
            (λ _ bus3 s3 _ h3.
              checked-Meets _ _ _ _ s3
                (tsl2561_readword-Meets gpio_input gpio_bit 0x0c (delay_loop 500 bus3) s3
                  (omega arith) (delay_loop-Between 500 bus3 s3 h3))
                (λ data0 bus4 s4 r0 h4.
                  checked-Meets _ _ _ _ s4
                    (tsl2561_readword-Meets gpio_input gpio_bit 0x0e bus4 s4 (omega arith) h4)
                    (λ data1 bus5 s5 r1 h5.
                      checked-Meets _ _ _ _ s5
                        (tsl2561_writebyte-Meets gpio_input gpio_bit 0x00 0x00 bus5 s5 (omega arith)
                          h5)
                        (λ _ bus6 s6 _ h6.
                          let exact =
                            calc_lux_bound type data0 data1 (selected-Word 0x0c r0)
                              (selected-Word 0x0e r1) in
                          rw exact.0 (s6, silent, h6))))))

  -- Whatever the device answers, a measurement from an idle bus is heard as this: the identification
  -- is read, a part of the two known kinds is switched on, set up, read twice and switched off, and the
  -- first refused byte ends it all with -1. On success the result is the datasheet's formula at the two
  -- counts that were heard. Both lines are high in the end.
  pub tsl2561_lux-Meets :
      (bus : Bus) (s : List Symbol)
      → Between bus high high s
      → Meets (tsl2561_lux gpio_input bus) LuxFrame s
  unfolding tsl2561_lux
  tsl2561_lux-Meets bus s h =
      checked-Meets _ _ _ _ s
        (tsl2561_readbyte-Meets gpio_input gpio_bit 0x0a bus s (omega arith) h)
        (λ id bus1 s1 _ h1. elim (Bool-cases ((id >>> 4) == 1)) [
          | inl p ↦ rw p (measure-Meets 1 bus1 s1 h1)
          | inr p ↦ elim (Bool-cases ((id >>> 4) == 5)) [
            | inl q ↦ rw (p, q) (measure-Meets 0 bus1 s1 h1)
            | inr q ↦ rw (p, q) (s1, silent, h1)
          ]
        ])
