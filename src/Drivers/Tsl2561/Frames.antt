-- ===== src/Drivers/Tsl2561/Frames.antt =====
-- The sensor's protocol as a listener on the bus hears it, and that the code's read and write
-- functions keep to it, refusals by the device included.
use mathlib.Core.Path.{subst}
use esp8266_toolbox.Base.{
  ℕ, ◌+◌, ◌*◌, ◌<◌, ◌≤◌, ◌≡◌, ◌≢◌, true, false, ◌==◌, ltb, arith, ap, Bool-cases, inl, inr, Option,
  none, some, List, ◌∷◌, bit_or, length, All, eq_of_test,
}
use esp8266_toolbox.Base.Bits.{bit_or_disjoint}
use esp8266_toolbox.I2c.{Level, low, high, Event, Bus, i2c_master_write_byte, i2c_master_get_ack}
use esp8266_toolbox.I2c.Decoder.{Symbol, start, stop, out, into, Between}
use esp8266_toolbox.I2c.Steps.{
  stop-Between, start-Between_idle, start-Between_again, set_ack-Between, get_ack-Between,
}
use esp8266_toolbox.I2c.Bytes.{
  out_bits, in_bits, from_bits, from_bits-bound, write_byte-Between, read_byte-Between,
}
use esp8266_toolbox.Drivers.Tsl2561.{
  offered, selected, read_one, read_two, tsl2561_readbyte, tsl2561_readword, tsl2561_writebyte,
}

-- An exchange with the device by its result, the symbols heard before it and those heard after it.
abbrev pub Exchange : Type 1
Exchange = Option ℕ → List Symbol → List Symbol → Type 0

abbrev pub Started : Exchange → Exchange
Started Rest r s s' = Rest r (start ∷ s) s'

-- A byte whose acknowledge slot the device pulls low is followed by the rest, and one that it does not
-- is followed by a STOP.
pub data ByteSent (w : ℕ) (Rest : Exchange) : Option ℕ → List Symbol → List Symbol → Type 0 where
  acked :
      {r : Option ℕ} {s s' : List Symbol}
      → Rest r (out high ∷ into 0 ∷ out_bits 8 w s) s'
      → ByteSent w Rest r s s'
  refused :
      {k : ℕ} {s : List Symbol}
      → k ≢ 0
      → ByteSent w Rest none s (stop ∷ out high ∷ into k ∷ out_bits 8 w s)

pub data Written : Option ℕ → List Symbol → List Symbol → Type 0 where
  written : {s : List Symbol} → Written (some 0) s (stop ∷ s)

pub data OneRead : Option ℕ → List Symbol → List Symbol → Type 0 where
  one :
      (bits : List ℕ) {s : List Symbol}
      → length bits ≡ 8
      → All (λ k. k < 2) bits
      → OneRead (some (from_bits 0 bits)) s (stop ∷ out high ∷ in_bits bits s)

-- The low byte comes first and is acknowledged, the high byte is not.
pub data TwoRead : Option ℕ → List Symbol → List Symbol → Type 0 where
  two :
      (lows highs : List ℕ) {s : List Symbol}
      → length lows ≡ 8
      → All (λ k. k < 2) lows
      → length highs ≡ 8
      → All (λ k. k < 2) highs
      → TwoRead
          (some (from_bits 0 highs * 256 + from_bits 0 lows))
          s
          (stop ∷ out high ∷ in_bits highs (out low ∷ in_bits lows s))

-- The address with a write bit, the command byte, the address with a read bit.
abbrev pub Selected : ℕ → Exchange → Exchange
Selected reg Rest =
    Started (ByteSent 0x72 (ByteSent (bit_or 0x80 reg) (Started (ByteSent 0x73 Rest))))

abbrev pub WriteFrame : ℕ → ℕ → Exchange
WriteFrame reg val = Started (ByteSent 0x72 (ByteSent (bit_or 0x80 reg) (ByteSent val Written)))

-- The exchange that was heard, after which both lines are high.
abbrev pub Meets : Bus × Option ℕ → Exchange → List Symbol → Type 0
Meets result Rel s = (s' : List Symbol) × Rel result.1 s s' × Between result.0 high high s'

module _ (gpio_input : List Event → ℕ) (gpio_bit : (t : List Event) → gpio_input t < 2) where
  offered-Meets :
      (w : ℕ) (sda scl : Level) (bus : Bus) (rest : Bus → Bus × Option ℕ) (Rest : Exchange)
      (s : List Symbol)
      → ((bus' : Bus) (s' : List Symbol) → Between bus' high low s' → Meets (rest bus') Rest s')
      → Between bus sda scl s
      → Meets (offered gpio_input w bus rest) (ByteSent w Rest) s
  unfolding offered
  offered-Meets w sda scl bus rest Rest s goes_on h =
      let (sda', sent) = write_byte-Between w sda scl bus s h in
      let got =
        get_ack-Between gpio_input sda' low (i2c_master_write_byte w bus) (out_bits 8 w s) sent in
      let k = (i2c_master_get_ack gpio_input (i2c_master_write_byte w bus)).1 in
      elim (Bool-cases (k == 0)) [
        | inl p ↦
            let e = eq_of_test k 0 p in
            let (s', rel, after) =
              goes_on (i2c_master_get_ack gpio_input (i2c_master_write_byte w bus)).0 _ (
                subst
                  (λ t.
                    Between (i2c_master_get_ack gpio_input (i2c_master_write_byte w bus)).0 high low
                      (out high ∷ into t ∷ out_bits 8 w s))
                  e got) in
            rw p (s', acked rel, after)
        | inr p ↦ rw p (
          _,
          refused (λ e. let q : (k == 0) ≡ true = ap (λ t. t == 0) e in cc),
          stop-Between _ high _ got,
        )
      ]

  select-Meets :
      (reg : ℕ) (bus : Bus) (rest : Bus → Bus × Option ℕ) (Rest : Exchange) (s : List Symbol)
      → ((bus' : Bus) (s' : List Symbol) → Between bus' high low s' → Meets (rest bus') Rest s')
      → Between bus high high s
      → Meets (selected gpio_input reg bus rest) (Selected reg Rest) s
  unfolding selected
  select-Meets reg bus rest Rest s goes_on h =
      offered-Meets _ low high _ _ _ _
        (λ b sb hb.
          offered-Meets _ high low b _ _ _
            (λ c sc hc. offered-Meets _ low high _ _ _ _ goes_on (start-Between_again c high sc hc))
            hb)
        (start-Between_idle bus s h)

  read_one-Meets :
      (bus : Bus) (s : List Symbol)
      → Between bus high low s
      → Meets (read_one gpio_input bus) OneRead s
  unfolding read_one
  read_one-Meets bus s h =
      let (bits, len, small, after, value) =
        read_byte-Between gpio_input gpio_bit high low bus s h in
      rw value (_, one bits len small, stop-Between _ high _ (set_ack-Between high high _ _ after))

  read_two-Meets :
      (bus : Bus) (s : List Symbol)
      → Between bus high low s
      → Meets (read_two gpio_input bus) TwoRead s
  unfolding read_two
  read_two-Meets bus s h =
      let (lows, len, small, after, value) =
        read_byte-Between gpio_input gpio_bit high low bus s h in
      let acked = set_ack-Between low high _ _ after in
      let (highs, len', small', after', value') =
        read_byte-Between gpio_input gpio_bit high low _ _ acked in
      let e =
        bit_or_disjoint 8 (from_bits 0 highs) (from_bits 0 lows)
          (from_bits-bound 8 0 lows len small) in
      rw (value', value, e)
        (
          _,
          two lows highs len small len' small',
          stop-Between _ high _ (set_ack-Between high high _ _ after'),
        )

  -- From an idle bus, for a register of the device: the listener hears exactly the write protocol, up
  -- to the first byte that the device refuses and then a STOP. The function succeeds when all bytes
  -- were acknowledged and only then, and it always leaves both lines high.
  pub tsl2561_writebyte-Meets :
      (reg val : ℕ) (bus : Bus) (s : List Symbol)
      → reg ≤ 0x0f
      → Between bus high high s
      → Meets (tsl2561_writebyte gpio_input reg val bus) (WriteFrame reg val) s
  unfolding tsl2561_writebyte
  tsl2561_writebyte-Meets reg val bus s in_range h =
      let p : ltb 0x0f reg ≡ false = ground arith in
      rw p (
        offered-Meets _ low high _ _ _ _
          (λ b sb hb.
            offered-Meets _ high low b _ _ _
              (λ c sc hc.
                offered-Meets _ high low c _ _ _
                  (λ d sd hd. (_, written, stop-Between d high sd hd)) hc)
              hb)
          (start-Between_idle bus s h))

  pub tsl2561_readbyte-Meets :
      (reg : ℕ) (bus : Bus) (s : List Symbol)
      → reg ≤ 0x0f
      → Between bus high high s
      → Meets (tsl2561_readbyte gpio_input reg bus) (Selected reg OneRead) s
  unfolding tsl2561_readbyte
  tsl2561_readbyte-Meets reg bus s in_range h =
      let p : ltb 0x0f reg ≡ false = ground arith in
      rw p (select-Meets reg bus (read_one gpio_input) OneRead s read_one-Meets h)

  pub tsl2561_readword-Meets :
      (reg : ℕ) (bus : Bus) (s : List Symbol)
      → reg ≤ 0x0f
      → Between bus high high s
      → Meets (tsl2561_readword gpio_input reg bus) (Selected reg TwoRead) s
  unfolding tsl2561_readword
  tsl2561_readword-Meets reg bus s in_range h =
      let p : ltb 0x0f reg ≡ false = ground arith in
      rw p (select-Meets reg bus (read_two gpio_input) TwoRead s read_two-Meets h)
