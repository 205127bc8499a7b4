-- ===== src/I2c/Bytes.antt =====
-- `i2c_master_writeByte` and `i2c_master_readByte`: a byte is eight bits, the highest first.
use mathlib.Core.Path.{subst}
use native.Mathlib.Nat.{pow-le-pow_right}
use esp8266_toolbox.Base.{
  ℕ, zero, suc, ◌+◌, ◌-◌, ◌*◌, ◌^◌, ◌<◌, ◌≤◌, Bool-cases, List, [], ◌∷◌, ◌==◌, bit_or, ◌≡◌, refl,
  sym, ◌∙◌, ap, arith, inl, inr, none, length, All,
}
use esp8266_toolbox.Base.Bits.{◌<<<◌, u8, bit_or_disjoint, pow_facts}
use esp8266_toolbox.I2c.{
  Level, low, high, Event, lines, Bus, i2c_master_wait, hold, write_bit, write_loop,
  i2c_master_write_byte, i2c_master_get_dc, read_bit, read_loop, i2c_master_read_byte,
}
use esp8266_toolbox.I2c.Decoder.{Symbol, out, into, hear, heard, Between}
use esp8266_toolbox.I2c.Steps.{bit_of, write_bit-Between, open-Between, wait-Between}

-- The `n` lowest bits of a number as a listener hears them, the highest first.
pub out_bits : ℕ → ℕ → List Symbol → List Symbol
out_bits zero w s = s
out_bits (suc n) w s = out_bits n w (out (bit_of w n) ∷ s)

write_loop-Between :
    (n w : ℕ) (sda : Level) (bus : Bus) (s : List Symbol)
    → Between bus sda low s
    → (sda' : Level) × Between (write_loop n w bus) sda' low (out_bits n w s)
unfolding write_loop out_bits
write_loop-Between zero w sda bus s h = (sda, h)
write_loop-Between (suc n) w sda bus s h =
    write_loop-Between n w (bit_of w n) (write_bit w n bus) (out (bit_of w n) ∷ s)
      (write_bit-Between w n sda bus s h)

-- A listener hears the eight bits of the byte and nothing else: no START and no STOP in between.
pub write_byte-Between :
    (w : ℕ) (sda scl : Level) (bus : Bus) (s : List Symbol)
    → Between bus sda scl s
    → (sda' : Level) × Between (i2c_master_write_byte w bus) sda' low (out_bits 8 w s)
unfolding i2c_master_write_byte
write_byte-Between w sda scl bus s h =
    write_loop-Between 8 w sda (hold bus.m_n_last_sda 0 5 (i2c_master_wait 5 bus)) s
      (open-Between sda scl (i2c_master_wait 5 bus) s (wait-Between 5 sda scl bus s h))

-- Reads of the line under released clock pulses, the first read first.
pub in_bits : List ℕ → List Symbol → List Symbol
in_bits [] s = s
in_bits (k ∷ ks) s = in_bits ks (out high ∷ into k ∷ s)

-- The number that binary digits spell after the digits of `a`.
pub from_bits : ℕ → List ℕ → ℕ
from_bits a [] = a
from_bits a (k ∷ ks) = from_bits (a * 2 + k) ks

pub from_bits-bound :
    (n a : ℕ) (bits : List ℕ)
    → length bits ≡ n
    → All (λ k. k < 2) bits
    → from_bits a bits < (a + 1) * 2 ^ n
unfolding from_bits
from_bits-bound zero a [] len small = omega arith
from_bits-bound (suc n) a [] len small = absurd (omega (arith, len))
from_bits-bound zero a (k ∷ bits) len small = absurd (omega (arith, len))
from_bits-bound (suc n) a (zero ∷ bits) len (bit, small) = ground (
  arith,
  from_bits-bound n (a * 2 + 0) bits (omega (arith, len)) small,
  pow_facts n,
  ap (λ (t : ℕ). a * t) (pow_facts n).1,
)
from_bits-bound (suc n) a (suc zero ∷ bits) len (bit, small) = ground (
  arith,
  from_bits-bound n (a * 2 + 1) bits (omega (arith, len)) small,
  pow_facts n,
  ap (λ (t : ℕ). a * t) (pow_facts n).1,
)
from_bits-bound n a (suc (suc k) ∷ bits) len (bit, small) = absurd (omega arith)

-- The loop leaves the clock high. This is what is heard when the clock falls next.
unfoldable Closing : Bus → List Symbol → Type 0
Closing bus s =
    hear (lines high low) (heard bus.trace)
    ≡ record { sda = high; scl = low; pulse = none; symbols = s }

close-Between : (bus : Bus) (s : List Symbol) → Closing bus s → Between (hold 1 0 5 bus) high low s
unfolding Closing Between heard
close-Between bus s h = (refl, refl, h)

open-Closing : (sda : Level) (bus : Bus) (s : List Symbol) → Between bus sda low s → Closing bus s
unfolding Closing Between
open-Closing sda bus s (a, b, c) = rw c refl

read_digit :
    (n a k : ℕ) → k < 2 → n ≤ 7 → bit_or (a * 2 ^ suc n) (u8 (k <<< n)) ≡ (a * 2 + k) * 2 ^ n
read_digit n a zero bit small = ground (
  arith,
  bit_or_disjoint (suc n) a 0,
  pow_facts n,
  pow_facts (suc n),
  ap (λ (t : ℕ). a * t) (pow_facts n).1,
)
read_digit n a (suc zero) bit small = ground (
  arith,
  bit_or_disjoint (suc n) a (2 ^ n),
  pow_facts n,
  ap (λ (t : ℕ). a * t) (pow_facts n).1,
  pow-le-pow_right {n = 2} (omega arith) small,
)
read_digit n a (suc (suc k)) bit small = absurd (omega arith)

module _ (gpio_input : List Event → ℕ) (gpio_bit : (t : List Event) → gpio_input t < 2) where
  read_bit-Closing :
      (i v : ℕ) (bus : Bus) (s : List Symbol)
      → Closing bus s
      → (k : ℕ) × (k < 2)
        × Closing (read_bit gpio_input i (bus, v)).0 (out high ∷ into k ∷ s)
        × ((read_bit gpio_input i (bus, v)).1 ≡ bit_or v (u8 (k <<< (7 - i))))
  unfolding Closing heard read_bit i2c_master_get_dc
  read_bit-Closing i v bus s h = elim (Bool-cases (i == 7)) [
    | inl p ↦ rw p (_, gpio_bit _, rw h refl, refl)
    | inr p ↦ rw p (_, gpio_bit _, rw h refl, refl)
  ]

  read_loop-Closing :
      (n a : ℕ) (bus : Bus) (s : List Symbol)
      → n ≤ 8
      → Closing bus s
      → (ks : List ℕ) × (length ks ≡ n)
        × All (λ k. k < 2) ks
        × Closing (read_loop gpio_input n (bus, a * 2 ^ n)).0 (in_bits ks s)
        × ((read_loop gpio_input n (bus, a * 2 ^ n)).1 ≡ from_bits a ks)
  unfolding read_loop in_bits from_bits
  read_loop-Closing zero a bus s bound h = ([], refl, tt, h, omega arith)
  read_loop-Closing (suc n) a bus s bound h =
      let (k, bit, closing, value) = read_bit-Closing (7 - n) (a * 2 ^ suc n) bus s h in
      let (ks, len, bits, closing', value') =
        read_loop-Closing n (a * 2 + k) (read_bit gpio_input (7 - n) (bus, a * 2 ^ suc n)).0
          (out high ∷ into k ∷ s) (omega arith) closing in
      let e : (read_bit gpio_input (7 - n) (bus, a * 2 ^ suc n)).1 ≡ (a * 2 + k) * 2 ^ n =
        value
        ∙ ap (λ (t : ℕ). bit_or (a * 2 ^ suc n) (u8 (k <<< t))) (omega arith)
        ∙ read_digit n a k bit (omega arith) in
      (
        k ∷ ks,
        ap suc len,
        (bit, bits),
        subst
            (λ v.
              Closing
                (read_loop gpio_input n ((read_bit gpio_input (7 - n) (bus, a * 2 ^ suc n)).0, v)).0
                (in_bits ks (out high ∷ into k ∷ s)))
            (sym e) closing',
        subst
            (λ v.
              (read_loop gpio_input n ((read_bit gpio_input (7 - n) (bus, a * 2 ^ suc n)).0, v)).1
              ≡ from_bits (a * 2 + k) ks)
            (sym e) value',
      )

  -- A listener hears eight reads, and the result is the number that their levels spell, the first
  -- level highest.
  pub read_byte-Between :
      (sda scl : Level) (bus : Bus) (s : List Symbol)
      → Between bus sda scl s
      → (ks : List ℕ) × (length ks ≡ 8)
        × All (λ k. k < 2) ks
        × Between (i2c_master_read_byte gpio_input bus).0 high low (in_bits ks s)
        × ((i2c_master_read_byte gpio_input bus).1 ≡ from_bits 0 ks)
  unfolding i2c_master_read_byte
  read_byte-Between sda scl bus s h =
      let opened =
        open-Between sda scl (i2c_master_wait 5 bus) s (wait-Between 5 sda scl bus s h) in
      let (ks, len, bits, closing, value) =
        read_loop-Closing 8 0 (hold bus.m_n_last_sda 0 5 (i2c_master_wait 5 bus)) s (omega arith)
          (open-Closing sda _ s opened) in
      (ks, len, bits, close-Between _ _ closing, value)
