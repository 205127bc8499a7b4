-- ===== src/Crypto/Base64/Symbols.antt =====
-- The two maps between six-bit values and symbols of crypto/base64.c.
use esp8266_toolbox.Base.{ℕ, ◌<◌, ◌≡◌, ◌≢◌, true, arith}
use esp8266_toolbox.Crypto.Base64.{decmap, encmap, is_symbol}

-- On a six-bit value `decmap` undoes `encmap`.
pub decmap-encmap : (b : ℕ) → b < 64 → decmap (encmap b) ≡ b
unfolding decmap encmap
decmap-encmap b h = ground arith

-- A six-bit value is written as a symbol that the decoder accepts, and never as the padding.
pub encmap_symbol : (b : ℕ) → b < 64 → (is_symbol (encmap b) ≡ true) × (encmap b ≢ b'=')
unfolding encmap is_symbol
encmap_symbol b h = (ground arith, ground arith)

pub decmap-lt : (c : ℕ) → decmap c < 64
unfolding decmap
decmap-lt c = ground arith
