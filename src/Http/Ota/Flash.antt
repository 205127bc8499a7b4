-- ===== src/Http/Ota/Flash.antt =====
-- What http/url_ota.c uses of the SDK's SPI flash, and what it relies on: sectors of 4096 bytes, where
-- an erased one takes the bytes that are written to it and the others stay as they are.
use esp8266_toolbox.Base.{ℕ, ◌*◌, ◌≡◌, ◌≢◌, Bool, true, Option, some, List, length}

-- `SPI_FLASH_SEC_SIZE`
abbrev pub sec_size : ℕ
sec_size = 4096

-- `erase` is `spi_flash_erase_sector(sector)` and `write` is `spi_flash_write(addr, buf, size)`, with
-- the flash afterwards and whether it succeeded; `read` is `spi_flash_read(addr, buf, size)`, with none
-- for a failure. `sector` is what a sector holds. A failure may leave anything in the sector that it
-- is about.
pub record Spi : Type 1 where
  pub Flash : Type 0
  pub erase : Flash → ℕ → Flash × Bool
  pub write : Flash → ℕ → List ℕ → Flash × Bool
  pub read : Flash → ℕ → ℕ → Option (List ℕ)
  pub sector : Flash → ℕ → List ℕ
  pub write-erase :
      (f : Flash) (s : ℕ) (bytes : List ℕ)
      → (erase f s).1 ≡ true
      → (write (erase f s).0 (4096 * s) bytes).1 ≡ true
      → length bytes ≡ 4096
      → sector (write (erase f s).0 (4096 * s) bytes).0 s ≡ bytes
  pub erase_others : (f : Flash) (s t : ℕ) → s ≢ t → sector (erase f s).0 t ≡ sector f t
  pub write_others :
      (f : Flash) (s t : ℕ) (bytes : List ℕ)
      → length bytes ≡ 4096
      → s ≢ t
      → sector (write f (4096 * s) bytes).0 t ≡ sector f t
  pub read_lem :
      (f : Flash) (s : ℕ) (bytes : List ℕ)
      → read f (4096 * s) 4096 ≡ some bytes
      → bytes ≡ sector f s
  pub length-sector : (f : Flash) (s : ℕ) → length (sector f s) ≡ 4096
