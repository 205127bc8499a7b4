-- ===== src/Param.antt =====
-- param.c over the SDK's flash. `param_buf` is a static array that each call fills before it is
-- read, so it enters as the bytes that the flash gives.
pub mod Storage
pub mod Stored
mod Tests
use esp8266_toolbox.Base.{
  ℕ, zero, suc, ◌+◌, ◌-◌, ◌*◌, ◌/◌, Bool, true, false, ◌&&◌, Option, none, some, List, [], ◌∷◌,
  ◌++◌, length, take, drop, ltb, ◌==◌, if◌then◌else◌,
}
use esp8266_toolbox.Base.Memory.{overlay}
use esp8266_toolbox.Param.Storage.{Sdk}

-- The results of `system_get_flash_size_map`; `other` is every other value.
pub data FlashMap : Type 0 where
  map_2m map_4m_256_256 map_8m_512_512 map_16m_1024_1024 : FlashMap
  map_16m_512_512 map_32m_512_512 map_32m_1024_1024 other : FlashMap

-- `size_kb`, with none where the code gives up.
pub size_kb : FlashMap → Option ℕ
size_kb map_4m_256_256 = some 512
size_kb map_8m_512_512 = some 1024
size_kb map_16m_1024_1024 = some 2048
size_kb map_16m_512_512 = some 2048
size_kb map_32m_512_512 = some 4096
size_kb map_32m_1024_1024 = some 4096
size_kb map_2m = none
size_kb other = none

abbrev pub buf_size : ℕ
buf_size = 1024

abbrev pub magic : List ℕ
magic = 0xca ∷ 0xfe ∷ 0xba ∷ 0xbe ∷ []

-- `addr / SPI_FLASH_SEC_SIZE`, a sector of 4096 bytes.
pub param_sector : ℕ → ℕ
param_sector kb = (kb / 2 - 4 * 3) * 1024 / 4096

-- `os_memcmp(a, b, n) == 0`
pub same_bytes : ℕ → List ℕ → List ℕ → Bool
same_bytes zero a b = true
same_bytes (suc n) (x ∷ a) (y ∷ b) = (x == y) && same_bytes n a b
same_bytes (suc n) _ _ = false

-- The two return values, and an access outside of `param_buf`.
pub data Outcome {ℓ} (A : Type ℓ) : Type ℓ where
  done : A → Outcome A
  failed : Outcome A
  overrun : Outcome A

module _ (sdk : Sdk) where
  open sdk use {Flash, load, save}

  -- The flash afterwards.
  pub param_store : FlashMap → Flash → ℕ → List ℕ → Outcome Flash
  param_store map flash offset val = elim (size_kb map) [
    | none ↦ failed
    | some kb ↦
        if ltb buf_size (length magic + length val)
        then failed
        else elim (load flash (param_sector kb) 0 buf_size) [
          | none ↦ failed
          | some buf ↦
              if ltb buf_size (offset + length magic + length val)
              then overrun
              else elim (save flash (param_sector kb)
                  (overlay (overlay buf offset magic) (offset + length magic) val)) [
                    | none ↦ failed
                    | some flash' ↦ done flash'
                  ]
        ]
  ]

  -- The bytes that are stored into `val`. The third argument of `os_memcmp` is
  -- `sizeof(PARAM_MAGIC) != 0`, which is 1.
  pub param_retrieve : FlashMap → Flash → ℕ → ℕ → Outcome (List ℕ)
  unfolding same_bytes
  param_retrieve map flash offset len = elim (size_kb map) [
    | none ↦ failed
    | some kb ↦
        if ltb buf_size (length magic + len)
        then overrun
        else elim (load flash (param_sector kb) offset (length magic + len)) [
          | none ↦ failed
          | some buf ↦
              if same_bytes 1 buf magic then done (take len (drop (length magic) buf)) else failed
        ]
  ]
