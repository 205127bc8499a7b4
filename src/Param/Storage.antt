-- ===== src/Param/Storage.antt =====
-- What param.c uses of the SDK's parameter storage, and what it relies on: a sector that was saved
-- reads back what was written, and saving one sector leaves the others alone.
use esp8266_toolbox.Base.{ℕ, ◌+◌, ◌≤◌, ◌≡◌, Option, some, List, length, take, drop}

-- `load` is `system_param_load(sector, start, buf, size)`, `save` is
-- `system_param_save_with_protect(sector, buf, size)`; none is a failure.
pub record Sdk : Type 1 where
  pub Flash : Type 0
  pub load : Flash → ℕ → ℕ → ℕ → Option (List ℕ)
  pub save : Flash → ℕ → List ℕ → Option Flash
  pub load-save :
      (f g : Flash) (sector start size : ℕ) (bytes : List ℕ)
      → save f sector bytes ≡ some g
      → start + size ≤ length bytes
      → load g sector start size ≡ some (take size (drop start bytes))
  pub load_size :
      (f : Flash) (sector start size : ℕ) (bytes : List ℕ)
      → load f sector start size ≡ some bytes
      → length bytes ≡ size
