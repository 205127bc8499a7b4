-- ===== src/Param/Tests.antt =====
-- The laws of the storage can hold: sectors kept in memory, and runs of param.c over them.
use esp8266_toolbox.Base.{
  ℕ, ◌+◌, ◌≤◌, ◌≡◌, refl, sym, ◌∙◌, ap, true, Option, some, none, List, [], ◌∷◌, length, take, drop,
  replicate, length-take, length-drop, leb, ◌==◌, if◌then◌else◌, Bool-cases, inl, inr, arith,
}
use esp8266_toolbox.Base.Memory
use esp8266_toolbox.Param.Storage.{Sdk}
use esp8266_toolbox.Param.{map_4m_256_256, size_kb, param_sector, done, param_store, param_retrieve}
use esp8266_toolbox.Param.Stored.{param_retrieve-param_store, param_retrieve_weak}

abbrev Sectors : Type 0
Sectors = ℕ → List ℕ

abbrev load : Sectors → ℕ → ℕ → ℕ → Option (List ℕ)
load f sector start size =
    if leb (start + size) (length (f sector))
    then some (take size (drop start (f sector)))
    else none

abbrev save : Sectors → ℕ → List ℕ → Option Sectors
save f sector bytes = some (λ k. if k == sector then bytes else f k)

some_inj : {A : Type 0} (a b : A) → some a ≡ some b → a ≡ b
some_inj a b h = cc

load-save_law :
    (f g : Sectors) (sector start size : ℕ) (bytes : List ℕ)
    → save f sector bytes ≡ some g
    → start + size ≤ length bytes
    → load g sector start size ≡ some (take size (drop start bytes))
load-save_law f g sector start size bytes h fits =
    let at : g sector ≡ bytes =
      ap (λ (k : Sectors). k sector) (sym (some_inj _ g h)) ∙ same sector bytes in
    rw (at, within) refl
  where
    same : (s : ℕ) (b : List ℕ) → (if s == s then b else f s) ≡ b
    same s b = ground arith

    within : leb (start + size) (length bytes) ≡ true
    within = ground arith

leb_le : (a b : ℕ) → leb a b ≡ true → a ≤ b
leb_le a b h = ground arith

load_size_law :
    (f : Sectors) (sector start size : ℕ) (bytes : List ℕ)
    → load f sector start size ≡ some bytes
    → length bytes ≡ size
load_size_law f sector start size bytes h =
    elim (Bool-cases (leb (start + size) (length (f sector)))) [
      | inl within ↦
          let h1 = rw within at h in
          ap (λ (b : List ℕ). length b) (sym (some_inj _ bytes h1))
          ∙ omega (
            arith,
            leb_le (start + size) (length (f sector)) within,
            length-take size (drop start (f sector)),
            length-drop start (f sector),
          )
      | inr out ↦ let h1 = rw out at h in cc
    ]

abbrev memory : Sdk
memory = record {
  Flash = Sectors;
  load = load;
  save = save;
  load-save = load-save_law;
  load_size = load_size_law;
}

-- Erased flash, and the same with the value 1, 2, 3 stored at offset 5.
abbrev erased : Sectors
erased = λ k. replicate 1024 255

abbrev stored : Sectors
stored = λ k.
    if k == 61
    then Memory.overlay (Memory.overlay (replicate 1024 255) 5 (0xca ∷ 0xfe ∷ 0xba ∷ 0xbe ∷ [])) 9
        (1 ∷ 2 ∷ 3 ∷ [])
    else replicate 1024 255

store_runs : param_store memory map_4m_256_256 erased 5 (1 ∷ 2 ∷ 3 ∷ []) ≡ done stored
unfolding param_store size_kb param_sector
store_runs = refl

param_retrieve-param_store_example :
    param_retrieve memory map_4m_256_256 stored 5 3 ≡ done (1 ∷ 2 ∷ 3 ∷ [])
param_retrieve-param_store_example =
    param_retrieve-param_store memory map_4m_256_256 erased stored 5 (1 ∷ 2 ∷ 3 ∷ []) store_runs

-- A sector that begins with 0xca and holds no magic.
abbrev foreign : Sectors
foreign = λ k. 0xca ∷ 0 ∷ 0 ∷ 0 ∷ 42 ∷ replicate 1019 0

param_retrieve_weak_example : param_retrieve memory map_4m_256_256 foreign 0 1 ≡ done (42 ∷ [])
unfolding size_kb param_sector
param_retrieve_weak_example =
    param_retrieve_weak memory map_4m_256_256 foreign 0 1 512 0 0 0 (42 ∷ []) refl (omega arith)
      refl
