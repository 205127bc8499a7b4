-- ===== src/Http/Ota/Slot.antt =====
-- The start of an upload: the slot that the running application does not use, and a state in which
-- nothing has been written.
use esp8266_toolbox.Base.{
  ℕ, ◌+◌, ◌-◌, ◌*◌, ◌/◌, ◌≤◌, ◌≡◌, refl, ◌⊎◌, true, some, ◌==◌, ◌&&◌, ◌||◌, leb, List, [], ◌++◌,
  length, if◌then◌else◌, arith,
}
use esp8266_toolbox.Crypto.Block.{BlockState}
use esp8266_toolbox.Crypto.Sha256.{sha256_init}
use esp8266_toolbox.Http.Clients.Receive.{arrived, IsBuffer}
use esp8266_toolbox.Http.Process.{state_postdata}
use esp8266_toolbox.Http.Ota.{
  begun, choose_slot, Machine, ota_begin, ota_size_kb, user1_addr, user2_addr,
}
use esp8266_toolbox.Http.Ota.Verify.{Device}
use esp8266_toolbox.Http.Ota.Flash.{Spi}
use esp8266_toolbox.Http.Ota.Rounds.{Ready}
use esp8266_toolbox.Http.Ota.Sector.{Works}
use esp8266_toolbox.Param.{FlashMap}

-- The most bytes that an application can have.
abbrev pub max_app : ℕ → ℕ
max_app kb = (kb / 2 - 20) * 1024

-- The first sector of the slot that the running application is not in.
abbrev pub free_sector : ℕ → ℕ → ℕ
free_sector kb curaddr = if curaddr == user1_addr then (kb / 2 + 4) / 4 else 1

-- The sizes of the supported flashes.
abbrev IsSize : ℕ → Type 0
IsSize kb = (kb ≡ 512) ⊎ ((kb ≡ 1024) ⊎ ((kb ≡ 2048) ⊎ (kb ≡ 4096)))

pub ota_size_kb-IsSize : (map : FlashMap) (kb : ℕ) → ota_size_kb map ≡ some kb → IsSize kb
unfolding ota_size_kb
ota_size_kb-IsSize map kb e = ground arith

-- The device runs an application from one of the two slots of a supported flash.
pub record Runs (d : Device) (kb : ℕ) : Type 0 where
  pub supported : ota_size_kb d.flash_map ≡ some kb
  pub slot : (d.userbin_addr ≡ user1_addr) ⊎ (d.userbin_addr ≡ user2_addr kb)

pub slot_start :
    (kb curaddr : ℕ)
    → IsSize kb
    → (if curaddr == user1_addr then user2_addr kb else user1_addr) ≡ 4096 * free_sector kb curaddr
slot_start kb curaddr h = ground arith

module _ (spi : Spi) where
  -- A client whose request for this page is parsed, and of whose body nothing was taken yet.
  pub record Fresh (m : Machine spi.Flash) (kb : ℕ) (url image later : List ℕ) : Type 0 where
    pub buffer : IsBuffer m.client
    pub sector_size : length m.ota.secbuf ≡ 4096
    pub untouched : m.client.postused ≡ 0
    pub posted : m.client.state ≡ state_postdata
    pub page : m.client.url ≡ url
    pub total : m.client.postlen ≡ length image
    pub limit : length image ≤ max_app kb
    pub used : m.client.bufused ≡ length (arrived m.client)
    pub parts : arrived m.client ++ later ≡ image
    pub sizes : length (arrived m.client) + length later ≡ length image

  choose_slot-fine :
      (d : Device) (kb : ℕ) (m : Machine spi.Flash) (url image later : List ℕ)
      → Fresh m kb url image later
      → ((m.client.state == state_postdata) && leb m.client.postlen (max_app kb)) ≡ true
  choose_slot-fine d kb m url image later v = ground (arith, v.posted, v.total, v.limit)

  pub begun-Ready :
      (works : Works spi) (f : spi.Flash) (s : BlockState) (d : Device) (kb id : ℕ)
      (m : Machine spi.Flash) (url image later : List ℕ)
      → Runs d kb
      → Fresh m kb url image later
      → sha256_init m.ota.sha256 ≡ sha256_init s
      → ((t : ℕ) → spi.sector m.flash t ≡ spi.sector f t)
      → (m' : Machine spi.Flash) × (begun spi d id m ≡ (m', true))
        × Ready spi works f s
            (free_sector kb d.userbin_addr)
            id
            url
            image
            later
            m'
            []
            []
            (arrived m.client)
  unfolding begun ota_begin choose_slot
  begun-Ready works f s d kb id m url image later r v hash same =
      let addr : ℕ = if d.userbin_addr == user1_addr then user2_addr kb else user1_addr in
      let at : addr ≡ 4096 * free_sector kb d.userbin_addr =
        slot_start kb d.userbin_addr (ota_size_kb-IsSize d.flash_map kb r.supported) in
      let first : (m.client.postused == 0) ≡ true = ground (arith, v.untouched) in
      let known : ((d.userbin_addr == user1_addr) || (d.userbin_addr == user2_addr kb)) ≡ true =
        ground (arith, r.slot) in
      let fine : ((m.client.state == state_postdata) && leb m.client.postlen (max_app kb)) ≡ true =
        choose_slot-fine d kb m url image later v in
      (
        record m {
          ota = record m.ota {
            client = id;
            sha256 = sha256_init m.ota.sha256;
            newaddr_beg = addr;
            newaddr_cur = addr;
            appsize = m.client.postlen;
            secused = 0;
          };
        },
        rw (first) (rw (r.supported, ota_begin) (rw (known) (rw fine refl))),
        record {
          holds = record {
            wrote = record {
              start = at;
              cursor = omega (arith, at);
              hashed = hash;
              size = v.sector_size;
              stored = tt;
              kept = λ t _. same t;
            };
            waiting = refl;
            count = refl;
            fits = omega arith;
            buffer = v.buffer;
            text = refl;
            used = v.used;
            post = omega (arith, v.untouched, v.sizes);
            total = v.total;
            appsize = v.total;
            parts = v.parts;
            owner = refl;
            posted = v.posted;
            page = v.page;
          };
          chunked = tt;
          whole = λ _. tt;
          room = omega arith;
          ended = λ _. refl;
        },
      )
