-- ===== src/Http/Ota.antt =====
-- http/url_ota.c: `http_url_ota_push`, which writes an uploaded application to the flash and checks
-- its signature. A client is told from the others by a number; `hash1`, `hash2`, `hash3`, `cipher` and
-- `clear` are set before they are read and so are local values. With the size limits that are
-- checked first, no address or count leaves 32 bits.
pub mod Flash
pub mod Verify
pub mod Stored
pub mod Sector
pub mod Rounds
pub mod ReadBack
pub mod Finish
pub mod Slot
pub mod Calls
pub mod Upload
pub mod Signature
pub mod Safe
pub mod Outcome
pub mod Interleaved
mod Tests
use esp8266_toolbox.Base.{
  ℕ, zero, suc, ◌+◌, ◌-◌, ◌*◌, ◌/◌, ◌%◌, min, Bool, true, false, ◌&&◌, ◌||◌, Option, none, some,
  List, [], ◌∷◌, ◌++◌, length, take, drop, replicate, ◌==◌, ltb, leb, if◌then◌else◌,
}
use esp8266_toolbox.Base.Memory.{overlay, bzero}
use esp8266_toolbox.Crypto.Block.{BlockState}
use esp8266_toolbox.Crypto.Sha256.{sha256_done, sha256_init, sha256_proc}
use esp8266_toolbox.Crypto.Bigint.{Bigint, bigint_fromhex, error, ok, reversed, used}
use esp8266_toolbox.Crypto.Bigint.Ops.{rsa_pubkey_decrypt}
use esp8266_toolbox.Http.Clients.{receive}
use esp8266_toolbox.Http.Ota.Flash.{sec_size, Spi}
use esp8266_toolbox.Http.Process.{HttpClient, state_postdata}
use esp8266_toolbox.Http.Ota.Verify.{
  check_signature, Device, forged, genuine, Judgement, overflow, same_strings,
}
use esp8266_toolbox.Param.{
  FlashMap, map_2m, map_4m_256_256, map_8m_512_512, map_16m_1024_1024, map_16m_512_512,
  map_32m_512_512, map_32m_1024_1024, other,
}

pub record OtaState : Type 0 where
  pub client : ℕ
  pub sha256 : BlockState
  pub newaddr_beg : ℕ
  pub newaddr_cur : ℕ
  pub appsize : ℕ
  pub secbuf : List ℕ
  pub secused : ℕ

-- What one call works on: `otastate`, the client and the flash.
pub record Machine (F : Type 0) : Type 0 where
  pub ota : OtaState
  pub client : HttpClient
  pub flash : F

-- `size_kb`, with none for a flash that is not supported.
pub ota_size_kb : FlashMap → Option ℕ
ota_size_kb map_4m_256_256 = some 512
ota_size_kb map_8m_512_512 = some 1024
ota_size_kb map_16m_1024_1024 = some 2048
ota_size_kb map_16m_512_512 = some 2048
ota_size_kb map_32m_512_512 = some 4096
ota_size_kb map_32m_1024_1024 = some 4096
ota_size_kb map_2m = none
ota_size_kb other = none

abbrev pub user1_addr : ℕ
user1_addr = 4096

-- `USER2_ADDR`
abbrev pub user2_addr : ℕ → ℕ
user2_addr kb = (kb / 2 + 4) * 1024

-- The statements after the address of the running application was found to be one of the two. The
-- Boolean says that there was no `goto fail`.
pub choose_slot : ℕ → ℕ → HttpClient → OtaState → OtaState × Bool
choose_slot kb curaddr c s =
    let addr = if curaddr == user1_addr then user2_addr kb else user1_addr in
    (
      record s { newaddr_beg = addr; newaddr_cur = addr; appsize = c.postlen; secused = 0 },
      (c.state == state_postdata) && leb c.postlen ((kb / 2 - 20) * 1024),
    )

-- The part under `client->postused == 0`.
pub ota_begin : Device → ℕ → HttpClient → OtaState → OtaState × Bool
ota_begin d id c s =
    let started : OtaState = record s { client = id; sha256 = sha256_init s.sha256 } in
    elim (ota_size_kb d.flash_map) [
      | none ↦ (started, false)
      | some kb ↦
          if (d.userbin_addr == user1_addr) || (d.userbin_addr == user2_addr kb)
          then choose_slot kb d.userbin_addr c started
          else (started, false)
    ]

-- How a loop ends: by its test, by `goto fail`, or, for fuel that is too little, not at all.
pub data Loop (F : Type 0) : Type 0 where
  done : Machine F → Loop F
  failed : Machine F → Loop F
  exhausted : Loop F

-- `len`
pub chunk_len : HttpClient → OtaState → ℕ
chunk_len c s = min (min c.bufused (c.postlen - c.postused)) (sec_size - s.secused)

-- `len` bytes go from the front of the client's buffer to the sector's, and the others move up.
pub take_chunk : {F : Type 0} → ℕ → Machine F → Machine F
take_chunk len m = record m {
  ota = record m.ota {
    secbuf = overlay m.ota.secbuf m.ota.secused (take len m.client.buf);
    secused = m.ota.secused + len;
  };
  client = record m.client {
    buf = overlay m.client.buf 0 (take (m.client.bufused - len) (drop len m.client.buf));
    bufused = m.client.bufused - len;
    postused = m.client.postused + len;
  };
}

-- `return 0`; `return 1` with "202 Accepted", the upgrade flag set to `UPGRADE_FLAG_FINISH` and the
-- reboot in five seconds; `return 1` with "400 Bad Request"; a write past `hash3`, with the state in
-- front of it, after which the C program has no defined behaviour; and a loop whose fuel was too
-- little, which stands for nothing that the program does.
pub data Reply (F : Type 0) : Type 0 where
  waits : Machine F → Reply F
  accepts : Machine F → Reply F
  refuses : Machine F → Reply F
  overflows : Machine F → Reply F
  stuck : Reply F

pub judged : {F : Type 0} → Machine F → Judgement → Reply F
judged m genuine = accepts m
judged m forged = refuses m
judged m overflow = overflows m

module _ (spi : Spi) where
  open spi use {Flash, erase, write, read}

  -- A full sector, or the last one, goes to the flash.
  pub flush_sector : Machine Flash → Loop Flash
  flush_sector m =
      let (erased, erase_fine) = erase m.flash (m.ota.newaddr_cur / sec_size) in
      let (written, write_fine) = write erased m.ota.newaddr_cur m.ota.secbuf in
      if erase_fine
      then (if write_fine
          then done (record m {
            flash = written;
            ota = record m.ota {
              sha256 = sha256_proc m.ota.sha256 (take m.ota.secused m.ota.secbuf);
              newaddr_cur = m.ota.newaddr_cur + sec_size;
              secbuf = bzero m.ota.secbuf 0 sec_size;
              secused = 0;
            };
          })
          else failed (record m { flash = written }))
      else failed (record m { flash = erased })

  pub write_round : Machine Flash → Loop Flash
  write_round m =
      let m' = take_chunk (chunk_len m.client m.ota) m in
      if (m'.ota.secused == sec_size) || (m'.client.postused == m'.client.postlen)
      then flush_sector m'
      else done m'

  pub write_loop : ℕ → Machine Flash → Loop Flash
  write_loop zero m = exhausted
  write_loop (suc fuel) m =
      elim (ltb 0 m.client.bufused && ltb m.client.postused m.client.postlen) [
        | false ↦ done m
        | true ↦ elim (write_round m) [
          | done m' ↦ write_loop fuel m'
          | failed m' ↦ failed m'
          | exhausted ↦ exhausted
        ]
      ]

  -- The number of bytes that the hash takes from the sector at `addr`.
  pub read_len : OtaState → ℕ → ℕ
  read_len s addr =
      if ltb (s.newaddr_beg + s.appsize) (addr + sec_size) then s.appsize % sec_size else sec_size

  -- The `for` loop that reads the application back.
  pub read_back : ℕ → ℕ → Machine Flash → Loop Flash
  read_back zero addr m = exhausted
  read_back (suc fuel) addr m = elim (ltb addr (m.ota.newaddr_beg + m.ota.appsize)) [
    | false ↦ done m
    | true ↦ elim (read m.flash addr sec_size) [
      | none ↦ failed m
      | some bytes ↦ read_back fuel (addr + sec_size) (record m {
        ota = record m.ota {
          secbuf = bytes;
          sha256 = sha256_proc m.ota.sha256 (take (read_len m.ota addr) bytes);
        };
      })
    ]
  ]

  -- `sha256_done`, and the state with it.
  pub digest : Machine Flash → Machine Flash × List ℕ
  digest m =
      let (s, hash) = sha256_done m.ota.sha256 in
      (record m { ota = record m.ota { sha256 = s } }, hash)

  pub restart : Machine Flash → Machine Flash
  restart m = record m { ota = record m.ota { sha256 = sha256_init m.ota.sha256 } }

  -- The two hashes, and then the signature.
  pub compare_hashes : Device → List ℕ → Machine Flash → Reply Flash
  compare_hashes d hash1 m =
      let (m', hash2) = digest m in
      if same_strings 32 hash1 hash2
      then judged m' (check_signature d m'.client hash1)
      else refuses m'

  -- What follows when all of the application was written. Each round of the loop moves on by a
  -- sector, so one for each byte and one more are enough.
  pub finish_upload : Device → Machine Flash → Reply Flash
  finish_upload d m =
      let (m', hash1) = digest m in
      elim (read_back (suc m.ota.appsize) m.ota.newaddr_beg (restart m')) [
        | done m'' ↦ compare_hashes d hash1 m''
        | failed m'' ↦ refuses m''
        | exhausted ↦ stuck
      ]

  -- The part after the check for another client. A round takes a byte, or writes a sector that was
  -- full before, so one round for each byte and two more are enough.
  pub take_upload : Device → Machine Flash → Reply Flash
  take_upload d m = elim (write_loop (m.client.bufused + 2) m) [
    | done m' ↦ if ltb m'.client.postused m'.client.postlen then waits m' else finish_upload d m'
    | failed m' ↦ refuses m'
    | exhausted ↦ stuck
  ]

  pub begun : Device → ℕ → Machine Flash → Machine Flash × Bool
  begun d id m =
      if m.client.postused == 0
      then (let (s, fine) = ota_begin d id m.client m.ota in (record m { ota = s }, fine))
      else (m, true)

  pub http_url_ota_push : Device → ℕ → Machine Flash → Reply Flash
  http_url_ota_push d id m =
      let (m', fine) = begun d id m in
      if fine then (if m'.ota.client == id then take_upload d m' else refuses m') else refuses m'

  -- The bytes that arrive after a call that waits, each in a call of `http_client_recv_cb`; none when
  -- they do not fit and the connection is killed. After a reply the connection is closed.
  pub receive_rest : Device → ℕ → Reply Flash → List (List ℕ) → Option (Reply Flash)
  receive_rest d id r [] = some r
  receive_rest d id (waits m) (bytes ∷ chunks) = elim (receive m.client bytes) [
    | none ↦ none
    | some c ↦ receive_rest d id (http_url_ota_push d id (record m { client = c })) chunks
  ]
  receive_rest d id (accepts m) (bytes ∷ chunks) = some (accepts m)
  receive_rest d id (refuses m) (bytes ∷ chunks) = some (refuses m)
  receive_rest d id (overflows m) (bytes ∷ chunks) = some (overflows m)
  receive_rest d id stuck (bytes ∷ chunks) = some stuck
