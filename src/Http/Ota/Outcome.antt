-- ===== src/Http/Ota/Outcome.antt =====
-- How one call of `http_url_ota_push` ends, for any flash and whatever fails.
use esp8266_toolbox.Base.{
  ℕ, suc, ◌+◌, ◌*◌, ◌/◌, ◌≤◌, ◌<◌, ◌≡◌, refl, ◌⊎◌, inl, inr, true, false, Bool, Bool-cases, ◌==◌,
  ltb, leb, ◌&&◌, ◌||◌, List, length, if◌then◌else◌, arith,
}
use esp8266_toolbox.Crypto.Block.{BlockState}
use esp8266_toolbox.Crypto.Sha256.{sha256_init}
use esp8266_toolbox.Http.Process.{HttpClient, state_postdata}
use esp8266_toolbox.Http.Ota.{
  accepts, begun, choose_slot, compare_hashes, digest, done, exhausted, failed, finish_upload,
  http_url_ota_push, judged, Loop, Machine, ota_begin, OtaState, overflows, read_back, refuses,
  Reply, stuck, restart, take_upload, user1_addr, user2_addr, waits, write_loop,
}
use esp8266_toolbox.Http.Ota.Verify.{
  check_signature, Device, forged, genuine, Judgement, overflow, same_strings,
}
use esp8266_toolbox.Http.Ota.Flash.{Spi}
use esp8266_toolbox.Http.Ota.Safe.{Ends, Good, read_back-Ends, Same, Within, write_loop-Ends}
use esp8266_toolbox.Http.Ota.Slot.{free_sector, max_app, ota_size_kb-IsSize, Runs, slot_start}

-- The sectors of a slot that an application may fill.
abbrev pub slot_sectors : ℕ → ℕ
slot_sectors kb = max_app kb / 4096

module _ (spi : Spi) (d : Device) (kb id : ℕ) where
  open spi use {Flash}

  abbrev b : ℕ
  b = free_sector kb d.userbin_addr

  abbrev l : ℕ
  l = slot_sectors kb

  -- A client of the handler. If an upload of it has begun and no other since, it is within its slot.
  pub record Sound (o : OtaState) (c : HttpClient) : Type 0 where
    pub sector_size : length o.secbuf ≡ 4096
    pub bounded :
        o.client ≡ id
        → 0 < c.postused
        → Within spi (free_sector kb d.userbin_addr) (slot_sectors kb) id o c

  abbrev Fine : Flash → Machine Flash → Type 0
  Fine f m = Good spi b l id f m

  -- What a call leaves behind: the rest of the flash as it was, and the shared state its own or as it
  -- was.
  abbrev pub Left : Flash → OtaState → Machine Flash → Type 0
  Left f o m =
      Sound m.ota m.client
      × Same spi (free_sector kb d.userbin_addr) (slot_sectors kb) id f m.flash
      × ((m.ota.client ≡ id) ⊎ (m.ota ≡ o))

  -- A reply, or a write past the end of `hash3`, where the signature in the client's URL causes it.
  abbrev pub Answered : Flash → OtaState → Reply Flash → Type 0
  Answered f o (waits m) = Left f o m
  Answered f o (accepts m) = Left f o m
  Answered f o (refuses m) = Left f o m
  Answered f o (overflows m) =
      Left f o m × ((hash : List ℕ) × (check_signature d m.client hash ≡ overflow))
  Answered f o stuck = ⊥

  Fine-Left : (f : Flash) (o : OtaState) (m : Machine Flash) → Fine f m → Left f o m
  Fine-Left f o m (w, same) =
      (record { sector_size = w.size; bounded = λ _ _. w }, same, inl w.owner)

  -- Another state of the hash.
  rehashed :
      (f : Flash) (m : Machine Flash) (h : BlockState)
      → Fine f m
      → Fine f (record m { ota = record m.ota { sha256 = h } })
  rehashed f m h (w, same) = (
    record {
      place = w.place;
      owner = w.owner;
      start = w.start;
      cursor = w.cursor;
      low = w.low;
      size = w.size;
      filled = w.filled;
      limit = w.limit;
      taken = w.taken;
      progress = w.progress;
    },
    same,
  )

  judged-Answered :
      (f : Flash) (o : OtaState) (m : Machine Flash) (hash : List ℕ) (j : Judgement)
      → check_signature d m.client hash ≡ j
      → Fine f m
      → Answered f o (judged m j)
  unfolding judged
  judged-Answered f o m hash genuine e good = Fine-Left f o m good
  judged-Answered f o m hash forged e good = Fine-Left f o m good
  judged-Answered f o m hash overflow e good = (Fine-Left f o m good, (hash, e))

  compare_hashes-Answered :
      (f : Flash) (o : OtaState) (m : Machine Flash) (hash1 : List ℕ)
      → Fine f m
      → Answered f o (compare_hashes spi d hash1 m)
  unfolding compare_hashes digest
  compare_hashes-Answered f o m hash1 good =
      let (m', hash2) = digest spi m in
      let good' : Fine f m' = rehashed f m m'.ota.sha256 good in
      elim (Bool-cases (same_strings 32 hash1 hash2)) [
        | inl p ↦ rw p (judged-Answered f o m' hash1 (check_signature d m'.client hash1) refl good')
        | inr p ↦ rw p (Fine-Left f o m' good')
      ]

  finish_upload-Answered :
      (f : Flash) (o : OtaState) (m : Machine Flash)
      → Fine f m
      → Answered f o (finish_upload spi d m)
  unfolding finish_upload digest restart
  finish_upload-Answered f o m good =
      let (m', hash1) = digest spi m in
      let m'' : Machine Flash = restart spi m' in
      go hash1 (read_back spi (suc m.ota.appsize) m.ota.newaddr_beg m'') (
        read_back-Ends spi b l id f (suc m.ota.appsize) m.ota.newaddr_beg b m''
          (rehashed f m m''.ota.sha256 good) good.0.start (omega arith))
    where
      go :
          (hash1 : List ℕ) (r : Loop Flash)
          → Ends spi b l id f r
          → Answered f o (elim r [
            | done m'' ↦ compare_hashes spi d hash1 m''
            | failed m'' ↦ refuses m''
            | exhausted ↦ stuck
          ])
      go hash1 (done m'') g = compare_hashes-Answered f o m'' hash1 g
      go hash1 (failed m'') g = Fine-Left f o m'' g
      go hash1 exhausted g = absurd g

  take_upload-Answered :
      (f : Flash) (o : OtaState) (m : Machine Flash) → Fine f m → Answered f o (take_upload spi d m)
  unfolding take_upload
  take_upload-Answered f o m good =
      go (write_loop spi (m.client.bufused + 2) m)
        (write_loop-Ends spi b l id f (m.client.bufused + 2) m good (omega (arith, good.0.filled)))
    where
      end :
          (m' : Machine Flash) (unfinished : Bool)
          → Fine f m'
          → Answered f o (if unfinished then waits m' else finish_upload spi d m')
      end m' true g = Fine-Left f o m' g
      end m' false g = finish_upload-Answered f o m' g

      go :
          (r : Loop Flash)
          → Ends spi b l id f r
          → Answered f o (elim r [
            | done m' ↦
                if ltb m'.client.postused m'.client.postlen
                then waits m'
                else finish_upload spi d m'
            | failed m' ↦ refuses m'
            | exhausted ↦ stuck
          ])
      go (done m') g = end m' (ltb m'.client.postused m'.client.postlen) g
      go (failed m') g = Fine-Left f o m' g
      go exhausted g = absurd g

  -- The first call for a client.
  first_call :
      (m : Machine Flash)
      → Runs d kb
      → length m.ota.secbuf ≡ 4096
      → m.client.postused ≡ 0
      → Answered m.flash m.ota (http_url_ota_push spi d id m)
  unfolding http_url_ota_push begun ota_begin choose_slot
  first_call m runs size zero_used =
      let addr : ℕ = if d.userbin_addr == user1_addr then user2_addr kb else user1_addr in
      let whole = ota_size_kb-IsSize d.flash_map kb runs.supported in
      let at : addr ≡ 4096 * b = slot_start kb d.userbin_addr whole in
      let cap : max_app kb ≤ 4096 * l = ground (arith, whole) in
      let first : (m.client.postused == 0) ≡ true = ground (arith, zero_used) in
      let known : ((d.userbin_addr == user1_addr) || (d.userbin_addr == user2_addr kb)) ≡ true =
        ground (arith, runs.slot) in
      let self : (id == id) ≡ true = ground arith in
      let begun_ota : OtaState = record m.ota {
        client = id;
        sha256 = sha256_init m.ota.sha256;
        newaddr_beg = addr;
        newaddr_cur = addr;
        appsize = m.client.postlen;
        secused = 0;
      } in
      rw (first) (
        rw (runs.supported, ota_begin)
          (rw (known)
            (elim (Bool-cases
              ((m.client.state == state_postdata) && leb m.client.postlen (max_app kb))) [
                | inr p ↦ rw (p) (
                  record {
                    sector_size = size;
                    bounded = λ _ pos. absurd (omega (arith, pos, zero_used));
                  },
                  λ t _. refl,
                  inl refl,
                )
                | inl p ↦
                    rw (p, self)
                      (take_upload-Answered m.flash m.ota (record m { ota = begun_ota })
                        (
                          record {
                            place = b;
                            owner = refl;
                            start = at;
                            cursor = at;
                            low = omega arith;
                            size = size;
                            filled = omega arith;
                            limit = ground (arith, p, cap);
                            taken = omega (arith, zero_used);
                            progress = inl (omega arith);
                          },
                          λ t _. refl,
                        ))
              ])))

  -- For a device that runs an application from one of the two slots: in any state of the flash and of
  -- an upload, and whatever erasing, writing and reading do, the loops of a call end, within the fuel
  -- that the model gives them, and so does the call: with one of the replies, or at the write past
  -- `hash3`, which it reaches only where this client's signature stands for more than 32 bytes. Up to
  -- there it changes no sector outside of the other slot, and leaves a state from which the same holds.
  pub http_url_ota_push-Answered :
      (m : Machine Flash)
      → Runs d kb
      → Sound m.ota m.client
      → Answered m.flash m.ota (http_url_ota_push spi d id m)
  unfolding http_url_ota_push begun
  http_url_ota_push-Answered m runs sound = elim (Bool-cases (m.client.postused == 0)) [
    | inl p ↦ first_call m runs sound.sector_size (ground (arith, p))
    | inr p ↦ elim (Bool-cases (m.ota.client == id)) [
      | inl q ↦ rw (p) (
          rw (q) (
            take_upload-Answered m.flash m.ota m
              (sound.bounded (ground (arith, q)) (ground (arith, p)), λ t _. refl)))
      | inr q ↦ rw (p) (rw (q) (sound, λ t _. refl, inr refl))
    ]
  ]
