-- ===== src/Http/Ota/Safe.antt =====
-- What `http_url_ota_push` does when anything may fail: its loops end, and it writes to its slot only.
use esp8266_toolbox.Base.{
  ℕ, zero, suc, ◌+◌, ◌-◌, ◌*◌, ◌/◌, ◌≤◌, ◌<◌, ◌≡◌, ◌≢◌, refl, ap, ◌∙◌, ◌⊎◌, inl, inr, some, none,
  Option, Bool-cases, ◌==◌, ltb, ◌&&◌, ◌||◌, List, length, length-take, length-replicate, replicate,
  take, min, arith,
}
use esp8266_toolbox.Base.Memory.{bzero, length-overlay}
use esp8266_toolbox.Crypto.Sha256.{sha256_proc}
use esp8266_toolbox.Http.Process.{HttpClient}
use esp8266_toolbox.Http.Ota.{
  chunk_len, done, exhausted, failed, flush_sector, Loop, Machine, OtaState, read_back, read_len,
  take_chunk, write_loop, write_round,
}
use esp8266_toolbox.Http.Ota.Flash.{sec_size, Spi}

module _ (spi : Spi) (b l id : ℕ) where
  open spi use {Flash, sector}

  -- Only the `l` sectors from `b` on may differ.
  abbrev pub Same : Flash → Flash → Type 0
  Same f g = (t : ℕ) → (t < b) ⊎ (b + l ≤ t) → sector g t ≡ sector f t

  -- An upload that has filled the slot no further than what was taken of its body.
  pub record Within (o : OtaState) (c : HttpClient) : Type 0 where
    pub place : ℕ
    pub owner : o.client ≡ id
    pub start : o.newaddr_beg ≡ 4096 * b
    pub cursor : o.newaddr_cur ≡ 4096 * place
    pub low : b ≤ place
    pub size : length o.secbuf ≡ 4096
    pub filled : o.secused ≤ 4096
    pub limit : c.postlen ≤ 4096 * l
    pub taken : c.postused ≤ c.postlen
    pub progress : (4096 * place + o.secused ≤ 4096 * b + c.postused) ⊎ (c.postused ≡ c.postlen)

  abbrev pub Good : Flash → Machine Flash → Type 0
  Good f m = Within m.ota m.client × Same f m.flash

  -- A loop that ended, in one of the two ways.
  abbrev pub Ends : Flash → Loop Flash → Type 0
  Ends f (done m) = Good f m
  Ends f (failed m) = Good f m
  Ends f exhausted = ⊥

  -- The rounds that are left at most.
  abbrev measure : Machine Flash → ℕ
  measure m = m.client.bufused + m.ota.secused / 4096

  abbrev Shrinks : Flash → ℕ → Loop Flash → Type 0
  Shrinks f n (done m) = Good f m × (measure m < n)
  Shrinks f n (failed m) = Good f m
  Shrinks f n exhausted = ⊥

  flush_sector-Shrinks :
      (f : Flash) (m : Machine Flash) (n : ℕ)
      → (w : Within m.ota m.client) → Same f m.flash
      → w.place < b + l
      → ((m.ota.secused ≡ 4096) × (4096 * w.place + m.ota.secused ≤ 4096 * b + m.client.postused))
        ⊎ (m.client.postused ≡ m.client.postlen)
      → m.client.bufused < n
      → Shrinks f n (flush_sector spi m)
  unfolding flush_sector bzero
  flush_sector-Shrinks f m n w same room why less =
      let k : ℕ = w.place in
      let at : m.ota.newaddr_cur / sec_size ≡ k = omega (arith, w.cursor) in
      let apart : (t : ℕ) → (t < b) ⊎ (b + l ≤ t) → k ≢ t =
        λ t out. outside_ne t k w.low room out in
      let erased : Same f (spi.erase m.flash k).0 =
        λ t out. spi.erase_others m.flash k t (apart t out) ∙ same t out in
      let (later, fine) = spi.write (spi.erase m.flash k).0 m.ota.newaddr_cur m.ota.secbuf in
      let written : Same f later = λ t out.
        rw w.cursor (spi.write_others (spi.erase m.flash k).0 k t m.ota.secbuf w.size (apart t out))
        ∙ erased t out in
      rw at (elim (Bool-cases (spi.erase m.flash k).1) [
        | inr p ↦ rw p (w, erased)
        | inl p ↦ rw p (elim (Bool-cases fine) [
          | inr q ↦ rw q (w, written)
          | inl q ↦ rw q (
            (
              record {
                place = k + 1;
                owner = w.owner;
                start = w.start;
                cursor = omega (arith, w.cursor);
                low = omega (arith, w.low);
                size =
                    length-overlay m.ota.secbuf 0 (replicate 4096 0)
                      (omega (arith, w.size, length-replicate {A = ℕ} 4096 0))
                    ∙ w.size;
                filled = omega arith;
                limit = w.limit;
                taken = w.taken;
                progress = moved k m.ota.secused m.client why;
              },
              written,
            ),
            omega (arith, less),
          )
        ])
      ])
    where
      outside_ne : (t k : ℕ) → b ≤ k → k < b + l → (t < b) ⊎ (b + l ≤ t) → k ≢ t
      outside_ne t k low room (inl h) e = omega (arith, h, e, low)
      outside_ne t k low room (inr h) e = omega (arith, h, e, room)

      moved :
          (k u : ℕ) (c : HttpClient)
          → ((u ≡ 4096) × (4096 * k + u ≤ 4096 * b + c.postused)) ⊎ (c.postused ≡ c.postlen)
          → (4096 * (k + 1) + 0 ≤ 4096 * b + c.postused) ⊎ (c.postused ≡ c.postlen)
      moved k u c (inl h) = inl (omega (arith, h.0, h.1))
      moved k u c (inr h) = inr h

  -- Bytes that move to the sector's buffer.
  take_chunk-Within :
      (m : Machine Flash) (len : ℕ)
      → (w : Within m.ota m.client) → m.ota.secused + len ≤ 4096
      → m.client.postused + len ≤ m.client.postlen
      → 4096 * w.place + m.ota.secused ≤ 4096 * b + m.client.postused
      → (v : Within (take_chunk len m).ota (take_chunk len m).client) × (v.place ≡ w.place)
  unfolding take_chunk
  take_chunk-Within m len w room short so_far = (
    record {
      place = w.place;
      owner = w.owner;
      start = w.start;
      cursor = w.cursor;
      low = w.low;
      size =
          length-overlay m.ota.secbuf m.ota.secused (take len m.client.buf)
            (omega (arith, length-take len m.client.buf, w.size, room))
          ∙ w.size;
      filled = room;
      limit = w.limit;
      taken = short;
      progress = inl (omega (arith, so_far));
    },
    refl,
  )

  write_round-Shrinks :
      (f : Flash) (m : Machine Flash)
      → Good f m
      → 0 < m.client.bufused
      → m.client.postused < m.client.postlen
      → Shrinks f (measure m) (write_round spi m)
  unfolding write_round
  write_round-Shrinks f m (w, same) some_bytes unfinished =
      let len : ℕ = chunk_len m.client m.ota in
      let size : len
          ≡ min (min m.client.bufused (m.client.postlen - m.client.postused))
              (4096 - m.ota.secused) =
        unfold chunk_len in refl in
      let so_far : 4096 * w.place + m.ota.secused ≤ 4096 * b + m.client.postused = elim w.progress [
        | inl h ↦ h
        | inr h ↦ absurd (omega (arith, h, unfinished))
      ] in
      let (v, e) =
        take_chunk-Within m len w (omega (arith, size, w.filled)) (omega (arith, size, w.taken))
          so_far in
      let m' : Machine Flash = take_chunk len m in
      let used : m'.ota.secused ≡ m.ota.secused + len = unfold take_chunk in refl in
      let post : m'.client.postused ≡ m.client.postused + len = unfold take_chunk in refl in
      let total : m'.client.postlen ≡ m.client.postlen = unfold take_chunk in refl in
      let left : m'.client.bufused ≡ m.client.bufused - len = unfold take_chunk in refl in
      let quiet : Same f m'.flash = unfold take_chunk in same in
      elim (Bool-cases
        ((m'.ota.secused == sec_size) || (m'.client.postused == m'.client.postlen))) [
          | inl p ↦ rw p (
              flush_sector-Shrinks f m' (measure m) v quiet
                (omega (
                  arith, e, so_far, used, size, w.limit, w.taken, some_bytes, unfinished, w.filled,
                ))
                (ground (arith, p, e, so_far, used, post))
                (omega (arith, left, size, some_bytes, unfinished, w.filled)))
          | inr p ↦
              let partial : m'.ota.secused < 4096 = ground (arith, p, v.filled) in
              rw p ((v, quiet), omega (arith, left, size, some_bytes, unfinished, partial, used))
        ]

  pub write_loop-Ends :
      (f : Flash) (fuel : ℕ) (m : Machine Flash)
      → Good f m
      → measure m < fuel
      → Ends f (write_loop spi fuel m)
  unfolding write_loop
  write_loop-Ends f zero m good h = absurd (omega (arith, h))
  write_loop-Ends f (suc fuel) m good h =
      elim (Bool-cases (ltb 0 m.client.bufused && ltb m.client.postused m.client.postlen)) [
        | inr p ↦ rw (p, write_loop) good
        | inl p ↦
            rw (p, write_loop)
              (go (write_round spi m) (write_loop-Ends f fuel)
                (write_round-Shrinks f m good (ground (arith, p)) (ground (arith, p))))
      ]
    where
      go :
          (r : Loop Flash)
          → ((m' : Machine Flash) → Good f m' → measure m' < fuel → Ends f (write_loop spi fuel m'))
          → Shrinks f (measure m) r
          → Ends f (elim r [
            | done m' ↦ write_loop spi fuel m'
            | failed m' ↦ failed m'
            | exhausted ↦ exhausted
          ])
      go (done m') ih s = ih m' s.0 (omega (arith, s.1, h))
      go (failed m') ih s = s
      go exhausted ih s = s

  -- The state with another hash and other bytes in the sector's buffer.
  abbrev read_state : Machine Flash → ℕ → List ℕ → Machine Flash
  read_state m addr bytes = record m {
    ota = record m.ota {
      secbuf = bytes;
      sha256 = sha256_proc m.ota.sha256 (take (read_len spi m.ota addr) bytes);
    };
  }

  read_state-Good :
      (f : Flash) (addr j : ℕ) (m : Machine Flash) (bytes : List ℕ)
      → Good f m
      → addr ≡ 4096 * j
      → spi.read m.flash addr sec_size ≡ some bytes
      → Good f (read_state m addr bytes)
  read_state-Good f addr j m bytes (w, same) at e = (
    record {
      place = w.place;
      owner = w.owner;
      start = w.start;
      cursor = w.cursor;
      low = w.low;
      size = ap length (spi.read_lem m.flash j bytes (rw at at e)) ∙ spi.length-sector m.flash j;
      filled = w.filled;
      limit = w.limit;
      taken = w.taken;
      progress = w.progress;
    },
    same,
  )

  pub read_back-Ends :
      (f : Flash) (fuel addr j : ℕ) (m : Machine Flash)
      → Good f m
      → addr ≡ 4096 * j
      → m.ota.newaddr_beg + m.ota.appsize - addr < fuel
      → Ends f (read_back spi fuel addr m)
  unfolding read_back
  read_back-Ends f zero addr j m good at h = absurd (omega (arith, h))
  read_back-Ends f (suc fuel) addr j m good at h =
      elim (Bool-cases (ltb addr (m.ota.newaddr_beg + m.ota.appsize))) [
        | inr p ↦ rw (p, read_back) good
        | inl p ↦
            rw (p, read_back)
              (go (spi.read m.flash addr sec_size) refl (λ bytes e.
                read_back-Ends f fuel (addr + sec_size) (j + 1) (read_state m addr bytes)
                  (read_state-Good f addr j m bytes good at e) (omega (arith, at))
                  (ground (arith, p, h))))
      ]
    where
      go :
          (r : Option (List ℕ))
          → spi.read m.flash addr sec_size ≡ r
          → ((bytes : List ℕ)
              → spi.read m.flash addr sec_size ≡ some bytes
              → Ends f (read_back spi fuel (addr + sec_size) (read_state m addr bytes)))
          → Ends f (elim r [
            | none ↦ failed m
            | some bytes ↦ read_back spi fuel (addr + sec_size) (read_state m addr bytes)
          ])
      go none e ih = good
      go (some bytes) e ih = ih bytes e
