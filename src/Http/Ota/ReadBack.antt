-- ===== src/Http/Ota/ReadBack.antt =====
-- The loop of `http_url_ota_push` that reads the application back from the flash.
use esp8266_toolbox.Base.{
  ℕ, zero, suc, ◌+◌, ◌*◌, ◌≤◌, ◌<◌, ◌≡◌, refl, ap, ◌∙◌, ltb, true, false, some, List, [], ◌∷◌,
  length, length-append, take, arith,
}
use esp8266_toolbox.Crypto.Block.Pieces.{joined}
use esp8266_toolbox.Crypto.Sha256.{sha256_proc}
use esp8266_toolbox.Crypto.Sha256.Refine.{sha256_pieces}
use esp8266_toolbox.Http.Ota.{done, Machine, read_back, read_len}
use esp8266_toolbox.Http.Ota.Flash.{sec_size, Spi}
use esp8266_toolbox.Http.Ota.Stored.{Chunked, Stored}
use esp8266_toolbox.Http.Ota.Sector.{Works}

module _ (spi : Spi) (works : Works spi) where
  open spi use {Flash, sector}

  -- From one sector to the next.
  abbrev read_sector : Machine Flash → List ℕ → ℕ → Machine Flash
  read_sector m bytes n = record m {
    ota = record m.ota { secbuf = bytes; sha256 = sha256_proc m.ota.sha256 (take n bytes) };
  }

  read_back_step :
      (fuel addr n : ℕ) (m : Machine Flash) (bytes : List ℕ)
      → addr < m.ota.newaddr_beg + m.ota.appsize
      → spi.read m.flash addr sec_size ≡ some bytes
      → read_len spi m.ota addr ≡ n
      → read_back spi (suc fuel) addr m
        ≡ read_back spi fuel (addr + sec_size) (read_sector m bytes n)
  unfolding read_back
  read_back_step fuel addr n m bytes h e e' =
      let test : ltb addr (m.ota.newaddr_beg + m.ota.appsize) ≡ true = ground (arith, h) in
      rw (test, read_back) (rw (e, read_back) (rw e' refl))

  read_back_end :
      (fuel addr : ℕ) (m : Machine Flash)
      → m.ota.newaddr_beg + m.ota.appsize ≤ addr
      → 0 < fuel
      → read_back spi fuel addr m ≡ done m
  unfolding read_back
  read_back_end zero addr m h pos = absurd (omega (arith, pos))
  read_back_end (suc fuel) addr m h pos =
      let test : ltb addr (m.ota.newaddr_beg + m.ota.appsize) ≡ false = ground (arith, h) in
      rw (test, read_back) refl

  -- One sector, where the hash takes the piece that was written to it.
  read_back_piece :
      (fuel addr k : ℕ) (m : Machine Flash) (p : List ℕ)
      → addr ≡ 4096 * k
      → addr < m.ota.newaddr_beg + m.ota.appsize
      → read_len spi m.ota addr ≡ length p
      → take (length p) (sector m.flash k) ≡ p
      → (bytes : List ℕ) × (read_back spi (suc fuel) addr m
          ≡ read_back spi fuel (addr + sec_size) (read_sector m bytes (length p)))
        × (take (length p) bytes ≡ p)
  read_back_piece fuel addr k m p at inside n s =
      let (bytes, e) = works.reads m.flash (4096 * k) 4096 in
      (
        bytes,
        read_back_step fuel addr (length p) m bytes inside (rw at e) n,
        ap (take (length p)) (spi.read_lem m.flash k bytes e) ∙ s,
      )

  -- With the pieces that are left stored from the address on, the loop hashes them and changes neither
  -- the flash nor the client.
  pub read_back-Stored :
      (ps : List (List ℕ)) (fuel addr b j : ℕ) (m : Machine Flash)
      → addr ≡ 4096 * (b + j)
      → m.ota.newaddr_beg ≡ 4096 * b
      → m.ota.appsize ≡ 4096 * j + length (joined ps)
      → Chunked ps
      → Stored spi m.flash (b + j) ps
      → length (joined ps) < fuel
      → (m' : Machine Flash) × (read_back spi fuel addr m ≡ done m')
        × (m'.ota.sha256 ≡ sha256_pieces m.ota.sha256 ps)
        × (m'.flash ≡ m.flash)
        × (m'.client ≡ m.client)
  read_back-Stored ps zero addr b j m at start size c s h = absurd (omega (arith, h))
  read_back-Stored [] (suc fuel) addr b j m at start size c s h = (
    m,
    read_back_end (suc fuel) addr m (omega (arith, at, start, size)) (omega arith),
    refl,
    refl,
    refl,
  )
  read_back-Stored (p ∷ []) (suc fuel) addr b j m at start size c s h =
      let len = length-append p [] in
      let n : read_len spi m.ota addr ≡ length p =
        unfold read_len in ground (arith, at, start, size, c.0, c.1, len) in
      let (bytes, e, same) =
        read_back_piece fuel addr (b + j) m p at (omega (arith, at, start, size, c.0, len)) n s.0 in
      (
        read_sector m bytes (length p),
        e
            ∙ read_back_end fuel (addr + sec_size) (read_sector m bytes (length p))
                (omega (arith, at, start, size, c.1, len)) (omega (arith, h, c.0, len)),
        ap (sha256_proc m.ota.sha256) same,
        refl,
        refl,
      )
  read_back-Stored (p ∷ q ∷ ps) (suc fuel) addr b j m at start size c s h =
      let len = length-append p (joined (q ∷ ps)) in
      let n : read_len spi m.ota addr ≡ length p =
        unfold read_len in ground (arith, at, start, size, c.0, len) in
      let (bytes, e, same) =
        read_back_piece fuel addr (b + j) m p at (omega (arith, at, start, size, c.0, len)) n s.0 in
      let next : b + j + 1 ≡ b + (j + 1) = omega arith in
      let (m', e', hash, flash, client) =
        read_back-Stored (q ∷ ps) fuel (addr + sec_size) b (j + 1) (read_sector m bytes (length p))
          (omega (arith, at)) start (omega (arith, size, c.0, len)) c.1 (rw (← next) s.1)
          (omega (arith, h, c.0, len)) in
      (
        m',
        e ∙ e',
        hash ∙ ap (λ q'. sha256_pieces (sha256_proc m.ota.sha256 q') (q ∷ ps)) same,
        flash,
        client,
      )
