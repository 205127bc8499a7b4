-- ===== src/Http/Ota/Sector.antt =====
-- One round of the loop of `http_url_ota_push`: bytes go to the sector's buffer, and a full one goes to
-- the flash.
use esp8266_toolbox.Base.{
  ℕ, ◌+◌, ◌*◌, ◌/◌, ◌≤◌, ◌<◌, ◌≡◌, ◌≢◌, refl, sym, ap, ◌∙◌, ◌⊎◌, inl, inr, true, some, List, [],
  ◌∷◌, ◌++◌, length, length-replicate, take, replicate, arith,
}
use esp8266_toolbox.Base.Memory.{bzero, length-overlay}
use esp8266_toolbox.Crypto.Block.{BlockState}
use esp8266_toolbox.Crypto.Sha256.{sha256_init, sha256_proc}
use esp8266_toolbox.Crypto.Sha256.Refine.{sha256_pieces}
use esp8266_toolbox.Http.Ota.{done, flush_sector, Machine}
use esp8266_toolbox.Http.Ota.Flash.{sec_size, Spi}
use esp8266_toolbox.Http.Ota.Stored.{
  length-add, sha256_pieces-add, Stored, Stored-add, Stored_elsewhere,
}

-- Every operation on the flash succeeds.
pub record Works (spi : Spi) : Type 0 where
  pub erases : (f : spi.Flash) (s : ℕ) → (spi.erase f s).1 ≡ true
  pub writes : (f : spi.Flash) (a : ℕ) (bytes : List ℕ) → (spi.write f a bytes).1 ≡ true
  pub reads : (f : spi.Flash) (a n : ℕ) → (bytes : List ℕ) × (spi.read f a n ≡ some bytes)

module _ (spi : Spi) (works : Works spi) where
  open spi use {Flash, sector}

  -- The sectors before the slot at `b` and from `n` sectors behind its start on are as they were.
  abbrev pub Kept : Flash → Flash → ℕ → ℕ → Type 0
  Kept f g b n = (t : ℕ) → (t < b) ⊎ (b + n ≤ t) → sector g t ≡ sector f t

  -- The pieces have been hashed and written to the slot that starts with sector `b`.
  pub record Wrote (m : Machine Flash) (f : Flash) (s : BlockState) (b : ℕ) (pieces : List (List ℕ))
      : Type 0 where
    pub start : m.ota.newaddr_beg ≡ 4096 * b
    pub cursor : m.ota.newaddr_cur ≡ 4096 * (b + length pieces)
    pub hashed : m.ota.sha256 ≡ sha256_pieces (sha256_init s) pieces
    pub size : length m.ota.secbuf ≡ 4096
    pub stored : Stored spi m.flash b pieces
    pub kept : Kept f m.flash b (length pieces)

  -- What a sector's way to the flash changes.
  unfoldable pub flushed : Machine Flash → Flash → Machine Flash
  flushed m h = record m {
    flash = h;
    ota = record m.ota {
      sha256 = sha256_proc m.ota.sha256 (take m.ota.secused m.ota.secbuf);
      newaddr_cur = m.ota.newaddr_cur + sec_size;
      secbuf = bzero m.ota.secbuf 0 sec_size;
      secused = 0;
    };
  }

  -- The flash after a sector was erased and written.
  abbrev rewritten : Machine Flash → ℕ → Flash
  rewritten m k = (spi.write (spi.erase m.flash k).0 (4096 * k) m.ota.secbuf).0

  flush_sector-done :
      (m : Machine Flash) (k : ℕ)
      → m.ota.newaddr_cur ≡ 4096 * k
      → flush_sector spi m ≡ done (flushed m (rewritten m k))
  unfolding flush_sector flushed
  flush_sector-done m k e =
      let at : m.ota.newaddr_cur / sec_size ≡ k = omega (arith, e) in
      let w = works.writes (spi.erase m.flash k).0 (4096 * k) m.ota.secbuf in
      rw (at, works.erases m.flash k) (rw (e) (rw w refl))

  rewritten_others :
      (m : Machine Flash) (k t : ℕ)
      → length m.ota.secbuf ≡ 4096
      → k ≢ t
      → sector (rewritten m k) t ≡ sector m.flash t
  rewritten_others m k t size ne =
      spi.write_others (spi.erase m.flash k).0 k t m.ota.secbuf size ne
      ∙ spi.erase_others m.flash k t ne

  pub flush_sector-Wrote :
      (m : Machine Flash) (f : Flash) (s : BlockState) (b : ℕ) (pieces : List (List ℕ))
      (tail : List ℕ)
      → Wrote m f s b pieces
      → take m.ota.secused m.ota.secbuf ≡ tail
      → m.ota.secused ≡ length tail
      → (h : Flash) × (flush_sector spi m ≡ done (flushed m h))
        × Wrote (flushed m h) f s b (pieces ++ tail ∷ [])
  unfolding flushed
  flush_sector-Wrote m f s b pieces tail w text count =
      let k : ℕ = b + length pieces in
      let h : Flash = rewritten m k in
      let same : (t : ℕ) → k ≢ t → sector h t ≡ sector m.flash t =
        λ t ne. rewritten_others m k t w.size ne in
      let new : sector h k ≡ m.ota.secbuf =
        spi.write-erase m.flash k m.ota.secbuf (works.erases m.flash k)
          (works.writes (spi.erase m.flash k).0 (4096 * k) m.ota.secbuf) w.size in
      let front : take (length tail) m.ota.secbuf ≡ tail =
        ap (λ (t : ℕ). take t m.ota.secbuf) (sym count) ∙ text in
      (
        h,
        flush_sector-done m k w.cursor,
        record {
          start = w.start;
          cursor = omega (arith, w.cursor, length-add pieces tail);
          hashed = rw (text, w.hashed) (sym (sha256_pieces-add pieces tail (sha256_init s)));
          size = length-overlay-zeros m.ota.secbuf w.size;
          stored =
              Stored-add spi h pieces b tail
                (Stored_elsewhere spi m.flash h pieces b
                  (λ t lt. same t (λ ne. omega (arith, lt, ne))) w.stored)
                (ap (λ q. take (length tail) q) new ∙ front);
          kept = λ t out. same t (λ ne. outside_ne t out ne) ∙ w.kept t (narrower t out);
        },
      )
    where
      outside_ne :
          (t : ℕ) → (t < b) ⊎ (b + length (pieces ++ tail ∷ []) ≤ t) → b + length pieces ≡ t → ⊥
      outside_ne t (inl lt) e = omega (arith, lt, e)
      outside_ne t (inr le) e = omega (arith, le, e, length-add pieces tail)

      narrower :
          (t : ℕ)
          → (t < b) ⊎ (b + length (pieces ++ tail ∷ []) ≤ t)
          → (t < b) ⊎ (b + length pieces ≤ t)
      narrower t (inl lt) = inl lt
      narrower t (inr le) = inr (omega (arith, le, length-add pieces tail))

      length-overlay-zeros :
          (buf : List ℕ) → length buf ≡ 4096 → length (bzero buf 0 sec_size) ≡ 4096
      length-overlay-zeros buf e =
          unfold bzero in
          length-overlay buf 0 (replicate sec_size 0)
            (omega (arith, e, length-replicate sec_size (let z : ℕ = 0 in z)))
          ∙ e
