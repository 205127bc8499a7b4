-- ===== src/Http/Ota/Rounds.antt =====
-- The loop of `http_url_ota_push` over the bytes that arrived.
use esp8266_toolbox.Base.{
  ℕ, zero, suc, ◌+◌, ◌-◌, ◌≤◌, ◌<◌, ◌≡◌, refl, sym, ap, ◌∙◌, inl, inr, ◌==◌, ltb, Bool-cases, true,
  false, ◌&&◌, ◌||◌, min, List, [], ◌∷◌, ◌++◌, append_assoc, length, length-append, length-take,
  length-drop, take, drop, take-append-drop, All, All-append, arith,
}
use esp8266_toolbox.Base.Memory.{length-overlay, take-overlay}
use esp8266_toolbox.Crypto.Block.{BlockState}
use esp8266_toolbox.Crypto.Block.Pieces.{joined}
use esp8266_toolbox.Http.Clients.Receive.{arrived, IsBuffer}
use esp8266_toolbox.Http.Ota.{
  chunk_len, done, flush_sector, Machine, take_chunk, write_loop, write_round,
}
use esp8266_toolbox.Http.Ota.Flash.{sec_size, Spi}
use esp8266_toolbox.Http.Process.{state_postdata}
use esp8266_toolbox.Http.Ota.Stored.{Chunked, Chunked-add, IsWhole, joined-add}
use esp8266_toolbox.Http.Ota.Sector.{flush_sector-Wrote, flushed, Works, Wrote}

take-take : (n k : ℕ) (xs : List ℕ) → take n (take (n + k) xs) ≡ take n xs
take-take zero k xs = refl
take-take (suc n) k [] =
    let e : suc n + k ≡ suc (n + k) = omega arith in ap (λ (t : ℕ). take (suc n) (take t [])) e
take-take (suc n) k (x ∷ xs) =
    let e : suc n + k ≡ suc (n + k) = omega arith in
    ap (λ (t : ℕ). take (suc n) (take t (x ∷ xs))) e ∙ ap (λ r. x ∷ r) (take-take n k xs)

drop-take : (n k : ℕ) (xs : List ℕ) → drop n (take (n + k) xs) ≡ take k (drop n xs)
drop-take zero k xs = let e : 0 + k ≡ k = omega arith in ap (λ (t : ℕ). take t xs) e
drop-take (suc n) zero [] =
    let e : suc n + 0 ≡ suc n = omega arith in ap (λ (t : ℕ). drop (suc n) (take t [])) e
drop-take (suc n) (suc k) [] =
    let e : suc n + suc k ≡ suc (n + suc k) = omega arith in
    ap (λ (t : ℕ). drop (suc n) (take t [])) e
drop-take (suc n) k (x ∷ xs) =
    let e : suc n + k ≡ suc (n + k) = omega arith in
    ap (λ (t : ℕ). drop (suc n) (take t (x ∷ xs))) e ∙ drop-take n k xs

module _ (spi : Spi) (works : Works spi) (f : spi.Flash) (s : BlockState) (b id : ℕ)
    (url image later : List ℕ) where
  -- The image is what has been written, the sector's buffer, the client's buffer and what is `later` to
  -- come.
  pub record Holds (m : Machine spi.Flash) (pieces : List (List ℕ)) (tail rest : List ℕ)
      : Type 0 where
    pub wrote : Wrote spi works m f s b pieces
    pub waiting : take m.ota.secused m.ota.secbuf ≡ tail
    pub count : m.ota.secused ≡ length tail
    pub fits : length tail ≤ 4096
    pub buffer : IsBuffer m.client
    pub text : arrived m.client ≡ rest
    pub used : m.client.bufused ≡ length rest
    pub post : m.client.postused + length rest + length later ≡ length image
    pub total : m.client.postlen ≡ length image
    pub appsize : m.ota.appsize ≡ length image
    pub parts : joined pieces ++ (tail ++ (rest ++ later)) ≡ image
    pub owner : m.ota.client ≡ id
    pub posted : m.client.state ≡ state_postdata
    pub page : m.client.url ≡ url

  -- Between two rounds.
  pub record Ready (m : Machine spi.Flash) (pieces : List (List ℕ)) (tail rest : List ℕ)
      : Type 0 where
    pub holds : Holds m pieces tail rest
    pub chunked : Chunked pieces
    pub whole : 1 ≤ length rest + length later → All IsWhole pieces
    pub room : length tail < 4096
    pub ended : length rest + length later ≡ 0 → length tail ≡ 0

  take_chunk-Holds :
      (m : Machine spi.Flash) (pieces : List (List ℕ)) (tail rest : List ℕ) (len : ℕ)
      → Holds m pieces tail rest
      → len ≤ length rest
      → length tail + len ≤ 4096
      → Holds (take_chunk len m) pieces (tail ++ take len rest) (drop len rest)
  unfolding take_chunk
  take_chunk-Holds m pieces tail rest len v le fit =
      let left : ℕ = m.client.bufused - len in
      let whole : m.client.bufused ≡ len + left = omega (arith, le, v.used) in
      let text : take (len + left) m.client.buf ≡ rest =
        ap (λ (t : ℕ). take t m.client.buf) (sym whole) ∙ v.text in
      let front : take len m.client.buf ≡ take len rest =
        sym (take-take len left m.client.buf) ∙ ap (take len) text in
      let back : take left (drop len m.client.buf) ≡ drop len rest =
        sym (drop-take len left m.client.buf) ∙ ap (drop len) text in
      let n : length (take len rest) ≡ len = omega (arith, length-take len rest, le) in
      let r : length (drop len rest) ≡ left = omega (arith, length-drop len rest, le, v.used) in
      let size : length m.ota.secbuf ≡ 4096 = v.wrote.size in
      rw (front, back)
        (record {
          wrote = record {
            start = v.wrote.start;
            cursor = v.wrote.cursor;
            hashed = v.wrote.hashed;
            size =
                length-overlay m.ota.secbuf m.ota.secused (take len rest)
                  (omega (arith, n, v.count, fit, size))
                ∙ size;
            stored = v.wrote.stored;
            kept = v.wrote.kept;
          };
          waiting =
              take-overlay m.ota.secbuf m.ota.secused (m.ota.secused + len) (take len rest)
                (omega (arith, n)) (omega (arith, v.count, fit, size))
              ∙ ap (λ q. q ++ take len rest) v.waiting;
          count = omega (arith, v.count, n, length-append tail (take len rest));
          fits = omega (arith, fit, n, length-append tail (take len rest));
          buffer = (
            length-overlay m.client.buf 0 (drop len rest) (omega (arith, r, v.buffer.0, v.buffer.1))
                ∙ v.buffer.0,
            omega (arith, v.buffer.1),
          );
          text =
              take-overlay m.client.buf 0 left (drop len rest) (omega (arith, r))
                (omega (arith, v.buffer.0, v.buffer.1));
          used = sym r;
          post = omega (arith, v.post, length-drop len rest, le);
          total = v.total;
          appsize = v.appsize;
          parts =
              ap (λ q. joined pieces ++ q)
                (append_assoc tail (take len rest) (drop len rest ++ later)
                  ∙ ap (λ q. tail ++ q)
                      (sym (append_assoc (take len rest) (drop len rest) later)
                        ∙ ap (λ q. q ++ later) (take-append-drop len rest)))
              ∙ v.parts;
          owner = v.owner;
          posted = v.posted;
          page = v.page;
        })

  -- The sector in the buffer goes to the flash: all of it, or the last of the image.
  flush_sector-Ready :
      (m : Machine spi.Flash) (pieces : List (List ℕ)) (tail rest : List ℕ)
      → Holds m pieces tail rest
      → All IsWhole pieces
      → 1 ≤ length tail
      → (1 ≤ length rest + length later → length tail ≡ 4096)
      → (m' : Machine spi.Flash) × (flush_sector spi m ≡ done m')
        × Ready m' (pieces ++ tail ∷ []) [] rest
  flush_sector-Ready m pieces tail rest v w some_bytes full =
      let (h, e, wrote) =
        flush_sector-Wrote spi works m f s b pieces tail v.wrote v.waiting v.count in
      let m' : Machine spi.Flash = flushed spi works m h in
      (
        m',
        e,
        record {
          holds =
              unfold flushed in
              record {
                wrote = wrote;
                waiting = refl;
                count = refl;
                fits = omega arith;
                buffer = v.buffer;
                text = v.text;
                used = v.used;
                post = v.post;
                total = v.total;
                appsize = v.appsize;
                parts =
                    ap (λ q. q ++ (rest ++ later)) (joined-add pieces tail)
                    ∙ append_assoc (joined pieces) tail (rest ++ later)
                    ∙ v.parts;
                owner = v.owner;
                posted = v.posted;
                page = v.page;
              };
          chunked = Chunked-add pieces tail w some_bytes v.fits;
          whole = λ more. All-append IsWhole pieces (tail ∷ []) w (full more, tt);
          room = omega arith;
          ended = λ _. refl;
        },
      )

  -- A round with bytes in the client's buffer takes at least one.
  write_round-Ready :
      (m : Machine spi.Flash) (pieces : List (List ℕ)) (tail rest : List ℕ)
      → Ready m pieces tail rest
      → 1 ≤ length rest
      → (m' : Machine spi.Flash) × (pieces' : List (List ℕ)) × (tail' : List ℕ) × (rest' : List ℕ)
        × (write_round spi m ≡ done m')
        × Ready m' pieces' tail' rest'
        × (length rest' < length rest)
  unfolding write_round
  write_round-Ready m pieces tail rest v some_bytes =
      let len : ℕ = chunk_len m.client m.ota in
      let size : len ≡ min (length rest) (4096 - length tail) =
        unfold chunk_len in
        omega (arith, v.holds.used, v.holds.post, v.holds.total, v.holds.count) in
      let tail' : List ℕ = tail ++ take len rest in
      let rest' : List ℕ = drop len rest in
      let h =
        take_chunk-Holds m pieces tail rest len v.holds (omega (arith, size))
          (omega (arith, size, v.room)) in
      let w : All IsWhole pieces = v.whole (omega (arith, some_bytes)) in
      let left : length rest' ≡ length rest - len = length-drop len rest in
      let grown : length tail' ≡ length tail + len =
        omega (arith, size, length-append tail (take len rest), length-take len rest) in
      elim (Bool-cases (
        ((take_chunk len m).ota.secused == sec_size)
        || ((take_chunk len m).client.postused == (take_chunk len m).client.postlen))) [
          | inl p ↦
              let (m', e, r) =
                flush_sector-Ready (take_chunk len m) pieces tail' rest' h w
                  (omega (arith, grown, size, some_bytes, v.room))
                  (λ more. ground (arith, p, h.count, h.post, h.total, more)) in
              (
                m',
                pieces ++ tail' ∷ [],
                [],
                rest',
                rw p e,
                r,
                omega (arith, left, size, some_bytes, v.room),
              )
          | inr p ↦ (
            take_chunk len m,
            pieces,
            tail',
            rest',
            rw p refl,
            record {
              holds = h;
              chunked = v.chunked;
              whole = λ _. w;
              room = ground (arith, p, h.count, h.fits);
              ended = λ none_left. absurd (ground (arith, p, h.post, h.total, none_left));
            },
            omega (arith, left, size, some_bytes, v.room),
          )
        ]

  -- With fuel for each byte the loop empties the client's buffer.
  pub write_loop-Ready :
      (fuel : ℕ) (m : Machine spi.Flash) (pieces : List (List ℕ)) (tail rest : List ℕ)
      → Ready m pieces tail rest
      → length rest < fuel
      → (m' : Machine spi.Flash) × (pieces' : List (List ℕ)) × (tail' : List ℕ) × (write_loop spi
            fuel m
          ≡ done m')
        × Ready m' pieces' tail' []
  unfolding write_loop
  write_loop-Ready zero m pieces tail rest v h = absurd (omega (arith, h))
  write_loop-Ready (suc fuel) m pieces tail [] v h =
      let test : (ltb 0 m.client.bufused && ltb m.client.postused m.client.postlen) ≡ false =
        ground (arith, v.holds.used) in
      (m, pieces, tail, rw (test, write_loop) refl, v)
  write_loop-Ready (suc fuel) m pieces tail (x ∷ rest) v h =
      let (m1, pieces1, tail1, rest1, e, v1, less) =
        write_round-Ready m pieces tail (x ∷ rest) v (omega arith) in
      let (m2, pieces2, tail2, e2, v2) =
        write_loop-Ready fuel m1 pieces1 tail1 rest1 v1 (omega (arith, less, h)) in
      let test : (ltb 0 m.client.bufused && ltb m.client.postused m.client.postlen) ≡ true =
        ground (arith, v.holds.used, v.holds.post, v.holds.total) in
      (m2, pieces2, tail2, rw (test, write_loop) (rw (e, write_loop) e2), v2)
