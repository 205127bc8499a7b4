-- ===== src/Http/Ota/Calls.antt =====
-- One call of `http_url_ota_push` in the middle of an upload.
use esp8266_toolbox.Base.{
  ℕ, ◌+◌, ◌≤◌, ◌≡◌, refl, sym, ap, ◌∙◌, ◌⊎◌, inl, inr, true, some, Bool-cases, ◌==◌, ltb, List, [],
  ◌∷◌, ◌++◌, length, length-append, arith,
}
use native.Mathlib.Decide.{dec_lt}
use esp8266_toolbox.Crypto.Block.{BlockState}
use esp8266_toolbox.Crypto.Block.Pieces.{joined}
use esp8266_toolbox.Crypto.Sha256.{sha256_init}
use esp8266_toolbox.Crypto.Sha256.Refine.{sha256_init-sha256_init}
use esp8266_toolbox.Http.Clients.{append_bytes, buf_capacity, receive}
use esp8266_toolbox.Http.Clients.Receive.{receive_fits}
use esp8266_toolbox.Http.Ota.{begun, finish_upload, http_url_ota_push, Machine, take_upload, waits}
use esp8266_toolbox.Http.Ota.Verify.{Device}
use esp8266_toolbox.Http.Ota.Flash.{Spi}
use esp8266_toolbox.Http.Ota.Rounds.{Ready, write_loop-Ready}
use esp8266_toolbox.Http.Ota.Sector.{Works}
use esp8266_toolbox.Http.Ota.Slot.{begun-Ready, free_sector, Fresh, max_app, Runs}
use esp8266_toolbox.Http.Ota.Stored.{Chunked}

no_pieces : (ps : List (List ℕ)) → Chunked ps → length (joined ps) ≡ 0 → ps ≡ []
no_pieces [] c e = refl
no_pieces (p ∷ []) c e = absurd (omega (arith, c.0, e, length-append p []))
no_pieces (p ∷ q ∷ ps) c e = absurd (omega (arith, c.0, e, length-append p (joined (q ∷ ps))))

pub no_bytes : (xs : List ℕ) → length xs ≡ 0 → xs ≡ []
no_bytes [] e = refl
no_bytes (x ∷ xs) e = absurd (omega (arith, e))

module _ (spi : Spi) (works : Works spi) (f : spi.Flash) (s : BlockState) (d : Device) (kb id : ℕ)
    (url image : List ℕ) (runs : Runs d kb) (limit : length image ≤ max_app kb) where
  abbrev pub Going : List ℕ → Machine spi.Flash → List (List ℕ) → List ℕ → List ℕ → Type 0
  Going later m pieces tail rest =
      Ready spi works f s (free_sector kb d.userbin_addr) id url image later m pieces tail rest

  module _ (later : List ℕ) where
    nothing_taken :
        (m : Machine spi.Flash) (pieces : List (List ℕ)) (tail rest : List ℕ)
        → Going later m pieces tail rest
        → m.client.postused ≡ 0
        → (pieces ≡ []) × (tail ≡ [])
    nothing_taken m pieces tail rest v zero_used =
        let total : length (joined pieces) + (length tail + (length rest + length later))
            ≡ length image =
          omega (
            arith,
            length-append (joined pieces) (tail ++ (rest ++ later)),
            length-append tail (rest ++ later),
            length-append rest later,
            ap (length {A = ℕ}) v.holds.parts,
          ) in
        (
          no_pieces pieces v.chunked (omega (arith, total, v.holds.post, zero_used)),
          no_bytes tail (omega (arith, total, v.holds.post, zero_used)),
        )

    again :
        (m : Machine spi.Flash) (rest : List ℕ)
        → Going later m [] [] rest
        → m.client.postused ≡ 0
        → Fresh spi m kb url image later
    again m rest v zero_used = record {
      buffer = v.holds.buffer;
      sector_size = v.holds.wrote.size;
      untouched = zero_used;
      posted = v.holds.posted;
      page = v.holds.page;
      total = v.holds.total;
      limit = limit;
      used = v.holds.used ∙ ap (length {A = ℕ}) (sym v.holds.text);
      parts = rw v.holds.text v.holds.parts;
      sizes = rw v.holds.text (omega (arith, v.holds.post, zero_used));
    }

    unchanged :
        (m : Machine spi.Flash) (rest : List ℕ)
        → Going later m [] [] rest
        → (t : ℕ) → spi.sector m.flash t ≡ spi.sector f t
    unchanged m rest v t = elim (dec_lt t (free_sector kb d.userbin_addr)) [
      | yes h ↦ v.holds.wrote.kept t (inl h)
      | no h ↦ v.holds.wrote.kept t (inr (omega (arith, h)))
    ]

    start_again :
        (m : Machine spi.Flash) (rest : List ℕ)
        → Going later m [] [] rest
        → m.client.postused ≡ 0
        → (m' : Machine spi.Flash) × (begun spi d id m ≡ (m', true)) × Going later m' [] [] rest
    start_again m rest v zero_used =
        let (m', e, v') =
          begun-Ready spi works f s d kb id m url image later runs (again m rest v zero_used)
            (ap sha256_init v.holds.wrote.hashed ∙ sha256_init-sha256_init s)
            (unchanged m rest v) in
        (m', e, rw v.holds.text at v')

    pub go_on :
        (m m' : Machine spi.Flash) (pieces : List (List ℕ)) (tail rest : List ℕ)
        → begun spi d id m ≡ (m', true)
        → Going later m' pieces tail rest
        → http_url_ota_push spi d id m ≡ take_upload spi d m'
    unfolding http_url_ota_push
    go_on m m' pieces tail rest e v =
        let mine : (m'.ota.client == id) ≡ true = ground (arith, v.holds.owner) in
        rw (e) (rw mine refl)

    -- The first part of the function, which starts an upload or goes on with one.
    pub push-Ready :
        (m : Machine spi.Flash) (pieces : List (List ℕ)) (tail rest : List ℕ)
        → Going later m pieces tail rest
        → (m' : Machine spi.Flash) × (pieces' : List (List ℕ)) × (tail' : List ℕ)
          × (http_url_ota_push spi d id m ≡ take_upload spi d m')
          × Going later m' pieces' tail' rest
    unfolding begun
    push-Ready m pieces tail rest v = elim (Bool-cases (m.client.postused == 0)) [
      | inl p ↦
          let zero_used : m.client.postused ≡ 0 = ground (arith, p) in
          let (e, e') = nothing_taken m pieces tail rest v zero_used in
          let (m', started, v') = start_again m rest (rw e at (rw e' at v)) zero_used in
          (m', [], [], go_on m m' [] [] rest started v', v')
      | inr p ↦ (m, pieces, tail, go_on m m pieces tail rest (rw p refl) v, v)
    ]

    -- The rest of it: it waits for more, or the application is complete.
    pub take_upload-Ready :
        (m : Machine spi.Flash) (pieces : List (List ℕ)) (tail rest : List ℕ)
        → Going later m pieces tail rest
        → (m' : Machine spi.Flash) × (pieces' : List (List ℕ)) × (tail' : List ℕ) × Going later m'
            pieces' tail' []
          × (((1 ≤ length later) × (take_upload spi d m ≡ waits m'))
              ⊎ ((length later ≡ 0) × (take_upload spi d m ≡ finish_upload spi d m')))
    unfolding take_upload
    take_upload-Ready m pieces tail rest v =
        let (m', pieces', tail', e, v') =
          write_loop-Ready spi works f s (free_sector kb d.userbin_addr) id url image later
            (m.client.bufused + 2) m pieces tail rest v (omega (arith, v.holds.used)) in
        (
          m',
          pieces',
          tail',
          v',
          elim (Bool-cases (ltb m'.client.postused m'.client.postlen)) [
            | inl p ↦
                inl (
                  ground (arith, p, v'.holds.post, v'.holds.total),
                  rw (e, take_upload) (rw p refl),
                )
            | inr p ↦
                inr (
                  ground (arith, p, v'.holds.post, v'.holds.total),
                  rw (e, take_upload) (rw p refl),
                )
          ],
        )

  -- Bytes that arrive while it waits.
  pub receive-Ready :
      (bytes later : List ℕ) (m : Machine spi.Flash) (pieces : List (List ℕ)) (tail : List ℕ)
      → Going (bytes ++ later) m pieces tail []
      → length bytes ≤ buf_capacity
      → (receive m.client bytes ≡ some (append_bytes m.client bytes))
        × Going later (record m { client = append_bytes m.client bytes }) pieces tail bytes
  receive-Ready bytes later m pieces tail v fits =
      let (e, valid, text) =
        receive_fits m.client bytes v.holds.buffer (omega (arith, v.holds.used, fits)) in
      let all = length-append bytes later in
      (
        e,
        record {
          holds = record {
            wrote = record {
              start = v.holds.wrote.start;
              cursor = v.holds.wrote.cursor;
              hashed = v.holds.wrote.hashed;
              size = v.holds.wrote.size;
              stored = v.holds.wrote.stored;
              kept = v.holds.wrote.kept;
            };
            waiting = v.holds.waiting;
            count = v.holds.count;
            fits = v.holds.fits;
            buffer = valid;
            text = text ∙ ap (λ q. q ++ bytes) v.holds.text;
            used = omega (arith, v.holds.used);
            post = omega (arith, v.holds.post, all);
            total = v.holds.total;
            appsize = v.holds.appsize;
            parts = v.holds.parts;
            owner = v.holds.owner;
            posted = v.holds.posted;
            page = v.holds.page;
          };
          chunked = v.chunked;
          whole = λ more. v.whole (omega (arith, more, all));
          room = v.room;
          ended = λ none_left. v.ended (omega (arith, none_left, all));
        },
      )
