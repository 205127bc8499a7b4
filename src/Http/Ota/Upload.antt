-- ===== src/Http/Ota/Upload.antt =====
-- A whole upload, in any number of calls.
use esp8266_toolbox.Base.{
  ℕ, ◌+◌, ◌*◌, ◌/◌, ◌%◌, ◌≤◌, ◌<◌, ◌≡◌, ◌≢◌, refl, ap, ◌∙◌, ◌⊎◌, inl, inr, some, List, [], ◌∷◌,
  ◌++◌, length, get_or, append_assoc, All, arith,
}
use esp8266_toolbox.Base.Memory.{text_of-nul}
use esp8266_toolbox.Crypto.Block.{BlockState}
use esp8266_toolbox.Crypto.Block.Pieces.{joined}
use esp8266_toolbox.Http.Clients.{append_bytes, buf_capacity}
use esp8266_toolbox.Http.Clients.Receive.{arrived}
use esp8266_toolbox.Http.Process.{HttpClient}
use esp8266_toolbox.Http.Ota.{
  finish_upload, http_url_ota_push, judged, Machine, receive_rest, take_upload,
}
use esp8266_toolbox.Http.Ota.Verify.{
  after_mark, check_signature, check_text, Device, forged, genuine, Judgement, overflow,
}
use esp8266_toolbox.Http.Ota.Calls.{
  go_on, Going, no_bytes, push-Ready, receive-Ready, take_upload-Ready,
}
use esp8266_toolbox.Http.Ota.Finish.{finish_upload-Ready, sha256_of}
use esp8266_toolbox.Http.Ota.Flash.{Spi}
use esp8266_toolbox.Http.Ota.Sector.{Kept, Works}
use esp8266_toolbox.Http.Ota.Slot.{
  begun-Ready, free_sector, Fresh, max_app, ota_size_kb-IsSize, Runs,
}
use esp8266_toolbox.Http.Ota.Stored.{Chunked, Chunked-count, Stored, Stored-byte}

-- Bytes of a page's name: neither NUL nor a question mark.
abbrev pub IsPlain : ℕ → Type 0
IsPlain c = (c ≢ 0) × (c ≢ 63)

-- The text behind the first question mark.
pub after_mark-page :
    (page sig more : List ℕ)
    → All IsPlain page
    → All (λ c. c ≢ 0) sig
    → after_mark (page ++ 63 ∷ (sig ++ 0 ∷ more)) ≡ some sig
unfolding after_mark
after_mark-page [] sig more h k = ap some (text_of-nul sig more k)
after_mark-page (c ∷ page) sig more h k = ground (arith, h.0, after_mark-page page sig more h.1 k)

judged-receive_rest :
    (spi : Spi) (d : Device) (id : ℕ) (m : Machine spi.Flash) (j : Judgement)
    (chunks : List (List ℕ))
    → receive_rest spi d id (judged m j) chunks ≡ some (judged m j)
unfolding receive_rest judged
judged-receive_rest spi d id m genuine [] = refl
judged-receive_rest spi d id m genuine (c ∷ cs) = refl
judged-receive_rest spi d id m forged [] = refl
judged-receive_rest spi d id m forged (c ∷ cs) = refl
judged-receive_rest spi d id m overflow [] = refl
judged-receive_rest spi d id m overflow (c ∷ cs) = refl

module _ (spi : Spi) (works : Works spi) (f : spi.Flash) (s : BlockState) (d : Device) (kb id : ℕ)
    (page sig pad image : List ℕ) (runs : Runs d kb) (plain : All IsPlain page)
    (text : All (λ c. c ≢ 0) sig) (limit : length image ≤ max_app kb)
    (whole : length s.buf ≡ 64) where
  abbrev url : List ℕ
  url = page ++ 63 ∷ (sig ++ 0 ∷ pad)

  abbrev slot : ℕ
  slot = free_sector kb d.userbin_addr

  abbrev Going' : List ℕ → Machine spi.Flash → List (List ℕ) → List ℕ → List ℕ → Type 0
  Going' later m pieces tail rest =
      Going spi works f s d kb id url image runs limit later m pieces tail rest

  abbrev verdict : Judgement
  verdict = check_text d sig (sha256_of image)

  -- The image is stored, and no other sector was touched.
  record KeptImage (m : Machine spi.Flash) (pieces : List (List ℕ)) : Type 0 where
    all : joined pieces ≡ image
    chunked : Chunked pieces
    stored : Stored spi m.flash slot pieces
    kept : Kept spi works f m.flash slot (length pieces)

  signature :
      (c : HttpClient)
      → c.url ≡ url
      → (hash : List ℕ) → check_signature d c hash ≡ check_text d sig hash
  unfolding check_signature
  signature c e hash =
      let behind : List ℕ = c.host ++ c.buf in
      let split : url ++ behind ≡ page ++ 63 ∷ (sig ++ 0 ∷ (pad ++ behind)) = simp append_assoc in
      let found : after_mark (c.url ++ behind) ≡ some sig =
        rw (e, split) (after_mark-page page sig (pad ++ behind) plain text) in
      rw (found, check_signature) refl

  finished :
      (m : Machine spi.Flash) (pieces : List (List ℕ)) (tail : List ℕ)
      → Going' [] m pieces tail []
      → (m' : Machine spi.Flash) × (finish_upload spi d m ≡ judged m' verdict) × KeptImage m' pieces
  finished m pieces tail v =
      let small : length image * 8 < 4294967296 =
        ground (arith, ota_size_kb-IsSize d.flash_map kb runs.supported, limit) in
      let (m', e, all, flash) =
        finish_upload-Ready spi works f s slot id url image d m pieces tail v whole small in
      (
        m',
        e ∙ ap (judged m') (signature m.client v.holds.page (sha256_of image)),
        record {
          all = all;
          chunked = v.chunked;
          stored = rw flash v.holds.wrote.stored;
          kept = rw flash v.holds.wrote.kept;
        },
      )

  -- From any point on.
  upload_from :
      (chunks : List (List ℕ)) (m : Machine spi.Flash) (pieces : List (List ℕ)) (tail rest : List ℕ)
      → Going' (joined chunks) m pieces tail rest
      → All (λ c. length c ≤ buf_capacity) chunks
      → (m' : Machine spi.Flash) × (pieces' : List (List ℕ)) × (receive_rest spi d id
            (take_upload spi d m)
            chunks
          ≡ some (judged m' verdict))
        × KeptImage m' pieces'
  unfolding receive_rest
  upload_from [] m pieces tail rest v fits =
      let (m1, p1, t1, v1, cases) =
        take_upload-Ready spi works f s d kb id url image runs limit [] m pieces tail rest v in
      elim cases [
        | inl (more, _) ↦ absurd (omega (arith, more))
        | inr (_, e1) ↦ let (m2, e2, k) = finished m1 p1 t1 v1 in (m2, p1, ap some (e1 ∙ e2), k)
      ]
  upload_from (c ∷ cs) m pieces tail rest v fits =
      let (m1, p1, t1, v1, cases) =
        take_upload-Ready spi works f s d kb id url image runs limit (c ++ joined cs) m pieces tail
          rest v in
      elim cases [
        | inl (_, e1) ↦
            let (er, v2) =
              receive-Ready spi works f s d kb id url image runs limit c (joined cs) m1 p1 t1 v1
                fits.0 in
            let (m3, p3, t3, e3, v3) =
              push-Ready spi works f s d kb id url image runs limit (joined cs)
                (record m1 { client = append_bytes m1.client c }) p1 t1 c v2 in
            let (m4, p4, e4, k) = upload_from cs m3 p3 t3 c v3 fits.1 in
            (m4, p4, rw (e1, receive_rest) (rw (er, receive_rest) (rw e3 e4)), k)
        | inr (none_left, e1) ↦
            let nothing : c ++ joined cs ≡ [] = no_bytes (c ++ joined cs) none_left in
            let (m2, e2, k) = finished m1 p1 t1 (rw nothing at v1) in
            (m2, p1, rw (e1 ∙ e2) (judged-receive_rest spi d id m2 verdict (c ∷ cs)), k)
      ]

-- An upload to a device that runs an application from one of the two slots of a supported flash, where
-- the flash works: the page's name and the signature stand in the URL, and the body arrives in any
-- pieces that fit the client's buffer, some of it before the first call; and it is no larger than the
-- slot allows. Then the reply is what the
-- signature says of the SHA-256 of the body, every byte of the body stands in the other slot, and no
-- sector outside of the written ones is changed.
pub upload_lem :
    (spi : Spi)
    → Works spi
    → (d : Device) (kb id : ℕ) (m : Machine spi.Flash) (page sig pad image : List ℕ)
      (chunks : List (List ℕ))
    → Runs d kb
    → All IsPlain page
    → All (λ c. c ≢ 0) sig
    → All (λ c. length c ≤ buf_capacity) chunks
    → length m.ota.sha256.buf ≡ 64
    → Fresh spi m kb (page ++ 63 ∷ (sig ++ 0 ∷ pad)) image (joined chunks)
    → (m' : Machine spi.Flash) × (receive_rest spi d id (http_url_ota_push spi d id m) chunks
        ≡ some (judged m' (check_text d sig (sha256_of image))))
      × ((i : ℕ)
          → i < length image
          → get_or (spi.sector m'.flash (free_sector kb d.userbin_addr + i / 4096)) (i % 4096) 0
            ≡ get_or image i 0)
      × ((t : ℕ)
          → (t < free_sector kb d.userbin_addr)
            ⊎ (free_sector kb d.userbin_addr + (length image + 4095) / 4096 ≤ t)
          → spi.sector m'.flash t ≡ spi.sector m.flash t)
upload_lem spi works d kb id m page sig pad image chunks runs plain text fits whole fresh =
    let s : BlockState = m.ota.sha256 in
    let url : List ℕ = page ++ 63 ∷ (sig ++ 0 ∷ pad) in
    let b : ℕ = free_sector kb d.userbin_addr in
    let (m0, e0, v0) =
      begun-Ready spi works m.flash s d kb id m url image (joined chunks) runs fresh refl
        (λ t. refl) in
    let start : http_url_ota_push spi d id m ≡ take_upload spi d m0 =
      go_on spi works m.flash s d kb id url image runs fresh.limit (joined chunks) m m0 [] []
        (arrived m.client) e0 v0 in
    let (m', ps, e, k) =
      upload_from spi works m.flash s d kb id page sig pad image runs plain text fresh.limit whole
        chunks m0 [] [] (arrived m.client) v0 fits in
    let count : length ps ≡ (length image + 4095) / 4096 =
      Chunked-count ps k.chunked ∙ ap (λ q. (length q + 4095) / 4096) k.all in
    (
      m',
      rw start e,
      λ i h.
          Stored-byte spi m'.flash ps b i k.chunked k.stored (rw k.all h)
          ∙ ap (λ q. get_or q i 0) k.all,
      λ t out. k.kept t (rw count out),
    )
