-- ===== src/Http/Ota/Finish.antt =====
-- The end of an upload: both hashes are the one of the application, and the signature decides.
use esp8266_toolbox.Base.{
  ℕ, zero, suc, ◌+◌, ◌*◌, ◌≤◌, ◌<◌, ◌≡◌, refl, sym, ap, ◌∙◌, true, List, [], ◌∷◌, ◌++◌, append-nil,
  length, arith,
}
use esp8266_toolbox.Crypto.Block.{BlockState}
use esp8266_toolbox.Crypto.Block.Feed
use esp8266_toolbox.Crypto.Block.Pieces.{joined}
use esp8266_toolbox.Crypto.Sha256.{
  big_bytes, big_trailer, sha256_consume, sha256_done, sha256_start,
}
use esp8266_toolbox.Crypto.Sha256.Refine.{length-sha256_done, sha256_refines}
use esp8266_toolbox.Crypto.Sha256.Size.{length-sha256}
use esp8266_toolbox.Http.Ota.{
  compare_hashes, digest, done, finish_upload, judged, Machine, read_back, restart,
}
use esp8266_toolbox.Http.Ota.Verify.{check_signature, Device, same_strings}
use esp8266_toolbox.Http.Ota.Flash.{Spi}
use esp8266_toolbox.Http.Ota.ReadBack.{read_back-Stored}
use esp8266_toolbox.Http.Ota.Rounds.{Ready}
use esp8266_toolbox.Http.Ota.Sector.{Works}

-- The SHA-256 of a message.
abbrev pub sha256_of : List ℕ → List ℕ
sha256_of m = big_bytes (Feed.hash sha256_consume big_trailer sha256_start m)

same_strings_self : (n : ℕ) (a : List ℕ) → n ≤ length a → same_strings n a a ≡ true
unfolding same_strings
same_strings_self zero a h = refl
same_strings_self (suc n) [] h = absurd (omega (arith, h))
same_strings_self (suc n) (x ∷ a) h = ground (arith, same_strings_self n a (omega (arith, h)))

compare_hashes-same :
    (spi : Spi) (d : Device) (hash1 : List ℕ) (m : Machine spi.Flash)
    → (sha256_done m.ota.sha256).1 ≡ hash1
    → length hash1 ≡ 32
    → compare_hashes spi d hash1 m ≡ judged (digest spi m).0 (check_signature d m.client hash1)
unfolding compare_hashes digest
compare_hashes-same spi d hash1 m e size =
    let test : same_strings 32 hash1 (sha256_done m.ota.sha256).1 ≡ true =
      rw e (same_strings_self 32 hash1 (omega (arith, size))) in
    rw test refl

-- Once the loop that reads back is known.
finish_upload-done :
    (spi : Spi) (d : Device) (m m' : Machine spi.Flash) (hash1 : List ℕ)
    → (sha256_done m.ota.sha256).1 ≡ hash1
    → read_back spi (suc m.ota.appsize) m.ota.newaddr_beg (restart spi (digest spi m).0) ≡ done m'
    → finish_upload spi d m ≡ compare_hashes spi d hash1 m'
unfolding finish_upload digest
finish_upload-done spi d m m' hash1 e e' = rw (e', finish_upload) (rw e refl)

module _ (spi : Spi) (works : Works spi) (f : spi.Flash) (s : BlockState) (b id : ℕ)
    (url image : List ℕ) where
  -- With all of the application written, the reply is what the signature says of its SHA-256.
  pub finish_upload-Ready :
      (d : Device) (m : Machine spi.Flash) (pieces : List (List ℕ)) (tail : List ℕ)
      → Ready spi works f s b id url image [] m pieces tail []
      → length s.buf ≡ 64
      → length image * 8 < 4294967296
      → (m' : Machine spi.Flash) × (finish_upload spi d m
          ≡ judged m' (check_signature d m.client (sha256_of image)))
        × (joined pieces ≡ image)
        × (m'.flash ≡ m.flash)
  unfolding restart digest
  finish_upload-Ready d m pieces tail v size small =
      let none_left : length tail ≡ 0 = v.ended (omega arith) in
      let all : joined pieces ≡ image =
        sym (append-nil (joined pieces))
        ∙ ap (λ q. joined pieces ++ (q ++ [])) (sym (empty tail none_left))
        ∙ v.holds.parts in
      let total : length (joined pieces) * 8 < 4294967296 = rw all small in
      let hash : List ℕ = sha256_of image in
      let first : (sha256_done m.ota.sha256).1 ≡ hash =
        ap (λ q. (sha256_done q).1) v.holds.wrote.hashed
        ∙ sha256_refines s pieces size total
        ∙ ap sha256_of all in
      let again : Machine spi.Flash = restart spi (digest spi m).0 in
      let used : BlockState = (sha256_done m.ota.sha256).0 in
      let whole : length used.buf ≡ 64 =
        ap (λ q. length (sha256_done q).0.buf) v.holds.wrote.hashed
        ∙ length-sha256_done s pieces size in
      let at : b + 0 ≡ b = omega arith in
      let (m', e, hashed, flash, client) =
        read_back-Stored spi works pieces (suc m.ota.appsize) m.ota.newaddr_beg b 0 again
          (omega (arith, v.holds.wrote.start)) v.holds.wrote.start
          (omega (arith, v.holds.appsize, ap (length {A = ℕ}) all)) v.chunked
          (rw at v.holds.wrote.stored) (omega (arith, v.holds.appsize, ap (length {A = ℕ}) all)) in
      let second : (sha256_done m'.ota.sha256).1 ≡ hash =
        ap (λ q. (sha256_done q).1) hashed
        ∙ sha256_refines used pieces whole total
        ∙ ap sha256_of all in
      (
        (digest spi m').0,
        finish_upload-done spi d m m' hash first e
            ∙ compare_hashes-same spi d hash m' second (length-sha256 image)
            ∙ ap (λ q. judged (digest spi m').0 (check_signature d q hash)) client,
        all,
        flash,
      )
    where
      empty : (xs : List ℕ) → length xs ≡ 0 → xs ≡ []
      empty [] e = refl
      empty (x ∷ xs) e = absurd (omega (arith, e))
