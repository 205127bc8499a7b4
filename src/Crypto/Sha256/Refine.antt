-- ===== src/Crypto/Sha256/Refine.antt =====
-- crypto/sha256.c against the hash of the padded message.
use esp8266_toolbox.Base.{ℕ, ◌*◌, ◌<◌, ◌≡◌, refl, ap, List, [], ◌∷◌, length}
use esp8266_toolbox.Crypto.Block.{BlockState}
use esp8266_toolbox.Crypto.Block.Feed.{hash}
use esp8266_toolbox.Crypto.Block.Pieces.{joined, proc_pieces, done-proc_pieces}
use esp8266_toolbox.Crypto.Block.Size.{length-done-proc_pieces}
use esp8266_toolbox.Crypto.Sha256.{
  sha256_start, sha256_init, sha256_consume, sha256_proc, sha256_done, big_trailer, big_bytes,
}

-- One call of `sha256_proc` for each piece.
abbrev pub sha256_pieces : BlockState → List (List ℕ) → BlockState
sha256_pieces s [] = s
sha256_pieces s (piece ∷ pieces) = sha256_pieces (sha256_proc s piece) pieces

length-big_trailer : (n : ℕ) → length (big_trailer n) ≡ 8
unfolding big_trailer
length-big_trailer n = refl

pieces_lem :
    (pieces : List (List ℕ)) (s : BlockState)
    → sha256_pieces s pieces ≡ proc_pieces sha256_consume s pieces
unfolding sha256_proc proc_pieces
pieces_lem [] s = refl
pieces_lem (piece ∷ pieces) s = pieces_lem pieces (sha256_proc s piece)

-- For a message below 2^29 bytes in any pieces, and whatever the 64 bytes of the buffer held, the digest is the one of the padded message, fed in whole 64-byte blocks.
pub sha256_refines :
    (s : BlockState) (pieces : List (List ℕ))
    → length s.buf ≡ 64
    → length (joined pieces) * 8 < 4294967296
    → (sha256_done (sha256_pieces (sha256_init s) pieces)).1
      ≡ big_bytes (hash sha256_consume big_trailer sha256_start (joined pieces))
unfolding sha256_init sha256_done
sha256_refines s pieces size small = rw pieces_lem (
    ap big_bytes (
      done-proc_pieces sha256_consume big_trailer length-big_trailer sha256_start s.buf pieces size
        small))

-- The buffer keeps its size.
pub length-sha256_done :
    (s : BlockState) (pieces : List (List ℕ))
    → length s.buf ≡ 64
    → length ((sha256_done (sha256_pieces (sha256_init s) pieces)).0).buf ≡ 64
unfolding sha256_init sha256_done
length-sha256_done s pieces size = rw pieces_lem (
    length-done-proc_pieces sha256_consume big_trailer length-big_trailer sha256_start s.buf pieces
      size)

pub sha256_init-sha256_init : (s : BlockState) → sha256_init (sha256_init s) ≡ sha256_init s
unfolding sha256_init
sha256_init-sha256_init s = refl
