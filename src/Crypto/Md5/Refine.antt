-- ===== src/Crypto/Md5/Refine.antt =====
-- crypto/md5.c against the hash of the padded message.
use esp8266_toolbox.Base.{ℕ, ◌*◌, ◌<◌, ◌≡◌, refl, ap, ◌∙◌, List, [], ◌∷◌, append-nil, length}
use esp8266_toolbox.Crypto.Block.{BlockState}
use esp8266_toolbox.Crypto.Block.Feed.{hash}
use esp8266_toolbox.Crypto.Block.Pieces.{joined, proc_pieces, done-proc_pieces}
use esp8266_toolbox.Crypto.Md5.{
  md5_start, md5_init, md5_consume, md5_proc, md5_done, little_trailer, little_bytes, md5,
}

-- One call of `md5_proc` for each piece.
abbrev pub md5_pieces : BlockState → List (List ℕ) → BlockState
md5_pieces s [] = s
md5_pieces s (piece ∷ pieces) = md5_pieces (md5_proc s piece) pieces

length-little_trailer : (n : ℕ) → length (little_trailer n) ≡ 8
unfolding little_trailer
length-little_trailer n = refl

pieces_lem :
    (pieces : List (List ℕ)) (s : BlockState)
    → md5_pieces s pieces ≡ proc_pieces md5_consume s pieces
unfolding md5_proc proc_pieces
pieces_lem [] s = refl
pieces_lem (piece ∷ pieces) s = pieces_lem pieces (md5_proc s piece)

-- For a message below 2^29 bytes in any pieces, and whatever the 64 bytes of the buffer held, the digest is the one of the padded message, fed in whole 64-byte blocks.
pub md5_refines :
    (s : BlockState) (pieces : List (List ℕ))
    → length s.buf ≡ 64
    → length (joined pieces) * 8 < 4294967296
    → (md5_done (md5_pieces (md5_init s) pieces)).1
      ≡ little_bytes (hash md5_consume little_trailer md5_start (joined pieces))
unfolding md5_init md5_done
md5_refines s pieces size small = rw pieces_lem (
    ap little_bytes (
      done-proc_pieces md5_consume little_trailer length-little_trailer md5_start s.buf pieces size
        small))

-- `md5` of a buffer below 2^29 bytes is the digest of the padded buffer, whatever its local state held.
pub md5_lem :
    (stack buf : List ℕ)
    → length stack ≡ 64
    → length buf * 8 < 4294967296
    → md5 stack buf ≡ little_bytes (hash md5_consume little_trailer md5_start buf)
unfolding md5
md5_lem stack buf size small =
    md5_refines (record { buf = stack; buflen = 0; totallen = 0; h = [] }) (buf ∷ []) size
      (rw append-nil small)
    ∙ ap (λ (m : List ℕ). little_bytes (hash md5_consume little_trailer md5_start m))
        (append-nil buf)
