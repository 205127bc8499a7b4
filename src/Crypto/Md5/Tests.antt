-- ===== src/Crypto/Md5/Tests.antt =====
-- Runs of crypto/md5.c.
use esp8266_toolbox.Base.{◌≡◌, refl, [], ◌∷◌, replicate, arith}
use esp8266_toolbox.Base.Memory
use esp8266_toolbox.Crypto.Block
use esp8266_toolbox.Crypto.Block.Feed.{hash}
use esp8266_toolbox.Crypto.Md5.{md5, md5_consume, little_trailer, little_bytes, md5_start}
use esp8266_toolbox.Crypto.Md5.Refine.{md5_lem}

-- The digest of the RFC 1321 example "abc".
digest_abc :
    md5 (replicate 64 7) (97 ∷ 98 ∷ 99 ∷ [])
    ≡ 0x90 ∷ 0x01 ∷ 0x50 ∷ 0x98 ∷ 0x3c ∷ 0xd2 ∷ 0x4f ∷ 0xb0 ∷ 0xd6 ∷ 0x96 ∷ 0x3f ∷ 0x7d ∷ 0x28
      ∷ 0xe1 ∷ 0x7f ∷ 0x72 ∷ []
unfolding md5 md5_consume Block.proc Block.proc_loop Block.round Memory.overlay Block.done_block
    Block.pad_end Memory.bzero
digest_abc = refl

md5_lem_example :
    md5 (replicate 64 7) (97 ∷ 98 ∷ [])
    ≡ little_bytes (hash md5_consume little_trailer md5_start (97 ∷ 98 ∷ []))
md5_lem_example = md5_lem (replicate 64 7) (97 ∷ 98 ∷ []) refl (omega arith)
