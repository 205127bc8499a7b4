-- ===== src/Crypto/Sha256/Tests.antt =====
-- Runs of crypto/sha256.c.
use esp8266_toolbox.Base.{◌≡◌, refl, [], ◌∷◌, replicate, arith}
use esp8266_toolbox.Base.Memory
use esp8266_toolbox.Crypto.Block
use esp8266_toolbox.Crypto.Block.{BlockState}
use esp8266_toolbox.Crypto.Block.Feed.{hash}
use esp8266_toolbox.Crypto.Sha256.{
  sha256_init, sha256_proc, sha256_done, sha256_consume, big_trailer, big_bytes, sha256_start,
}
use esp8266_toolbox.Crypto.Sha256.Refine.{sha256_pieces, sha256_refines}

abbrev uninitialised : BlockState
uninitialised = record { buf = replicate 64 7; buflen = 9; totallen = 9; h = [] }

-- The digest of the FIPS 180 example "abc".
digest_abc :
    (sha256_done (sha256_proc (sha256_init uninitialised) (97 ∷ 98 ∷ 99 ∷ []))).1
    ≡ 0xba ∷ 0x78 ∷ 0x16 ∷ 0xbf ∷ 0x8f ∷ 0x01 ∷ 0xcf ∷ 0xea ∷ 0x41 ∷ 0x41 ∷ 0x40 ∷ 0xde ∷ 0x5d
      ∷ 0xae ∷ 0x22 ∷ 0x23 ∷ 0xb0 ∷ 0x03 ∷ 0x61 ∷ 0xa3 ∷ 0x96 ∷ 0x17 ∷ 0x7a ∷ 0x9c ∷ 0xb4 ∷ 0x10
      ∷ 0xff ∷ 0x61 ∷ 0xf2 ∷ 0x00 ∷ 0x15 ∷ 0xad ∷ []
unfolding sha256_init sha256_proc sha256_done sha256_consume Block.proc Block.proc_loop Block.round
    Memory.overlay Block.done_block Block.pad_end Memory.bzero
digest_abc = refl

sha256_refines_example :
    (sha256_done (sha256_pieces (sha256_init uninitialised) ((97 ∷ []) ∷ (98 ∷ 99 ∷ []) ∷ []))).1
    ≡ big_bytes (hash sha256_consume big_trailer sha256_start (97 ∷ 98 ∷ 99 ∷ []))
sha256_refines_example =
    sha256_refines uninitialised ((97 ∷ []) ∷ (98 ∷ 99 ∷ []) ∷ []) refl (omega arith)
