-- ===== src/Crypto/Block.antt =====
-- The buffering that crypto/sha256.c and crypto/md5.c share word for word: 64-byte blocks are
-- collected and handed to the file's compression function, which is a parameter here.
pub mod Feed
pub mod Proc
pub mod Done
pub mod Pieces
pub mod Size
use esp8266_toolbox.Base.{
  ℕ, zero, suc, ◌+◌, ◌-◌, ◌*◌, min, List, [], ◌∷◌, length, take, drop, ltb, ◌==◌, if◌then◌else◌,
}
use esp8266_toolbox.Base.Bits.{u32}
use esp8266_toolbox.Base.Memory.{overlay, bzero}

-- `Sha256State` and `Md5State`: `buflen` bytes of `buf` are in use.
pub record BlockState : Type 0 where
  pub buf : List ℕ
  pub buflen : ℕ
  pub totallen : ℕ
  pub h : List ℕ

module _ (consume : List ℕ → List ℕ → List ℕ) where
  -- The part of the loop behind the copy: a full buffer is consumed.
  unfoldable pub flush : BlockState → BlockState
  flush s =
      if s.buflen == 64
      then record s { h = consume s.h s.buf; buflen = 0; totallen = u32 (s.totallen + 64) }
      else s

  -- One round of the `while` loop, which copies `len2` bytes.
  unfoldable pub round : BlockState → List ℕ → ℕ → BlockState
  unfolding flush
  round s rest len2 =
      flush (record s { buf = overlay s.buf s.buflen (take len2 rest); buflen = s.buflen + len2 })

  -- The `while` loop over the bytes that are not used yet, with fuel.
  unfoldable pub proc_loop : ℕ → BlockState → List ℕ → BlockState
  proc_loop fuel s [] = s
  proc_loop zero s (x ∷ rest) = s
  proc_loop (suc fuel) s (x ∷ rest) =
      let len2 = min (64 - s.buflen) (length (x ∷ rest)) in
      proc_loop fuel (round s (x ∷ rest) len2) (drop len2 (x ∷ rest))

  -- Each round takes a byte at least, so as many rounds as bytes are enough.
  unfoldable pub proc : BlockState → List ℕ → BlockState
  proc s buf = proc_loop (length buf) s buf

  -- The end of a message: 0x80, zeros up to the last eight bytes, with a block of its own where
  -- these do not fit, and the length in bits by `trailer`.
  unfoldable pub pad_end : BlockState → BlockState
  pad_end s =
      let marked = overlay s.buf s.buflen (0x80 ∷ []) in
      let used = s.buflen + 1 in
      if ltb s.buflen 56
      then record s {
        buf = bzero marked used (56 - used);
        buflen = used;
        totallen = u32 (s.totallen + s.buflen);
      }
      else record s {
        buf = bzero (bzero marked used (64 - used)) 0 56;
        buflen = used;
        totallen = u32 (s.totallen + s.buflen);
        h = consume s.h (bzero marked used (64 - used));
      }

  unfoldable pub done_block : (ℕ → List ℕ) → BlockState → BlockState
  unfolding pad_end
  done_block trailer s =
      let p = pad_end s in
      let whole = overlay p.buf 56 (trailer (u32 (p.totallen * 8))) in
      record p { buf = whole; h = consume p.h whole }
