-- ===== src/Crypto/Block/Size.antt =====
-- The 64 bytes of the buffer stay 64 bytes in the `_proc` and `_done` functions of crypto/sha256.c and
-- crypto/md5.c, so that a state can be used for a second message.
use esp8266_toolbox.Base.{
  ℕ, ◌+◌, ◌-◌, ◌*◌, ◌≤◌, ◌<◌, ◌≡◌, refl, ◌∙◌, inl, inr, Bool-cases, ltb, List, [], ◌∷◌, length,
  replicate, length-replicate, arith,
}
use esp8266_toolbox.Base.Bits.{u32}
use esp8266_toolbox.Base.Memory.{overlay, bzero, length-overlay}
use esp8266_toolbox.Crypto.Block.{BlockState, pad_end, done_block}
use esp8266_toolbox.Crypto.Block.Feed.{Fed}
use esp8266_toolbox.Crypto.Block.Pieces.{proc_pieces, proc_pieces-Holds}
use esp8266_toolbox.Crypto.Block.Proc.{Holds}

pub length-bzero :
    (dest : List ℕ) (at n : ℕ) → at + n ≤ length dest → length (bzero dest at n) ≡ length dest
unfolding bzero
length-bzero dest at n h =
    length-overlay dest at (replicate n 0) (omega (arith, length-replicate {A = ℕ} n 0))

module _ (consume : List ℕ → List ℕ → List ℕ) (trailer : ℕ → List ℕ)
    (eight : (n : ℕ) → length (trailer n) ≡ 8) where
  length-pad_end :
      (s : BlockState) → length s.buf ≡ 64 → s.buflen < 64 → length (pad_end consume s).buf ≡ 64
  unfolding pad_end
  length-pad_end s size room =
      let marked : List ℕ = overlay s.buf s.buflen (0x80 ∷ []) in
      let m : length marked ≡ 64 = length-overlay s.buf s.buflen (0x80 ∷ []) (omega arith) ∙ size in
      elim (Bool-cases (ltb s.buflen 56)) [
        | inl p ↦
            rw p
              (length-bzero marked (s.buflen + 1) (56 - (s.buflen + 1)) (ground (arith, p, m)) ∙ m)
        | inr p ↦
            let first : length (bzero marked (s.buflen + 1) (64 - (s.buflen + 1))) ≡ 64 =
              length-bzero marked (s.buflen + 1) (64 - (s.buflen + 1)) (omega (arith, m, room))
              ∙ m in
            rw p (
              length-bzero (bzero marked (s.buflen + 1) (64 - (s.buflen + 1))) 0 56
                (omega (arith, first))
              ∙ first)
      ]

  pub length-done_block :
      (s : BlockState)
      → length s.buf ≡ 64
      → s.buflen < 64
      → length (done_block consume trailer s).buf ≡ 64
  unfolding done_block
  length-done_block s size room =
      let p = pad_end consume s in
      let h = length-pad_end s size room in
      let tr : List ℕ = trailer (u32 (p.totallen * 8)) in
      length-overlay p.buf 56 tr (omega (arith, h, eight (u32 (p.totallen * 8)))) ∙ h

  pub length-done-proc_pieces :
      (start buf : List ℕ) (pieces : List (List ℕ))
      → length buf ≡ 64
      → length
          (done_block consume trailer (
            proc_pieces consume
              (record { buf = buf; buflen = 0; totallen = 0; h = start })
              pieces)).buf
        ≡ 64
  length-done-proc_pieces start buf pieces size =
      let f : Fed = record { h = start; pending = []; count = 0 } in
      let s : BlockState = record { buf = buf; buflen = 0; totallen = 0; h = start } in
      let fresh : Holds s f = record {
        size = size;
        room = omega arith;
        waiting = refl;
        chain = refl;
        aligned = refl;
        counted = refl;
      } in
      let v = proc_pieces-Holds consume pieces s f fresh in
      length-done_block (proc_pieces consume s pieces) v.size v.room
