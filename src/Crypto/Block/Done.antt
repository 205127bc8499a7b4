-- ===== src/Crypto/Block/Done.antt =====
-- The end of a message: the padding that is written into the buffer is the one of the
-- specification, in one block or in two.
use native.Mathlib.Decide.{dec_lt}
use esp8266_toolbox.Base.{
  ℕ, ◌+◌, ◌-◌, ◌*◌, ◌%◌, ◌≤◌, ◌<◌, ◌≡◌, refl, sym, ◌∙◌, ap, ap₂, subst, false, ltb, List, [], ◌∷◌,
  ◌++◌, append_assoc, length, length-append, length-take, take, replicate, length-replicate,
  replicate-add, arith,
}
use esp8266_toolbox.Base.Bits.{u32}
use esp8266_toolbox.Crypto.Block.{BlockState, pad_end, done_block}
use esp8266_toolbox.Crypto.Block.Feed.{Fed, feed, padding, feed-append, feed_fill}
use esp8266_toolbox.Base.Memory.{overlay, bzero, length-overlay, take-overlay, overlay_to_end}
use esp8266_toolbox.Crypto.Block.Proc.{Holds}

-- The mark and the zeros behind the waiting bytes, with `e` the first position behind them.
module _ (buf : List ℕ) (at : ℕ) (size : length buf ≡ 64) (room : at < 64) where
  abbrev marked : List ℕ
  marked = overlay buf at (0x80 ∷ [])

  abbrev zeros : ℕ → List ℕ
  zeros n = replicate n 0

  length-marked : length marked ≡ 64
  length-marked = length-overlay buf at (0x80 ∷ []) (omega arith) ∙ size

  take-marked : take (at + 1) marked ≡ take at buf ++ (0x80 ∷ [])
  take-marked = take-overlay buf at (at + 1) (0x80 ∷ []) (omega arith) (omega arith)

  -- The block where mark, zeros and trailer fit behind the waiting bytes.
  one_block :
      (tr : List ℕ)
      → at < 56
      → length tr ≡ 8
      → overlay (bzero marked (at + 1) (56 - (at + 1))) 56 tr
        ≡ take at buf ++ (0x80 ∷ (zeros (55 - at) ++ tr))
  unfolding bzero
  one_block tr fits h =
      let z : List ℕ = zeros (56 - (at + 1)) in
      let zl : length z ≡ 56 - (at + 1) = length-replicate (56 - (at + 1)) 0 in
      overlay_to_end (overlay marked (at + 1) z) 56 tr
        (omega (arith, length-overlay marked (at + 1) z, length-marked))
      ∙ ap (λ (p : List ℕ). p ++ tr)
          (take-overlay marked (at + 1) 56 z (omega arith) (omega (arith, length-marked))
            ∙ ap (λ (p : List ℕ). p ++ z) take-marked)
      ∙ append_assoc (take at buf ++ (0x80 ∷ [])) z tr
      ∙ append_assoc (take at buf) (0x80 ∷ []) (z ++ tr)
      ∙ ap (λ (k : ℕ). take at buf ++ (0x80 ∷ (zeros k ++ tr))) (omega arith)

  -- The first of two blocks ends with zeros.
  first_block : bzero marked (at + 1) (64 - (at + 1)) ≡ take at buf ++ (0x80 ∷ zeros (63 - at))
  unfolding bzero
  first_block =
      let z : List ℕ = zeros (64 - (at + 1)) in
      let zl : length z ≡ 64 - (at + 1) = length-replicate (64 - (at + 1)) 0 in
      overlay_to_end marked (at + 1) z (omega (arith, length-marked))
      ∙ ap (λ (p : List ℕ). p ++ z) take-marked
      ∙ append_assoc (take at buf) (0x80 ∷ []) z
      ∙ ap (λ (k : ℕ). take at buf ++ (0x80 ∷ zeros k)) (omega arith)

-- The second of two blocks: 56 zeros and the trailer.
second_block :
    (block tr : List ℕ)
    → length block ≡ 64
    → length tr ≡ 8
    → overlay (bzero block 0 56) 56 tr ≡ replicate 56 0 ++ tr
unfolding bzero
second_block block tr size h =
    overlay_to_end (overlay block 0 (replicate 56 0)) 56 tr
      (omega (arith, length-overlay block 0 (replicate 56 0)))
    ∙ ap (λ (p : List ℕ). p ++ tr) (take-overlay block 0 56 (replicate 56 0) refl (omega arith))

module _ (consume : List ℕ → List ℕ → List ℕ) (trailer : ℕ → List ℕ)
    (eight : (n : ℕ) → length (trailer n) ≡ 8) where
  module _ (s : BlockState) (n : ℕ) (size : length s.buf ≡ 64) (aligned : s.buflen ≡ n % 64)
      (counted : (s.totallen + s.buflen) % 4294967296 ≡ n) (small : n * 8 < 4294967296) where
    bits : u32 (u32 (s.totallen + s.buflen) * 8) ≡ n * 8
    bits = omega arith

    finish_one :
        s.buflen < 56
        → (done_block consume trailer s).h
          ≡ (feed consume
              (record { h = s.h; pending = take s.buflen s.buf; count = n })
              (padding trailer n)).h
    unfolding done_block pad_end padding
    finish_one fits = ground (
      arith,
      bits,
      eight (n * 8),
      one_block s.buf s.buflen size (omega arith) (trailer (n * 8)),
      length-take s.buflen s.buf,
      length-replicate {A = ℕ} ((119 - n % 64) % 64) 0,
      length-append (replicate ((119 - n % 64) % 64) 0) (trailer (n * 8)),
      feed_fill consume s.h (take s.buflen s.buf) n
          (0x80 ∷ (replicate ((119 - n % 64) % 64) 0 ++ trailer (n * 8))),
    )

    split_padding :
        56 ≤ s.buflen
        → s.buflen < 64
        → padding trailer n
          ≡ (0x80 ∷ replicate (63 - s.buflen) 0) ++ (replicate 56 0 ++ trailer (n * 8))
    unfolding padding
    split_padding over room =
        ap (λ (z : List ℕ). 0x80 ∷ (z ++ trailer (n * 8)))
          (ap (λ (k : ℕ). replicate k 0) zeros_left ∙ replicate-add (63 - s.buflen) 56 0)
        ∙ ap (λ (z : List ℕ). 0x80 ∷ z)
            (append_assoc (replicate (63 - s.buflen) 0) (replicate 56 0) (trailer (n * 8)))
      where
        zeros_left : (119 - n % 64) % 64 ≡ (63 - s.buflen) + 56
        zeros_left = omega arith

    -- What is fed in the two blocks.
    feed_two :
        56 ≤ s.buflen
        → s.buflen < 64
        → (feed consume
            (record { h = s.h; pending = take s.buflen s.buf; count = n })
            (padding trailer n)).h
          ≡ consume
              (consume s.h (take s.buflen s.buf ++ (0x80 ∷ replicate (63 - s.buflen) 0)))
              (replicate 56 0 ++ trailer (n * 8))
    feed_two over room = ground (
      arith,
      split_padding over room,
      eight (n * 8),
      length-take s.buflen s.buf,
      length-replicate {A = ℕ} (63 - s.buflen) 0,
      length-append (replicate 56 0) (trailer (n * 8)),
      feed-append consume (record { h = s.h; pending = take s.buflen s.buf; count = n })
          (0x80 ∷ replicate (63 - s.buflen) 0) (replicate 56 0 ++ trailer (n * 8)),
      feed_fill consume s.h (take s.buflen s.buf) n (0x80 ∷ replicate (63 - s.buflen) 0),
      feed_fill consume (consume s.h (take s.buflen s.buf ++ (0x80 ∷ replicate (63 - s.buflen) 0)))
          [] (n + length {A = ℕ} (0x80 ∷ replicate (63 - s.buflen) 0))
          (replicate 56 0 ++ trailer (n * 8)),
    )

    pad_two :
        56 ≤ s.buflen
        → pad_end consume s ≡ record s {
          buf =
              bzero
                (bzero (overlay s.buf s.buflen (0x80 ∷ [])) (s.buflen + 1) (64 - (s.buflen + 1)))
                0
                56;
          buflen = s.buflen + 1;
          totallen = u32 (s.totallen + s.buflen);
          h =
              consume s.h
                (bzero (overlay s.buf s.buflen (0x80 ∷ [])) (s.buflen + 1) (64 - (s.buflen + 1)));
        }
    unfolding pad_end
    pad_two over = rw not_small
      where
        not_small : ltb s.buflen 56 ≡ false
        not_small = ground arith

    first_length :
        s.buflen < 64 → length (take s.buflen s.buf ++ (0x80 ∷ replicate (63 - s.buflen) 0)) ≡ 64
    first_length room = omega (
      arith,
      length-append (take s.buflen s.buf) (0x80 ∷ replicate (63 - s.buflen) 0),
      length-take s.buflen s.buf,
      length-replicate {A = ℕ} (63 - s.buflen) 0,
    )

    finish_two :
        s.buflen < 64
        → 56 ≤ s.buflen
        → (done_block consume trailer s).h
          ≡ (feed consume
              (record { h = s.h; pending = take s.buflen s.buf; count = n })
              (padding trailer n)).h
    unfolding done_block
    finish_two room over =
        let filled : List ℕ =
          bzero (overlay s.buf s.buflen (0x80 ∷ [])) (s.buflen + 1) (64 - (s.buflen + 1)) in
        let first = first_block s.buf s.buflen size room in
        rw (pad_two over) (
          ap₂ consume (ap (consume s.h) first) (
            second_block filled (trailer (u32 (u32 (s.totallen + s.buflen) * 8)))
              (rw first (first_length room)) (eight (u32 (u32 (s.totallen + s.buflen) * 8)))
            ∙ ap (λ (k : ℕ). replicate 56 0 ++ trailer k) bits)
          ∙ sym (feed_two over room))

  -- Finishing after a buffer that arrived in any pieces gives the hash of the whole.
  pub done-Holds :
      (s : BlockState) (f : Fed)
      → Holds s f
      → f.count * 8 < 4294967296
      → (done_block consume trailer s).h ≡ (feed consume f (padding trailer f.count)).h
  done-Holds s f v small =
      subst
        (λ (g : Fed).
          (done_block consume trailer s).h ≡ (feed consume g (padding trailer f.count)).h)
        same
        (elim (dec_lt s.buflen 56) [
          | yes fits ↦ finish_one s f.count v.size v.aligned counted small fits
          | no over ↦ finish_two s f.count v.size v.aligned counted small v.room (omega arith)
        ])
    where
      same : ◌≡◌ {A = Fed} (record { h = s.h; pending = take s.buflen s.buf; count = f.count }) f
      same = cc (v.waiting, v.chain)

      counted : (s.totallen + s.buflen) % 4294967296 ≡ f.count
      counted = omega (arith, v.counted)
