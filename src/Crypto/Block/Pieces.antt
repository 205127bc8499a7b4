-- ===== src/Crypto/Block/Pieces.antt =====
-- A message that arrives in pieces hashes as a whole: the counterpart of calling the `_init`,
-- `_proc` and `_done` functions of crypto/sha256.c and crypto/md5.c in order.
use esp8266_toolbox.Base.{
  ℕ, ◌*◌, ◌<◌, ◌≡◌, refl, sym, ◌∙◌, ap, subst, List, [], ◌∷◌, ◌++◌, length, arith,
}
use esp8266_toolbox.Crypto.Block.{BlockState, proc, done_block}
use esp8266_toolbox.Crypto.Block.Feed.{Fed, feed, padding, hash, feed-append, count-feed}
use esp8266_toolbox.Crypto.Block.Proc.{Holds, proc-Holds}
use esp8266_toolbox.Crypto.Block.Done.{done-Holds}

-- The bytes of the pieces in order.
abbrev pub joined : List (List ℕ) → List ℕ
joined [] = []
joined (piece ∷ pieces) = piece ++ joined pieces

module _ (consume : List ℕ → List ℕ → List ℕ) where
  -- One call of `proc` for each piece.
  unfoldable pub proc_pieces : BlockState → List (List ℕ) → BlockState
  proc_pieces s [] = s
  proc_pieces s (piece ∷ pieces) = proc_pieces (proc consume s piece) pieces

  pub proc_pieces-Holds :
      (pieces : List (List ℕ)) (s : BlockState) (f : Fed)
      → Holds s f
      → Holds (proc_pieces s pieces) (feed consume f (joined pieces))
  proc_pieces-Holds [] s f v = unfold proc_pieces feed in v
  proc_pieces-Holds (piece ∷ pieces) s f v =
      subst (λ (g : Fed). Holds (proc_pieces s (piece ∷ pieces)) g)
        (sym (feed-append consume f piece (joined pieces)))
        (step (
          proc_pieces-Holds pieces (proc consume s piece) (feed consume f piece)
            (proc-Holds consume s f piece v)))
    where
      step :
          Holds
            (proc_pieces (proc consume s piece) pieces)
            (feed consume (feed consume f piece) (joined pieces))
          → Holds
              (proc_pieces s (piece ∷ pieces))
              (feed consume (feed consume f piece) (joined pieces))
      step h = unfold proc_pieces in h

  pub done-proc_pieces :
      (trailer : ℕ → List ℕ)
      → ((n : ℕ) → length (trailer n) ≡ 8)
      → (start buf : List ℕ) (pieces : List (List ℕ)) → length buf ≡ 64
      → length (joined pieces) * 8 < 4294967296
      → (done_block consume trailer
          (proc_pieces (record { buf = buf; buflen = 0; totallen = 0; h = start }) pieces)).h
        ≡ hash consume trailer start (joined pieces)
  unfolding hash
  done-proc_pieces trailer eight start buf pieces size small =
      let f : Fed = record { h = start; pending = []; count = 0 } in
      let m = joined pieces in
      let s : BlockState = record { buf = buf; buflen = 0; totallen = 0; h = start } in
      let fresh : Holds s f = record {
        size = size;
        room = omega arith;
        waiting = refl;
        chain = refl;
        aligned = refl;
        counted = refl;
      } in
      let all : (feed consume f m).count ≡ length m = count-feed consume f m ∙ omega arith in
      done-Holds consume trailer eight (proc_pieces s pieces) (feed consume f m)
        (proc_pieces-Holds pieces s f fresh) (rw all small)
      ∙ ap (λ (n : ℕ). (feed consume (feed consume f m) (padding trailer n)).h) all
      ∙ ap (λ (g : Fed). g.h) (sym (feed-append consume f m (padding trailer (length m))))
