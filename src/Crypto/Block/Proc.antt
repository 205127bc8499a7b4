-- ===== src/Crypto/Block/Proc.antt =====
-- The copying loop does what feeding the bytes one at a time does.
use native.Mathlib.Decide.{dec_lt}
use esp8266_toolbox.Base.{
  ℕ, zero, suc, ◌+◌, ◌-◌, ◌%◌, ◌≤◌, ◌<◌, ◌≡◌, refl, sym, ◌∙◌, ap, subst, List, [], ◌∷◌, length,
  take, drop, min, length-take, length-drop, take_all, take-append-drop, arith,
}
use esp8266_toolbox.Crypto.Block.{BlockState, round, proc_loop, proc}
use esp8266_toolbox.Crypto.Block.Feed.{Fed, feed, feed-append, feed_short, feed_fill}
use esp8266_toolbox.Base.Memory.{overlay, length-overlay, take-overlay}

-- The state holds the chaining value and the waiting bytes of `f`, and its counters agree with the
-- bytes fed.
pub record Holds (s : BlockState) (f : Fed) : Type 0 where
  pub size : length s.buf ≡ 64
  pub room : s.buflen < 64
  pub waiting : f.pending ≡ take s.buflen s.buf
  pub chain : f.h ≡ s.h
  pub aligned : s.buflen ≡ f.count % 64
  pub counted : (s.totallen + s.buflen) % 4294967296 ≡ f.count % 4294967296

module _ (consume : List ℕ → List ℕ → List ℕ) where
  -- One round with `n` bytes to copy, where `f` is given by its fields.
  round_full :
      (s : BlockState) (count n : ℕ) (chunk : List ℕ) (rest : List ℕ)
      → chunk ≡ take n rest
      → length chunk ≡ n
      → length s.buf ≡ 64
      → s.buflen < 64
      → s.buflen ≡ count % 64
      → (s.totallen + s.buflen) % 4294967296 ≡ count % 4294967296
      → s.buflen + n ≡ 64
      → Holds
          (round consume s rest n)
          (feed consume (record { h = s.h; pending = take s.buflen s.buf; count = count }) chunk)
  unfolding round
  round_full s count n chunk rest e len size room aligned counted full = ground (
    arith,
    length-take s.buflen s.buf,
    length-overlay s.buf s.buflen chunk,
    take-overlay s.buf s.buflen 64 chunk,
    take_all 64 (overlay s.buf s.buflen chunk),
    feed_fill consume s.h (take s.buflen s.buf) count chunk,
  )

  round_part :
      (s : BlockState) (count n : ℕ) (chunk : List ℕ) (rest : List ℕ)
      → chunk ≡ take n rest
      → length chunk ≡ n
      → length s.buf ≡ 64
      → s.buflen < 64
      → s.buflen ≡ count % 64
      → (s.totallen + s.buflen) % 4294967296 ≡ count % 4294967296
      → s.buflen + n < 64
      → Holds
          (round consume s rest n)
          (feed consume (record { h = s.h; pending = take s.buflen s.buf; count = count }) chunk)
  unfolding round
  round_part s count n chunk rest e len size room aligned counted part = ground (
    arith,
    length-take s.buflen s.buf,
    length-overlay s.buf s.buflen chunk,
    take-overlay s.buf s.buflen (s.buflen + n) chunk,
    feed_short consume s.h (take s.buflen s.buf) count chunk,
  )

  round-Holds :
      (s : BlockState) (f : Fed) (rest : List ℕ) (n : ℕ)
      → Holds s f
      → n ≡ min (64 - s.buflen) (length rest)
      → Holds (round consume s rest n) (feed consume f (take n rest))
  round-Holds s f rest n v e =
      subst (λ (g : Fed). Holds (round consume s rest n) (feed consume g (take n rest))) same
        (elim (dec_lt (s.buflen + n) 64) [
          | yes part ↦
              round_part s f.count n (take n rest) rest refl len v.size v.room v.aligned v.counted
                part
          | no full ↦
              round_full s f.count n (take n rest) rest refl len v.size v.room v.aligned v.counted
                (omega arith)
        ])
    where
      len : length (take n rest) ≡ n
      len = omega (arith, length-take n rest)

      same : ◌≡◌ {A = Fed} (record { h = s.h; pending = take s.buflen s.buf; count = f.count }) f
      same = cc (v.waiting, v.chain)

  pub proc_loop-Holds :
      (fuel : ℕ) (s : BlockState) (f : Fed) (xs : List ℕ)
      → length xs ≤ fuel
      → Holds s f
      → Holds (proc_loop consume fuel s xs) (feed consume f xs)
  unfolding proc_loop
  proc_loop-Holds fuel s f [] enough v = unfold feed in v
  proc_loop-Holds zero s f (x ∷ xs) enough v = absurd (omega arith)
  proc_loop-Holds (suc fuel) s f (x ∷ xs) enough v =
      let n : ℕ = min (64 - s.buflen) (length (x ∷ xs)) in
      let next =
        proc_loop-Holds fuel (round consume s (x ∷ xs) n) (feed consume f (take n (x ∷ xs)))
          (drop n (x ∷ xs)) (omega (arith, length-drop n (x ∷ xs), v.room))
          (round-Holds s f (x ∷ xs) n v refl) in
      let joined : feed consume (feed consume f (take n (x ∷ xs))) (drop n (x ∷ xs))
          ≡ feed consume f (x ∷ xs) =
        sym (feed-append consume f (take n (x ∷ xs)) (drop n (x ∷ xs)))
        ∙ ap (feed consume f) (take-append-drop n (x ∷ xs)) in
      subst (λ (g : Fed). Holds (proc_loop consume (suc fuel) s (x ∷ xs)) g) joined (next)

  -- Processing a buffer of any size keeps the correspondence with feeding its bytes.
  pub proc-Holds :
      (s : BlockState) (f : Fed) (xs : List ℕ)
      → Holds s f
      → Holds (proc consume s xs) (feed consume f xs)
  unfolding proc
  proc-Holds s f xs v = proc_loop-Holds (length xs) s f xs (omega arith) v
