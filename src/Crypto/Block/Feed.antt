-- ===== src/Crypto/Block/Feed.antt =====
-- What a block hash is in the abstract: the bytes of the padded message go in one at a time, and
-- each full block is compressed.
use esp8266_toolbox.Base.{
  ℕ, ◌+◌, ◌-◌, ◌*◌, ◌%◌, ◌<◌, ◌≡◌, refl, List, [], ◌∷◌, ◌++◌, append_assoc, append-nil, length,
  length-append, replicate, ◌==◌, if◌then◌else◌, arith,
}

-- The chaining value, the bytes of the block that is not full yet, and the bytes fed so far.
pub record Fed : Type 0 where
  pub h : List ℕ
  pub pending : List ℕ
  pub count : ℕ

-- The padding of a message of `n` bytes: 0x80, as few zeros as fill the last block, the length.
unfoldable pub padding : (ℕ → List ℕ) → ℕ → List ℕ
padding trailer n = 0x80 ∷ (replicate ((119 - n % 64) % 64) 0 ++ trailer (n * 8))

module _ (consume : List ℕ → List ℕ → List ℕ) where
  unfoldable pub feed_byte : Fed → ℕ → Fed
  feed_byte f x =
      let block = f.pending ++ (x ∷ []) in
      if length block == 64
      then record { h = consume f.h block; pending = []; count = f.count + 1 }
      else record f { pending = block; count = f.count + 1 }

  unfoldable pub feed : Fed → List ℕ → Fed
  unfolding feed_byte
  feed f [] = f
  feed f (x ∷ xs) = feed (feed_byte f x) xs

  -- The chaining value after a whole message and its padding.
  unfoldable pub hash : (ℕ → List ℕ) → List ℕ → List ℕ → List ℕ
  unfolding feed padding
  hash trailer start m =
      (feed (record { h = start; pending = []; count = 0 }) (m ++ padding trailer (length m))).h

  pub feed-append : (f : Fed) (xs ys : List ℕ) → feed f (xs ++ ys) ≡ feed (feed f xs) ys
  unfolding feed
  feed-append f [] ys = refl
  feed-append f (x ∷ xs) ys = feed-append (feed_byte f x) xs ys

  pub count-feed : (f : Fed) (xs : List ℕ) → (feed f xs).count ≡ f.count + length xs
  unfolding feed feed_byte
  count-feed f [] = omega arith
  count-feed f (x ∷ xs) = ground (arith, count-feed (feed_byte f x) xs)

  -- Bytes that do not fill the block join those that wait.
  pub feed_short :
      (h p : List ℕ) (n : ℕ) (xs : List ℕ)
      → length p + length xs < 64
      → feed (record { h = h; pending = p; count = n }) xs
        ≡ record { h = h; pending = p ++ xs; count = n + length xs }
  unfolding feed feed_byte
  feed_short h p n [] small = ground (arith, append-nil p)
  feed_short h p n (x ∷ xs) small = ground (
    arith,
    length-append p (x ∷ []),
    append_assoc p (x ∷ []) xs,
    feed_short h (p ++ (x ∷ [])) (n + 1) xs,
  )

  -- Bytes that fill the block make one compression.
  pub feed_fill :
      (h p : List ℕ) (n : ℕ) (xs : List ℕ)
      → length p < 64
      → length p + length xs ≡ 64
      → feed (record { h = h; pending = p; count = n }) xs
        ≡ record { h = consume h (p ++ xs); pending = []; count = n + length xs }
  unfolding feed feed_byte
  feed_fill h p n [] wait full = absurd (omega arith)
  feed_fill h p n (x ∷ []) wait full = ground (arith, length-append p (x ∷ []))
  feed_fill h p n (x ∷ y ∷ xs) wait full = ground (
    arith,
    length-append p (x ∷ []),
    append_assoc p (x ∷ []) (y ∷ xs),
    feed_fill h (p ++ (x ∷ [])) (n + 1) (y ∷ xs),
  )
