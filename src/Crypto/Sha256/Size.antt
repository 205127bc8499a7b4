-- ===== src/Crypto/Sha256/Size.antt =====
-- crypto/sha256.c: a digest is 32 bytes.
use esp8266_toolbox.Base.{
  ℕ, suc, ◌*◌, ◌≡◌, refl, ap, ◌∙◌, Bool-cases, inl, inr, List, [], ◌∷◌, ◌++◌, length, ◌==◌, arith,
}
use esp8266_toolbox.Crypto.Block.Feed.{Fed, feed, feed_byte, hash, padding}
use esp8266_toolbox.Crypto.Sha256.{
  add_words, big_bytes, big_trailer, extend_words, load_words, sha256_consume, sha256_k,
  sha256_round, sha256_rounds, sha256_start,
}

abbrev IsEight : List ℕ → Type 0
IsEight h = length h ≡ 8

rounds-IsEight : (g ks ws : List ℕ) → IsEight g → IsEight (sha256_rounds g ks ws)
unfolding sha256_rounds sha256_round
rounds-IsEight g [] ws eight = eight
rounds-IsEight g (k ∷ ks) [] eight = eight
rounds-IsEight g (k ∷ ks) (w ∷ ws) eight = rounds-IsEight (sha256_round g k w) ks ws refl

length-add_words : (xs ys : List ℕ) → length xs ≡ length ys → length (add_words xs ys) ≡ length xs
unfolding add_words
length-add_words [] ys e = refl
length-add_words (x ∷ xs) [] e = absurd (omega (arith, e))
length-add_words (x ∷ xs) (y ∷ ys) e = ap suc (length-add_words xs ys (omega (arith, e)))

consume-IsEight : (h chunk : List ℕ) → IsEight h → IsEight (sha256_consume h chunk)
unfolding sha256_consume
consume-IsEight h chunk eight =
    let mixed = rounds-IsEight h sha256_k (extend_words 48 16 (load_words chunk)) eight in
    length-add_words h (sha256_rounds h sha256_k (extend_words 48 16 (load_words chunk)))
      (omega (arith, eight, mixed))
    ∙ eight

feed_byte-IsEight : (f : Fed) (x : ℕ) → IsEight f.h → IsEight (feed_byte sha256_consume f x).h
unfolding feed_byte
feed_byte-IsEight f x eight = elim (Bool-cases (length (f.pending ++ (x ∷ [])) == 64)) [
  | inl p ↦ rw p (consume-IsEight f.h (f.pending ++ (x ∷ [])) eight)
  | inr p ↦ rw p eight
]

feed-IsEight : (xs : List ℕ) (f : Fed) → IsEight f.h → IsEight (feed sha256_consume f xs).h
unfolding feed
feed-IsEight [] f eight = eight
feed-IsEight (x ∷ xs) f eight =
    feed-IsEight xs (feed_byte sha256_consume f x) (feed_byte-IsEight f x eight)

length-big_bytes : (h : List ℕ) → length (big_bytes h) ≡ 4 * length h
unfolding big_bytes
length-big_bytes [] = refl
length-big_bytes (x ∷ h) = omega (arith, length-big_bytes h)

pub length-sha256 :
    (m : List ℕ) → length (big_bytes (hash sha256_consume big_trailer sha256_start m)) ≡ 32
unfolding hash
length-sha256 m =
    let f : Fed = record { h = sha256_start; pending = []; count = 0 } in
    omega (
      arith,
      length-big_bytes (feed sha256_consume f (m ++ padding big_trailer (length m))).h,
      feed-IsEight (m ++ padding big_trailer (length m)) f refl,
    )
