-- ===== src/Crypto/Md5/Size.antt =====
-- crypto/md5.c: a digest is 16 bytes.
use esp8266_toolbox.Base.{
  ℕ, zero, suc, ◌+◌, ◌-◌, ◌*◌, ◌≡◌, refl, ap, ◌∙◌, Bool-cases, inl, inr, List, [], ◌∷◌, length, All,
  drop, take, min, ltb, ◌==◌, arith,
}
use esp8266_toolbox.Base.Memory.{overlay}
use esp8266_toolbox.Crypto.Block
use esp8266_toolbox.Crypto.Block.{BlockState}
use esp8266_toolbox.Crypto.Base64.RoundTrip.{IsByte}
use esp8266_toolbox.Crypto.Md5.{
  add_words, little_bytes, little_trailer, md5, md5_consume, md5_done, md5_init, md5_proc,
  md5_round, md5_rounds, load_words,
}

abbrev IsFour : List ℕ → Type 0
IsFour h = length h ≡ 4

rounds-IsFour : (n : ℕ) (m h : List ℕ) (i : ℕ) → IsFour h → IsFour (md5_rounds n m h i)
unfolding md5_rounds md5_round
rounds-IsFour zero m h i four = four
rounds-IsFour (suc n) m h i four = rounds-IsFour n m (md5_round m h i) (i + 1) refl

length-add_words : (xs ys : List ℕ) → length xs ≡ length ys → length (add_words xs ys) ≡ length xs
unfolding add_words
length-add_words [] ys e = refl
length-add_words (x ∷ xs) [] e = absurd (omega (arith, e))
length-add_words (x ∷ xs) (y ∷ ys) e = ap suc (length-add_words xs ys (omega (arith, e)))

consume-IsFour : (h chunk : List ℕ) → IsFour h → IsFour (md5_consume h chunk)
unfolding md5_consume
consume-IsFour h chunk four =
    let mixed = rounds-IsFour 64 (load_words chunk) h 0 four in
    length-add_words h (md5_rounds 64 (load_words chunk) h 0) (omega (arith, four, mixed)) ∙ four

flush-IsFour : (s : BlockState) → IsFour s.h → IsFour (Block.flush md5_consume s).h
unfolding Block.flush
flush-IsFour s four = elim (Bool-cases (s.buflen == 64)) [
  | inl p ↦ rw p (consume-IsFour s.h s.buf four)
  | inr p ↦ rw p four
]

loop-IsFour :
    (fuel : ℕ) (s : BlockState) (bytes : List ℕ)
    → IsFour s.h
    → IsFour (Block.proc_loop md5_consume fuel s bytes).h
unfolding Block.proc_loop Block.round
loop-IsFour fuel s [] four = four
loop-IsFour zero s (x ∷ bytes) four = four
loop-IsFour (suc fuel) s (x ∷ bytes) four =
    let n : ℕ = min (64 - s.buflen) (length (x ∷ bytes)) in
    let filled : BlockState = record s {
      buf = overlay s.buf s.buflen (take n (x ∷ bytes));
      buflen = s.buflen + n;
    } in
    loop-IsFour fuel (Block.round md5_consume s (x ∷ bytes) n) (drop n (x ∷ bytes))
      (flush-IsFour filled four)

done-IsFour :
    (trailer : ℕ → List ℕ) (s : BlockState)
    → IsFour s.h
    → IsFour (Block.done_block md5_consume trailer s).h
unfolding Block.done_block Block.pad_end
done-IsFour trailer s four = elim (Bool-cases (ltb s.buflen 56)) [
  | inl p ↦ rw p (consume-IsFour _ _ four)
  | inr p ↦ rw p (consume-IsFour _ _ (consume-IsFour _ _ four))
]

little_bytes_size :
    (h : List ℕ) → (length (little_bytes h) ≡ 4 * length h) × All IsByte (little_bytes h)
unfolding little_bytes
little_bytes_size [] = (refl, tt)
little_bytes_size (x ∷ h) =
    let (len, bytes) = little_bytes_size h in
    (omega (arith, len), (omega arith, (omega arith, (omega arith, (omega arith, bytes)))))

pub md5_size : (stack buf : List ℕ) → (length (md5 stack buf) ≡ 16) × All IsByte (md5 stack buf)
unfolding md5 md5_init md5_proc md5_done Block.proc
md5_size stack buf =
    let start : BlockState = md5_init (record { buf = stack; buflen = 0; totallen = 0; h = [] }) in
    let fed = md5_proc start buf in
    let four : IsFour (Block.done_block md5_consume little_trailer fed).h =
      done-IsFour little_trailer fed (loop-IsFour (length buf) start buf refl) in
    let (len, bytes) = little_bytes_size (Block.done_block md5_consume little_trailer fed).h in
    (omega (arith, len, four), bytes)
