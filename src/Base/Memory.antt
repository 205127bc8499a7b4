-- ===== src/Base/Memory.antt =====
-- `os_memcpy` and `os_bzero` into a buffer: what is in front of the bytes that were copied, and the
-- size of the buffer.
use esp8266_toolbox.Base.{
  ℕ, ◌+◌, ◌≤◌, ◌≡◌, ◌≢◌, refl, sym, ◌∙◌, ap, false, List, [], ◌∷◌, ◌++◌, All, ◌==◌, if◌then◌else◌,
  append-nil, append_assoc, length, take, drop, replicate, length-append, length-take, length-drop,
  drop_all, take-append_length, drop-append_length, arith,
}

-- `os_memcpy(dest + at, src, ...)`, and `os_bzero` with zeros as the source.
unfoldable pub overlay : List ℕ → ℕ → List ℕ → List ℕ
overlay dest at src = take at dest ++ (src ++ drop (at + length src) dest)

unfoldable pub bzero : List ℕ → ℕ → ℕ → List ℕ
bzero dest at n = overlay dest at (replicate n 0)

pub length-overlay :
    (dest : List ℕ) (at : ℕ) (src : List ℕ)
    → at + length src ≤ length dest
    → length (overlay dest at src) ≡ length dest
unfolding overlay
length-overlay dest at src h = omega (
  arith,
  length-append (take at dest) (src ++ drop (at + length src) dest),
  length-append src (drop (at + length src) dest),
  length-take at dest,
  length-drop (at + length src) dest,
)

take-prefix {ℓ} : {A : Type ℓ} (n : ℕ) (xs ys : List A) → n ≡ length xs → take n (xs ++ ys) ≡ xs
take-prefix n xs ys e = rw e (take-append_length xs ys)

-- In front of the end of the copy stand the old bytes and then the new ones.
pub take-overlay :
    (dest : List ℕ) (at n : ℕ) (src : List ℕ)
    → n ≡ at + length src
    → n ≤ length dest
    → take n (overlay dest at src) ≡ take at dest ++ src
unfolding overlay
take-overlay dest at n src e h =
    ap (take n) (sym (append_assoc (take at dest) src (drop (at + length src) dest)))
    ∙ take-prefix n (take at dest ++ src) (drop (at + length src) dest)
        (omega (arith, length-append (take at dest) src, length-take at dest))

-- A copy up to the end of the buffer leaves the old bytes and then the new ones.
pub overlay_to_end :
    (dest : List ℕ) (at : ℕ) (src : List ℕ)
    → length dest ≡ at + length src
    → overlay dest at src ≡ take at dest ++ src
unfolding overlay
overlay_to_end dest at src e = rw (drop_all (at + length src) dest (omega arith)) (rw append-nil)

drop-prefix {ℓ} : {A : Type ℓ} (n : ℕ) (xs ys : List A) → n ≡ length xs → drop n (xs ++ ys) ≡ ys
drop-prefix n xs ys e = rw e (drop-append_length xs ys)

-- Two copies in a row read back as one.
pub take-drop-overlay :
    (dest : List ℕ) (at n : ℕ) (xs ys : List ℕ)
    → n ≡ at + length xs
    → n + length ys ≤ length dest
    → take (length xs + length ys) (drop at (overlay (overlay dest at xs) n ys)) ≡ xs ++ ys
take-drop-overlay dest at n xs ys e fits = read (rest (overlay dest at xs))
  where
    rest : List ℕ → List ℕ
    rest inner = drop (n + length ys) inner

    opened :
        overlay (overlay dest at xs) n ys
        ≡ take at dest ++ ((xs ++ ys) ++ rest (overlay dest at xs))
    opened =
        unfold overlay in
        ap (λ (p : List ℕ). p ++ (ys ++ rest (overlay dest at xs)))
          (take-overlay dest at n xs e (omega arith))
        ∙ append_assoc (take at dest) xs (ys ++ rest (overlay dest at xs))
        ∙ ap (λ (p : List ℕ). take at dest ++ p)
            (sym (append_assoc xs ys (rest (overlay dest at xs))))

    read :
        (r : List ℕ)
        → take (length xs + length ys) (drop at (overlay (overlay dest at xs) n ys)) ≡ xs ++ ys
    read r =
        ap (λ (w : List ℕ). take (length xs + length ys) (drop at w)) opened
        ∙ ap (take (length xs + length ys)) (
            drop-prefix at (take at dest) ((xs ++ ys) ++ rest (overlay dest at xs))
              (omega (arith, length-take at dest)))
        ∙ take-prefix (length xs + length ys) (xs ++ ys) (rest (overlay dest at xs))
            (omega (arith, length-append xs ys))

-- The C string at the front of the memory.
unfoldable pub text_of : List ℕ → List ℕ
text_of [] = []
text_of (c ∷ memory) = if c == 0 then [] else c ∷ text_of memory

pub text_of-nul : (text more : List ℕ) → All (λ c. c ≢ 0) text → text_of (text ++ 0 ∷ more) ≡ text
unfolding text_of
text_of-nul [] more h = refl
text_of-nul (c ∷ text) more h =
    let p : (c == 0) ≡ false = ground (arith, h.0) in
    rw p (ap (λ r. c ∷ r) (text_of-nul text more h.1))
