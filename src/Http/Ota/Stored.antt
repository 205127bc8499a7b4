-- ===== src/Http/Ota/Stored.antt =====
-- An application on the flash: sector by sector, and the hash of it.
use esp8266_toolbox.Base.{
  ℕ, zero, suc, ◌+◌, ◌-◌, ◌*◌, ◌/◌, ◌%◌, ◌≤◌, ◌<◌, ◌≡◌, refl, sym, ap, ◌∙◌, List, [], ◌∷◌, ◌++◌,
  ◌⊎◌, inl, inr, append_assoc, append-nil, length, length-append, take, get_or, All, arith,
}
use native.Mathlib.Decide.{dec_lt}
use esp8266_toolbox.Crypto.Block.{BlockState}
use esp8266_toolbox.Crypto.Block.Pieces.{joined}
use esp8266_toolbox.Crypto.Sha256.{sha256_proc}
use esp8266_toolbox.Crypto.Sha256.Refine.{sha256_pieces}
use esp8266_toolbox.Http.Ota.Flash.{Spi}

-- A full sector.
abbrev pub IsWhole : List ℕ → Type 0
IsWhole piece = length piece ≡ 4096

-- Full sectors, where only the last one may be shorter.
abbrev pub Chunked : List (List ℕ) → Type 0
Chunked [] = Unit
Chunked (p ∷ []) = (1 ≤ length p) × (length p ≤ 4096)
Chunked (p ∷ q ∷ ps) = (length p ≡ 4096) × Chunked (q ∷ ps)

pub Chunked-add :
    (ps : List (List ℕ)) (p : List ℕ)
    → All IsWhole ps
    → 1 ≤ length p
    → length p ≤ 4096
    → Chunked (ps ++ p ∷ [])
Chunked-add [] p w lo hi = (lo, hi)
Chunked-add (q ∷ []) p w lo hi = (w.0, (lo, hi))
Chunked-add (q ∷ r ∷ ps) p w lo hi = (w.0, Chunked-add (r ∷ ps) p w.1 lo hi)

pub joined-add : (ps : List (List ℕ)) (p : List ℕ) → joined (ps ++ p ∷ []) ≡ joined ps ++ p
joined-add [] p = append-nil p
joined-add (q ∷ ps) p = ap (λ t. q ++ t) (joined-add ps p) ∙ sym (append_assoc q (joined ps) p)

pub sha256_pieces-add :
    (ps : List (List ℕ)) (p : List ℕ) (s : BlockState)
    → sha256_pieces s (ps ++ p ∷ []) ≡ sha256_proc (sha256_pieces s ps) p
sha256_pieces-add [] p s = refl
sha256_pieces-add (q ∷ ps) p s = sha256_pieces-add ps p (sha256_proc s q)

pub length-add : (ps : List (List ℕ)) (p : List ℕ) → length (ps ++ p ∷ []) ≡ length ps + 1
length-add ps p = length-append ps (p ∷ [])

pub length-joined : (ps : List (List ℕ)) → All IsWhole ps → length (joined ps) ≡ 4096 * length ps
length-joined [] w = omega arith
length-joined (p ∷ ps) w = omega (arith, w.0, length-joined ps w.1, length-append p (joined ps))

-- The number of sectors.
pub Chunked-count :
    (ps : List (List ℕ)) → Chunked ps → length ps ≡ (length (joined ps) + 4095) / 4096
Chunked-count [] c = omega arith
Chunked-count (p ∷ []) c = omega (arith, c.0, c.1, length-append p [])
Chunked-count (p ∷ q ∷ ps) c =
    omega (arith, c.0, Chunked-count (q ∷ ps) c.1, length-append p (joined (q ∷ ps)))

get_or-take : (xs : List ℕ) (n i : ℕ) → i < n → get_or (take n xs) i 0 ≡ get_or xs i 0
get_or-take xs zero i h = absurd (omega arith)
get_or-take [] (suc n) i h = refl
get_or-take (x ∷ xs) (suc n) zero h = refl
get_or-take (x ∷ xs) (suc n) (suc i) h = get_or-take xs n i (omega arith)

pub get_or-left : (xs ys : List ℕ) (i : ℕ) → i < length xs → get_or (xs ++ ys) i 0 ≡ get_or xs i 0
get_or-left [] ys i h = absurd (omega arith)
get_or-left (x ∷ xs) ys zero h = refl
get_or-left (x ∷ xs) ys (suc i) h = get_or-left xs ys i (omega arith)

pub get_or-right : (xs ys : List ℕ) (i : ℕ) → get_or (xs ++ ys) (length xs + i) 0 ≡ get_or ys i 0
get_or-right [] ys i = let e : 0 + i ≡ i = omega arith in ap (λ (k : ℕ). get_or ys k 0) e
get_or-right (x ∷ xs) ys i =
    let e : suc (length xs) + i ≡ suc (length xs + i) = omega arith in
    ap (λ (k : ℕ). get_or (x ∷ (xs ++ ys)) k 0) e ∙ get_or-right xs ys i

module _ (spi : Spi) where
  open spi use {Flash, sector}

  -- The pieces stand at the front of the sectors from `b` on.
  abbrev pub Stored : Flash → ℕ → List (List ℕ) → Type 0
  Stored f b [] = Unit
  Stored f b (p ∷ ps) = (take (length p) (sector f b) ≡ p) × Stored f (b + 1) ps

  pub Stored-add :
      (f : Flash) (ps : List (List ℕ)) (b : ℕ) (p : List ℕ)
      → Stored f b ps
      → take (length p) (sector f (b + length ps)) ≡ p
      → Stored f b (ps ++ p ∷ [])
  Stored-add f [] b p s e =
      let at : b + 0 ≡ b = omega arith in
      (ap (λ (t : ℕ). take (length p) (sector f t)) (sym at) ∙ e, tt)
  Stored-add f (q ∷ ps) b p s e =
      let at : b + suc (length ps) ≡ b + 1 + length ps = omega arith in
      (
        s.0,
        Stored-add f ps (b + 1) p s.1 (ap (λ (t : ℕ). take (length p) (sector f t)) (sym at) ∙ e),
      )

  -- The sectors from `b` on, `n` of them, are not looked at.
  pub Stored_elsewhere :
      (f g : Flash) (ps : List (List ℕ)) (b : ℕ)
      → ((t : ℕ) → t < b + length ps → sector g t ≡ sector f t)
      → Stored f b ps
      → Stored g b ps
  Stored_elsewhere f g [] b same s = tt
  Stored_elsewhere f g (p ∷ ps) b same s = (
    ap (λ w. take (length p) w) (same b (omega arith)) ∙ s.0,
    Stored_elsewhere f g ps (b + 1) (λ t h. same t (omega (arith, h))) s.1,
  )

  -- Byte by byte.
  pub Stored-byte :
      (f : Flash) (ps : List (List ℕ)) (b i : ℕ)
      → Chunked ps
      → Stored f b ps
      → i < length (joined ps)
      → get_or (sector f (b + i / 4096)) (i % 4096) 0 ≡ get_or (joined ps) i 0
  Stored-byte f [] b i c s h = absurd (omega (arith, h))
  Stored-byte f (p ∷ []) b i c s h =
      let inside : i < length p = omega (arith, h, length-append p []) in
      let at : b + i / 4096 ≡ b = omega (arith, inside, c.1) in
      let off : i % 4096 ≡ i = omega (arith, inside, c.1) in
      ap (λ (t : ℕ). get_or (sector f t) (i % 4096) 0) at
      ∙ ap (λ (t : ℕ). get_or (sector f b) t 0) off
      ∙ sym (get_or-take (sector f b) (length p) i inside)
      ∙ ap (λ w. get_or w i 0) s.0
      ∙ sym (get_or-left p [] i inside)
  Stored-byte f (p ∷ q ∷ ps) b i c s h = elim (split i) [
    | inl inside ↦
        let at : b + i / 4096 ≡ b = omega (arith, inside) in
        let off : i % 4096 ≡ i = omega (arith, inside) in
        ap (λ (t : ℕ). get_or (sector f t) (i % 4096) 0) at
        ∙ ap (λ (t : ℕ). get_or (sector f b) t 0) off
        ∙ sym (get_or-take (sector f b) (length p) i (omega (arith, inside, c.0)))
        ∙ ap (λ w. get_or w i 0) s.0
        ∙ sym (get_or-left p (joined (q ∷ ps)) i (omega (arith, inside, c.0)))
    | inr (j, e) ↦
        let at : b + i / 4096 ≡ b + 1 + j / 4096 = omega (arith, e) in
        let off : i % 4096 ≡ j % 4096 = omega (arith, e) in
        let there : i ≡ length p + j = omega (arith, e, c.0) in
        ap (λ (t : ℕ). get_or (sector f t) (i % 4096) 0) at
        ∙ ap (λ (t : ℕ). get_or (sector f (b + 1 + j / 4096)) t 0) off
        ∙ Stored-byte f (q ∷ ps) (b + 1) j c.1 s.1
            (omega (arith, h, e, c.0, length-append p (joined (q ∷ ps))))
        ∙ sym (get_or-right p (joined (q ∷ ps)) j)
        ∙ ap (λ (t : ℕ). get_or (joined (p ∷ q ∷ ps)) t 0) (sym there)
  ]
    where
      split : (i : ℕ) → (i < 4096) ⊎ ((j : ℕ) × (i ≡ 4096 + j))
      split i = elim (dec_lt i 4096) [ yes h ↦ inl h | no h ↦ inr (i - 4096, omega (arith, h)) ]
