-- ===== src/Http/Form/Decode.antt =====
-- `url_decode` of http/utils.c undoes what a client does to a value.
use esp8266_toolbox.Base.{
  ℕ, zero, suc, ◌+◌, ◌<◌, ◌≡◌, ◌≢◌, refl, sym, ap, ap₂, ◌∙◌, ◌⊎◌, inl, inr, Bool, true, false, ◌&&◌,
  Bool-cases, Option, none, some, List, [], ◌∷◌, length, All, ◌==◌, if◌then◌else◌, arith,
}
use mathlib.Core.Option
use esp8266_toolbox.Http.Form.{
  Code, decode_rounds, decode_map, decode_pass, replace_first, has_code, url_decode,
}

-- What the table says of two digits.
unfoldable pub code_char : ℕ → ℕ → List Code → Option ℕ
code_char hi lo [] = none
code_char hi lo (k ∷ codes) =
    if (k.hi == hi) && (k.lo == lo) then some k.char else code_char hi lo codes

-- A text as a client may send it: each character but the percent sign stands for itself, or the table
-- has a code for it.
pub data Encodes : List ℕ → List ℕ → Type 0 where
  end : Encodes [] []
  plain : {s p : List ℕ} (c : ℕ) → c ≢ b'%' → Encodes s p → Encodes (c ∷ s) (c ∷ p)
  code :
      {s p : List ℕ} (c hi lo : ℕ)
      → code_char hi lo decode_map ≡ some c
      → c ≢ b'%'
      → hi ≢ b'%'
      → lo ≢ b'%'
      → Encodes s p
      → Encodes (c ∷ s) (b'%' ∷ hi ∷ lo ∷ p)

-- An entry that is the first for its digits.
abbrev IsFirst : Code → Type 0
IsFirst k = code_char k.hi k.lo decode_map ≡ some k.char

same_char : Option ℕ → ℕ → Bool
same_char none c = false
same_char (some d) c = d == c

all_first : List Code → Bool
all_first [] = true
all_first (k ∷ codes) = same_char (code_char k.hi k.lo decode_map) k.char && all_first codes

same_char-eq : (r : Option ℕ) (c : ℕ) → same_char r c ≡ true → r ≡ some c
unfolding same_char
same_char-eq none c h = cc
same_char-eq (some d) c h = ap some (ground (arith, h))

all_first_sound : (codes : List Code) → all_first codes ≡ true → All IsFirst codes
unfolding all_first
all_first_sound [] h = tt
all_first_sound (k ∷ codes) h = (
  same_char-eq (code_char k.hi k.lo decode_map) k.char (ground (arith, h)),
  all_first_sound codes (ground (arith, h)),
)

decode_map-all_first : all_first decode_map ≡ true
unfolding all_first same_char code_char decode_map
decode_map-all_first = refl

decode_map-IsFirst : All IsFirst decode_map
decode_map-IsFirst = all_first_sound decode_map decode_map-all_first

-- What a replacement may do to an encoded text.
abbrev Replaced : List ℕ → List ℕ → Option (List ℕ) → Type 0
Replaced s p none = Unit
Replaced s p (some q) = Encodes s q × (length q + 2 ≡ length p)

Replaced-cons :
    (x : ℕ) (s p : List ℕ) (r : Option (List ℕ))
    → x ≢ b'%'
    → Replaced s p r
    → Replaced (x ∷ s) (x ∷ p) (Option.map (λ rest. x ∷ rest) r)
Replaced-cons x s p none ne h = tt
Replaced-cons x s p (some q) ne h = (plain x ne h.0, omega (arith, h.1))

no_code : (k : Code) (x : ℕ) (text : List ℕ) → x ≢ b'%' → has_code k (x ∷ text) ≡ false
unfolding has_code
no_code k x [] ne = refl
no_code k x (y ∷ []) ne = refl
no_code k x (y ∷ z ∷ text) ne = ground (arith, ne)

replace_first-skip :
    (k : Code) (x : ℕ) (text : List ℕ)
    → x ≢ b'%'
    → replace_first k (x ∷ text) ≡ Option.map (λ rest. x ∷ rest) (replace_first k text)
unfolding replace_first
replace_first-skip k x text ne = rw (no_code k x text ne) refl

Replaced-code :
    (c hi lo : ℕ) (s p : List ℕ) (r : Option (List ℕ))
    → code_char hi lo decode_map ≡ some c
    → c ≢ b'%'
    → hi ≢ b'%'
    → lo ≢ b'%'
    → Replaced s p r
    → Replaced (c ∷ s) (b'%' ∷ hi ∷ lo ∷ p) (
        Option.map
          (λ rest. b'%' ∷ rest)
          (Option.map (λ rest. hi ∷ rest) (Option.map (λ rest. lo ∷ rest) r)))
Replaced-code c hi lo s p none known ne ne' ne'' h = tt
Replaced-code c hi lo s p (some q) known ne ne' ne'' h =
    (code c hi lo known ne ne' ne'' h.0, omega (arith, h.1))

-- The code that stands at the front.
Replaced-front :
    (k : Code) (c hi lo : ℕ) (s p : List ℕ)
    → IsFirst k
    → code_char hi lo decode_map ≡ some c
    → c ≢ b'%'
    → Encodes s p
    → has_code k (b'%' ∷ hi ∷ lo ∷ p) ≡ true
    → Replaced (c ∷ s) (b'%' ∷ hi ∷ lo ∷ p) (some (k.char ∷ p))
unfolding has_code
Replaced-front k c hi lo s p first known ne e h =
    let high : hi ≡ k.hi = ground (arith, h) in
    let low : lo ≡ k.lo = ground (arith, h) in
    let known' : code_char k.hi k.lo decode_map ≡ some c =
      ap₂ (λ (x y : ℕ). code_char x y decode_map) (sym high) (sym low) ∙ known in
    let same : k.char ≡ c = ground (arith, sym first ∙ known') in
    (rw same (plain c ne e), omega arith)

replace_first-Replaced :
    (k : Code) {s p : List ℕ} → IsFirst k → Encodes s p → Replaced s p (replace_first k p)
replace_first-Replaced k first end = unfold replace_first in tt
replace_first-Replaced k first (plain {s = s} {p = p} c ne e) =
    rw (replace_first-skip k c p ne)
      (Replaced-cons c s p (replace_first k p) ne (replace_first-Replaced k first e))
replace_first-Replaced k first (code {s = s} {p = p} c hi lo known ne ne' ne'' e) =
    let ih = replace_first-Replaced k first e in
    elim (Bool-cases (has_code k (b'%' ∷ hi ∷ lo ∷ p))) [
      | inl h ↦
          let found : replace_first k (b'%' ∷ hi ∷ lo ∷ p) ≡ some (k.char ∷ p) =
            unfold replace_first in rw h refl in
          rw found (Replaced-front k c hi lo s p first known ne e h)
      | inr h ↦
          let inner : replace_first k (hi ∷ lo ∷ p)
              ≡ Option.map (λ rest. hi ∷ rest)
                  (Option.map (λ rest. lo ∷ rest) (replace_first k p)) =
            replace_first-skip k hi (lo ∷ p) ne'
            ∙ ap (Option.map (λ rest. hi ∷ rest)) (replace_first-skip k lo p ne'') in
          let other : replace_first k (b'%' ∷ hi ∷ lo ∷ p)
              ≡ Option.map (λ rest. b'%' ∷ rest) (replace_first k (hi ∷ lo ∷ p)) =
            unfold replace_first in rw h refl in
          rw (other, inner) (Replaced-code c hi lo s p (replace_first k p) known ne ne' ne'' ih)
    ]

-- What a pass of the `for` loop does: with `f` unset it found nothing, otherwise the text is shorter.
abbrev Passed : List ℕ → List ℕ → List Code → List ℕ × Bool → Type 0
Passed s p codes (q, f) =
    Encodes s q
    × (((f ≡ true) × (length q < length p))
        ⊎ ((f ≡ false) × (q ≡ p) × All (λ k. replace_first k p ≡ none) codes))

decode_pass-Passed :
    (codes : List Code) (s p : List ℕ)
    → All IsFirst codes
    → Encodes s p
    → Passed s p codes (decode_pass codes p)
unfolding decode_pass
decode_pass-Passed [] s p first e = (e, inr (refl, refl, tt))
decode_pass-Passed (k ∷ codes) s p first e =
    go (replace_first k p) refl (replace_first-Replaced k first.0 e)
      (decode_pass-Passed codes s p first.1 e) (λ q e'. decode_pass-Passed codes s q first.1 e')
  where
    found :
        (q : List ℕ) (r : List ℕ × Bool)
        → length q + 2 ≡ length p
        → Passed s q codes r
        → Passed s p (k ∷ codes) (r.0, true)
    found q r len (e', inl h) = (e', inl (refl, omega (arith, h.1, len)))
    found q r len (e', inr h) = (e', inl (refl, omega (arith, len, ap (length {A = ℕ}) h.1)))

    missed :
        (r : List ℕ × Bool)
        → replace_first k p ≡ none
        → Passed s p codes r
        → Passed s p (k ∷ codes) r
    missed r n (e', inl h) = (e', inl h)
    missed r n (e', inr h) = (e', inr (h.0, h.1, (n, h.2)))

    go :
        (r : Option (List ℕ))
        → replace_first k p ≡ r
        → Replaced s p r
        → Passed s p codes (decode_pass codes p)
        → ((q : List ℕ) → Encodes s q → Passed s q codes (decode_pass codes q))
        → Passed s p
            (k ∷ codes)
            (elim r [ none ↦ decode_pass codes p | some q ↦ ((decode_pass codes q).0, true) ])
    go none n h here later = missed (decode_pass codes p) n here
    go (some q) n h here later = found q (decode_pass codes q) h.1 (later q h.0)

map-none : (f : List ℕ → List ℕ) (r : Option (List ℕ)) → Option.map f r ≡ none → r ≡ none
map-none f none h = refl
map-none f (some q) h = cc

absent_tail :
    (k : Code) (x : ℕ) (p : List ℕ) → replace_first k (x ∷ p) ≡ none → replace_first k p ≡ none
unfolding replace_first
absent_tail k x p h = elim (Bool-cases (has_code k (x ∷ p))) [
  | inl e ↦ let h' = rw e at h in cc
  | inr e ↦ let h' = rw e at h in map-none (λ rest. x ∷ rest) (replace_first k p) h'
]

abbrev Absent : List ℕ → List Code → Type 0
Absent p codes = All (λ k. replace_first k p ≡ none) codes

Absent-tails : (codes : List Code) (x : ℕ) (p : List ℕ) → Absent (x ∷ p) codes → Absent p codes
Absent-tails [] x p h = tt
Absent-tails (k ∷ codes) x p h = (absent_tail k x p h.0, Absent-tails codes x p h.1)

-- A code of the table at the front would be found.
Absent-front :
    (codes : List Code) (hi lo c : ℕ) (p : List ℕ)
    → code_char hi lo codes ≡ some c
    → ¬ (Absent (b'%' ∷ hi ∷ lo ∷ p) codes)
unfolding code_char replace_first has_code
Absent-front [] hi lo c p known h = cc
Absent-front (k ∷ codes) hi lo c p known h = elim (Bool-cases ((k.hi == hi) && (k.lo == lo))) [
  | inl e ↦
      let at : ((hi == k.hi) && (lo == k.lo)) ≡ true = ground (arith, e) in
      let h' = rw at at h.0 in cc
  | inr e ↦ Absent-front codes hi lo c p (rw e at known) h.1
]

-- Where the table's codes are all absent, every character stands for itself.
all_plain : {s p : List ℕ} → Encodes s p → Absent p decode_map → p ≡ s
all_plain end h = refl
all_plain (plain {s = s} {p = p} c ne e) h =
    ap (λ r. c ∷ r) (all_plain e (Absent-tails decode_map c p h))
all_plain (code {s = s} {p = p} c hi lo known ne ne' ne'' e) h =
    absurd (Absent-front decode_map hi lo c p known h)

decode_rounds-Encodes :
    (fuel : ℕ) (s p : List ℕ) → Encodes s p → length p < fuel → decode_rounds fuel p ≡ s
unfolding decode_rounds
decode_rounds-Encodes zero s p e h = absurd (omega (arith, h))
decode_rounds-Encodes (suc fuel) s p e h =
    go (decode_pass decode_map p) (decode_pass-Passed decode_map s p decode_map-IsFirst e)
      (decode_rounds-Encodes fuel s)
  where
    go :
        (r : List ℕ × Bool)
        → Passed s p decode_map r
        → ((q : List ℕ) → Encodes s q → length q < fuel → decode_rounds fuel q ≡ s)
        → elim r.1 as (λ b. List ℕ) [ true ↦ decode_rounds fuel r.0 | false ↦ r.0 ] ≡ s
    go (q, true) (e', inl k) ih = ih q e' (omega (arith, k.1, h))
    go (q, true) (e', inr k) ih = cc (k.0)
    go (q, false) (e', inl k) ih = cc (k.0)
    go (q, false) (e', inr k) ih = k.1 ∙ all_plain e k.2

-- A value without percent signs that a client sends, with the codes of the table for any of its
-- characters, is decoded to itself.
pub url_decode-Encodes : {s p : List ℕ} → Encodes s p → url_decode p ≡ s
unfolding url_decode
url_decode-Encodes {s} {p} e = decode_rounds-Encodes (suc (length p)) s p e (omega arith)
