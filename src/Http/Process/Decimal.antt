-- ===== src/Http/Process/Decimal.antt =====
-- Decimal texts and the numbers that `atoi` makes of them.
use native.Mathlib.Nat.{pow-suc}
use esp8266_toolbox.Base.{
  ℕ, suc, ◌+◌, ◌-◌, ◌*◌, ◌^◌, ◌≤◌, ◌<◌, ◌≡◌, ◌∙◌, ◌&&◌, leb, false, true, List, [], ◌∷◌, ◌++◌,
  length, All, ◌==◌, arith,
}
use esp8266_toolbox.Http.Process.{atoi, digits_from, is_space}

abbrev pub IsDigit : ℕ → Type 0
IsDigit c = (48 ≤ c) × (c ≤ 57)

-- The number that the digits stand for.
unfoldable pub decimal : List ℕ → ℕ
decimal [] = 0
decimal (c ∷ text) = (c - 48) * 10 ^ length text + decimal text

-- The digits end in front of the memory.
abbrev pub Ends : List ℕ → Type 0
Ends rest = (n : ℕ) → digits_from n rest ≡ n

digits_from-decimal :
    (n : ℕ) (text rest : List ℕ)
    → All IsDigit text
    → Ends rest
    → digits_from n (text ++ rest) ≡ n * 10 ^ length text + decimal text
unfolding digits_from decimal
digits_from-decimal n [] rest h end = end n ∙ omega arith
digits_from-decimal n (c ∷ text) rest ((low, high), h) end =
    let p : (leb 48 c && leb c 57) ≡ true = ground (arith, low, high) in
    let again = digits_from-decimal (n * 10 + (c - 48)) text rest h end in
    let power : 10 ^ suc (length text) ≡ 10 ^ length text * 10 = pow-suc 10 (length text) in
    rw p (again ∙ rw power (omega arith))

-- A text of digits whose number is an `int`.
pub atoi-decimal :
    (c : ℕ) (text rest : List ℕ)
    → All IsDigit (c ∷ text)
    → Ends rest
    → decimal (c ∷ text) < 2147483648
    → atoi ((c ∷ text) ++ rest) ≡ decimal (c ∷ text)
unfolding atoi
atoi-decimal c text rest h end small =
    let whole : digits_from 0 (c ∷ (text ++ rest)) ≡ decimal (c ∷ text) =
      digits_from-decimal 0 (c ∷ text) rest h end ∙ omega arith in
    let plus : (c == 43) ≡ false = ground (arith, h.0) in
    let minus : (c == 45) ≡ false = ground (arith, h.0) in
    let ink : is_space c ≡ false = ground (arith, h.0) in
    rw (ink, plus, minus, whole) (ground (arith, small))
