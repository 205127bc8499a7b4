-- ===== src/Http/Lexer/Lines.antt =====
-- `parseline` finds the first CR LF, within the length that it is given and nowhere else.
use esp8266_toolbox.Base.{
  ℕ, zero, suc, ◌+◌, ◌≤◌, ◌≡◌, ◌≢◌, refl, List, [], ◌∷◌, ◌++◌, length, arith, ◌==◌, All, false,
}
use esp8266_toolbox.Http.Lexer.{parseline, found, cr, lf}

-- Text without a carriage return, which ends at the first CR LF when the length reaches it.
pub parseline-line :
    (line rest : List ℕ) (len : ℕ)
    → All (λ c. c ≢ cr) line
    → length line + 2 ≤ len
    → parseline (line ++ cr ∷ lf ∷ rest) len ≡ found rest
unfolding parseline
parseline-line line rest zero no_cr h = absurd (omega arith)
parseline-line line rest (suc zero) no_cr h = absurd (omega arith)
parseline-line [] rest (suc (suc n)) no_cr h = refl
parseline-line (a ∷ []) rest (suc (suc n)) (ha, no_cr) h =
    let p : (a == cr) ≡ false = ground (arith, ha) in
    rw p (parseline-line [] rest (suc n) tt (omega arith))
parseline-line (a ∷ b ∷ line) rest (suc (suc n)) (ha, no_cr) h =
    let p : (a == cr) ≡ false = ground (arith, ha) in
    rw p (parseline-line (b ∷ line) rest (suc n) no_cr (omega arith))
