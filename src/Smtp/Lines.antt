-- ===== src/Smtp/Lines.antt =====
-- A line that was received whole, whatever older bytes stand behind it.
use esp8266_toolbox.Base.{
  ℕ, zero, suc, ◌+◌, ◌-◌, ◌≤◌, ◌≡◌, ◌≢◌, refl, true, false, some, List, [], ◌∷◌, ◌++◌, length, All,
  take, drop, ltb, ◌==◌, arith,
}
use esp8266_toolbox.Base.Memory.{overlay}
use esp8266_toolbox.Smtp.{consume, find_end, SmtpState, starts_with}

abbrev pub crlf : List ℕ
crlf = 13 ∷ 10 ∷ []

-- A character of a line: neither NUL nor CR.
abbrev pub IsPlain : ℕ → Type 0
IsPlain c = (1 ≤ c) × (c ≢ 13)

pub find_end-line :
    (line rest : List ℕ)
    → All IsPlain line
    → find_end (line ++ (13 ∷ 10 ∷ rest)) ≡ some (length line)
unfolding find_end
find_end-line [] rest h = refl
find_end-line (zero ∷ line) rest ((pos, _), h) = absurd (omega (arith, pos))
find_end-line (suc c ∷ []) rest ((_, ne), h) =
    let p : (suc c == 13) ≡ false = ground (arith, ne) in rw p refl
find_end-line (suc c ∷ d ∷ line) rest ((_, ne), h) =
    let p : (suc c == 13) ≡ false = ground (arith, ne) in
    rw (p, find_end-line (d ∷ line) rest h) refl

pub starts_with-append : (code rest : List ℕ) → starts_with code (code ++ rest) ≡ true
unfolding starts_with
starts_with-append [] rest = refl
starts_with-append (c ∷ code) rest =
    let p : (c == c) ≡ true = ground arith in rw (p, starts_with-append code rest) refl

-- After the line is gone, nothing is left.
pub consume-all :
    (n : ℕ) (s : SmtpState)
    → s.inbufused ≡ n
    → (inbuf : List ℕ) × (consume n s ≡ some (record s { inbuf = inbuf; inbufused = 0 }))
unfolding consume
consume-all n s e =
    let p : ltb s.inbufused n ≡ false = ground (arith, e) in
    let z : s.inbufused - n ≡ 0 = omega (arith, e) in
    (overlay s.inbuf 0 (take (s.inbufused - n + 1) (drop n s.inbuf)), rw (p, z) refl)
