-- ===== src/Smtp/Receive/Lines.antt =====
-- A reply of one line, received whole, whatever older bytes stand behind it.
use esp8266_toolbox.Base.{
  ℕ, ◌+◌, ◌<◌, ◌≡◌, refl, ap, ◌∙◌, true, false, some, List, [], ◌∷◌, ◌++◌, append_assoc, length,
  All, take, take-append_length, drop, ltb, arith,
}
use esp8266_toolbox.Base.Memory.{overlay}
use esp8266_toolbox.Smtp.{
  consume, find_end, outbuf_size, printed, ran, Run, send_out, sends, SmtpState, starts_with, State,
}
use esp8266_toolbox.Smtp.Receive.{on_reply, speak}
use esp8266_toolbox.Smtp.Lines.{consume-all, find_end-line, IsPlain, starts_with-append}

on_reply_lem :
    (code : List ℕ) (next : SmtpState → Run) (s s' : SmtpState) (end : ℕ)
    → find_end s.inbuf ≡ some end
    → starts_with code s.inbuf ≡ true
    → consume (end + 2) s ≡ some s'
    → on_reply code next s ≡ next s'
unfolding on_reply
on_reply_lem code next s s' end e1 e2 e3 = rw (e1, on_reply) (rw (e2, e3) refl)

pub on_reply-line :
    (code rest more : List ℕ) (next : SmtpState → Run) (s : SmtpState)
    → All IsPlain (code ++ rest)
    → s.inbuf ≡ (code ++ rest) ++ (13 ∷ 10 ∷ more)
    → s.inbufused ≡ length (code ++ rest) + 2
    → (inbuf : List ℕ) × (on_reply code next s ≡ next (record s { inbuf = inbuf; inbufused = 0 }))
on_reply-line code rest more next s plain memory used =
    let (inbuf, e) = consume-all (length (code ++ rest) + 2) s used in
    let found : find_end s.inbuf ≡ some (length (code ++ rest)) =
      ap find_end memory ∙ find_end-line (code ++ rest) more plain in
    let good : starts_with code s.inbuf ≡ true =
      ap (starts_with code) (memory ∙ append_assoc code rest (13 ∷ 10 ∷ more))
      ∙ starts_with-append code (rest ++ (13 ∷ 10 ∷ more)) in
    (inbuf, on_reply_lem code next s _ (length (code ++ rest)) found good e)

take-printed :
    (text outbuf : List ℕ)
    → length text < outbuf_size
    → take (length text) (printed text outbuf) ≡ text
unfolding printed overlay
take-printed text outbuf fits =
    let p : ltb (length text) outbuf_size ≡ true = ground (arith, fits) in
    let rest : List ℕ = drop (0 + length (text ++ (0 ∷ []))) outbuf in
    rw p (
      ap (take (length text)) (append_assoc text (0 ∷ []) rest)
      ∙ take-append_length text ((0 ∷ []) ++ rest))

-- A text that fits `outbuf` is sent as it is.
pub speak-text :
    (next : State) (text : List ℕ) (s : SmtpState)
    → length text < outbuf_size
    → speak false next text s
      ≡ ran (record s { state = next; outbuf = printed text s.outbuf }) (sends text ∷ [])
unfolding speak send_out
speak-text next text s fits =
    ap
      (λ (t : List ℕ).
        ran (record s { state = next; outbuf = printed text s.outbuf }) (sends t ∷ []))
      (take-printed text s.outbuf fits)
