-- ===== src/Smtp/Challenge/Answer.antt =====
-- What the client answers to a challenge, as the server decodes it.
use esp8266_toolbox.Base.{
  ℕ, zero, suc, ◌+◌, ◌-◌, ◌*◌, ◌/◌, ◌%◌, ◌<◌, ◌≤◌, ◌≡◌, refl, sym, ap, ◌∙◌, true, false, List, [],
  ◌∷◌, ◌++◌, append_assoc, length, length-append, set, All, All-append, take, take-append_length,
  drop, leb, ltb, some, arith,
}
use esp8266_toolbox.Base.Memory.{overlay}
use esp8266_toolbox.Crypto.Base64.{b64_decode, b64_encode, encoded_size, written}
use esp8266_toolbox.Crypto.Base64.RoundTrip.{b64_decode-b64_encode, IsByte}
use esp8266_toolbox.Crypto.Md5.Size.{md5_size}
use esp8266_toolbox.Smtp.{
  consume, cut_line, find_end, outbuf_size, ran, send_out, sends, SmtpServer, SmtpState,
  starts_with, state_auth,
}
use esp8266_toolbox.Smtp.Lines.{consume-all, crlf, find_end-line, IsPlain, starts_with-append}
use esp8266_toolbox.Smtp.Challenge.{
  answer, chal_size, challenged, code_334, hex_digit, hex_text, hmac_key, respond, response,
  smtp_send_challenge, text_of,
}

hex_digit-IsByte : (d : ℕ) → d < 16 → IsByte (hex_digit d)
unfolding hex_digit
hex_digit-IsByte d h = ground (arith, h)

hex_text_size :
    (bytes : List ℕ)
    → All IsByte bytes
    → (length (hex_text bytes) ≡ 2 * length bytes) × All IsByte (hex_text bytes)
unfolding hex_text
hex_text_size [] h = (refl, tt)
hex_text_size (b ∷ bytes) (hb, h) =
    let (len, ok) = hex_text_size bytes h in
    (
      omega (arith, len),
      (
        hex_digit-IsByte (b / 16) (omega (arith, hb)),
        (hex_digit-IsByte (b % 16) (omega arith), ok),
      ),
    )

-- The text behind the code.
abbrev pub reply_text : List ℕ → SmtpServer → List ℕ → List ℕ
reply_text stack server chal =
    server.user ++ (b' ' ∷ hex_text (response stack (hmac_key stack server.pass) chal))

response_size :
    (stack key chal : List ℕ)
    → (length (response stack key chal) ≡ 16) × All IsByte (response stack key chal)
unfolding response
response_size stack key chal = md5_size stack _

reply_text_size :
    (stack : List ℕ) (server : SmtpServer) (chal : List ℕ)
    → All IsByte server.user
    → (length (reply_text stack server chal) ≡ length server.user + 33)
      × All IsByte (reply_text stack server chal)
reply_text_size stack server chal user =
    let resp : List ℕ = response stack (hmac_key stack server.pass) chal in
    let (size, bytes) = response_size stack (hmac_key stack server.pass) chal in
    let (len, ok) = hex_text_size resp bytes in
    (
      omega (arith, length-append server.user (b' ' ∷ hex_text resp), len, size),
      All-append IsByte server.user (b' ' ∷ hex_text resp) user (omega arith, ok),
    )

-- The code and its line end in the array.
take-lines :
    (code outbuf : List ℕ)
    → take (length code + 2) (overlay (overlay outbuf 0 code) (length code) (13 ∷ 10 ∷ []))
      ≡ code ++ (13 ∷ 10 ∷ [])
unfolding overlay
take-lines code outbuf =
    let first : List ℕ = code ++ drop (0 + length code) outbuf in
    let rest : List ℕ = drop (length code + 2) first in
    let len : length code + 2 ≡ length (code ++ (13 ∷ 10 ∷ [])) =
      omega (arith, length-append code (13 ∷ 10 ∷ [])) in
    ap (λ (t : List ℕ). take (length code + 2) (t ++ ((13 ∷ 10 ∷ []) ++ rest)))
      (take-append_length code (drop (0 + length code) outbuf))
    ∙ ap (take (length code + 2)) (sym (append_assoc code (13 ∷ 10 ∷ []) rest))
    ∙ ap (λ (n : ℕ). take n ((code ++ (13 ∷ 10 ∷ [])) ++ rest)) len
    ∙ take-append_length (code ++ (13 ∷ 10 ∷ [])) rest

-- The answer that goes out.
answer_lem :
    (server : SmtpServer) (resp : List ℕ) (s : SmtpState) (code : List ℕ)
    → length server.user < 64
    → b64_encode (server.user ++ (b' ' ∷ hex_text resp)) outbuf_size ≡ written code
    → (outbuf : List ℕ) × (answer false server resp s
        ≡ ran (record s { outbuf = outbuf }) (sends (code ++ (13 ∷ 10 ∷ [])) ∷ []))
unfolding answer cut_line send_out
answer_lem server resp s code short e =
    let p : ltb 256 (length server.user + 33) ≡ false = ground (arith, short) in
    let sent = take-lines code s.outbuf in
    let outbuf : List ℕ =
      set (overlay (overlay s.outbuf 0 code) (length code) (13 ∷ 10 ∷ [])) (length code + 2 - 2)
        0 in
    (
      outbuf,
      rw (p, e) (ap (λ (t : List ℕ). ran (record s { outbuf = outbuf }) (sends t ∷ [])) sent),
    )

respond_lem :
    (stack : List ℕ) (server : SmtpServer) (chal : List ℕ) (s : SmtpState)
    → length chal < 128
    → respond false stack server chal s
      ≡ answer false server (response stack (hmac_key stack server.pass) chal) s
unfolding respond
respond_lem stack server chal s short = ground (arith, short)

challenge_steps :
    (stack : List ℕ) (server : SmtpServer) (s s' : SmtpState) (end : ℕ) (chal : List ℕ)
    → find_end s.inbuf ≡ some end
    → starts_with code_334 s.inbuf ≡ true
    → b64_decode (take (end - 4) (drop 4 s.inbuf)) chal_size ≡ written chal
    → length chal < chal_size
    → consume (end + 2) s ≡ some s'
    → smtp_send_challenge false stack server s
      ≡ respond false stack server (text_of chal) (record s' { state = state_auth })
unfolding smtp_send_challenge challenged
challenge_steps stack server s s' end chal e1 e2 e3 short e4 =
    let p : leb chal_size (length chal) ≡ false = ground (arith, short) in
    rw (e1, smtp_send_challenge) (rw (e2, e3, challenged) (rw (p, e4) refl))

length-text_of : (bytes : List ℕ) → length (text_of bytes) ≤ length bytes
unfolding text_of
length-text_of [] = omega arith
length-text_of (zero ∷ bytes) = omega arith
length-text_of (suc b ∷ bytes) = omega (arith, length-text_of bytes)

encoded_size_bound : (n : ℕ) → n ≤ 96 → encoded_size n ≤ 132
unfolding encoded_size
encoded_size_bound n h = ground (arith, h)

-- To one whole line with the code 334 and a base64 text of fewer than 128 bytes, the client, with a user
-- name that fits its array, sends one line: a base64 code, from which the server decodes the name, a
-- blank and the response to the text, up to its first NUL, in hexadecimal digits. Then it waits for the
-- verdict, with nothing left of the input.
pub smtp_send_challenge_lem :
    (stack : List ℕ) (server : SmtpServer) (s : SmtpState) (code more chal : List ℕ)
    → s.inbuf ≡ (code_334 ++ code) ++ (13 ∷ 10 ∷ more)
    → s.inbufused ≡ length (code_334 ++ code) + 2
    → All IsPlain (code_334 ++ code)
    → b64_decode code chal_size ≡ written chal
    → length chal < chal_size
    → length server.user < 64
    → All IsByte server.user
    → (s' : SmtpState) × (sent : List ℕ) × (smtp_send_challenge false stack server s
        ≡ ran s' (sends (sent ++ crlf) ∷ []))
      × (b64_decode sent outbuf_size ≡ written (reply_text stack server (text_of chal)))
      × (s'.state ≡ state_auth)
      × (s'.inbufused ≡ 0)
smtp_send_challenge_lem stack server s code more chal memory used plain decoded short name user =
    let (inbuf, consumed) = consume-all (length (code_334 ++ code) + 2) s used in
    let found = ap find_end memory ∙ find_end-line (code_334 ++ code) more plain in
    let good =
      ap (starts_with code_334) (memory ∙ append_assoc code_334 code (13 ∷ 10 ∷ more))
      ∙ starts_with-append code_334 (code ++ (13 ∷ 10 ∷ more)) in
    let len : length (code_334 ++ code) - 4 ≡ length code = omega arith in
    let payload : take (length (code_334 ++ code) - 4) (drop 4 s.inbuf) ≡ code =
      ap (λ (t : List ℕ). take (length (code_334 ++ code) - 4) (drop 4 t)) memory
      ∙ ap (λ (n : ℕ). take n (code ++ (13 ∷ 10 ∷ more))) len
      ∙ take-append_length code (13 ∷ 10 ∷ more) in
    let steps =
      challenge_steps stack server s (record s { inbuf = inbuf; inbufused = 0 })
        (length (code_334 ++ code)) chal found good
        (ap (λ (t : List ℕ). b64_decode t chal_size) payload ∙ decoded) short consumed in
    let (size, bytes) = reply_text_size stack server (text_of chal) user in
    let room =
      encoded_size_bound (length (reply_text stack server (text_of chal)))
        (omega (arith, size, name)) in
    let (sent, e1, e2) =
      b64_decode-b64_encode (reply_text stack server (text_of chal)) outbuf_size outbuf_size bytes
        (omega (arith, room)) (omega (arith, room)) in
    let s1 : SmtpState = record s { inbuf = inbuf; inbufused = 0; state = state_auth } in
    let (outbuf, e3) =
      answer_lem server (response stack (hmac_key stack server.pass) (text_of chal)) s1 sent name
        e1 in
    (
      record s1 { outbuf = outbuf },
      sent,
      steps
          ∙ respond_lem stack server (text_of chal) s1 (omega (arith, length-text_of chal, short))
          ∙ e3,
      e2,
      refl,
      refl,
    )
