-- ===== src/Smtp/Challenge/Tests.antt =====
-- The answer to a challenge at a concrete input.
use esp8266_toolbox.Base.{ℕ, ◌≤◌, ◌≡◌, refl, List, [], ◌∷◌, ◌++◌, arith}
use esp8266_toolbox.Crypto.Base64.{
  all_symbols, b64_decode, decmap, decode_loop, is_last, is_symbol, written,
}
use esp8266_toolbox.Smtp.{
  outbuf_size, ran, sends, smtp_init, SmtpServer, SmtpState, state_auth, state_challenge,
}
use esp8266_toolbox.Smtp.Lines.{crlf, IsPlain}
use esp8266_toolbox.Smtp.Challenge.{chal_size, code_334, smtp_send_challenge, text_of}
use esp8266_toolbox.Smtp.Challenge.Answer.{reply_text, smtp_send_challenge_lem}
use esp8266_toolbox.Base.{false}

abbrev account : SmtpServer
account = record { host = b'm' ∷ []; port = 25; user = b'u' ∷ []; pass = b'p' ∷ [] }

-- "abc" and its code.
abbrev challenge : List ℕ
challenge = b'a' ∷ b'b' ∷ b'c' ∷ []

abbrev challenge_code : List ℕ
challenge_code = b'Y' ∷ b'W' ∷ b'J' ∷ b'j' ∷ []

decoded : b64_decode challenge_code chal_size ≡ written challenge
unfolding b64_decode all_symbols is_symbol decode_loop decmap is_last
decoded = refl

abbrev asked : SmtpState
asked = record smtp_init {
  state = state_challenge;
  inbuf = (code_334 ++ challenge_code) ++ crlf;
  inbufused = 10;
}

printable : (c : ℕ) → 14 ≤ c → IsPlain c
printable c h = (omega (arith, h), λ e. absurd (omega (arith, e, h)))

smtp_send_challenge_lem_example :
    (s' : SmtpState) × (sent : List ℕ) × (smtp_send_challenge false [] account asked
      ≡ ran s' (sends (sent ++ crlf) ∷ []))
    × (b64_decode sent outbuf_size ≡ written (reply_text [] account (text_of challenge)))
    × (s'.state ≡ state_auth)
    × (s'.inbufused ≡ 0)
smtp_send_challenge_lem_example =
    smtp_send_challenge_lem [] account asked challenge_code [] challenge refl refl
      (
        printable b'3' (omega arith),
        (
          printable b'3' (omega arith),
          (
            printable b'4' (omega arith),
            (
              printable b' ' (omega arith),
              (
                printable b'Y' (omega arith),
                (
                  printable b'W' (omega arith),
                  (printable b'J' (omega arith), (printable b'j' (omega arith), tt)),
                ),
              ),
            ),
          ),
        ),
      )
      decoded (omega arith) (omega arith) (omega arith, tt)
