-- ===== src/Smtp/Receive/Tests.antt =====
-- Runs of smtp/smtp.c, and its theorems at concrete inputs.
use esp8266_toolbox.Base.{
  ℕ, ◌≤◌, ◌≡◌, refl, All, some, false, List, [], ◌∷◌, ◌++◌, replicate, arith,
}
use esp8266_toolbox.Smtp.{
  connects, Effect, ehlo, in_progress, ip_bytes, overrun, ran, state_connect, state_greet, sends,
  smtp_init, SmtpServer, SmtpState, State, state_auth, state_failed, state_from, state_ready,
}
use esp8266_toolbox.Smtp.Receive.{
  arrives, connected, Event, on_event, resolved, code_221, code_235, code_354, data_text, last_250,
  mail_from_line, mails, message, on_events, quit_text, rcpt_to_line, session, smtp_send_recv_cb,
}
use esp8266_toolbox.Smtp.Lines.{crlf, IsPlain}
use esp8266_toolbox.Smtp.Receive.Dialogue.{session-mail}
use esp8266_toolbox.Smtp.Receive.Replies.{HasRoom, IsRest}
use esp8266_toolbox.Smtp.Receive.Faults.{IsCalm, IsKill, on_events-failed, partial_reply-overrun}

abbrev account : SmtpServer
account = record { host = b'm' ∷ []; port = 25; user = b'u' ∷ []; pass = b'p' ∷ [] }

-- A client with a mail, in a state.
abbrev with_mail : State → SmtpState
with_mail st = record smtp_init {
  state = st;
  from = b'a' ∷ [];
  to = b'b' ∷ [];
  subj = b's' ∷ [];
  body = b'h' ∷ b'i' ∷ [];
}

with_mail-HasRoom : (st : State) → HasRoom (with_mail st)
with_mail-HasRoom st = record {
  from_room = omega arith;
  to_room = omega arith;
  subj_room = omega arith;
  body_room = omega arith;
}

printable : (c : ℕ) → 14 ≤ c → IsPlain c
printable c h = (omega (arith, h), λ e. absurd (omega (arith, e, h)))

-- "ok"
abbrev okay : List ℕ
okay = b'o' ∷ b'k' ∷ []

okay-IsRest : IsRest okay
okay-IsRest = ((printable b'o' (omega arith), (printable b'k' (omega arith), tt)), omega arith)

session-mail_example :
    (s' : SmtpState) × (session [] account
        (((code_235 ++ okay) ++ crlf)
          ∷ ((last_250 ++ okay) ++ crlf)
          ∷ ((last_250 ++ okay) ++ crlf)
          ∷ ((code_354 ++ okay) ++ crlf)
          ∷ ((last_250 ++ okay) ++ crlf)
          ∷ ((code_221 ++ okay) ++ crlf)
          ∷ [])
        (with_mail state_auth)
      ≡ ran s' (
          sends (mail_from_line (with_mail state_auth))
          ∷ sends (rcpt_to_line (with_mail state_auth))
          ∷ sends data_text
          ∷ sends (message (with_mail state_auth))
          ∷ sends quit_text
          ∷ []))
    × (s'.state ≡ state_ready)
    × (s'.inbufused ≡ 0)
unfolding smtp_init
session-mail_example =
    session-mail [] account (with_mail state_auth) okay okay okay okay okay okay refl refl
      (with_mail-HasRoom state_auth) okay-IsRest okay-IsRest okay-IsRest okay-IsRest okay-IsRest
      okay-IsRest

abbrev late_events : List Event
late_events =
    mails in_progress false false false okay okay okay okay
    ∷ arrives false [] (code_221 ++ crlf)
    ∷ []

on_events-failed_example :
    (s' : SmtpState) × (effects : List Effect) × (on_events account late_events
        (with_mail state_failed)
      ≡ ran s' effects)
    × (s'.state ≡ state_failed)
    × All IsKill effects
    × (on_event account (resolved (some 7) false false false) s'
        ≡ ran (record s' { state = state_connect }) (connects 25 (ip_bytes 7) ∷ []))
    × (on_event account (connected false false false false) s'
        ≡ ran (record s' { state = state_greet }) (sends ehlo ∷ []))
unfolding IsCalm
on_events-failed_example =
    on_events-failed account late_events (with_mail state_failed) 7 (tt, (tt, tt)) refl

-- The line "235 k" was taken away, and the next reply starts with "250".
abbrev left_over : SmtpState
left_over = record (with_mail state_from) {
  inbuf = 0 ∷ b'3' ∷ b'5' ∷ b' ' ∷ b'k' ∷ 13 ∷ 10 ∷ replicate 2041 0;
}

partial_reply-overrun_example :
    smtp_send_recv_cb false [] account (b'2' ∷ b'5' ∷ b'0' ∷ []) left_over ≡ overrun
unfolding smtp_init
partial_reply-overrun_example =
    partial_reply-overrun false [] account left_over (b'2' ∷ b'5' ∷ b'0' ∷ []) (b' ' ∷ b'k' ∷ [])
      (b'k' ∷ []) (replicate 2041 0) refl refl (omega arith)
      (
        printable b'2' (omega arith),
        (
          printable b'5' (omega arith),
          (
            printable b'0' (omega arith),
            (printable b' ' (omega arith), (printable b'k' (omega arith), tt)),
          ),
        ),
      )
      refl refl
