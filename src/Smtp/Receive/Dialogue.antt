-- ===== src/Smtp/Receive/Dialogue.antt =====
-- What the client sends from the answer to its login to the end of the mail.
use esp8266_toolbox.Base.{ℕ, ◌≡◌, ap, List, [], ◌∷◌, ◌++◌}
use esp8266_toolbox.Smtp.{
  ran, sends, SmtpServer, SmtpState, state_auth, state_data, state_from, state_ready, state_to,
}
use esp8266_toolbox.Smtp.Receive.{
  close_text, rcpt_to, code_221, code_235, code_354, data_text, last_250, mail_from_line, message,
  quit_text, rcpt_to_line, session,
}
use esp8266_toolbox.Smtp.Lines.{crlf}
use esp8266_toolbox.Smtp.Receive.Replies.{
  HasRoom, IsRest, auth_reply, close_reply, data_reply, from_reply, keeps_room, message-Step,
  message_room, quit_reply, session_cons, session_nil, to_reply, two_replies,
}

-- In the state after the answer to the challenge, with nothing left of earlier replies and a mail whose
-- texts fit their arrays, six replies with the codes that the client waits for, each received whole, of
-- one line without NUL and CR that fits the array, make it send the two envelope lines, "data", the whole
-- message and "quit", in this order, and leave it ready for the next mail.
pub session-mail :
    (stack : List ℕ) (server : SmtpServer) (s : SmtpState) (r1 r2 r3 r4 r5 r6 : List ℕ)
    → s.state ≡ state_auth
    → s.inbufused ≡ 0
    → HasRoom s
    → IsRest r1
    → IsRest r2
    → IsRest r3
    → IsRest r4
    → IsRest r5
    → IsRest r6
    → (s' : SmtpState) × (session stack server
          (((code_235 ++ r1) ++ crlf)
            ∷ ((last_250 ++ r2) ++ crlf)
            ∷ ((last_250 ++ r3) ++ crlf)
            ∷ ((code_354 ++ r4) ++ crlf)
            ∷ ((last_250 ++ r5) ++ crlf)
            ∷ ((code_221 ++ r6) ++ crlf)
            ∷ [])
          s
        ≡ ran s' (
            sends (mail_from_line s)
            ∷ sends (rcpt_to_line s)
            ∷ sends data_text
            ∷ sends (message s)
            ∷ sends quit_text
            ∷ []))
      × (s'.state ≡ state_ready)
      × (s'.inbufused ≡ 0)
session-mail stack server s r1 r2 r3 r4 r5 r6 at empty room p1 p2 p3 p4 p5 p6 =
    let (s1, e1, k1) = auth_reply stack server r1 s p1 at empty room.from_room in
    let (s2, e2, k2) =
      from_reply stack server r2 s1 p2 k1.state k1.empty
        (keeps_room s s1 state_from k1 room).to_room in
    let (s3, e3, k3) = to_reply stack server r3 s2 p3 k2.state k2.empty in
    let k =
      two_replies s s2 s3 state_to state_data (two_replies s s1 s2 state_from state_to k1 k2) k3 in
    let (s4, e4, k4) =
      data_reply stack server r4 s3 p4 k3.state k3.empty
        (message_room s3 (keeps_room s s3 state_data k room)) in
    let (s5, e5, k5) = quit_reply stack server r5 s4 p5 k4.state k4.empty in
    let (s6, e6, k6) = close_reply stack server r6 s5 p6 k5.state k5.empty in
    let to_line : rcpt_to_line s1 ≡ rcpt_to_line s =
      ap (λ (t : List ℕ). rcpt_to ++ (t ++ close_text)) k1.to in
    let end6 = session_cons stack server _ [] s5 s6 s6 [] [] e6 (session_nil stack server s6) in
    let end5 = session_cons stack server _ _ s4 s5 s6 _ _ e5 end6 in
    let end4 =
      session_cons stack server _ _ s3 s4 s6 _ _ (rw (message-Step s s3 state_data k) at e4) end5 in
    let end3 = session_cons stack server _ _ s2 s3 s6 _ _ e3 end4 in
    let end2 = session_cons stack server _ _ s1 s2 s6 _ _ (rw to_line at e2) end3 in
    (s6, session_cons stack server _ _ s s1 s6 _ _ e1 end2, k6.state, k6.empty)
