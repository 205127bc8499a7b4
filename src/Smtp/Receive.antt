-- ===== src/Smtp/Receive.antt =====
-- smtp/smtp.c: what the client does with the server's replies.
pub mod Lines
pub mod Replies
pub mod Dialogue
pub mod Faults
mod Tests
use esp8266_toolbox.Base.{
  ℕ, zero, suc, ◌+◌, ◌-◌, Bool, true, false, ◌||◌, Option, none, some, List, [], ◌∷◌, ◌++◌, length,
  set, leb, ◌==◌, if◌then◌else◌,
}
use esp8266_toolbox.Base.Memory.{overlay}
use esp8266_toolbox.Smtp.{
  cut_line, consume, fails, find_end, inbuf_size, Effect, Lookup, smtp_send, smtp_send_conn_cb,
  smtp_send_dns, overrun, printed, ran, Run, send_out, sends, SmtpServer, SmtpState, starts_with,
  State, state_auth, state_challenge, state_close, state_connect, state_data, state_failed,
  state_from, state_greet, state_quit, state_ready, state_resolve, state_to, with_effect,
}
use esp8266_toolbox.Smtp.Challenge.{smtp_send_challenge}

-- "220"
abbrev pub code_220 : List ℕ
code_220 = b'2' ∷ b'2' ∷ b'0' ∷ []

-- "250"
abbrev pub code_250 : List ℕ
code_250 = b'2' ∷ b'5' ∷ b'0' ∷ []

-- "250 "
abbrev pub last_250 : List ℕ
last_250 = b'2' ∷ b'5' ∷ b'0' ∷ b' ' ∷ []

-- "235 "
abbrev pub code_235 : List ℕ
code_235 = b'2' ∷ b'3' ∷ b'5' ∷ b' ' ∷ []

-- "354 "
abbrev pub code_354 : List ℕ
code_354 = b'3' ∷ b'5' ∷ b'4' ∷ b' ' ∷ []

-- "221 "
abbrev pub code_221 : List ℕ
code_221 = b'2' ∷ b'2' ∷ b'1' ∷ b' ' ∷ []

-- "AUTH CRAM-MD5\r\n"
abbrev pub auth_text : List ℕ
auth_text =
    b'A' ∷ b'U' ∷ b'T' ∷ b'H' ∷ b' ' ∷ b'C' ∷ b'R' ∷ b'A' ∷ b'M' ∷ b'-' ∷ b'M' ∷ b'D' ∷ b'5' ∷ 13
    ∷ 10 ∷ []

-- "mail FROM:<"
abbrev pub mail_from : List ℕ
mail_from = b'm' ∷ b'a' ∷ b'i' ∷ b'l' ∷ b' ' ∷ b'F' ∷ b'R' ∷ b'O' ∷ b'M' ∷ b':' ∷ b'<' ∷ []

-- "rcpt TO:<"
abbrev pub rcpt_to : List ℕ
rcpt_to = b'r' ∷ b'c' ∷ b'p' ∷ b't' ∷ b' ' ∷ b'T' ∷ b'O' ∷ b':' ∷ b'<' ∷ []

-- ">\r\n"
abbrev pub close_text : List ℕ
close_text = b'>' ∷ 13 ∷ 10 ∷ []

-- "data\r\n"
abbrev pub data_text : List ℕ
data_text = b'd' ∷ b'a' ∷ b't' ∷ b'a' ∷ 13 ∷ 10 ∷ []

-- "quit\r\n"
abbrev pub quit_text : List ℕ
quit_text = b'q' ∷ b'u' ∷ b'i' ∷ b't' ∷ 13 ∷ 10 ∷ []

-- "From: "
abbrev pub from_header : List ℕ
from_header = b'F' ∷ b'r' ∷ b'o' ∷ b'm' ∷ b':' ∷ b' ' ∷ []

-- "\r\nTo: "
abbrev pub to_header : List ℕ
to_header = 13 ∷ 10 ∷ b'T' ∷ b'o' ∷ b':' ∷ b' ' ∷ []

-- "\r\nSubject: "
abbrev pub subject_header : List ℕ
subject_header = 13 ∷ 10 ∷ b'S' ∷ b'u' ∷ b'b' ∷ b'j' ∷ b'e' ∷ b'c' ∷ b't' ∷ b':' ∷ b' ' ∷ []

-- "\r\n\r\n"
abbrev pub header_end : List ℕ
header_end = 13 ∷ 10 ∷ 13 ∷ 10 ∷ []

-- "\r\n.\r\n"
abbrev pub message_end : List ℕ
message_end = 13 ∷ 10 ∷ b'.' ∷ 13 ∷ 10 ∷ []

-- The body of the loop of `smtp_send_greet`: the line's end, for a good code.
pub good_code : List ℕ → Bool
good_code memory = starts_with code_220 memory || starts_with code_250 memory

-- After the last line of the greeting.
pub greeted : Bool → SmtpState → Run
greeted refused s =
    let s' : SmtpState = record s { state = state_challenge } in
    with_effect (sends auth_text) (if refused then fails s' else ran s' [])

-- The loop, with the rounds that are left.
pub greet_loop : ℕ → Bool → SmtpState → Run
greet_loop zero refused s = ran s []
greet_loop (suc n) refused s = elim (find_end s.inbuf) [
  | none ↦ ran s []
  | some end ↦
      if good_code s.inbuf
      then elim (consume (end + 2) s) [
        | none ↦ overrun
        | some s' ↦
            let rest = greet_loop n refused s' in
            if starts_with last_250 s.inbuf
            then greeted refused s'
            else if s'.inbufused == 0
            then ran s' []
            else rest
      ]
      else fails s
]

-- Each round takes two bytes at least.
pub smtp_send_greet : Bool → SmtpState → Run
smtp_send_greet refused s = greet_loop (s.inbufused + 1) refused s

-- What the other functions have in common: a line with the code goes, and another code is a failure.
pub on_reply : List ℕ → (SmtpState → Run) → SmtpState → Run
on_reply code next s = elim (find_end s.inbuf) [
  | none ↦ ran s []
  | some end ↦
      if starts_with code s.inbuf
      then elim (consume (end + 2) s) [ none ↦ overrun | some s' ↦ next s' ]
      else fails s
]

-- A new state, and a text that is printed into `outbuf` and sent.
pub speak : Bool → State → List ℕ → SmtpState → Run
speak refused next text s =
    send_out refused (length text) (record s { state = next; outbuf = printed text s.outbuf })

abbrev pub mail_from_line : SmtpState → List ℕ
mail_from_line s = mail_from ++ (s.from ++ close_text)

abbrev pub rcpt_to_line : SmtpState → List ℕ
rcpt_to_line s = rcpt_to ++ (s.to ++ close_text)

abbrev pub message : SmtpState → List ℕ
message s =
    from_header
    ++ (s.from
        ++ (to_header
            ++ (s.to ++ (subject_header ++ (s.subj ++ (header_end ++ (s.body ++ message_end)))))))

pub smtp_send_auth : Bool → SmtpState → Run
smtp_send_auth refused = on_reply code_235 (λ s.
    cut_line refused (length (mail_from_line s)) (speak refused state_from (mail_from_line s) s))

pub smtp_send_from : Bool → SmtpState → Run
smtp_send_from refused =
    on_reply last_250
      (λ s. cut_line refused (length (rcpt_to_line s)) (speak refused state_to (rcpt_to_line s) s))

pub smtp_send_to : Bool → SmtpState → Run
smtp_send_to refused = on_reply last_250 (speak refused state_data data_text)

pub smtp_send_data : Bool → SmtpState → Run
smtp_send_data refused = on_reply code_354 (λ s. speak refused state_quit (message s) s)

pub smtp_send_quit : Bool → SmtpState → Run
smtp_send_quit refused = on_reply last_250 (speak refused state_close quit_text)

pub smtp_send_close : SmtpState → Run
smtp_send_close = on_reply code_221 (λ s. ran (record s { state = state_ready }) [])

-- The second half of `smtp_send_recv_cb`.
pub handle : Bool → List ℕ → SmtpServer → SmtpState → Run
handle refused stack server s = elim s.state [
  | state_failed ↦ ran s []
  | state_ready ↦ ran s []
  | state_resolve ↦ ran s []
  | state_connect ↦ ran s []
  | state_greet ↦ smtp_send_greet refused s
  | state_challenge ↦ smtp_send_challenge refused stack server s
  | state_auth ↦ smtp_send_auth refused s
  | state_from ↦ smtp_send_from refused s
  | state_to ↦ smtp_send_to refused s
  | state_data ↦ smtp_send_data refused s
  | state_quit ↦ smtp_send_quit refused s
  | state_close ↦ smtp_send_close s
]

pub smtp_send_recv_cb : Bool → List ℕ → SmtpServer → List ℕ → SmtpState → Run
smtp_send_recv_cb refused stack server bytes s =
    if leb inbuf_size (s.inbufused + length bytes)
    then fails s
    else handle refused stack server (record s {
      inbuf = overlay s.inbuf s.inbufused bytes;
      inbufused = s.inbufused + length bytes;
    })

pub after : List Effect → Run → Run
after effects (ran s more) = ran s (effects ++ more)
after effects overrun = overrun

-- What arrives, segment by segment, where every call of the SDK succeeds.
pub session : List ℕ → SmtpServer → List (List ℕ) → SmtpState → Run
session stack server [] s = ran s []
session stack server (bytes ∷ segments) s = elim (smtp_send_recv_cb false stack server bytes s) [
  | ran s' effects ↦ after effects (session stack server segments s')
  | overrun ↦ overrun
]

-- What happens to the client from outside: a mail to send, the answer to a lookup, a connection that is
-- made, or bytes that arrive. The Booleans say what the SDK refuses.
pub data Event : Type 0 where
  mails : Lookup → Bool → Bool → Bool → List ℕ → List ℕ → List ℕ → List ℕ → Event
  resolved : Option ℕ → Bool → Bool → Bool → Event
  connected : Bool → Bool → Bool → Bool → Event
  arrives : Bool → List ℕ → List ℕ → Event

pub on_event : SmtpServer → Event → SmtpState → Run
on_event server (mails lookup b1 b2 b3 from to subj body) s =
    smtp_send server lookup b1 b2 b3 from to subj body s
on_event server (resolved addr b1 b2 b3) s = smtp_send_dns server addr b1 b2 b3 s
on_event server (connected b1 b2 b3 b4) s = smtp_send_conn_cb b1 b2 b3 b4 s
on_event server (arrives refused stack bytes) s = smtp_send_recv_cb refused stack server bytes s

pub on_events : SmtpServer → List Event → SmtpState → Run
on_events server [] s = ran s []
on_events server (event ∷ events) s = elim (on_event server event s) [
  | ran s' effects ↦ after effects (on_events server events s')
  | overrun ↦ overrun
]
