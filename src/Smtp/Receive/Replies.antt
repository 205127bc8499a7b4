-- ===== src/Smtp/Receive/Replies.antt =====
-- One reply after another: what the client sends.
use esp8266_toolbox.Base.{
  ℕ, ◌+◌, ◌<◌, ◌≤◌, ◌≡◌, refl, ap, ◌∙◌, false, List, [], ◌∷◌, ◌++◌, append_assoc, length,
  length-append, All, drop, leb, arith,
}
use esp8266_toolbox.Base.Memory.{overlay}
use esp8266_toolbox.Smtp.{
  cut_line, Effect, inbuf_size, ran, Run, sends, SmtpServer, SmtpState, State, state_auth,
  state_close, state_data, state_from, state_quit, state_ready, state_to,
}
use esp8266_toolbox.Smtp.Receive.{
  after, close_text, header_end, message_end, subject_header, to_header, code_221, code_235,
  code_354, data_text, handle, last_250, mail_from_line, message, on_reply, quit_text, rcpt_to_line,
  session, smtp_send_auth, smtp_send_close, smtp_send_data, smtp_send_from, smtp_send_quit,
  smtp_send_recv_cb, smtp_send_to, speak,
}
use esp8266_toolbox.Smtp.Lines.{crlf, IsPlain}
use esp8266_toolbox.Smtp.Receive.Lines.{on_reply-line, speak-text}

-- The rest of a reply line, which is short enough for `inbuf`.
abbrev pub IsRest : List ℕ → Type 0
IsRest rest = All IsPlain rest × (length rest < 2042)

-- The client is in the state, with nothing left of what it received, and its mail is as it was.
pub record Step (s s' : SmtpState) (st : State) : Type 0 where
  pub state : s'.state ≡ st
  pub empty : s'.inbufused ≡ 0
  pub from : s'.from ≡ s.from
  pub to : s'.to ≡ s.to
  pub subj : s'.subj ≡ s.subj
  pub body : s'.body ≡ s.body

-- The texts fit their arrays, as `smtp_send` checks.
pub record HasRoom (s : SmtpState) : Type 0 where
  pub from_room : length s.from < 128
  pub to_room : length s.to < 128
  pub subj_room : length s.subj < 128
  pub body_room : length s.body < 512

pub message_room : (s : SmtpState) → HasRoom s → length (message s) < 1024
message_room s h =
    let a = length-append s.body message_end in
    let b = length-append s.subj (header_end ++ (s.body ++ message_end)) in
    let c =
      length-append s.to (subject_header ++ (s.subj ++ (header_end ++ (s.body ++ message_end)))) in
    let d = length-append s.from (
      to_header
      ++ (s.to ++ (subject_header ++ (s.subj ++ (header_end ++ (s.body ++ message_end)))))) in
    omega (arith, a, b, c, d, h.from_room, h.to_room, h.subj_room, h.body_room)

-- The mail is the same after a step.
pub keeps_room : (s s' : SmtpState) (st : State) → Step s s' st → HasRoom s → HasRoom s'
keeps_room s s' st step h = record {
  from_room = rw step.from h.from_room;
  to_room = rw step.to h.to_room;
  subj_room = rw step.subj h.subj_room;
  body_room = rw step.body h.body_room;
}

pub message-Step : (s s' : SmtpState) (st : State) → Step s s' st → message s' ≡ message s
message-Step s s' st step = rw (step.from, step.to, step.subj, step.body) refl

pub two_replies :
    (s s1 s2 : SmtpState) (st st2 : State) → Step s s1 st → Step s1 s2 st2 → Step s s2 st2
two_replies s s1 s2 st st2 a b = record {
  state = b.state;
  empty = b.empty;
  from = b.from ∙ a.from;
  to = b.to ∙ a.to;
  subj = b.subj ∙ a.subj;
  body = b.body ∙ a.body;
}

pub printable : (c : ℕ) → 14 ≤ c → IsPlain c
printable c h = (omega (arith, h), λ e. absurd (omega (arith, e, h)))

-- The four characters of a code, and the rest.
pub code_line :
    (a b c d : ℕ) (rest : List ℕ)
    → 14 ≤ a
    → 14 ≤ b
    → 14 ≤ c
    → 14 ≤ d
    → IsRest rest
    → All IsPlain ((a ∷ b ∷ c ∷ d ∷ []) ++ rest)
code_line a b c d rest ha hb hc hd (plain, short) =
    (printable a ha, (printable b hb, (printable c hc, (printable d hd, plain))))

module _ (stack : List ℕ) (server : SmtpServer) where
  pub hears :
      (code rest : List ℕ) (next : SmtpState → Run) (s : SmtpState)
      → All IsPlain (code ++ rest)
      → length (code ++ rest) < 2046
      → s.inbufused ≡ 0
      → ((s1 : SmtpState)
          → s1.state ≡ s.state
          → handle false stack server s1 ≡ on_reply code next s1)
      → (inbuf : List ℕ) × (smtp_send_recv_cb false stack server ((code ++ rest) ++ crlf) s
          ≡ next (record s { inbuf = inbuf; inbufused = 0 }))
  unfolding smtp_send_recv_cb overlay
  hears code rest next s plain short empty handled =
      let bytes : List ℕ = (code ++ rest) ++ crlf in
      let len = length-append (code ++ rest) crlf in
      let p : leb inbuf_size (s.inbufused + length bytes) ≡ false =
        ground (arith, empty, len, short) in
      let more : List ℕ = drop (0 + length bytes) s.inbuf in
      let memory : overlay s.inbuf s.inbufused bytes ≡ (code ++ rest) ++ (13 ∷ 10 ∷ more) =
        rw empty (append_assoc (code ++ rest) crlf more) in
      let s1 : SmtpState = record s {
        inbuf = overlay s.inbuf s.inbufused bytes;
        inbufused = s.inbufused + length bytes;
      } in
      let (inbuf, e) =
        on_reply-line code rest more next s1 plain memory (omega (arith, empty, len)) in
      (inbuf, rw p (handled s1 refl ∙ e))

  pub session_nil : (s : SmtpState) → session stack server [] s ≡ ran s []
  unfolding session
  session_nil s = refl

  pub session_cons :
      (bytes : List ℕ) (segments : List (List ℕ)) (s s' s'' : SmtpState)
      (effects more : List Effect)
      → smtp_send_recv_cb false stack server bytes s ≡ ran s' effects
      → session stack server segments s' ≡ ran s'' more
      → session stack server (bytes ∷ segments) s ≡ ran s'' (effects ++ more)
  unfolding session after
  session_cons bytes segments s s' s'' effects more e1 e2 = rw (e1, session) (rw (e2, after) refl)

  pub auth_reply :
      (rest : List ℕ) (s : SmtpState)
      → IsRest rest
      → s.state ≡ state_auth
      → s.inbufused ≡ 0
      → length s.from < 128
      → (s' : SmtpState) × (smtp_send_recv_cb false stack server ((code_235 ++ rest) ++ crlf) s
          ≡ ran s' (sends (mail_from_line s) ∷ []))
        × Step s s' state_from
  unfolding smtp_send_auth handle cut_line
  auth_reply rest s ok at empty fits0 =
      let plain =
        code_line b'2' b'3' b'5' b' ' rest (omega arith) (omega arith) (omega arith) (omega arith)
          ok in
      let (inbuf, heard) =
        hears code_235 rest
          (λ s1.
            cut_line false (length (mail_from_line s1))
              (speak false state_from (mail_from_line s1) s1))
          s plain (omega (arith, ok.1)) empty (λ s1 same. rw (same ∙ at) refl) in
      let s1 : SmtpState = record s { inbuf = inbuf; inbufused = 0 } in
      let spoken =
        speak-text state_from (mail_from_line s) s1
          (omega (arith, fits0, length-append s.from close_text)) in
      (
        _,
        heard ∙ ap (cut_line false (length (mail_from_line s))) spoken,
        record { state = refl; empty = refl; from = refl; to = refl; subj = refl; body = refl },
      )

  pub from_reply :
      (rest : List ℕ) (s : SmtpState)
      → IsRest rest
      → s.state ≡ state_from
      → s.inbufused ≡ 0
      → length s.to < 128
      → (s' : SmtpState) × (smtp_send_recv_cb false stack server ((last_250 ++ rest) ++ crlf) s
          ≡ ran s' (sends (rcpt_to_line s) ∷ []))
        × Step s s' state_to
  unfolding smtp_send_from handle cut_line
  from_reply rest s ok at empty fits0 =
      let plain =
        code_line b'2' b'5' b'0' b' ' rest (omega arith) (omega arith) (omega arith) (omega arith)
          ok in
      let (inbuf, heard) =
        hears last_250 rest
          (λ s1.
            cut_line false (length (rcpt_to_line s1)) (speak false state_to (rcpt_to_line s1) s1))
          s plain (omega (arith, ok.1)) empty (λ s1 same. rw (same ∙ at) refl) in
      let s1 : SmtpState = record s { inbuf = inbuf; inbufused = 0 } in
      let spoken =
        speak-text state_to (rcpt_to_line s) s1
          (omega (arith, fits0, length-append s.to close_text)) in
      (
        _,
        heard ∙ ap (cut_line false (length (rcpt_to_line s))) spoken,
        record { state = refl; empty = refl; from = refl; to = refl; subj = refl; body = refl },
      )

  pub to_reply :
      (rest : List ℕ) (s : SmtpState)
      → IsRest rest
      → s.state ≡ state_to
      → s.inbufused ≡ 0
      → (s' : SmtpState) × (smtp_send_recv_cb false stack server ((last_250 ++ rest) ++ crlf) s
          ≡ ran s' (sends (data_text) ∷ []))
        × Step s s' state_data
  unfolding smtp_send_to handle
  to_reply rest s ok at empty =
      let plain =
        code_line b'2' b'5' b'0' b' ' rest (omega arith) (omega arith) (omega arith) (omega arith)
          ok in
      let (inbuf, heard) =
        hears last_250 rest (speak false state_data data_text) s plain (omega (arith, ok.1)) empty
          (λ s1 same. rw (same ∙ at) refl) in
      let s1 : SmtpState = record s { inbuf = inbuf; inbufused = 0 } in
      let spoken = speak-text state_data (data_text) s1 (omega arith) in
      (
        _,
        heard ∙ spoken,
        record { state = refl; empty = refl; from = refl; to = refl; subj = refl; body = refl },
      )

  pub data_reply :
      (rest : List ℕ) (s : SmtpState)
      → IsRest rest
      → s.state ≡ state_data
      → s.inbufused ≡ 0
      → length (message s) < 1024
      → (s' : SmtpState) × (smtp_send_recv_cb false stack server ((code_354 ++ rest) ++ crlf) s
          ≡ ran s' (sends (message s) ∷ []))
        × Step s s' state_quit
  unfolding smtp_send_data handle
  data_reply rest s ok at empty fits0 =
      let plain =
        code_line b'3' b'5' b'4' b' ' rest (omega arith) (omega arith) (omega arith) (omega arith)
          ok in
      let (inbuf, heard) =
        hears code_354 rest (λ s1. speak false state_quit (message s1) s1) s plain
          (omega (arith, ok.1)) empty (λ s1 same. rw (same ∙ at) refl) in
      let s1 : SmtpState = record s { inbuf = inbuf; inbufused = 0 } in
      let spoken = speak-text state_quit (message s) s1 (fits0) in
      (
        _,
        heard ∙ spoken,
        record { state = refl; empty = refl; from = refl; to = refl; subj = refl; body = refl },
      )

  pub quit_reply :
      (rest : List ℕ) (s : SmtpState)
      → IsRest rest
      → s.state ≡ state_quit
      → s.inbufused ≡ 0
      → (s' : SmtpState) × (smtp_send_recv_cb false stack server ((last_250 ++ rest) ++ crlf) s
          ≡ ran s' (sends (quit_text) ∷ []))
        × Step s s' state_close
  unfolding smtp_send_quit handle
  quit_reply rest s ok at empty =
      let plain =
        code_line b'2' b'5' b'0' b' ' rest (omega arith) (omega arith) (omega arith) (omega arith)
          ok in
      let (inbuf, heard) =
        hears last_250 rest (speak false state_close quit_text) s plain (omega (arith, ok.1)) empty
          (λ s1 same. rw (same ∙ at) refl) in
      let s1 : SmtpState = record s { inbuf = inbuf; inbufused = 0 } in
      let spoken = speak-text state_close (quit_text) s1 (omega arith) in
      (
        _,
        heard ∙ spoken,
        record { state = refl; empty = refl; from = refl; to = refl; subj = refl; body = refl },
      )

  pub close_reply :
      (rest : List ℕ) (s : SmtpState)
      → IsRest rest
      → s.state ≡ state_close
      → s.inbufused ≡ 0
      → (s' : SmtpState) × (smtp_send_recv_cb false stack server ((code_221 ++ rest) ++ crlf) s
          ≡ ran s' ([]))
        × Step s s' state_ready
  unfolding smtp_send_close handle
  close_reply rest s ok at empty =
      let plain =
        code_line b'2' b'2' b'1' b' ' rest (omega arith) (omega arith) (omega arith) (omega arith)
          ok in
      let (inbuf, heard) =
        hears code_221 rest (λ s1. ran (record s1 { state = state_ready }) []) s plain
          (omega (arith, ok.1)) empty (λ s1 same. rw (same ∙ at) refl) in
      (
        _,
        heard,
        record { state = refl; empty = refl; from = refl; to = refl; subj = refl; body = refl },
      )
