-- ===== src/Smtp/Receive/Faults.antt =====
-- What the client does not recover from.
use esp8266_toolbox.Base.{
  ℕ, ◌+◌, ◌<◌, ◌≡◌, refl, sym, ap, ◌∙◌, Bool, true, false, Bool-cases, inl, inr, List, [], ◌∷◌,
  ◌++◌, append_assoc, length, length-append, All, All-append, drop, leb, ltb, ◌==◌, some, arith,
}
use esp8266_toolbox.Base.Memory.{overlay}
use esp8266_toolbox.Smtp.{
  consume, Effect, fails, find_end, inbuf_size, is_ready, kill_later, overrun, ran, Run, smtp_send,
  smtp_send_conn_cb, smtp_send_connect, smtp_send_dns, connects, ehlo, ip_bytes, sends,
  state_connect, state_greet, SmtpServer, SmtpState, starts_with, state_failed, state_from,
}
use esp8266_toolbox.Smtp.Receive.{
  after, arrives, connected, Event, resolved, handle, last_250, mails, on_event, on_events,
  on_reply, smtp_send_from, smtp_send_recv_cb,
}
use esp8266_toolbox.Smtp.Lines.{find_end-line, IsPlain, starts_with-append}

-- Nothing is sent: at most the connection is taken down.
abbrev pub IsKill : Effect → Type 0
IsKill e = e ≡ kill_later

abbrev pub StaysFailed : Run → Type 0
StaysFailed r =
    (s' : SmtpState) × (effects : List Effect) × (r ≡ ran s' effects)
    × (s'.state ≡ state_failed)
    × All IsKill effects

-- The SDK does not report the end of a lookup or a connection that was asked for before.
unfoldable pub IsCalm : Event → Type 0
IsCalm (mails _ _ _ _ _ _ _ _) = Unit
IsCalm (resolved _ _ _ _) = ⊥
IsCalm (connected _ _ _ _) = ⊥
IsCalm (arrives _ _ _) = Unit

event_failed :
    (server : SmtpServer) (event : Event) (s : SmtpState)
    → IsCalm event
    → s.state ≡ state_failed
    → StaysFailed (on_event server event s)
unfolding IsCalm on_event smtp_send smtp_send_recv_cb handle fails is_ready
event_failed server (mails addr b1 b2 b3 from to subj body) s calm at =
    elim (Bool-cases (length server.host == 0)) [
      | inl p ↦ rw p (s, [], refl, at, tt)
      | inr p ↦
          let busy : is_ready s.state ≡ false = ap is_ready at in rw (p, busy) (s, [], refl, at, tt)
    ]
event_failed server (resolved addr b1 b2 b3) s calm at = absurd calm
event_failed server (connected b1 b2 b3 b4) s calm at = absurd calm
event_failed server (arrives refused stack bytes) s calm at =
    elim (Bool-cases (leb inbuf_size (s.inbufused + length bytes))) [
      | inl p ↦ rw p (_, kill_later ∷ [], refl, refl, (refl, tt))
      | inr p ↦ rw (p, at) (_, [], refl, at, tt)
    ]

calm_events :
    (server : SmtpServer) (events : List Event) (s : SmtpState)
    → All IsCalm events
    → s.state ≡ state_failed
    → StaysFailed (on_events server events s)
unfolding on_events after
calm_events server [] s calm at = (s, [], refl, at, tt)
calm_events server (event ∷ events) s (calm, more_calm) at =
    let (s1, effects, e1, at1, kills) = event_failed server event s calm at in
    let (s2, more, e2, at2, kills2) = calm_events server events s1 more_calm at1 in
    (
      s2,
      effects ++ more,
      rw (e1, on_events) (rw (e2, after) refl),
      at2,
      All-append IsKill effects more kills kills2,
    )

-- A client that failed stays so, whatever mails are to be sent and whatever arrives, as long as the SDK
-- does not report the end of a lookup or a connection that was asked for before: it sends nothing more,
-- and all it asks for is that the connection is taken down. Where an address or a connection is reported
-- after that, and the SDK refuses nothing, it connects, or greets and waits for the reply, as if it had
-- not failed.
pub on_events-failed :
    (server : SmtpServer) (events : List Event) (s : SmtpState) (addr : ℕ)
    → All IsCalm events
    → s.state ≡ state_failed
    → (s' : SmtpState) × (effects : List Effect) × (on_events server events s ≡ ran s' effects)
      × (s'.state ≡ state_failed)
      × All IsKill effects
      × (on_event server (resolved (some addr) false false false) s'
          ≡ ran (record s' { state = state_connect }) (connects server.port (ip_bytes addr) ∷ []))
      × (on_event server (connected false false false false) s'
          ≡ ran (record s' { state = state_greet }) (sends ehlo ∷ []))
unfolding on_event smtp_send_dns smtp_send_connect smtp_send_conn_cb
on_events-failed server events s addr calm at =
    let (s', effects, e, at', kills) = calm_events server events s calm at in
    (s', effects, e, at', kills, refl, refl)

on_reply-overrun :
    (code : List ℕ) (next : SmtpState → Run) (s : SmtpState) (end : ℕ)
    → find_end s.inbuf ≡ some end
    → starts_with code s.inbuf ≡ true
    → s.inbufused < end + 2
    → on_reply code next s ≡ overrun
unfolding on_reply consume
on_reply-overrun code next s end e1 e2 short =
    let p : ltb s.inbufused (end + 2) ≡ true = ground (arith, short) in
    rw (e1, on_reply) (rw (e2, p) refl)

-- Where the recipient's line waits for its reply and nothing is left of earlier ones, the first bytes of
-- a reply are taken together with what an earlier, longer line left behind them in the array: where the
-- two make up a line with the code, more bytes are taken away than were received.
pub partial_reply-overrun :
    (refused : Bool) (stack : List ℕ) (server : SmtpServer) (s : SmtpState)
    (bytes stale rest more : List ℕ)
    → s.state ≡ state_from
    → s.inbufused ≡ 0
    → length bytes < inbuf_size
    → All IsPlain (bytes ++ stale)
    → drop (length bytes) s.inbuf ≡ stale ++ (13 ∷ 10 ∷ more)
    → bytes ++ stale ≡ last_250 ++ rest
    → smtp_send_recv_cb refused stack server bytes s ≡ overrun
unfolding smtp_send_recv_cb smtp_send_from handle overlay
partial_reply-overrun refused stack server s bytes stale rest more at empty short plain behind
      whole =
    let p : leb inbuf_size (s.inbufused + length bytes) ≡ false = ground (arith, empty, short) in
    let none_more : 0 + length bytes ≡ length bytes = omega arith in
    let memory : overlay s.inbuf s.inbufused bytes ≡ (bytes ++ stale) ++ (13 ∷ 10 ∷ more) =
      rw (empty, none_more, behind) (sym (append_assoc bytes stale (13 ∷ 10 ∷ more))) in
    let found = ap find_end memory ∙ find_end-line (bytes ++ stale) more plain in
    let good =
      ap (starts_with last_250) (
        memory
        ∙ ap (λ (t : List ℕ). t ++ (13 ∷ 10 ∷ more)) whole
        ∙ append_assoc last_250 rest (13 ∷ 10 ∷ more))
      ∙ starts_with-append last_250 (rest ++ (13 ∷ 10 ∷ more)) in
    rw (p, at)
      (on_reply-overrun last_250 _ _ (length (bytes ++ stale)) found good
        (omega (arith, empty, length-append bytes stale)))
