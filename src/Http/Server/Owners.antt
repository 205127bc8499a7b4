-- ===== src/Http/Server/Owners.antt =====
-- Open connections have entries of their own, in every state of the server.
use esp8266_toolbox.Base.{
  ◌⊎◌, ℕ, ◌<◌, ◌≡◌, ◌≢◌, sym, subst, ◌∙◌, inl, inr, true, false, Bool-cases, some, List, length,
  set, Option-cases, ◌==◌, arith,
}
use esp8266_toolbox.Http.Clients.{receive, Slot}
use esp8266_toolbox.Http.Process.{
  HttpClient, exhausted, goes_on, negative, outside, returns, Verdict,
}
use esp8266_toolbox.Http.Process.Dispatch.{Handler, http_process}
use esp8266_toolbox.Http.Server.{
  free, handled, http_client_disconn_cb, http_client_recv_cb, http_init, processed, received_for,
  Server, slot_at, post_kill,
}
use esp8266_toolbox.Http.Server.Entries.{
  AllOwn, connected-AllOwn, freed-AllOwn, Owns, Owns-set, Owns-set_self,
}
use esp8266_toolbox.Http.Server.Steps.{
  arrives, connects, ends, here, mark, next, none_open, Open, Reach, Step,
}

ends-AllOwn :
    (conn : ℕ) (s : Server) (live : Open)
    → live conn ≡ true
    → AllOwn (s, live)
    → AllOwn (http_client_disconn_cb conn s, mark live conn false)
unfolding http_client_disconn_cb free
ends-AllOwn conn s live l own = elim (Option-cases (s.reverse conn)) [
  | inl p ↦
      rw (p, http_client_disconn_cb)
        (λ c i l' e. elim (Bool-cases (c == conn)) [
          | inl q ↦ let l'' : false ≡ true = (let x = rw q at l' in x) in cc
          | inr q ↦ own c i (let x = rw q at l' in x) e
        ])
  | inr (k, p) ↦ rw (p, http_client_disconn_cb) (freed-AllOwn conn k s live (own conn k l p) own)
]

-- Only the client of an entry changes.
client-Owns :
    (slots : List Slot) (c j k : ℕ) (client : HttpClient)
    → Owns slots c j
    → Owns (set slots k (record (slot_at slots k) { client = client })) c j
client-Owns slots c j k client o =
    let v : Slot = record (slot_at slots k) { client = client } in
    elim (Bool-cases (k == j)) [
      | inl p ↦
          let same : j ≡ k = grind (arith, p) in
          let o' = subst (λ i. Owns slots c i) same o in
          subst (λ i. Owns (set slots k v) c i) (sym same)
            (Owns-set_self slots c k v o'.inside o'.inuse o'.conn)
      | inr p ↦ Owns-set slots c k j v (λ same. grind (arith, p, same)) o
    ]

processed-AllOwn :
    (conn k : ℕ) (client : HttpClient) (rv : ℕ) (s : Server) (live : Open)
    → AllOwn (s, live)
    → AllOwn (processed conn k client rv s, live)
unfolding processed
processed-AllOwn conn k client rv s live own = elim (Bool-cases (rv == 0)) [
  | inl p ↦ rw p (λ c i l e. client-Owns s.slots c i k client (own c i l e))
  | inr p ↦ rw p (λ c i l e. client-Owns s.slots c i k client (own c i l e))
]

handled-AllOwn :
    {A : Type 0} (conn k : ℕ) (s s' : Server) (live : Open) (v : Verdict A)
    → AllOwn (s, live)
    → handled conn k s v ≡ some s'
    → AllOwn (s', live)
unfolding handled
handled-AllOwn conn k s s' live outside own e = cc
handled-AllOwn conn k s s' live (negative client n) own e = cc
handled-AllOwn conn k s s' live exhausted own e = cc
handled-AllOwn conn k s s' live (returns client rv) own e =
    let same : processed conn k client rv s ≡ s' = cc in
    subst (λ t. AllOwn (t, live)) same (processed-AllOwn conn k client rv s live own)
handled-AllOwn conn k s s' live (goes_on client rest) own e =
    let same : processed conn k client 0 s ≡ s' = cc in
    subst (λ t. AllOwn (t, live)) same (processed-AllOwn conn k client 0 s live own)

-- The connection is killed.
killed-AllOwn :
    (conn : ℕ) (s s' : Server) (live : Open)
    → AllOwn (s, live)
    → some (post_kill conn s) ≡ some s'
    → AllOwn (s', live)
killed-AllOwn conn s s' live own e =
    let same : post_kill conn s ≡ s' = cc in subst (λ t. AllOwn (t, live)) same own

arrives-AllOwn :
    (urls : List (List ℕ × Handler)) (not_found : Handler) (conn : ℕ) (bytes beyond : List ℕ)
    (s s' : Server) (live : Open)
    → AllOwn (s, live)
    → http_client_recv_cb urls not_found conn bytes beyond s ≡ some s'
    → AllOwn (s', live)
unfolding http_client_recv_cb received_for
arrives-AllOwn urls not_found conn bytes beyond s s' live own e =
    elim (Option-cases (s.reverse conn)) [
      | inl p ↦ killed-AllOwn conn s s' live own (let q = rw (p, http_client_recv_cb) at e in q)
      | inr (k, p) ↦
          let e1 = rw (p, http_client_recv_cb) at e in
          elim (Option-cases (receive (slot_at s.slots k).client bytes)) [
            | inl r ↦ killed-AllOwn conn s s' live own (let q = rw (r, received_for) at e1 in q)
            | inr (client, r) ↦
                handled-AllOwn conn k s s' live (http_process urls not_found client beyond) own
                  (let q = rw (r, received_for) at e1 in q)
          ]
    ]

Step-AllOwn :
    {urls : List (List ℕ × Handler)} {not_found : Handler} {x y : Server × Open}
    → AllOwn x
    → Step urls not_found x y
    → AllOwn y
Step-AllOwn own (connects s live conn disconcb recvcb l) =
    connected-AllOwn disconcb recvcb conn s live own
Step-AllOwn own (ends s live conn l) = ends-AllOwn conn s live l own
Step-AllOwn {urls} {not_found} own (arrives s s' live conn bytes beyond l e) =
    arrives-AllOwn urls not_found conn bytes beyond s s' live own e

Reach-AllOwn :
    {urls : List (List ℕ × Handler)} {not_found : Handler} {y : Server × Open}
    → Reach urls not_found (http_init, none_open) y
    → AllOwn y
Reach-AllOwn here = λ c i l e. cc
Reach-AllOwn (next r st) = Step-AllOwn (Reach-AllOwn r) st

-- In every state that the server reaches from `http_init`, whatever connections are made, end and send
-- in whatever order, as long as http_process stays within its arrays: an open connection with an entry
-- has one inside of the table, which is in use and is this connection's, and any other connection is
-- not open or does not have this entry.
pub Reach-Owners :
    (urls : List (List ℕ × Handler)) (not_found : Handler) (s : Server) (live : Open) (c c' i : ℕ)
    → Reach urls not_found (http_init, none_open) (s, live)
    → live c ≡ true
    → s.reverse c ≡ some i
    → (i < length s.slots)
      × ((slot_at s.slots i).inuse ≡ true)
      × ((slot_at s.slots i).conn ≡ c)
      × ((c' ≡ c) ⊎ ((live c' ≡ false) ⊎ (s.reverse c' ≢ some i)))
Reach-Owners urls not_found s live c c' i r l e =
    let o = Reach-AllOwn r c i l e in
    let other : (c' ≡ c) ⊎ ((live c' ≡ false) ⊎ (s.reverse c' ≢ some i)) =
      elim (Bool-cases (c' == c)) [
        | inl p ↦ inl (grind (arith, p))
        | inr p ↦ elim (Bool-cases (live c')) [
          | inr q ↦ inr (inl q)
          | inl q ↦ inr (
              inr (λ e'.
                let same : c' ≡ c = sym (Reach-AllOwn r c' i q e').conn ∙ o.conn in
                grind (arith, p, same)))
        ]
      ] in
    (o.inside, o.inuse, o.conn, other)
