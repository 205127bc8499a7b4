-- ===== src/Smtp.antt =====
-- smtp/smtp.c and smtp/private.h: the mail client. `inbuf` and `outbuf` are the arrays; a string array is
-- the text in front of its NUL. What a call of the SDK returns is an argument, true or a number where
-- it fails; what the client asks of the SDK is a list of effects. The log's lines are left out.
pub mod Lines
pub mod Challenge
pub mod Receive
use esp8266_toolbox.Base.{
  ℕ, zero, suc, ◌+◌, ◌-◌, ◌/◌, ◌%◌, Bool, true, false, not, ◌&&◌, ◌||◌, Option, none, some, List,
  [], ◌∷◌, ◌++◌, length, take, drop, set, replicate, ltb, leb, ◌==◌, if◌then◌else◌,
}
use esp8266_toolbox.Base.Memory.{overlay}

-- `SMTP_STATE_FAILED` and the others.
pub data State : Type 0 where
  state_failed state_ready state_resolve state_connect state_greet state_challenge : State
  state_auth state_from state_to state_data state_quit state_close : State

pub record SmtpServer : Type 0 where
  pub host : List ℕ
  pub port : ℕ
  pub user : List ℕ
  pub pass : List ℕ

pub record SmtpState : Type 0 where
  pub state : State
  pub inbuf : List ℕ
  pub inbufused : ℕ
  pub outbuf : List ℕ
  pub from : List ℕ
  pub to : List ℕ
  pub subj : List ℕ
  pub body : List ℕ

-- What the SDK is asked to do. The timer for smtp_send_kill is set with the connection in
-- `kill_conn_later`, and with NULL in `kill_later`.
pub data Effect : Type 0 where
  resolves : List ℕ → Effect
  connects : ℕ → List ℕ → Effect
  sends : List ℕ → Effect
  kill_conn_later kill_later : Effect

-- A run of a callback, unless it leaves an array.
pub data Run : Type 0 where
  ran : SmtpState → List Effect → Run
  overrun : Run

abbrev pub inbuf_size : ℕ
inbuf_size = 2048

abbrev pub outbuf_size : ℕ
outbuf_size = 1024

-- The state after `smtp_init`.
pub smtp_init : SmtpState
smtp_init = record {
  state = state_ready;
  inbuf = replicate inbuf_size 0;
  inbufused = 0;
  outbuf = replicate outbuf_size 0;
  from = [];
  to = [];
  subj = [];
  body = [];
}

-- The failure after a connection was made.
pub fails : SmtpState → Run
fails s = ran (record s { state = state_failed }) (kill_later ∷ [])

-- The address, the lowest byte first.
pub ip_bytes : ℕ → List ℕ
ip_bytes addr = addr % 256 ∷ addr / 256 % 256 ∷ addr / 65536 % 256 ∷ addr / 16777216 % 256 ∷ []

-- The three calls of the SDK refuse or not.
pub smtp_send_connect : SmtpServer → ℕ → Bool → Bool → Bool → SmtpState → Run
smtp_send_connect server addr refuses_connectcb refuses_reconcb refuses_connect s =
    if refuses_connectcb || refuses_reconcb
    then ran (record s { state = state_failed }) []
    else if refuses_connect
    then ran (record s { state = state_failed }) (connects server.port (ip_bytes addr) ∷ [])
    else ran (record s { state = state_connect }) (connects server.port (ip_bytes addr) ∷ [])

-- The answers of `espconn_gethostbyname`.
pub data Lookup : Type 0 where
  found : ℕ → Lookup
  in_progress : Lookup
  no_lookup : Lookup

-- `smtp_send_dns`, with the address where there is one.
pub smtp_send_dns : SmtpServer → Option ℕ → Bool → Bool → Bool → SmtpState → Run
smtp_send_dns server none b1 b2 b3 s = ran (record s { state = state_failed }) []
smtp_send_dns server (some addr) b1 b2 b3 s = smtp_send_connect server addr b1 b2 b3 s

-- What is asked before.
pub with_effect : Effect → Run → Run
with_effect e (ran s effects) = ran s (e ∷ effects)
with_effect e overrun = overrun

-- The last part of `smtp_send`.
pub resolve : SmtpServer → Lookup → Bool → Bool → Bool → SmtpState → Run
resolve server lookup b1 b2 b3 s = with_effect (resolves server.host) (elim lookup [
  | found addr ↦ smtp_send_connect server addr b1 b2 b3 s
  | in_progress ↦ ran s []
  | no_lookup ↦ ran (record s { state = state_failed }) []
])

pub is_ready : State → Bool
is_ready state_ready = true
is_ready _ = false

pub smtp_send :
    SmtpServer → Lookup → Bool → Bool → Bool → List ℕ → List ℕ → List ℕ → List ℕ → SmtpState → Run
smtp_send server lookup b1 b2 b3 from to subj body s =
    if length server.host == 0
    then ran s []
    else if not (is_ready s.state)
    then ran s []
    else if ltb 128 (length from + 1)
    then ran s []
    else if ltb 128 (length to + 1)
    then ran (record s { from = from }) []
    else if ltb 128 (length subj + 1)
    then ran (record s { from = from; to = to }) []
    else if ltb 512 (length body + 1)
    then ran (record s { from = from; to = to; subj = subj }) []
    else resolve server lookup b1 b2 b3
        (record s { state = state_resolve; from = from; to = to; subj = subj; body = body })

-- "ehlo [127.0.1.1]\r\n"
abbrev pub ehlo : List ℕ
ehlo =
    b'e' ∷ b'h' ∷ b'l' ∷ b'o' ∷ b' ' ∷ b'[' ∷ b'1' ∷ b'2' ∷ b'7' ∷ b'.' ∷ b'0' ∷ b'.' ∷ b'1' ∷ b'.'
    ∷ b'1' ∷ b']' ∷ 13 ∷ 10 ∷ []

-- The four calls of the SDK refuse or not.
pub smtp_send_conn_cb : Bool → Bool → Bool → Bool → SmtpState → Run
smtp_send_conn_cb refuses_disconcb refuses_recvcb refuses_sentcb refuses_send s =
    if refuses_disconcb || (refuses_recvcb || refuses_sentcb)
    then ran (record s { state = state_failed }) (kill_conn_later ∷ [])
    else if refuses_send
    then with_effect (sends ehlo) (fails s)
    else ran (record s { state = state_greet }) (sends ehlo ∷ [])

-- The index of "\r\n" in the text in front of the first NUL: `os_strstr`.
pub find_end : List ℕ → Option ℕ
find_end [] = none
find_end (zero ∷ text) = none
find_end (suc c ∷ []) = none
find_end (suc c ∷ d ∷ text) =
    let rest = find_end (d ∷ text) in
    if suc c == 13 && d == 10 then some 0 else elim rest [ none ↦ none | some n ↦ some (suc n) ]

-- Whether the memory starts with the code: `os_strncmp`.
pub starts_with : List ℕ → List ℕ → Bool
starts_with [] memory = true
starts_with (c ∷ code) [] = false
starts_with (c ∷ code) (x ∷ memory) = (c == x) && starts_with code memory

-- The line up to `end`, which is past its "\r\n", goes. Where fewer bytes were received, the difference
-- wraps around and `os_memmove` copies nearly 64 KB.
pub consume : ℕ → SmtpState → Option SmtpState
consume end s =
    if ltb s.inbufused end
    then none
    else some (record s {
      inbuf = overlay s.inbuf 0 (take (s.inbufused - end + 1) (drop end s.inbuf));
      inbufused = s.inbufused - end;
    })

-- `os_snprintf` into `outbuf`.
pub printed : List ℕ → List ℕ → List ℕ
printed text outbuf =
    if ltb (length text) outbuf_size
    then overlay outbuf 0 (text ++ (0 ∷ []))
    else overlay outbuf 0 (take (outbuf_size - 1) text ++ (0 ∷ []))

-- `espconn_send` of `len` bytes of `outbuf`.
pub send_out : Bool → ℕ → SmtpState → Run
send_out refused len s =
    if refused
    then with_effect (sends (take len s.outbuf)) (fails s)
    else ran s (sends (take len s.outbuf) ∷ [])

-- `outbuf[len - 2] = 0` after what was sent.
pub cut_line : Bool → ℕ → Run → Run
cut_line refused len (ran s effects) =
    ran (record s { outbuf = if refused then s.outbuf else set s.outbuf (len - 2) 0 }) effects
cut_line refused len overrun = overrun
