-- ===== src/Http/Server.antt =====
-- http/init.c: the callbacks of the HTTP server's connections. A connection is a number; what the SDK
-- keeps for it is its `reverse`, the index of its entry in `http_clients`.
pub mod Steps
pub mod Entries
pub mod Owners
mod Tests
use esp8266_toolbox.Base.{
  ℕ, Bool, true, false, Option, none, some, List, [], ◌∷◌, ◌++◌, set, get_or, ◌==◌, if◌then◌else◌,
}
use esp8266_toolbox.Http.Clients.{cleared, http_server_conn_cb, initial_clients, receive, Slot}
use esp8266_toolbox.Http.Process.{
  goes_on, HttpClient, exhausted, negative, outside, returns, Verdict,
}
use esp8266_toolbox.Http.Process.Dispatch.{Handler, http_process}

pub record Server : Type 0 where
  pub slots : List Slot
  pub reverse : ℕ → Option ℕ
  pub kills : List ℕ

-- The state after `http_init`. The connections' `reverse` is set when they are made.
pub http_init : Server
http_init = record { slots = initial_clients; reverse = λ conn. none; kills = [] }

-- `system_os_post(HTTP_TASK_PRIO, HTTP_TASK_KILL, conn)`
abbrev pub post_kill : ℕ → Server → Server
post_kill conn s = record s { kills = s.kills ++ conn ∷ [] }

abbrev pub set_reverse : (ℕ → Option ℕ) → ℕ → Option ℕ → ℕ → Option ℕ
set_reverse reverse conn r c = if c == conn then r else reverse c

-- The new table, with the connection's entry there, which is killed when it has none.
pub entered : ℕ → Server → List Slot × Option ℕ → Server
entered conn s (slots, some i) = record s {
  slots = slots;
  reverse = set_reverse s.reverse conn (some i);
}
entered conn s (slots, none) =
    post_kill conn (record s { slots = slots; reverse = set_reverse s.reverse conn none })

-- `http_server_conn_cb`, with the table from `Http/Clients`.
pub connected : Bool → Bool → ℕ → Server → Server
connected disconcb recvcb conn s = entered conn s (http_server_conn_cb disconcb recvcb conn s.slots)

-- What stands outside of the table.
abbrev pub no_slot : Slot
no_slot = record { inuse = false; conn = 0; client = cleared }

abbrev pub slot_at : List Slot → ℕ → Slot
slot_at slots i = get_or slots i no_slot

pub free : List Slot → ℕ → List Slot
free slots i = set slots i (record (slot_at slots i) { inuse = false })

pub http_client_disconn_cb : ℕ → Server → Server
http_client_disconn_cb conn s = elim (s.reverse conn) [
  | none ↦ s
  | some i ↦ record s { slots = free s.slots i }
]

-- The client with what `http_process` returned, and the connection killed where that is not 0.
pub processed : ℕ → ℕ → HttpClient → ℕ → Server → Server
processed conn i c rv s =
    let s' : Server = record s {
      slots = set s.slots i (record (slot_at s.slots i) { client = c });
    } in
    if rv == 0 then s' else post_kill conn s'

-- The verdict of `http_process`; none where it leaves its arrays. A handler does not go on, and the fuel
-- of `http_process` is enough.
pub handled : {A : Type 0} → ℕ → ℕ → Server → Verdict A → Option Server
handled conn i s outside = none
handled conn i s (negative c n) = none
handled conn i s exhausted = none
handled conn i s (returns c rv) = some (processed conn i c rv s)
handled conn i s (goes_on c _) = some (processed conn i c 0 s)

module _ (urls : List (List ℕ × Handler)) (not_found : Handler) where
  -- The bytes for a client.
  pub received_for : ℕ → ℕ → List ℕ → List ℕ → Server → Option Server
  received_for conn i bytes beyond s = elim (receive (slot_at s.slots i).client bytes) [
    | none ↦ some (post_kill conn s)
    | some c ↦ handled conn i s (http_process urls not_found c beyond)
  ]

  -- The memory behind the client's buffer is `beyond`.
  pub http_client_recv_cb : ℕ → List ℕ → List ℕ → Server → Option Server
  http_client_recv_cb conn bytes beyond s = elim (s.reverse conn) [
    | none ↦ some (post_kill conn s)
    | some i ↦ received_for conn i bytes beyond s
  ]

-- What the SDK is asked to do.
pub data Request : Type 0 where
  disconnects deletes : ℕ → Request

abbrev pub task_kill : ℕ
task_kill = 0

-- `http_task` with the event's signal and parameter.
pub http_task : ℕ → ℕ → List Request
http_task sig conn = if sig == task_kill then disconnects conn ∷ deletes conn ∷ [] else []
