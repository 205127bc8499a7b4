-- ===== src/Http/Clients.antt =====
-- http/init.c: the table of clients, and the bytes that arrive for one.
pub mod Slots
pub mod Receive
use esp8266_toolbox.Base.{
  ℕ, zero, suc, ◌+◌, Bool, true, false, Option, none, some, List, [], ◌∷◌, length, set, replicate,
  ◌==◌, ltb, if◌then◌else◌,
}
use esp8266_toolbox.Base.Memory.{overlay}
use esp8266_toolbox.Http.Process.{HttpClient, host_size, url_size}

abbrev pub max_clients : ℕ
max_clients = 4

abbrev pub buf_capacity : ℕ
buf_capacity = 2048

-- An entry of `http_clients`: `inuse`, `conn` and the other fields.
pub record Slot : Type 0 where
  pub inuse : Bool
  pub conn : ℕ
  pub client : HttpClient

-- The fields after `os_bzero`.
unfoldable pub cleared : HttpClient
cleared = record {
  state = 0;
  method = 0;
  url = replicate url_size 0;
  host = replicate host_size 0;
  buf = replicate buf_capacity 0;
  bufused = 0;
  postused = 0;
  postlen = 0;
}

unfoldable pub initial_clients : List Slot
initial_clients = replicate max_clients (record { inuse = false; conn = 0; client = cleared })

-- The loop over the table: the first entry that is not in use, or the size of the table.
unfoldable pub free_slot : List Slot → ℕ
free_slot [] = 0
free_slot (s ∷ slots) = let rest = suc (free_slot slots) in if s.inuse then rest else 0

-- The table and `conn->reverse`; with none there, the connection is killed or was never set up. The
-- Booleans say that the SDK refused to register a callback.
unfoldable pub http_server_conn_cb : Bool → Bool → ℕ → List Slot → List Slot × Option ℕ
http_server_conn_cb disconcb recvcb conn slots =
    if disconcb
    then (slots, none)
    else if recvcb
    then (slots, none)
    else (let i = free_slot slots in
        if i == length slots
        then (slots, none)
        else (set slots i (record { inuse = true; conn = conn; client = cleared }), some i))

-- The copy of the arrived bytes behind those that are there.
abbrev pub append_bytes : HttpClient → List ℕ → HttpClient
append_bytes c bytes = record {
  state = c.state;
  method = c.method;
  url = c.url;
  host = c.host;
  buf = overlay c.buf c.bufused bytes;
  bufused = c.bufused + length bytes;
  postused = c.postused;
  postlen = c.postlen;
}

-- The part of `http_client_recv_cb` before `http_process`, with none for a buffer overflow, where the
-- connection is killed.
pub receive : HttpClient → List ℕ → Option HttpClient
receive c bytes =
    if ltb buf_capacity (c.bufused + length bytes) then none else some (append_bytes c bytes)
