-- ===== src/Http/Server/Steps.antt =====
-- What the SDK may do with the server: connections that are made, end and send, in any order.
use esp8266_toolbox.Base.{ℕ, ◌≡◌, Bool, true, false, some, List, ◌==◌, if◌then◌else◌}
use esp8266_toolbox.Http.Process.Dispatch.{Handler}
use esp8266_toolbox.Http.Server.{connected, http_client_disconn_cb, http_client_recv_cb, Server}

-- The connections that were made and have not ended.
abbrev pub Open : Type 0
Open = ℕ → Bool

abbrev pub mark : Open → ℕ → Bool → Open
mark live conn value c = if c == conn then value else live c

-- What the SDK may do with the server. A connection that was made is not made again before it has
-- ended, and bytes arrive only in between.
pub data Step (urls : List (List ℕ × Handler)) (not_found : Handler)
    : Server × Open → Server × Open → Type 0 where
  connects :
      (s : Server) (live : Open) (conn : ℕ) (disconcb recvcb : Bool)
      → live conn ≡ false
      → Step urls not_found (s, live) (connected disconcb recvcb conn s, mark live conn true)
  ends :
      (s : Server) (live : Open) (conn : ℕ)
      → live conn ≡ true
      → Step urls not_found (s, live) (http_client_disconn_cb conn s, mark live conn false)
  arrives :
      (s s' : Server) (live : Open) (conn : ℕ) (bytes beyond : List ℕ)
      → live conn ≡ true
      → http_client_recv_cb urls not_found conn bytes beyond s ≡ some s'
      → Step urls not_found (s, live) (s', live)

pub data Reach (urls : List (List ℕ × Handler)) (not_found : Handler) (x : Server × Open)
    : Server × Open → Type 0 where
  here : Reach urls not_found x x
  next :
      {y z : Server × Open}
      → Reach urls not_found x y
      → Step urls not_found y z
      → Reach urls not_found x z

-- No connection was made.
abbrev pub none_open : Open
none_open conn = false
