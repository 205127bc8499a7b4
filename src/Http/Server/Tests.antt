-- ===== src/Http/Server/Tests.antt =====
-- Two connections that are made one after the other.
use esp8266_toolbox.Base.{◌⊎◌, some, ℕ, ◌≡◌, ◌≢◌, refl, true, false, [], length, ◌<◌}
use esp8266_toolbox.Http.Clients.{free_slot, http_server_conn_cb, initial_clients}
use esp8266_toolbox.Http.Process.{returns}
use esp8266_toolbox.Http.Process.Dispatch.{Handler}
use esp8266_toolbox.Http.Server.{connected, entered, http_init, Server, slot_at}
use esp8266_toolbox.Http.Server.Owners.{Reach-Owners}
use esp8266_toolbox.Http.Server.Steps.{connects, here, mark, next, none_open, Open, Reach}

abbrev first : Server
first = connected false false 7 http_init

abbrev second : Server
second = connected false false 8 first

abbrev both : Open
both = mark (mark none_open 7 true) 8 true

ignoring : Handler
ignoring c = returns c 0

two_made : Reach [] ignoring (http_init, none_open) (second, both)
two_made =
    next (next here (connects http_init none_open 7 false false refl))
      (connects first (mark none_open 7 true) 8 false false refl)

Reach-Owners_example :
    (0 < length second.slots)
    × ((slot_at second.slots 0).inuse ≡ true)
    × ((slot_at second.slots 0).conn ≡ 7)
    × ((◌≡◌ {A = ℕ} 8 7) ⊎ ((both 8 ≡ false) ⊎ (second.reverse 8 ≢ some 0)))
unfolding http_init connected entered http_server_conn_cb free_slot initial_clients
Reach-Owners_example = Reach-Owners [] ignoring second both 7 8 0 two_made refl refl
