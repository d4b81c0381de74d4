-- ===== src/Http/Routes/Laws.antt =====
-- The keep-alive route against the websocket of the same purpose.
use tst.Common.{arith, false, ◌≡◌}
use tst.Pool.Types.{Socket}
use tst.Http.Types.{Request, User}
use tst.Http.Query.{c_str}
use tst.Http.Routes.{parameter, is_given, is_wrong, alive_response, http_alive}
use tst.Websocket.Alive.{Shared, is_checked, is_held, register_monitor}

-- Where no other monitor is registered, the route's state is that of a monitor's websocket with
-- the same query text: both keep the connection, or both end it.
pub http_alive-register_monitor :
    (q : Request) (k : Socket User) (g : Shared)
    → is_held g k.sd ≡ false
    → (http_alive q).1 ≡ (register_monitor k g (c_str q.query_string)).stat
unfolding http_alive alive_response is_given parameter is_wrong register_monitor is_checked
http_alive-register_monitor q k g free = rw (free, register_monitor) (ground arith)
