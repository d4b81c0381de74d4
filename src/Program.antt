-- ===== src/Program.antt =====
-- amiproc/amiproc.cpp, `main`: the tables that it registers for the web front, what they come to for
-- an event of a connection, and the loop that queues the requests for a login. The numbers stand for addresses.
pub mod Monitor
pub mod Routes
use tst.Common.{
  refl, sym, ap, subst, ◌∙◌, inl, inr, zero, suc, ◌+◌, ◌-◌, ◌*◌, ◌/◌, ◌%◌, ◌^◌, ◌≤◌, ◌<◌, ◌≡◌, ◌≢◌,
  ◌↔◌, ◌⊎◌, ◌&&◌, ◌||◌, codes, ℕ, Bool, List, Bytes, Option, none, some, true, false, [], ◌∷◌, ◌++◌,
  ◌==◌, if◌then◌else◌,
}
use tst.Pool.Types.{Socket, TstData, Stat, tst_disconnect}
use tst.Http.Types.{User, Request, http_request, ws_base}
use tst.Http.Response.{Response}
use tst.Http.Server.{respond}
use tst.Http.Routes.{http_dtmf, http_transfer, http_alive}
use tst.Http.Handler.{Site}
use tst.Websocket.Handler.{Outcome, Handlers, websocket}
use tst.Pool.State.{Pool}
use tst.Pool.Setup.{SetupCall, ConnectIo}
use tst.Ami.Event.{AmiManage}
use tst.Ami.Login.{LoginIo, LoginResult, returned, running, faulted, ami_login}
use tst.Websocket.Alive.{Shared, websocket_alive}

-- What is not the program's own, for one event: the text that `sprintf` makes of a URI, `realloc`,
-- the answers of `read` to `websocket`, SHA-1, and what follows where the language leaves it open.
pub record Outside : Type 0 where
  pub notice : Bytes → Bytes
  pub realloc : ℕ → Option Bytes
  pub answers : List (Option Bytes)
  pub sha1 : Bytes → Bytes
  pub undefined : Socket User → TstData → Shared → Outcome Shared

abbrev pub g_route : List (Bytes × ℕ)
g_route = (codes "/dtmf", 1) ∷ (codes "/transfer", 2) ∷ (codes "/keepalive", 3) ∷ []

abbrev pub g_websocket : List (Bytes × ℕ)
g_websocket = (codes "/alive", 4) ∷ []

-- A route's handler, on the request that `user_data` holds. The code takes any `user_data` for one.
unfoldable pub by_request :
    (Request → Response × Stat) → Socket User → Shared → Option User → Outcome Shared
unfolding respond
by_request answer k g (some (http_request q)) = respond k g (answer q).0 (answer q).1
by_request answer k g _ = record { socket = k; shared = g; writes = []; stat = tst_disconnect }

-- The handlers of the two tables.
unfoldable pub registered : Handlers Shared
unfolding by_request http_dtmf http_transfer http_alive websocket_alive
registered func k g =
    if func == 1
    then by_request http_dtmf k g k.user_data
    else if func == 2
    then by_request http_transfer k g k.user_data
    else if func == 3
    then by_request http_alive k g k.user_data
    else websocket_alive k g

-- The address of `websocket` is 5.
unfoldable pub program : Outside → Site Shared
unfolding registered websocket
program out = record {
  g_route = g_route;
  handlers = λ func k g.
      if func == 5
      then websocket g_websocket out.notice registered out.realloc out.answers k g
      else registered func k g;
  websocket = 5;
  sha1 = out.sha1;
  undefined = out.undefined;
}

-- `AMI_LOGIN`, its texts without the zeroes behind them.
pub record LoginRequest : Type 0 where
  pub host : Bytes
  pub port : ℕ
  pub username : Bytes
  pub secret : Bytes

abbrev pub login_request : LoginRequest
login_request = record {
  host = codes "127.0.0.1";
  port = 5038;
  username = codes "call";
  secret = codes "call";
}

-- The loop, by what `m_main_run` and `ami_socket` hold at each of its rounds: the requests that are
-- queued for `amiLogin`, and whether the loop has ended.
unfoldable pub main_loop : List (Bool × Option ℕ) → List LoginRequest × Bool
main_loop [] = ([], false)
main_loop ((false, ami_socket) ∷ rounds) = ([], true)
main_loop ((true, some a) ∷ rounds) = main_loop rounds
main_loop ((true, none) ∷ rounds) = let rest = main_loop rounds in (login_request ∷ rest.0, rest.1)
