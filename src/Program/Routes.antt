-- ===== src/Program/Routes.antt =====
-- amiproc: what the routes of `main` come to for a request that `http` has read.
use tst.Common.{
  length, get_or, ◌+◌, Bool, refl, ap, ◌∙◌, none, some, true, false, [], ◌∷◌, ◌≡◌, ◌==◌,
  if◌then◌else◌, ℕ, codes, Bytes, arith,
}
use tst.Pool.Types.{Socket, TstData, Stat, tst_disconnect, reset_data}
use tst.Http.Types.{User, Request, http_request}
use tst.Http.Query.{c_str, equal}
use tst.Http.Server.{wants_websocket, is_route_method, content_length, call_route, respond}
use tst.Http.Request.{parse_request, well_formed}
use tst.Http.Response.{Response, response_http}
use tst.Http.Routes.{http_dtmf, http_transfer, http_alive}
use tst.Http.Handler.{answer_request, on_header, on_bytes}
use tst.Websocket.Handler.{Outcome, route}
use tst.Websocket.Alive.{Shared}
use tst.Http.Handler.{http}
use tst.Http.Handler.Whole.{Arrives, terminated, http-on_bytes}
use tst.Ami.Message.Laws.{arrive}
use tst.Program.{Handlers, Outside, program, registered, by_request, g_route}

-- The table, by name and function.
pub data Routed : Bytes → (Request → Response × Stat) → Type 0 where
  dtmf : Routed (codes "/dtmf") http_dtmf
  transfer : Routed (codes "/transfer") http_transfer
  keepalive : Routed (codes "/keepalive") http_alive

abbrev is_end : Stat → Bool
is_end tst_disconnect = true
is_end _ = false

-- A request that a route has answered, on a connection with the send buffer `s`.
abbrev pub answered :
    Socket User → TstData → Request → TstData → Response × Stat → Shared → Outcome Shared
answered k d q s (r, next) g = record {
  socket = record k {
    user_data = if is_end next then some (http_request q) else none;
    recv = some (if is_end next then d else reset_data d);
    send = some (response_http s r).0;
  };
  shared = g;
  writes = (response_http s r).1 ∷ [];
  stat = next;
}

respond-some :
    (k : Socket User) (s : TstData) (g : Shared) (r : Response) (next : Stat)
    → k.send ≡ some s
    → respond k g r next ≡ record {
      socket = record k { send = some (response_http s r).0 };
      shared = g;
      writes = (response_http s r).1 ∷ [];
      stat = next;
    }
unfolding respond
respond-some k s g r next sends = rw (sends, respond) refl

call_route-respond :
    (handlers : Handlers Shared) (func : ℕ) (k : Socket User) (d s : TstData) (q : Request)
    (g : Shared) (r : Response) (next : Stat)
    → k.send ≡ some s
    → k.recv ≡ some d
    → k.user_data ≡ some (http_request q)
    → handlers func k g ≡ respond k g r next
    → call_route handlers func k g ≡ answered k d q s (r, next) g
unfolding call_route respond
call_route-respond handlers func k d s q g r next sends recvs known e =
    ap (λ o. call_route (λ f j h. o) func k g) (e ∙ respond-some k s g r next sends)
    ∙ ground (arith, recvs, known)

by_request-respond :
    (answer : Request → Response × Stat) (k : Socket User) (g : Shared) (q : Request)
    → k.user_data ≡ some (http_request q)
    → by_request answer k g k.user_data ≡ respond k g (answer q).0 (answer q).1
unfolding by_request
by_request-respond answer k g q known = ap (by_request answer k g) known

-- Every route's function is found by its name.
route-registered :
    (out : Outside) (uri : Bytes) (answer : Request → Response × Stat) (k : Socket User)
    (g : Shared)
    → Routed uri answer
    → (route uri g_route == 0 ≡ false)
      × ((program out).handlers (route uri g_route) k g ≡ by_request answer k g k.user_data)
unfolding route equal program registered
route-registered out uri answer k g dtmf = (refl, refl)
route-registered out uri answer k g transfer = (refl, refl)
route-registered out uri answer k g keepalive = (refl, refl)

on_bytes-answered :
    (out : Outside) (uri : Bytes) (answer : Request → Response × Stat) (k : Socket User)
    (d s : TstData) (q : Request) (g : Shared)
    → Routed uri answer
    → q.request_uri ≡ uri
    → parse_request (c_str d.s) (get_or d.s (length (c_str d.s) + 1) 0) ≡ well_formed q
    → content_length q ≡ some 0
    → wants_websocket q ≡ some false
    → is_route_method q ≡ true
    → k.send ≡ some s
    → on_bytes (program out) k d none g ≡ answered k d q s (answer q) g
unfolding on_bytes on_header answer_request program
on_bytes-answered out uri answer k d s q g routed named e nothing asks method sends =
    let k' = record k { user_data = some (http_request q); recv = some d } in
    let (found, called) = route-registered out uri answer k' g routed in
    let table : route q.request_uri (program out).g_route ≡ route uri g_route =
      ap (λ u. route u g_route) named in
    rw (e, nothing, asks, method, table, found, on_bytes, on_header, answer_request)
      (call_route-respond (program out).handlers (route uri g_route) k' d s q g (answer q).0
        (answer q).1 sends refl refl (called ∙ by_request-respond answer k' g q refl))

-- A header that is parsed, with the byte behind its 0, and whose Content-Length is 0 or missing,
-- and that names a registered route, in a request by GET or POST that asks for no websocket,
-- arriving in one event on a connection with a send buffer: the route's answer for the request
-- goes out, alone, and the connection ends where the route says so; else the request is dropped
-- and the receive buffer reset.
pub http-answered :
    (out : Outside) (uri : Bytes) (answer : Request → Response × Stat) (k : Socket User)
    (d s : TstData) (q : Request) (g : Shared) (msg rest tail : Bytes) (r : ℕ)
    → Arrives k d msg rest tail r
    → parse_request msg (get_or tail 0 0) ≡ well_formed q
    → Routed uri answer
    → q.request_uri ≡ uri
    → content_length q ≡ some 0
    → wants_websocket q ≡ some false
    → is_route_method q ≡ true
    → k.send ≡ some s
    → http (program out) k (arrive msg []) g ≡ answered k (terminated d msg tail) q s (answer q) g
http-answered out uri answer k d s q g msg rest tail r i e routed named nothing asks method sends =
    let (f, text) = http-on_bytes (program out) k d msg rest tail r g i in
    f
    ∙ on_bytes-answered out uri answer k (terminated d msg tail) s q g routed named (text ∙ e)
        nothing asks method sends
