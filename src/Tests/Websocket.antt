-- ===== src/Tests/Websocket.antt =====
-- A websocket that greets back.
use tst.Common.{replicate, Bytes, ℕ, codes, arith, refl, none, some, [], ◌∷◌, ◌+◌, ◌≡◌, ◌++◌}
use tst.Pool.Types.{Socket, TstData, sock_websocket, no_events, calloc_data, tst_suspend}
use tst.Http.Types.{User, WsInfo, ws_base}
use tst.Websocket.Frames.{unmask}
use tst.Websocket.Receive.{parsed, blank_ws}
use tst.Websocket.Handler.{Handlers, websocket}
use tst.Websocket.Handler.Laws.{call_handler, IsWaiting, websocket-message, websocket_partial}

abbrev mask : Bytes
mask = 1 ∷ 2 ∷ 3 ∷ 4 ∷ []

-- The handler counts.
abbrev handlers : Handlers ℕ
handlers f k g = record { socket = k; shared = g + 1; writes = []; stat = tst_suspend }

abbrev waiting : WsInfo
waiting = record blank_ws { websocket_func = 4096 }

abbrev memory : TstData
memory = record (calloc_data 64) { s_len = 64 }

abbrev client : Socket User
client = record {
  thread_no = 0;
  sd = 7;
  type = sock_websocket;
  events = no_events;
  recv = some memory;
  send = none;
  user_data = some (ws_base waiting);
  func = 1;
}

client-IsWaiting : IsWaiting client memory waiting
unfolding blank_ws
client-IsWaiting = record {
  upgraded = refl;
  buffer = refl;
  info = refl;
  fresh = refl;
  handled = refl;
  sized = omega arith;
}

websocket-message_example :
    (shown : TstData) × (tail : Bytes) × (websocket []
        (λ u. u)
        handlers
        (λ n. none)
        (some (129 ∷ (128 + 2) ∷ []) ∷ some mask ∷ some (unmask mask 0 (codes "hi")) ∷ [])
        client
        0
      ≡ call_handler handlers client (parsed waiting (129 ∷ (128 + 2) ∷ []) 2 mask) shown 0)
    × (shown.s ≡ codes "hi" ++ (replicate 62 0 ++ tail))
    × (shown.s_len ≡ 64)
websocket-message_example =
    websocket-message [] (λ u. u) handlers (λ n. none) client memory waiting 0 [] 129 1 2 3 4
      (codes "hi") client-IsWaiting (ground arith) (ground arith) (omega arith) (omega arith)

websocket_partial_example :
    (got : TstData) × (tail : Bytes) × (websocket []
        (λ u. u)
        handlers
        (λ n. none)
        (some (129 ∷ (128 + 5) ∷ []) ∷ some mask ∷ some (105 ∷ 107 ∷ []) ∷ [])
        client
        0
      ≡ record {
        socket = record client {
          recv = some got;
          user_data = some (ws_base (parsed waiting (129 ∷ (128 + 5) ∷ []) 5 mask));
        };
        shared = 0;
        writes = [];
        stat = tst_suspend;
      })
    × (got.s ≡ (105 ∷ 107 ∷ []) ++ tail)
    × (got.req_pos ≡ 2)
    × (got.req_len ≡ 3)
    × (got.com_len ≡ 0)
websocket_partial_example =
    websocket_partial [] (λ u. u) handlers (λ n. none) client memory waiting 0 [] 129 1 2 3 4 5
      (105 ∷ 107 ∷ []) (1 ∷ 2 ∷ 3 ∷ []) client-IsWaiting (omega arith) (omega arith) (omega arith)
      (ground arith)
