-- ===== src/Websocket/Handler.antt =====
-- amiproc/websocket.cpp, `websocket`: the handler of a connection that `http` has upgraded.
pub mod Laws
use tst.Common.{
  Bool, Option, List, Bytes, ℕ, refl, sym, ap, subst, ◌∙◌, none, some, true, false, [], ◌∷◌, inl,
  inr, zero, suc, ◌+◌, ◌-◌, ◌*◌, ◌/◌, ◌%◌, ◌^◌, ◌≤◌, ◌<◌, ◌≡◌, ◌≢◌, ◌↔◌, ◌⊎◌, ◌++◌, ◌==◌,
  if◌then◌else◌, ◌&&◌, ◌||◌,
}
use tst.Pool.Types.{
  TstData, Stat, SocketType, Socket, sock_sub, sock_websocket, tst_run, tst_suspend, tst_disconnect,
  reset_data,
}
use tst.Http.Types.{User, WsInfo, http_request, ws_base}
use tst.Http.Query.{equal}
use tst.Websocket.Frames.{ws_writetext, ws_writedisconnect}
use tst.Websocket.Receive.{read_header, grow, read_data, decode, init_ws, blank_ws}

-- What the handler leaves: the socket, what the handlers share, the writes in order, and the state.
pub record Outcome (G : Type 0) : Type 0 where
  pub socket : Socket User
  pub shared : G
  pub writes : List Bytes
  pub stat : Stat

-- A registered handler, found by its address.
abbrev pub Handlers : Type 0 → Type 0
Handlers G = ℕ → Socket User → G → Outcome G

-- `strcmp` with the registered names, in order; 0 where none is equal.
unfoldable pub route : Bytes → List (Bytes × ℕ) → ℕ
unfolding equal
route uri [] = 0
route uri ((name, func) ∷ more) = if equal uri name then func else route uri more

-- The reset behind a handler's call: the buffer, and what the frame set.
unfoldable pub reset_ws : Socket User → Socket User
unfolding init_ws reset_data
reset_ws k = record k {
  recv = elim k.recv [ none ↦ none | some d ↦ some (reset_data d) ];
  user_data = elim k.user_data [
    | none ↦ none
    | some (http_request r) ↦ some (http_request r)
    | some (ws_base ws) ↦ some (ws_base (init_ws ws))
  ];
}

-- `psocket->type == sock_sub`: the first call, by which the connection becomes a websocket.
abbrev pub is_sub : SocketType → Bool
is_sub sock_sub = true
is_sub _ = false

abbrev pub is_run : Stat → Bool
is_run tst_run = true
is_run _ = false

module _ {G : Type 0} where
  -- The first call: a handler by the URI of the request, or a text and the end. `notice` is the text
  -- that `sprintf` makes of the URI, which goes through the send buffer.
  unfoldable pub ws_connect :
      List (Bytes × ℕ) → (Bytes → Bytes) → Socket User → Bytes → G → Outcome G
  unfolding route ws_writetext ws_writedisconnect
  ws_connect routes notice k uri g =
      let func = route uri routes in
      let stored = record k {
        type = sock_websocket;
        user_data = some (ws_base (record blank_ws { websocket_func = func }));
      } in
      if func == 0
      then record {
        socket = stored;
        shared = g;
        writes = ws_writetext (some (notice uri)) ++ ws_writedisconnect 1000;
        stat = tst_disconnect;
      }
      else record { socket = stored; shared = g; writes = []; stat = tst_suspend }

  -- All data is there: it is unmasked, and the handler called.
  unfoldable pub deliver : Handlers G → Socket User → WsInfo → TstData → G → Outcome G
  unfolding decode reset_ws reset_data
  deliver handlers k ws d g =
      let ready = record k { recv = some (decode ws d); user_data = some (ws_base ws) } in
      let called = handlers ws.websocket_func ready g in
      if ws.websocket_func == 0
      then record {
        socket = record k {
          recv = some (reset_data (decode ws d));
          user_data = some (ws_base blank_ws);
        };
        shared = g;
        writes = [];
        stat = if ws.is_close then tst_disconnect else tst_suspend;
      }
      else if is_run called.stat
      then called
      else record called { socket = reset_ws called.socket }

  -- `step` 0: the header, the room, and what can be read of the data. A message that is refused for
  -- its length leaves the socket to be closed; what its buffer holds by then is not kept here.
  unfoldable pub receive_frame :
      Handlers G
      → (ℕ → Option Bytes)
      → List (Option Bytes)
      → Socket User
      → WsInfo
      → TstData
      → G
      → Outcome G
  unfolding read_header grow read_data deliver ws_writedisconnect
  receive_frame handlers realloc answers k ws d g = elim (read_header ws d answers) [
    | none ↦ record {
      socket = k;
      shared = g;
      writes = ws_writedisconnect 1004;
      stat = tst_disconnect;
    }
    | some (header, seen, left) ↦ elim (grow realloc seen header.data_len) [
      | none ↦ record {
        socket = record k { recv = some seen; user_data = some (ws_base header) };
        shared = g;
        writes = ws_writedisconnect 1004;
        stat = tst_disconnect;
      }
      | some wide ↦
          let content = read_data wide header.data_len left in
          if content.1 then deliver handlers k header content.0 g else record {
            socket = record k { recv = some content.0; user_data = some (ws_base header) };
            shared = g;
            writes = [];
            stat = tst_suspend;
          }
    ]
  ]

  -- A `user_data` of the other kind than the code takes it for is left out: nothing happens here.
  unfoldable pub websocket :
      List (Bytes × ℕ)
      → (Bytes → Bytes)
      → Handlers G
      → (ℕ → Option Bytes)
      → List (Option Bytes)
      → Socket User
      → G
      → Outcome G
  unfolding ws_connect receive_frame deliver
  websocket routes notice handlers realloc answers k g =
      let nothing : Outcome G = record {
        socket = k;
        shared = g;
        writes = [];
        stat = tst_disconnect;
      } in
      elim k.recv [
        | none ↦ nothing
        | some d ↦ elim k.user_data [
          | none ↦ nothing
          | some (http_request r) ↦
              if is_sub k.type then ws_connect routes notice k r.request_uri g else nothing
          | some (ws_base ws) ↦
              if is_sub k.type
              then nothing
              else if ws.step == 0
              then receive_frame handlers realloc answers k ws d g
              else deliver handlers k ws d g
        ]
      ]
