-- ===== src/Http/Server.antt =====
-- amiproc/http.cpp, `http`: the pool's function of the server, from an event to the answer. The
-- handlers of `g_route` and of `func`, the websocket's among them, are found by their address;
-- `sha1` and the answers of `read`, one for each byte, are arguments. A socket without a send buffer
-- answers nothing here, where the code reads through the null pointer.
pub mod Reading
use tst.Common.{
  refl, sym, ap, subst, ◌∙◌, inl, inr, ◌*◌, ◌/◌, ◌^◌, ◌≤◌, ◌<◌, ◌≡◌, ◌≢◌, ◌↔◌, ◌⊎◌, if◌then◌else◌,
  ltb, take, set, codes, leb, not, get_or, List, Bytes, Option, Bool, ℕ, none, some, true, false,
  [], ◌∷◌, zero, suc, ◌+◌, ◌-◌, ◌%◌, ◌++◌, ◌==◌, ◌&&◌, ◌||◌,
}
use tst.Pool.Types.{Socket, TstData, Stat, tst_disconnect, u32_mod, reset_data}
use tst.Http.Types.{User, Request}
use tst.Http.Base64.{encoded}
use tst.Http.Query.{equal}
use tst.Http.Request.{get_httpheader}
use tst.Http.Response.{Response, response_http}
use tst.Websocket.Handler.{Outcome, Handlers}
use tst.Ami.Event.{atoi}

-- The empty line behind the bytes of the request that are done.
unfoldable pub is_whole : TstData → Bool
is_whole d =
    let at : ℕ → ℕ = λ back. get_or d.s (d.req_pos + d.com_len - back) 0 in
    not (ltb d.com_len 4) && at 4 == b'\r' && at 3 == b'\n' && at 2 == b'\r' && at 1 == b'\n'

unfoldable pub is_full : TstData → Bool
is_full d = leb d.s_len (d.req_pos + d.com_len)

unfoldable pub take_byte : TstData → Option (Option ℕ) → TstData
take_byte d none = record d { com_len = (d.com_len + (u32_mod - 1)) % u32_mod }
take_byte d (some none) = d
take_byte d (some (some b)) = record d {
  com_len = (d.com_len + 1) % u32_mod;
  s = set d.s (d.req_pos + d.com_len) b;
}

-- The loop, for at most `remain` bytes.
unfoldable pub read_request : ℕ → TstData → List (Option (Option ℕ)) → TstData
unfolding is_whole is_full take_byte
read_request zero d answers = d
read_request (suc remain) d answers = elim (is_full d || is_whole d) [
  | true ↦ d
  | false ↦ elim answers [
    | [] ↦ read_request remain (take_byte d none) []
    | a ∷ more ↦ read_request remain (take_byte d a) more
  ]
]

-- `strcmp` with a header's value is 0. A header without a value is a null pointer, which `strcmp`
-- and `atoi` read through: `none`.
unfoldable pub header_is : Request → Bytes → Bytes → Option Bool
unfolding get_httpheader equal
header_is q name text = elim (get_httpheader q.http_headers name) [
  | none ↦ none
  | some v ↦ some (equal v text)
]

-- `atoi(get_httpheader(req, "Content-Length"))`, by its 32 bits.
unfoldable pub content_length : Request → Option ℕ
unfolding get_httpheader atoi
content_length q = elim (get_httpheader q.http_headers (codes "Content-Length")) [
  | none ↦ none
  | some v ↦ some (atoi v)
]

-- Any method but OPTIONS may ask for a websocket.
unfoldable pub wants_websocket : Request → Option Bool
unfolding header_is equal
wants_websocket q =
    if equal q.request_method (codes "OPTIONS")
    then some false
    else elim (header_is q (codes "Connection") (codes "Upgrade")) [
      | none ↦ none
      | some false ↦ some false
      | some true ↦ header_is q (codes "Upgrade") (codes "websocket")
    ]

abbrev pub magic : Bytes
magic = codes "258EAFA5-E914-47DA-95CA-C5AB0DC85B11"

-- `snprintf(buf, 100, …)` of the key and the magic text; the library writes a null pointer so.
unfoldable pub accept_key : (Bytes → Bytes) → Request → Bytes
unfolding get_httpheader encoded
accept_key sha1 q = elim (get_httpheader q.http_headers (codes "Sec-WebSocket-Key")) [
  | none ↦ encoded (sha1 (codes "(null)" ++ magic))
  | some key ↦ encoded (sha1 (take 99 (key ++ magic)))
]

abbrev pub switching : (Bytes → Bytes) → Request → Bytes
switching sha1 q =
    codes "HTTP/"
    ++ (q.http_version
        ++ (codes
              " 101 Switching Protocols\r\nUpgrade: websocket\r\nConnection: Upgrade\r\nSec-WebSocket-Accept: "
            ++ (accept_key sha1 q ++ codes "\r\n\r\n")))

abbrev pub is_route_method : Request → Bool
is_route_method q = equal q.request_method (codes "GET") || equal q.request_method (codes "POST")

abbrev pub with_recv : Socket User → TstData → Socket User
with_recv k d = record k { recv = some d }

module _ {G : Type 0} where
  -- An answer through the send buffer.
  unfoldable pub respond : Socket User → G → Response → Stat → Outcome G
  unfolding response_http
  respond k g r next = elim k.send [
    | none ↦ record { socket = k; shared = g; writes = []; stat = next }
    | some d ↦ record {
      socket = record k { send = some (response_http d r).0 };
      shared = g;
      writes = (response_http d r).1 ∷ [];
      stat = next;
    }
  ]

  -- A route's handler; a connection that stays is made ready for the next request.
  unfoldable pub call_route : Handlers G → ℕ → Socket User → G → Outcome G
  unfolding reset_data
  call_route handlers func k g =
      let called = handlers func k g in
      elim called.stat [
        | tst_disconnect ↦ called
        | _ ↦ record called {
          socket = record called.socket {
            user_data = none;
            recv = elim called.socket.recv [ none ↦ none | some d ↦ some (reset_data d) ];
          };
        }
      ]
