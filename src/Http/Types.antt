-- ===== src/Http/Types.antt =====
-- amiproc/http.h: what a request and a response hold, and what a connection keeps in `user_data`.
use tst.Common.{ℕ, Bool, List, Bytes, Option}

-- `REQUEST_INFO` once its header is parsed. A pointer into the receive buffer is the text that it
-- points to; `body_string` has no field, since nothing reads it. A header line without a colon has no
-- value: a null pointer. `version_at` is where `http_version` points in the receive buffer.
pub record Request : Type 0 where
  pub request_method : Bytes
  pub request_uri : Bytes
  pub query_string : Bytes
  pub http_version : Bytes
  pub version_at : ℕ
  pub http_headers : List (Bytes × Option Bytes)

-- `WS_INFO`. `data` points to the memory of the receive buffer and has no field; `websocket_func` is
-- the address of a handler, 0 for none.
pub record WsInfo : Type 0 where
  pub opcode : ℕ
  pub data_len : ℕ
  pub mask : Bytes
  pub step : ℕ
  pub is_masked : Bool
  pub is_text : Bool
  pub is_bin : Bool
  pub is_close : Bool
  pub is_ping : Bool
  pub is_pong : Bool
  pub websocket_func : ℕ

pub data User : Type 0 where
  http_request : Request → User
  ws_base : WsInfo → User
