-- ===== src/Tests/Program.antt =====
-- A process monitor that asks for the websocket and says its text.
use tst.Http.Server.{is_whole}
use tst.Http.Server.Reading.{received}
use tst.Http.Handler.Whole.{Arrives, terminated}
use tst.Ami.Message.Laws.{arrive}
use tst.Common.{
  replicate, true, false, ◌+◌, Bytes, codes, arith, refl, none, some, [], ◌∷◌, ◌≡◌, List, Option,
}
use tst.Pool.Types.{Socket, TstData, sock_sub, no_events, calloc_data, tst_suspend, tst_disconnect}
use tst.Http.Types.{User, Request}
use tst.Http.Server.{switching, content_length, wants_websocket}
use tst.Http.Request.{parse_request, well_formed}
use tst.Http.Handler.{http}
use tst.Websocket.Frames.{unmask, ws_writetext}
use tst.Websocket.Alive.{Shared, register_monitor, check_ok}
use tst.Program.{main_loop, login_request, Outside, program}
use tst.Program.Monitor.{monitor_session}
use tst.Program.Routes.{answered, keepalive, http-answered}
use tst.Http.Routes.{http_alive}

abbrev outside : List (Option Bytes) → Outside
outside answers = record {
  notice = λ uri. uri;
  realloc = λ n. none;
  answers = answers;
  sha1 = λ text. codes "digest";
  undefined = λ k d g. record { socket = k; shared = g; writes = []; stat = tst_disconnect };
}

abbrev header : Bytes
header = codes "GET /alive HTTP/1.1\r\nConnection: Upgrade\r\nUpgrade: websocket\r\n\r\n"

-- A buffer of 128 bytes, of which none are used, and what `ioctl` has found.
abbrev buffer : TstData
buffer = record (calloc_data 128) { s_len = 128; checked_len = 80 }

abbrev memory : Bytes
memory = replicate 128 0

abbrev client : Socket User
client = record {
  thread_no = 0;
  sd = 7;
  type = sock_sub;
  events = record no_events { epollin = true };
  recv = some (received buffer [] memory);
  send = some (calloc_data 512);
  user_data = none;
  func = 0;
}

header-Arrives : Arrives client buffer header memory (replicate 63 0) 0
unfolding is_whole calloc_data
header-Arrives = record {
  own = refl;
  idle = refl;
  input = refl;
  buffer = refl;
  first = ground arith;
  behind = refl;
  some_bytes = omega arith;
  told = omega arith;
  room = omega arith;
  sized = omega arith;
  clean = ground arith;
}

abbrev nobody : Shared
nobody = record { processmon_sd = 0; connected = 7 ∷ [] }

abbrev asked : Request
asked = record {
  request_method = codes "GET";
  request_uri = codes "/alive";
  query_string = [];
  http_version = codes "1.1";
  version_at = 16;
  http_headers =
      (codes "Connection", some (codes "Upgrade"))
      ∷ (codes "Upgrade", some (codes "websocket"))
      ∷ [];
}

header_parsed : parse_request header 0 ≡ well_formed asked
unfolding parse_request
header_parsed = refl

abbrev text : Bytes
text = codes "id=abcde&check=d...b"

abbrev mask : Bytes
mask = 1 ∷ 2 ∷ 3 ∷ 4 ∷ []

abbrev frame : List (Option Bytes)
frame = some (129 ∷ (128 + 20) ∷ []) ∷ some mask ∷ some (unmask mask 0 text) ∷ []

abbrev later : TstData
later = record (calloc_data 128) { s_len = 128 }

said : register_monitor client nobody text ≡ record {
  socket = client;
  shared = record { processmon_sd = 7; connected = 7 ∷ [] };
  writes = ws_writetext (some check_ok);
  stat = tst_suspend;
}
unfolding register_monitor
said = refl

monitor_session_example :
    let o = http (program (outside [])) client (arrive header []) nobody in
    let o' =
      http
        (program (outside frame))
        (record o.socket { events = no_events; recv = some later })
        []
        o.shared in
    let r = register_monitor client nobody text in
    (o.writes ≡ switching (λ t. codes "digest") asked ∷ [])
    × (o.stat ≡ tst_suspend)
    × (o'.writes ≡ r.writes)
    × (o'.shared ≡ r.shared)
    × (o'.stat ≡ r.stat)
unfolding content_length wants_websocket
monitor_session_example =
    monitor_session (outside []) (outside frame) client buffer later no_events asked nobody header
      memory (replicate 63 0) 0 [] 1 2 3 4 text header-Arrives header_parsed refl refl refl refl
      (omega arith) refl (ground arith) (ground arith) (ground arith) (omega arith) (omega arith)
      (omega arith)

abbrev page_header : Bytes
page_header = codes "GET /keepalive?id=abcde&check=d...b HTTP/1.1\r\nHost: a\r\n\r\n"

abbrev page : Request
page = record {
  request_method = codes "GET";
  request_uri = codes "/keepalive";
  query_string = codes "id=abcde&check=d...b";
  http_version = codes "1.1";
  version_at = 41;
  http_headers = (codes "Host", some (codes "a")) ∷ [];
}

page_parsed : parse_request page_header 0 ≡ well_formed page
unfolding parse_request
page_parsed = refl

page_kept : (http_alive page).1 ≡ tst_suspend
unfolding http_alive
page_kept = refl

page-Arrives : Arrives client buffer page_header memory (replicate 70 0) 0
unfolding is_whole calloc_data
page-Arrives = record {
  own = refl;
  idle = refl;
  input = refl;
  buffer = refl;
  first = ground arith;
  behind = refl;
  some_bytes = omega arith;
  told = omega arith;
  room = omega arith;
  sized = omega arith;
  clean = ground arith;
}

http-answered_example :
    http (program (outside [])) client (arrive page_header []) nobody
    ≡ answered client
        (terminated buffer page_header (replicate 70 0))
        page
        (calloc_data 512)
        (http_alive page)
        nobody
unfolding content_length wants_websocket
http-answered_example =
    http-answered (outside []) (codes "/keepalive") http_alive client buffer (calloc_data 512) page
      nobody page_header memory (replicate 70 0) 0 page-Arrives page_parsed keepalive refl refl refl
      refl refl

-- The loop asks once, has a socket at its next round, and ends.
one_request :
    main_loop ((true, none) ∷ (true, some 0) ∷ (false, none) ∷ []) ≡ (login_request ∷ [], true)
unfolding main_loop
one_request = refl
