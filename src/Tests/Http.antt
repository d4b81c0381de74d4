-- ===== src/Tests/Http.antt =====
-- The web front on small inputs.
use tst.Common.{true, leb, Bytes, Bool, List, ℕ, arith, codes, refl, none, some, [], ◌∷◌, ◌≡◌, ◌&&◌}
use tst.Pool.Types.{Socket, TstData, sock_websocket, no_events, calloc_data}
use tst.Http.Types.{User, Request}
use tst.Http.Base64.{base64_decode, encoded}
use tst.Http.Base64.RoundTrip.{decode-encode}
use tst.Http.UrlDecode.{url_decode}
use tst.Http.UrlDecode.Laws.{escape, url_decode-escape}
use tst.Http.Query.{check_all, parse, c_str}
use tst.Http.Query.Parsing.{render, put_all, parse-render}
use tst.Http.Request.{parse_request, well_formed}
use tst.Http.Request.Whole.{cut_uri, write_request, parse_request-write_request}
use tst.Http.Request.Laws.{values}
use tst.Http.Response.{Response}
use tst.Http.Routes.{http_alive}
use tst.Http.Routes.Laws.{http_alive-register_monitor}
use tst.Websocket.Alive.{Shared, is_held, register_monitor}

decode-encode_example : base64_decode (encoded (codes "tst!")) ≡ (codes "tst!", none)
decode-encode_example = decode-encode (codes "tst!") (ground arith)

-- An encoder that keeps lower case letters.
abbrev keep_lower : ℕ → Bool
keep_lower c = leb b'a' c && leb c b'z'

url_decode-escape_example : url_decode (escape keep_lower (codes "a b%")) ≡ codes "a b%"
url_decode-escape_example = url_decode-escape keep_lower (codes "a b%") (ground arith)

abbrev pairs : List (Bytes × Bytes)
pairs = (codes "id", codes "ab") ∷ (codes "x", codes "1") ∷ []

parse-render_example : parse check_all (render pairs) [] ≡ put_all check_all pairs []
parse-render_example = parse-render check_all pairs [] (ground arith)

abbrev headers : List (Bytes × Bytes)
headers = (codes "Host", codes "a:1") ∷ (codes "A", []) ∷ []

abbrev hello : Response
hello = record {
  http_version = codes "1.1";
  http_code = 200;
  response_text = codes "OK";
  http_headers = headers;
  html_text = some (codes "hi");
}

abbrev room : TstData
room = record (calloc_data 200) { s_len = 200 }

abbrev request : Request
request = record {
  request_method = codes "GET";
  request_uri = codes "/alive";
  query_string = codes "id=abcde&check=d...b";
  http_version = codes "1.1";
  version_at = 42;
  http_headers = [];
}

abbrev monitor : Socket User
monitor = record {
  thread_no = 0;
  sd = 7;
  type = sock_websocket;
  events = no_events;
  recv = none;
  send = none;
  user_data = none;
  func = 0;
}

abbrev nobody : Shared
nobody = record { processmon_sd = 0; connected = 7 ∷ [] }

http_alive-register_monitor_example :
    (http_alive request).1
    ≡ (register_monitor monitor nobody (c_str (codes "id=abcde&check=d...b"))).stat
unfolding is_held
http_alive-register_monitor_example = http_alive-register_monitor request monitor nobody refl

parse_request-write_request_example :
    parse_request (write_request (codes "GET") (codes "/a?b=%41") true headers) 0
    ≡ well_formed (record {
      request_method = codes "GET";
      request_uri = url_decode (cut_uri (codes "/a?b=%41")).0;
      query_string = url_decode (cut_uri (codes "/a?b=%41")).1;
      http_version = codes "1.1";
      version_at = 18;
      http_headers = values headers;
    })
parse_request-write_request_example =
    parse_request-write_request (codes "GET") (codes "/a?b=%41") true headers (ground arith)
      (ground arith) (ground arith) (omega arith) (ground arith)

-- A `?` in the first header's name is taken for the one of the URI.
name_query :
    parse_request (codes "GET /a HTTP/1.1\r\nA?b: c\r\n\r\n") 0
    ≡ well_formed (record {
      request_method = codes "GET";
      request_uri = codes "/a";
      query_string = codes "b";
      http_version = codes "1.1";
      version_at = 12;
      http_headers = (codes "A", some (codes "c")) ∷ [];
    })
unfolding parse_request
name_query = refl
