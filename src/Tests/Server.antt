-- ===== src/Tests/Server.antt =====
-- A site with one route, and a connection that has sent its request.
use tst.Common.{
  Option, arith, List, take, ℕ, codes, Bytes, All, none, some, true, [], ◌∷◌, ◌+◌, ◌≤◌, ◌≡◌,
}
use tst.Pool.Types.{Socket, TstData, sock_sub, no_events, calloc_data, tst_disconnect}
use tst.Http.Types.{User}
use tst.Http.Query.{check_all, parse}
use tst.Http.Query.Cleaning.{IsCleanPair, parse-IsCleanPair}
use tst.Http.Server.{read_request}
use tst.Http.Handler.{Site}
use tst.Http.Handler.Laws.{read_request_bounds}

abbrev site : Site ℕ
site = record {
  g_route = (codes "/alive", 4096) ∷ [];
  handlers = λ f k g. record { socket = k; shared = g + f; writes = []; stat = tst_disconnect };
  websocket = 8192;
  sha1 = λ b. take 20 b;
  undefined = λ k d g. record { socket = k; shared = g; writes = []; stat = tst_disconnect };
}

abbrev buffer : TstData
buffer = record (calloc_data 64) { s_len = 64; checked_len = 30 }

abbrev visitor : Socket User
visitor = record {
  thread_no = 0;
  sd = 7;
  type = sock_sub;
  events = record no_events { epollin = true };
  recv = some buffer;
  send = some buffer;
  user_data = none;
  func = 0;
}

abbrev bytes_of : Bytes → List (Option (Option ℕ))
bytes_of [] = []
bytes_of (b ∷ bs) = some (some b) ∷ bytes_of bs

read_request_bounds_example :
    ((read_request 4 buffer (bytes_of (codes "GET /"))).req_pos
        + (read_request 4 buffer (bytes_of (codes "GET /"))).com_len
      ≤ (read_request 4 buffer (bytes_of (codes "GET /"))).s_len)
    × ((read_request 4 buffer (bytes_of (codes "GET /"))).s_len ≡ 64)
unfolding calloc_data
read_request_bounds_example =
    read_request_bounds 4 buffer (bytes_of (codes "GET /")) (ground arith) (omega arith)
      (omega arith) (omega arith)

parse-IsCleanPair_example : All IsCleanPair (parse check_all (codes "id=a b&x=1") [])
parse-IsCleanPair_example = parse-IsCleanPair (codes "id=a b&x=1")
