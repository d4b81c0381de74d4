-- ===== src/Http/Handler.antt =====
-- amiproc/http.cpp, `http`: the whole function, on one event of a connection.
pub mod Laws
pub mod Whole
use tst.Common.{
  get_or, drop, length, leb, min, ℕ, not, ltb, codes, List, Bytes, Option, set, refl, sym, ap,
  subst, ◌∙◌, none, some, true, false, [], ◌∷◌, inl, inr, zero, suc, ◌+◌, ◌-◌, ◌*◌, ◌/◌, ◌%◌, ◌^◌,
  ◌≤◌, ◌<◌, ◌≡◌, ◌≢◌, ◌↔◌, ◌⊎◌, ◌++◌, ◌==◌, if◌then◌else◌, ◌&&◌, ◌||◌,
}
use tst.Pool.Types.{Socket, TstData, Stat, tst_suspend, tst_disconnect, reset_data}
use tst.Http.Types.{User, Request, http_request, ws_base}
use tst.Http.Query.{equal, c_str}
use tst.Http.Request.{parse_request, well_formed, unsupported, lost}
use tst.Http.Response.{Response, sprintf}
use tst.Http.Routes.{plain}
use tst.Http.Server.{
  is_whole, is_full, read_request, content_length, wants_websocket, switching, accept_key,
  is_route_method, respond, call_route,
}
use tst.Websocket.Handler.{Outcome, Handlers, route, is_run}

-- The two texts in UTF-8.
abbrev pub no_route_text : Bytes
no_route_text =
    60 ∷ 72 ∷ 84 ∷ 77 ∷ 76 ∷ 62 ∷ 60 ∷ 72 ∷ 69 ∷ 65 ∷ 68 ∷ 62 ∷ 60 ∷ 47 ∷ 72 ∷ 69 ∷ 65 ∷ 68 ∷ 62
    ∷ 60 ∷ 66 ∷ 79 ∷ 68 ∷ 89 ∷ 62 ∷ 236 ∷ 158 ∷ 152 ∷ 32 ∷ 236 ∷ 136 ∷ 152 ∷ 236 ∷ 139 ∷ 160 ∷ 237
    ∷ 150 ∷ 136 ∷ 236 ∷ 157 ∷ 141 ∷ 235 ∷ 139 ∷ 136 ∷ 235 ∷ 139 ∷ 164 ∷ 46 ∷ 60 ∷ 98 ∷ 114 ∷ 62
    ∷ 234 ∷ 183 ∷ 184 ∷ 235 ∷ 159 ∷ 172 ∷ 235 ∷ 130 ∷ 152 ∷ 32 ∷ 236 ∷ 149 ∷ 132 ∷ 236 ∷ 167 ∷ 129
    ∷ 32 ∷ 236 ∷ 157 ∷ 180 ∷ 236 ∷ 151 ∷ 144 ∷ 32 ∷ 235 ∷ 140 ∷ 128 ∷ 237 ∷ 149 ∷ 156 ∷ 32 ∷ 236
    ∷ 178 ∷ 152 ∷ 235 ∷ 166 ∷ 172 ∷ 235 ∷ 165 ∷ 188 ∷ 32 ∷ 234 ∷ 181 ∷ 172 ∷ 237 ∷ 152 ∷ 132 ∷ 237
    ∷ 149 ∷ 152 ∷ 236 ∷ 167 ∷ 128 ∷ 32 ∷ 236 ∷ 149 ∷ 138 ∷ 236 ∷ 149 ∷ 152 ∷ 236 ∷ 157 ∷ 140 ∷ 46
    ∷ 46 ∷ 46 ∷ 60 ∷ 47 ∷ 66 ∷ 79 ∷ 68 ∷ 89 ∷ 62 ∷ 60 ∷ 47 ∷ 72 ∷ 84 ∷ 77 ∷ 76 ∷ 62 ∷ []

abbrev pub no_method_text : Bytes
no_method_text =
    60 ∷ 72 ∷ 84 ∷ 77 ∷ 76 ∷ 62 ∷ 60 ∷ 72 ∷ 69 ∷ 65 ∷ 68 ∷ 62 ∷ 60 ∷ 47 ∷ 72 ∷ 69 ∷ 65 ∷ 68 ∷ 62
    ∷ 60 ∷ 66 ∷ 79 ∷ 68 ∷ 89 ∷ 62 ∷ 236 ∷ 158 ∷ 152 ∷ 32 ∷ 236 ∷ 136 ∷ 152 ∷ 236 ∷ 139 ∷ 160 ∷ 237
    ∷ 150 ∷ 136 ∷ 236 ∷ 157 ∷ 141 ∷ 235 ∷ 139 ∷ 136 ∷ 235 ∷ 139 ∷ 164 ∷ 46 ∷ 60 ∷ 98 ∷ 114 ∷ 62
    ∷ 234 ∷ 183 ∷ 184 ∷ 235 ∷ 159 ∷ 172 ∷ 235 ∷ 130 ∷ 152 ∷ 32 ∷ 236 ∷ 149 ∷ 132 ∷ 236 ∷ 167 ∷ 129
    ∷ 32 ∷ 236 ∷ 167 ∷ 128 ∷ 236 ∷ 155 ∷ 144 ∷ 237 ∷ 149 ∷ 152 ∷ 236 ∷ 167 ∷ 128 ∷ 236 ∷ 149 ∷ 138
    ∷ 235 ∷ 138 ∷ 148 ∷ 32 ∷ 235 ∷ 169 ∷ 148 ∷ 236 ∷ 134 ∷ 140 ∷ 235 ∷ 147 ∷ 156 ∷ 236 ∷ 158 ∷ 133
    ∷ 235 ∷ 139 ∷ 136 ∷ 235 ∷ 139 ∷ 164 ∷ 46 ∷ 60 ∷ 47 ∷ 66 ∷ 79 ∷ 68 ∷ 89 ∷ 62 ∷ 60 ∷ 47 ∷ 72 ∷ 84
    ∷ 77 ∷ 76 ∷ 62 ∷ []

-- The answers that need no route.
abbrev pub too_large : Bytes → Response
too_large version = record {
  http_version = version;
  http_code = 413;
  response_text = codes "Payload Too Large";
  http_headers = [];
  html_text = some (codes "Payload Too Large");
}

abbrev pub bad_version : Response
bad_version = record {
  http_version = codes "1.0";
  http_code = 505;
  response_text = codes "HTTP Version Not Supported";
  http_headers = [];
  html_text = none;
}

-- The text of an answer is written to the receive buffer, from its start on, before the answer's
-- version is read there: the pointer may show the rest of that text.
unfoldable pub overwritten : Request → Bytes → Bytes
overwritten q text =
    if leb q.version_at (length text) then drop q.version_at text else q.http_version

unfoldable pub unrouted : Request → Response
unfolding equal overwritten
unrouted q =
    let no_method = overwritten q no_method_text in
    let no_route = overwritten q no_route_text in
    if not (is_route_method q)
    then record (plain q 501 (codes "Not Implemented") (some no_method_text)) {
      http_version = no_method;
    }
    else if equal q.request_uri (codes "/favicon.ico")
    then plain q 404 (codes "Not found") (some (codes "Not found"))
    else record (plain q 501 (codes "Not Implemented") (some no_route_text)) {
      http_version = no_route;
    }

-- What the program registers, and what is not its own: `g_route`, the handlers by their address, the
-- address of `websocket`, and SHA-1. `undefined` is what follows an access through a null pointer or
-- outside the memory, which the language leaves open: it may be any outcome.
pub record Site (G : Type 0) : Type 0 where
  pub g_route : List (Bytes × ℕ)
  pub handlers : Handlers G
  pub websocket : ℕ
  pub sha1 : Bytes → Bytes
  pub undefined : Socket User → TstData → G → Outcome G

abbrev pub prepend : {G : Type 0} → Bytes → Outcome G → Outcome G
prepend text o = record o { writes = text ∷ o.writes }

-- The terminating 0 behind what is received.
abbrev pub ended : TstData → TstData
ended d = record d { s = set d.s (d.req_pos + d.com_len) 0 }

module _ {G : Type 0} (site : Site G) where
  -- The handshake, and the first call of `websocket`.
  unfoldable pub upgrade : Socket User → Request → G → Outcome G
  unfolding sprintf accept_key
  upgrade k q g =
      let sent : Socket User = record k {
        func = site.websocket;
        send = elim k.send [ none ↦ none | some d ↦ some (sprintf d (switching site.sha1 q)) ];
      } in
      prepend (switching site.sha1 q) (site.handlers site.websocket sent g)

  -- A request that is there as a whole. After an answer without a route the buffer is reset and the
  -- connection ends.
  unfoldable pub answer_request : Socket User → TstData → Request → G → Outcome G
  unfolding upgrade wants_websocket route equal call_route respond unrouted reset_data
  answer_request k d q g =
      let func = route q.request_uri site.g_route in
      elim (wants_websocket q) [
        | none ↦ site.undefined k d g
        | some true ↦ upgrade k q g
        | some false ↦
            if is_route_method q && not (func == 0)
            then call_route site.handlers func k g
            else respond (record k { recv = some (reset_data d) }) g (unrouted q) tst_disconnect
      ]

  -- A header that is parsed: a body is waited for, where one is announced that fits, or whose length
  -- is negative, as an int.
  unfoldable pub on_header : Socket User → TstData → Request → G → Outcome G
  unfolding content_length answer_request respond
  on_header k d q g =
      let known = record k { user_data = some (http_request q); recv = some d } in
      elim (content_length q) [
        | none ↦ site.undefined known d g
        | some len ↦
            if len == 0
            then answer_request known d q g
            else if ltb len (2 ^ 31) && ltb (d.s_len - d.com_len) len
            then respond known g (too_large q.http_version) tst_disconnect
            else record {
              socket = record known {
                recv = some (record d { req_pos = d.com_len; com_len = 0; req_len = len });
              };
              shared = g;
              writes = [];
              stat = tst_suspend;
            }
      ]

  -- The bytes of a header, or of a body that was waited for, are there.
  unfoldable pub on_bytes : Socket User → TstData → Option User → G → Outcome G
  unfolding parse_request c_str on_header answer_request respond
  on_bytes k d none g = elim (parse_request (c_str d.s) (get_or d.s (length (c_str d.s) + 1) 0)) [
    | lost ↦ site.undefined k d g
    | unsupported ↦ respond (record k { recv = some d }) g bad_version tst_disconnect
    | well_formed q ↦ on_header k d q g
  ]
  on_bytes k d (some (http_request q)) g = answer_request (record k { recv = some d }) d q g
  on_bytes k d (some (ws_base ws)) g = record {
    socket = k;
    shared = g;
    writes = [];
    stat = tst_disconnect;
  }

  -- The event is EPOLLIN.
  unfoldable pub on_input : Socket User → TstData → List (Option (Option ℕ)) → G → Outcome G
  unfolding read_request is_full is_whole on_bytes respond
  on_input k d answers g =
      let got = read_request (min (d.s_len - d.req_pos - d.com_len) d.checked_len) d answers in
      if d.checked_len == 0
      then on_bytes k (ended d) k.user_data g
      else if is_full got
      then respond (record k { recv = some got }) g (too_large (codes "1.0")) tst_disconnect
      else if not (is_whole got)
      then record {
        socket = record k { recv = some got };
        shared = g;
        writes = [];
        stat = tst_suspend;
      }
      else on_bytes k (ended got) k.user_data g

  -- Any event but EPOLLIN, whether what was to be sent has been sent or not, ends the connection.
  abbrev pub on_output : Socket User → G → Outcome G
  on_output k g = record { socket = k; shared = g; writes = []; stat = tst_disconnect }

  -- Behind the call of the connection's own function.
  unfoldable pub serve_http : Socket User → List (Option (Option ℕ)) → G → Outcome G
  unfolding on_input
  serve_http k answers g = elim k.recv [
    | none ↦ record { socket = k; shared = g; writes = []; stat = tst_disconnect }
    | some d ↦ if k.events.epollin then on_input k d answers g else on_output k g
  ]

  unfoldable pub http : Socket User → List (Option (Option ℕ)) → G → Outcome G
  unfolding serve_http
  http k answers g =
      let called = site.handlers k.func k g in
      let served = serve_http called.socket answers called.shared in
      if k.func == 0
      then serve_http k answers g
      else if is_run called.stat
      then record served { writes = called.writes ++ served.writes }
      else called
