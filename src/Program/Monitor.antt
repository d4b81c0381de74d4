-- ===== src/Program/Monitor.antt =====
-- amiproc: a process monitor, from its handshake on "/alive" to its registration.
use tst.Common.{
  get_or, replicate, le→ltb, refl, sym, ap, subst, ◌∙◌, none, some, true, false, [], ◌∷◌, zero, suc,
  ◌+◌, ◌-◌, ◌^◌, ◌≤◌, ◌<◌, ◌≡◌, ◌++◌, ◌==◌, ℕ, codes, Bytes, Option, List, All, length, arith,
}
use tst.Pool.Types.{reset_data, sock_websocket, Socket, TstData, Events, tst_suspend}
use tst.Http.Types.{WsInfo, User, Request, ws_base}
use tst.Http.Query.{c_str, equal}
use tst.Http.Server.{wants_websocket, switching, content_length}
use tst.Http.Request.{parse_request, well_formed}
use tst.Http.Response.{sprintf}
use tst.Http.Handler.{Site, upgrade, answer_request, on_header, on_bytes, http}
use tst.Websocket.Frames.{unmask}
use tst.Websocket.Frames.Mask.{IsByte}
use tst.Websocket.Receive.{init_ws, parsed, blank_ws}
use tst.Websocket.Handler.{Outcome, is_sub, is_run, route, websocket, ws_connect, reset_ws}
use tst.Websocket.Handler.Laws.{IsWaiting, call_handler, websocket-message}
use tst.Websocket.Alive.{is_held, Shared, websocket_alive, alive_on, answer_frame, register_monitor}
use tst.Http.Query.Parsing.{Lacks}
use tst.Ami.Actions.Writing.{c_str-zero}
use tst.Http.Handler.Whole.{Arrives, terminated, http-on_bytes}
use tst.Ami.Message.Laws.{arrive}
use tst.Program.{Outside, program, registered, g_websocket}

-- What the handshake leaves of a connection.
abbrev pub upgraded : Socket User → TstData → Bytes → Socket User
upgraded k d text = record k {
  func = 5;
  type = sock_websocket;
  recv = some d;
  send = elim k.send [ none ↦ none | some s ↦ some (sprintf s text) ];
  user_data = some (ws_base (record blank_ws { websocket_func = 4 }));
}

-- The handshake.
handshake :
    (out : Outside) (k : Socket User) (d : TstData) (q : Request) (g : Shared)
    → parse_request (c_str d.s) (get_or d.s (length (c_str d.s) + 1) 0) ≡ well_formed q
    → content_length q ≡ some 0
    → wants_websocket q ≡ some true
    → q.request_uri ≡ codes "/alive"
    → is_sub k.type ≡ true
    → on_bytes (program out) k d none g ≡ record {
      socket = upgraded k d (switching out.sha1 q);
      shared = g;
      writes = switching out.sha1 q ∷ [];
      stat = tst_suspend;
    }
unfolding on_bytes on_header answer_request upgrade program websocket ws_connect route equal
handshake out k d q g e nothing asks uri sub =
    rw (e, nothing, asks, sub, uri, on_bytes, on_header, answer_request) refl

-- The answer to a registration does not depend on the socket but by its descriptor.
register_monitor-socket :
    (k k' : Socket User) (g : Shared) (text : Bytes)
    → k'.sd ≡ k.sd
    → register_monitor k' g text ≡ record (register_monitor k g text) { socket = k' }
unfolding register_monitor
register_monitor-socket k k' g text same =
    let held : is_held g k'.sd ≡ is_held g k.sd = ap (is_held g) same in ground (arith, held)

is_run-register_monitor :
    (k : Socket User) (g : Shared) (text : Bytes) → is_run (register_monitor k g text).stat ≡ false
unfolding register_monitor
is_run-register_monitor k g text = ground arith

-- The header of a text frame.
abbrev text_frame : WsInfo → ℕ → Bytes → WsInfo
text_frame ws len mask = parsed ws (129 ∷ (128 + len) ∷ []) len mask

alive-text :
    (k : Socket User) (ws : WsInfo) (d : TstData) (g : Shared) (mask text rest : Bytes)
    → 1 ≤ length text
    → d.s ≡ text ++ 0 ∷ rest
    → Lacks 0 text
    → let k' = record k {
      recv = some d;
      user_data = some (ws_base (text_frame ws (length text) mask));
    } in
      websocket_alive k' g ≡ record (register_monitor k g text) { socket = k' }
unfolding websocket_alive alive_on answer_frame parsed
alive-text k ws d g mask text rest some_text e clean =
    let k' = record k {
      recv = some d;
      user_data = some (ws_base (text_frame ws (length text) mask));
    } in
    let heard : websocket_alive k' g ≡ register_monitor k' g text =
      rw (le→ltb (length text) 1 some_text, e, c_str-zero text rest clean, websocket_alive) refl in
    heard ∙ register_monitor-socket k k' g text refl

-- A connection that a process monitor has, ready for its next message.
pub record IsMonitor (k : Socket User) (d : TstData) (ws : WsInfo) : Type 0 where
  pub waiting : IsWaiting k d ws
  pub served : k.func ≡ 5
  pub routed : ws.websocket_func ≡ 4

-- The pool's part: the event, and any contents of the buffer.
handshake-IsMonitor :
    (k : Socket User) (d d' : TstData) (events : Events) (text : Bytes)
    → d'.s_len < 2 ^ 32
    → IsMonitor
        (record (upgraded k d text) { events = events; recv = some d' })
        d'
        (record blank_ws { websocket_func = 4 })
unfolding blank_ws
handshake-IsMonitor k d d' events text sized = record {
  waiting = record {
    upgraded = refl;
    buffer = refl;
    info = refl;
    fresh = refl;
    handled = refl;
    sized = sized;
  };
  served = refl;
  routed = refl;
}

http-handlers :
    {G : Type 0} (site : Site G) (k : Socket User) (g : G) (o : Outcome G)
    → (k.func == 0) ≡ false
    → site.handlers k.func k g ≡ o
    → is_run o.stat ≡ false
    → http site k [] g ≡ o
unfolding http
http-handlers site k g o set e quiet = rw (set, e, quiet, http) refl

program-websocket :
    (out : Outside) (k : Socket User) (d : TstData) (ws : WsInfo) (g : Shared)
    → IsMonitor k d ws
    → (program out).handlers k.func k g
      ≡ websocket g_websocket out.notice registered out.realloc out.answers k g
unfolding program
program-websocket out k d ws g m = ap (λ func. (program out).handlers func k g) m.served

-- `websocket_alive`, as it is called for a message, and what follows the call.
registered-text :
    (k : Socket User) (ws : WsInfo) (shown : TstData) (g : Shared) (mask text rest : Bytes)
    → ws.websocket_func ≡ 4
    → 1 ≤ length text
    → shown.s ≡ text ++ 0 ∷ rest
    → Lacks 0 text
    → let r = register_monitor k g text in
      let k' = record k {
        recv = some shown;
        user_data = some (ws_base (text_frame ws (length text) mask));
      } in
      call_handler registered k (text_frame ws (length text) mask) shown g
      ≡ record r { socket = reset_ws k' }
unfolding registered parsed
registered-text k ws shown g mask text rest routed some_text e clean =
    let k' = record k {
      recv = some shown;
      user_data = some (ws_base (text_frame ws (length text) mask));
    } in
    let called : registered ws.websocket_func k' g
        ≡ record (register_monitor k g text) { socket = k' } =
      ap (λ func. registered func k' g) routed
      ∙ alive-text k ws shown g mask text rest some_text e clean in
    rw (called, is_run-register_monitor k g text) refl

replicate_first : (n : ℕ) (xs : Bytes) → 1 ≤ n → (rest : Bytes) × (replicate n 0 ++ xs ≡ 0 ∷ rest)
replicate_first zero xs h = absurd (omega arith)
replicate_first (suc n) xs h = (replicate n 0 ++ xs, refl)

reset_ws-IsMonitor :
    (k : Socket User) (d d' : TstData) (ws : WsInfo) (len : ℕ) (mask : Bytes)
    → IsMonitor k d ws
    → d'.s_len ≡ d.s_len
    → IsMonitor
        (reset_ws
          (record k { recv = some d'; user_data = some (ws_base (text_frame ws len mask)) }))
        (reset_data d')
        (init_ws (text_frame ws len mask))
unfolding reset_ws parsed init_ws reset_data
reset_ws-IsMonitor k d d' ws len mask m same = record {
  waiting = record {
    upgraded = m.waiting.upgraded;
    buffer = refl;
    info = refl;
    fresh = refl;
    handled = m.waiting.handled;
    sized = subst (λ n. n < 2 ^ 32) (sym same) m.waiting.sized;
  };
  served = m.served;
  routed = m.routed;
}

-- A text of a monitor's connection, of 1 to 125 bytes without a 0, in a masked frame that is there
-- as a whole, and shorter than the receive buffer: the pool's call of `http` says and registers what
-- `register_monitor` does for the text, and leaves the connection ready for the next one.
pub http-register_monitor :
    (out : Outside) (k : Socket User) (d : TstData) (ws : WsInfo) (g : Shared)
    (more : List (Option Bytes)) (m0 m1 m2 m3 : ℕ) (text : Bytes)
    → IsMonitor k d ws
    → out.answers
      ≡ some (129 ∷ (128 + length text) ∷ [])
        ∷ some (m0 ∷ m1 ∷ m2 ∷ m3 ∷ [])
        ∷ some (unmask (m0 ∷ m1 ∷ m2 ∷ m3 ∷ []) 0 text)
        ∷ more
    → All IsByte (m0 ∷ m1 ∷ m2 ∷ m3 ∷ [])
    → All IsByte text
    → Lacks 0 text
    → 1 ≤ length text
    → length text < 126
    → length text < d.s_len
    → let o = http (program out) k [] g in
      (d' : TstData) × (ws' : WsInfo) × (o
        ≡ record (register_monitor k g text) { socket = o.socket })
      × IsMonitor o.socket d' ws'
      × (d'.s_len ≡ d.s_len)
unfolding reset_data
http-register_monitor out k d ws g more m0 m1 m2 m3 text m asked hm ht clean some_text short fits =
    let mask : Bytes = m0 ∷ m1 ∷ m2 ∷ m3 ∷ [] in
    let (shown, tail, e, front, kept) =
      websocket-message g_websocket out.notice registered out.realloc k d ws g more 129 m0 m1 m2 m3
        text m.waiting hm ht short (omega arith) in
    let (rest, first) = replicate_first (d.s_len - length text) tail (omega arith) in
    let f =
      registered-text k ws shown g mask text rest m.routed some_text
        (front ∙ ap (λ x. text ++ x) first) clean in
    let k' = record k {
      recv = some shown;
      user_data = some (ws_base (text_frame ws (length text) mask));
    } in
    let whole : http (program out) k [] g
        ≡ record (register_monitor k g text) { socket = reset_ws k' } =
      http-handlers (program out) k g _ (ap (λ func. func == 0) m.served)
        (program-websocket out k d ws g m
          ∙ ap (λ a. websocket g_websocket out.notice registered out.realloc a k g) asked
          ∙ e
          ∙ f)
        (is_run-register_monitor k g text) in
    (
      reset_data shown,
      init_ws (text_frame ws (length text) mask),
      whole ∙ ap (λ o. record (register_monitor k g text) { socket = o.socket }) (sym whole),
      subst
          (λ o. IsMonitor o.socket (reset_data shown) (init_ws (text_frame ws (length text) mask)))
          (sym whole) (reset_ws-IsMonitor k d shown ws (length text) mask m kept),
      kept,
    )

-- Let a header that is parsed, with the byte behind its 0, that asks for a websocket on "/alive",
-- and whose Content-Length is 0 or missing, arrive in one event on a connection that `http` has;
-- and let the next event bring a masked text of 1 to 125 bytes without a 0, all of it there and
-- shorter than the buffer, whatever the buffer holds by then. The first event is answered with the
-- handshake and nothing else, and the connection stays; the second is answered, and the monitor
-- registered or refused, as `register_monitor` does for the text.
pub monitor_session :
    (out out' : Outside) (k : Socket User) (d d' : TstData) (events : Events) (q : Request)
    (g : Shared) (msg rest tail : Bytes) (r0 : ℕ) (more : List (Option Bytes)) (m0 m1 m2 m3 : ℕ)
    (text : Bytes)
    → Arrives k d msg rest tail r0
    → parse_request msg (get_or tail 0 0) ≡ well_formed q
    → content_length q ≡ some 0
    → wants_websocket q ≡ some true
    → q.request_uri ≡ codes "/alive"
    → is_sub k.type ≡ true
    → d'.s_len < 2 ^ 32
    → out'.answers
      ≡ some (129 ∷ (128 + length text) ∷ [])
        ∷ some (m0 ∷ m1 ∷ m2 ∷ m3 ∷ [])
        ∷ some (unmask (m0 ∷ m1 ∷ m2 ∷ m3 ∷ []) 0 text)
        ∷ more
    → All IsByte (m0 ∷ m1 ∷ m2 ∷ m3 ∷ [])
    → All IsByte text
    → Lacks 0 text
    → 1 ≤ length text
    → length text < 126
    → length text < d'.s_len
    → let o = http (program out) k (arrive msg []) g in
      let o' =
        http (program out') (record o.socket { events = events; recv = some d' }) [] o.shared in
      let r = register_monitor k g text in
      (o.writes ≡ switching out.sha1 q ∷ [])
      × (o.stat ≡ tst_suspend)
      × (o'.writes ≡ r.writes)
      × (o'.shared ≡ r.shared)
      × (o'.stat ≡ r.stat)
monitor_session out out' k d d' events q g msg rest tail r0 more m0 m1 m2 m3 text i e nothing asks
      uri sub sized asked hm ht clean some_text short fits =
    let k' = record (upgraded k (terminated d msg tail) (switching out.sha1 q)) {
      events = events;
      recv = some d';
    } in
    let (f0, header) = http-on_bytes (program out) k d msg rest tail r0 g i in
    let h = f0 ∙ handshake out k (terminated d msg tail) q g (header ∙ e) nothing asks uri sub in
    let (shown, ws', f, m, kept) =
      http-register_monitor out' k' d' (record blank_ws { websocket_func = 4 }) g more m0 m1 m2 m3
        text (handshake-IsMonitor k (terminated d msg tail) d' events (switching out.sha1 q) sized)
        asked hm ht clean some_text short fits in
    let next : Outcome Shared → Outcome Shared =
      λ o. http (program out') (record o.socket { events = events; recv = some d' }) [] o.shared in
    let heard = ap next h ∙ f in
    let same = register_monitor-socket k k' g text refl in
    (
      ap (λ o. o.writes) h,
      ap (λ o. o.stat) h,
      ap (λ o. o.writes) heard ∙ ap (λ o. o.writes) same,
      ap (λ o. o.shared) heard ∙ ap (λ o. o.shared) same,
      ap (λ o. o.stat) heard ∙ ap (λ o. o.stat) same,
    )
