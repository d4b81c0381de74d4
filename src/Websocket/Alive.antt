-- ===== src/Websocket/Alive.antt =====
-- amiproc/ws_routes.cpp: `websocket_alive`, the handler by which one process monitor registers.
pub mod Laws
use tst.Common.{
  Option, get_or, ltb, length, not, codes, List, Bool, Bytes, ℕ, refl, sym, ap, subst, ◌∙◌, none,
  some, true, false, [], ◌∷◌, inl, inr, zero, suc, ◌+◌, ◌-◌, ◌*◌, ◌/◌, ◌%◌, ◌^◌, ◌≤◌, ◌<◌, ◌≡◌, ◌≢◌,
  ◌↔◌, ◌⊎◌, ◌++◌, ◌==◌, if◌then◌else◌, ◌&&◌, ◌||◌,
}
use tst.Pool.Types.{Socket, TstData, Stat, tst_suspend, tst_disconnect}
use tst.Http.Types.{User, WsInfo, ws_base, http_request}
use tst.Http.Query.{CheckCrlf, check_all, c_str, parse, get}
use tst.Websocket.Frames.{ws_writetext, ws_writepong}
use tst.Websocket.Handler.{Outcome}

-- What the handlers share: the descriptor of the monitor, 0 for none, and the pool's descriptors.
pub record Shared : Type 0 where
  pub processmon_sd : ℕ
  pub connected : List ℕ

-- The two texts in UTF-8.
abbrev pub binary_unsupported : Bytes
binary_unsupported =
    111 ∷ 112 ∷ 99 ∷ 111 ∷ 100 ∷ 101 ∷ 32 ∷ 98 ∷ 105 ∷ 110 ∷ 97 ∷ 114 ∷ 121 ∷ 235 ∷ 138 ∷ 148 ∷ 32
    ∷ 236 ∷ 167 ∷ 128 ∷ 236 ∷ 155 ∷ 144 ∷ 237 ∷ 149 ∷ 152 ∷ 236 ∷ 167 ∷ 128 ∷ 32 ∷ 236 ∷ 149 ∷ 138
    ∷ 235 ∷ 138 ∷ 148 ∷ 235 ∷ 139 ∷ 164 ∷ []

abbrev pub opcode_wrong : Bytes
opcode_wrong =
    111 ∷ 112 ∷ 99 ∷ 111 ∷ 100 ∷ 101 ∷ 32 ∷ 236 ∷ 167 ∷ 128 ∷ 236 ∷ 160 ∷ 149 ∷ 236 ∷ 157 ∷ 180 ∷ 32
    ∷ 236 ∷ 158 ∷ 152 ∷ 235 ∷ 170 ∷ 187 ∷ 32 ∷ 235 ∷ 144 ∷ 152 ∷ 236 ∷ 151 ∷ 136 ∷ 236 ∷ 138 ∷ 181
    ∷ 235 ∷ 139 ∷ 136 ∷ 235 ∷ 139 ∷ 164 ∷ 46 ∷ []

abbrev pub text_empty : Bytes
text_empty =
    116 ∷ 101 ∷ 120 ∷ 116 ∷ 236 ∷ 157 ∷ 152 ∷ 32 ∷ 234 ∷ 184 ∷ 184 ∷ 236 ∷ 157 ∷ 180 ∷ 234 ∷ 176
    ∷ 128 ∷ 32 ∷ 48 ∷ 236 ∷ 158 ∷ 133 ∷ 235 ∷ 139 ∷ 136 ∷ 235 ∷ 139 ∷ 164 ∷ 46 ∷ []

abbrev pub check_wrong : Bytes
check_wrong = codes "{\"code\": 400, \"msg\":\"keepalive check error... will be disconnected\"}"

abbrev pub another_monitor : Bytes
another_monitor = codes "{\"code\": 409, \"msg\":\"I have another processmon's connection.\"}"

abbrev pub check_ok : Bytes
check_ok = codes "{\"code\": 201, \"msg\":\"keepalive check ok.\"}"

abbrev pub check_missing : Bytes
check_missing = codes "{\"code\": 401, \"msg\":\"keepalive check error... will be disconnected\"}"

-- The check of `id` and `check` that the HTTP route of the same purpose makes too.
unfoldable pub is_checked : Bytes → Bytes → Bool
is_checked id check = not (
    ltb (length id) 5
    || ltb (length check) 5
    || not (get_or id 1 0 == get_or check 4 0)
    || not (get_or id 3 0 == get_or check 0 0))

unfoldable pub among : ℕ → List ℕ → Bool
among sd [] = false
among sd (x ∷ xs) = x == sd || among sd xs

-- Another connection holds the registration, and is still there.
unfoldable pub is_held : Shared → ℕ → Bool
unfolding among
is_held g sd =
    not (g.processmon_sd == 0) && not (g.processmon_sd == sd) && among g.processmon_sd g.connected

-- `text` is what stands at `wsinfo.data`, as a C string.
unfoldable pub register_monitor : Socket User → Shared → Bytes → Outcome Shared
unfolding parse get is_checked is_held ws_writetext
register_monitor k g text =
    let qs = parse check_all text [] in
    let id = get (codes "id") qs in
    let check = get (codes "check") qs in
    let say : Bytes → Shared → Stat → Outcome Shared =
      λ t h st. record { socket = k; shared = h; writes = ws_writetext (some t); stat = st } in
    if length id == 0 || length check == 0
    then say check_missing g tst_disconnect
    else if not (is_checked id check)
    then say check_wrong g tst_disconnect
    else if is_held g k.sd
    then say another_monitor g tst_disconnect
    else say check_ok (record g { processmon_sd = k.sd }) tst_suspend

unfoldable pub answer_frame : Socket User → WsInfo → Bytes → Shared → Outcome Shared
unfolding register_monitor ws_writetext ws_writepong c_str
answer_frame k ws memory g =
    let quiet : List Bytes → Stat → Outcome Shared =
      λ w st. record { socket = k; shared = g; writes = w; stat = st } in
    if ws.is_ping
    then quiet ws_writepong tst_suspend
    else if ws.is_pong
    then quiet [] tst_suspend
    else if ws.is_close
    then quiet [] tst_disconnect
    else if ws.is_bin
    then quiet (ws_writetext (some binary_unsupported)) tst_suspend
    else if not ws.is_text
    then quiet (ws_writetext (some opcode_wrong)) tst_disconnect
    else if ltb ws.data_len 1
    then quiet (ws_writetext (some text_empty)) tst_suspend
    else register_monitor k g (c_str memory)

-- By what `user_data` and `recv` point to: a null pointer, or a request, ends the connection.
unfoldable pub alive_on : Socket User → Shared → Option User → Option TstData → Outcome Shared
unfolding answer_frame
alive_on k g (some (ws_base ws)) (some d) = answer_frame k ws d.s g
alive_on k g _ _ = record { socket = k; shared = g; writes = []; stat = tst_disconnect }

unfoldable pub websocket_alive : Socket User → Shared → Outcome Shared
unfolding alive_on
websocket_alive k g = alive_on k g k.user_data k.recv
