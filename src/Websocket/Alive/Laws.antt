-- ===== src/Websocket/Alive/Laws.antt =====
-- Who may hold the registration of the process monitor.
use tst.Common.{arith, Option, Bytes, refl, none, some, false, inl, ◌≡◌, ◌⊎◌}
use tst.Pool.Types.{Socket, tst_suspend, TstData}
use tst.Http.Types.{User, WsInfo, ws_base, http_request}
use tst.Websocket.Frames.{ws_writetext}
use tst.Http.Query.{c_str}
use tst.Websocket.Handler.{Outcome}
use tst.Websocket.Alive.{
  Shared, alive_on, is_held, register_monitor, answer_frame, websocket_alive, check_ok,
}

-- The registration is left as it is, or, not being held by another connection, goes to this one,
-- which is told so and stays.
abbrev pub Registers : Socket User → Shared → Outcome Shared → Type 0
Registers k g o =
    (o.shared ≡ g)
    ⊎ ((is_held g k.sd ≡ false)
        × (o.shared ≡ record g { processmon_sd = k.sd })
        × (o.writes ≡ ws_writetext (some check_ok))
        × (o.stat ≡ tst_suspend))

register_monitor-Registers :
    (k : Socket User) (g : Shared) (text : Bytes) → Registers k g (register_monitor k g text)
unfolding register_monitor
register_monitor-Registers k g text = ground arith

answer_frame-Registers :
    (k : Socket User) (ws : WsInfo) (memory : Bytes) (g : Shared)
    → Registers k g (answer_frame k ws memory g)
unfolding answer_frame
answer_frame-Registers k ws memory g = ground (arith, register_monitor-Registers k g (c_str memory))

alive_on-Registers :
    (k : Socket User) (g : Shared) (u : Option User) (r : Option TstData)
    → Registers k g (alive_on k g u r)
unfolding alive_on
alive_on-Registers k g none r = inl refl
alive_on-Registers k g (some (http_request q)) r = inl refl
alive_on-Registers k g (some (ws_base ws)) none = inl refl
alive_on-Registers k g (some (ws_base ws)) (some d) = answer_frame-Registers k ws d.s g

-- Whatever a connection sends, the registration of the process monitor stays as it is, or no other
-- connection that is still there held it, and this one has it, is told so, and is not closed.
websocket_alive-Registers : (k : Socket User) (g : Shared) → Registers k g (websocket_alive k g)
unfolding websocket_alive
websocket_alive-Registers k g = alive_on-Registers k g k.user_data k.recv
