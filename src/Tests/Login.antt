-- ===== src/Tests/Login.antt =====
-- A login that fails, one that waits, and an action with its answer.
use tst.Http.Response.{decimal}
use tst.Common.{
  length, All, Bytes, ℕ, codes, List, replicate, arith, refl, none, some, true, false, [], ◌∷◌, ◌+◌,
  ◌%◌, ◌≡◌, ◌++◌,
}
use tst.Common.Dict.{lookup}
use tst.Pool.Types.{u32_mod, Socket, sock_client, TstData, no_events, calloc_data}
use tst.Pool.State.{Pool}
use tst.Pool.Setup.{ConnectIo}
use tst.Pool.Lifecycle.{new_pool}
use tst.Pool.Connections.Laws.{IsSound}
use tst.Ami.Events.{get_amivalue}
use tst.Ami.Events.Laws.{write_records, IsRecord}
use tst.Ami.Event.{AmiManage, ami_event, starts, atoi, digits}
use tst.Ami.Login.Dialogue.{ami_login_success}
use tst.Pool.Setup.{tcp_connect}
use tst.Ami.Login.{returned, join_pool, Login, LoginIo, login_loop, going, ami_login}
use tst.Ami.Login.Laws.{login_loop_stuck}
use tst.Ami.Actions.{
  Sent, sync_start, sync_end, waiting, new_request, action_tail, signalled, etimedout, timed_out,
  answered,
}
use tst.Ami.Actions.Writing.{response_for}
use tst.Ami.Actions.Laws.{CanSend, sync_start-sync_end, sync_end-late_answer}

abbrev connect_io : ConnectIo
connect_io = record {
  host = some 127;
  number = 0;
  address = 0;
  socket = some 9;
  connect_ok = true;
  fcntl_ok = true;
}

abbrev login_io : LoginIo
login_io = record {
  username = codes "me";
  secret = codes "pw";
  write = λ text. some (length text);
  stack = [];
}

abbrev empty_pool : Pool AmiManage ℕ
empty_pool = new_pool 0

empty_pool-IsSound : IsSound empty_pool
unfolding new_pool lookup
empty_pool-IsSound = record {
  owns = λ sd a e. absurd (cc e);
  apart = λ sd sd' a e f. absurd (cc e);
  fresh = λ a le. refl;
}

abbrev accepting : LoginIo
accepting = record login_io { stack = replicate 50 0 }

abbrev rest_of_answer : List (Bytes × Bytes)
rest_of_answer = (codes "ActionID", codes "1") ∷ (codes "Message", codes "ok") ∷ []

abbrev accepted : Bytes
accepted = write_records ((codes "Response", codes "Success") ∷ rest_of_answer) (b'\r' ∷ b'\n' ∷ [])

ami_login_success_example :
    (l : Login) × (ami_login empty_pool none connect_io true accepting
        (some (codes "Asterisk Call Manager/5.0\r\n") ∷ some accepted ∷ [])
      ≡ returned
          (join_pool (record empty_pool { next_address = 1 }) 0 9 l)
          (some 0)
          (tcp_connect connect_io).1)
    × (l.actionid ≡ 1)
unfolding new_pool starts write_records tcp_connect
ami_login_success_example =
    ami_login_success empty_pool connect_io accepting (codes "Asterisk Call Manager/5.0\r\n")
      (codes "Success") rest_of_answer (0 ∷ 0 ∷ []) 8 refl (omega arith) (omega arith) refl refl
      (omega arith) (omega arith) (omega arith) (ground arith) refl refl

abbrev half_read : TstData
half_read = record (calloc_data 0) {
  com_len = 24;
  s_len = 24;
  s = codes "Response: Success\r\nAct.. ";
}

abbrev half_way : Login
half_way = record {
  connected = true;
  retry = 100;
  recv = half_read;
  send = calloc_data 0;
  actionid = 1;
}

login_loop_stuck_example :
    login_loop login_io half_way (some [] ∷ some [] ∷ some [] ∷ []) ≡ going half_way
unfolding calloc_data
login_loop_stuck_example =
    login_loop_stuck login_io half_way 3 refl (omega arith) (omega arith) (omega arith) refl

abbrev send_buffer : TstData
send_buffer = record (calloc_data 0) { s_len = 40; s = replicate 40 0 }

abbrev ami : Socket AmiManage
ami = record {
  thread_no = 0;
  sd = 9;
  type = sock_client;
  events = no_events;
  recv = none;
  send = some send_buffer;
  user_data = none;
  func = 1;
}

abbrev manage : AmiManage
manage = record {
  p_resp = none;
  resp_waitcount = 0;
  actionid = 6;
  woken = [];
  queue = [];
  faulted = false;
}

abbrev ping : Bytes
ping = codes "Action: Ping\n"

abbrev pong : List (Bytes × Bytes)
pong =
    (codes "Response", codes "Success")
    ∷ (codes "ActionID", codes "7")
    ∷ (codes "Ping", codes "Pong")
    ∷ []

pong-IsRecord : All IsRecord pong
pong-IsRecord = ground arith

abbrev pong_text : Bytes
pong_text = write_records pong (b'\r' ∷ b'\n' ∷ 0 ∷ [])

ping-CanSend : CanSend ami send_buffer manage ping
unfolding calloc_data decimal
ping-CanSend = record {
  connected = refl;
  buffer = refl;
  short = omega arith;
  fits = omega arith;
  clean = ground arith;
}

sync_start-sync_end_example :
    (s : Sent) × (sync_start (some ami) false manage ping ≡ waiting s)
    × (s.sent ≡ ping ++ action_tail 7)
    × (let m1 = ami_event [] s.manage pong_text in
        let answer = response_for new_request pong in
        (m1.woken ≡ answer ∷ [])
        × (m1.p_resp ≡ none)
        × ((sync_end m1 answer signalled).1 ≡ answered answer)
        × ((sync_end m1 answer signalled).0.resp_waitcount ≡ 0))
unfolding starts atoi digits get_amivalue write_records
sync_start-sync_end_example =
    sync_start-sync_end ami send_buffer manage ping [] pong [] ping-CanSend (omega arith)
      (omega arith) pong-IsRecord refl refl

abbrev late : AmiManage
late = record manage { p_resp = some new_request; resp_waitcount = 1; actionid = 7 }

sync_end-late_answer_example :
    let (m1, result) = sync_end late new_request etimedout in
    let m2 = record m1 { resp_waitcount = (m1.resp_waitcount + 1) % u32_mod } in
    (result ≡ timed_out) × ((ami_event [] m2 pong_text).woken ≡ response_for new_request pong ∷ [])
unfolding starts atoi digits get_amivalue write_records
sync_end-late_answer_example =
    sync_end-late_answer [] late new_request pong [] refl refl (omega arith) (omega arith)
      (omega arith) pong-IsRecord refl refl
