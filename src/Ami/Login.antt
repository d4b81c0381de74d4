-- ===== src/Ami/Login.antt =====
-- amiproc/amiaction.cpp: `amiLogin`. What `tcp_connect`, `select` and each round's `ioctl` and `read`
-- give are arguments; the rounds are as many as the list of the latter has entries.
pub mod Laws
pub mod Dialogue
use tst.Common.{
  codes, write_at, drop, get_elem?, leb, replicate, ℕ, length, Option, Bool, take, List, Bytes, ltb,
  refl, sym, ap, subst, ◌∙◌, none, some, true, false, [], ◌∷◌, inl, inr, zero, suc, ◌+◌, ◌-◌, ◌*◌,
  ◌/◌, ◌%◌, ◌^◌, ◌≤◌, ◌<◌, ◌≡◌, ◌≢◌, ◌↔◌, ◌⊎◌, ◌++◌, ◌==◌, if◌then◌else◌, ◌&&◌, ◌||◌,
}
use tst.Pool.Types.{Socket, TstData, u32_mod, sock_client, new_socket, reset_data, no_events}
use tst.Pool.State.{Pool, epoll_add, update, call}
use tst.Pool.Connections.{addsocket}
use tst.Pool.Setup.{SetupCall, ConnectIo, TcpResult, tcp_ok, tcp_error, tcp_connect}
use tst.Http.Response.{decimal}
use tst.Ami.Actions.{signed}
use tst.Ami.Events.{parse_amievent}
use tst.Ami.Event.{AmiManage, starts, first_value}

-- `connected` is false for 0 and true for 1.
pub record Login : Type 0 where
  pub connected : Bool
  pub retry : ℕ
  pub recv : TstData
  pub send : TstData
  pub actionid : ℕ

-- A round, or a run of rounds: the loop goes on, has logged in, or the function gives up; a fault
-- is an access behind the memory of a buffer.
pub data LoginStep : Type 0 where
  going : (l : Login) → LoginStep
  logged_in : (l : Login) → LoginStep
  given_up fault : LoginStep

-- `write` is what the kernel takes of a text, and `stack` what stands in `events.event` before.
pub record LoginIo : Type 0 where
  pub username : Bytes
  pub secret : Bytes
  pub write : Bytes → Option ℕ
  pub stack : Bytes

-- `read` of all that `ioctl` has found: nothing, where there is nothing; none is its -1.
unfoldable pub read_all : TstData → Option Bytes → Option TstData
read_all d none = some (record d { com_len = (d.com_len + (u32_mod - 1)) % u32_mod })
read_all d (some chunk) =
    if leb (d.com_len + length chunk) (length d.s)
    then some (record d {
      com_len = (d.com_len + length chunk) % u32_mod;
      s = write_at d.s d.com_len chunk;
    })
    else none

abbrev pub greeting : Bytes
greeting = codes "Asterisk Call Manager/"

unfoldable pub login_text : LoginIo → ℕ → Bytes
unfolding decimal
login_text io id =
    codes "Action: Login\nUsername: "
    ++ (io.username
        ++ (codes "\nSecret: "
            ++ (io.secret ++ (codes "\nActionID: " ++ (signed id ++ codes "\n\n")))))

abbrev or_minus_one : Option ℕ → ℕ
or_minus_one none = u32_mod - 1
or_minus_one (some n) = n

-- The action is written into the buffer and sent, all of it or in vain.
unfoldable pub send_login : LoginIo → Login → LoginStep
unfolding login_text reset_data
send_login io l =
    let id = (l.actionid + 1) % u32_mod in
    let text = login_text io id in
    let wrote = or_minus_one (io.write text) in
    if wrote == length text
    then going (record {
      connected = true;
      retry = 100;
      recv = reset_data l.recv;
      send = record l.send {
        req_len = length text;
        com_len = wrote;
        s = write_at l.send.s 0 (text ++ 0 ∷ []);
      };
      actionid = id;
    })
    else given_up

abbrev first_key : List (Bytes × Bytes) → Bytes
first_key [] = []
first_key ((k, v) ∷ more) = k

-- What the records of an answer mean: another one than `Response` is passed over.
unfoldable pub judge_login : Login → List (Bytes × Bytes) → LoginStep
unfolding starts first_value
judge_login l [] = given_up
judge_login l records =
    if starts (first_key records) (codes "Response")
    then (if starts (first_value records) (codes "Success") then logged_in l else given_up)
    else going l

-- The last two bytes; none where they are not in the memory.
abbrev pub line_ended : TstData → Option Bool
line_ended d = elim (get_elem? d.s (d.com_len - 2)) [
  | none ↦ none
  | some a ↦ elim (get_elem? d.s (d.com_len - 1)) [
    | none ↦ none
    | some b ↦ some (a == b'\r' && b == b'\n')
  ]
]

unfoldable pub hear_answer : LoginIo → Login → LoginStep
unfolding judge_login parse_amievent reset_data
hear_answer io l = elim (line_ended l.recv) [
  | none ↦ fault
  | some false ↦ going l
  | some true ↦
      elim (parse_amievent (take l.recv.com_len l.recv.s ++ drop l.recv.com_len io.stack)) [
        | none ↦ fault
        | some records ↦ judge_login (record l { recv = reset_data l.recv }) records
      ]
]

-- A round behind its `read`.
unfoldable pub login_round : LoginIo → Login → LoginStep
unfolding send_login hear_answer starts
login_round io l =
    if ltb l.recv.com_len 22
    then (if l.retry - 1 == 0 then given_up else going (record l { retry = l.retry - 1 }))
    else if l.connected
    then hear_answer io l
    else if starts l.recv.s greeting
    then send_login io l
    else given_up

unfoldable pub login_loop : LoginIo → Login → List (Option Bytes) → LoginStep
unfolding login_round read_all
login_loop io l [] = going l
login_loop io l (chunk ∷ chunks) = elim (read_all l.recv chunk) [
  | none ↦ fault
  | some d ↦ elim (login_round io (record l { recv = d })) [
    | going l' ↦ login_loop io l' chunks
    | logged_in l' ↦ logged_in l'
    | given_up ↦ given_up
    | fault ↦ fault
  ]
]

-- `returned` with the pool, the address that `ami_socket` holds behind it, and the calls for the
-- descriptor; `running` where the rounds have not come to an end.
pub data LoginResult (G : Type 0) : Type 0 where
  returned : (p : Pool AmiManage G) (ami_socket : Option ℕ) (calls : List SetupCall) → LoginResult G
  running faulted : LoginResult G

abbrev pub buf_len : ℕ
buf_len = 4096

abbrev new_manage : ℕ → AmiManage
new_manage id = record {
  p_resp = none;
  resp_waitcount = 0;
  actionid = id;
  woken = [];
  queue = [];
  faulted = false;
}

abbrev calloc_buffer : TstData
calloc_buffer = record {
  req_pos = 0;
  req_len = 0;
  com_len = 0;
  checked_len = 0;
  s_len = buf_len;
  s = replicate buf_len 0;
}

-- The login of a new object, with its two buffers.
unfoldable pub new_login : Login
new_login = record {
  connected = false;
  retry = 100;
  recv = calloc_buffer;
  send = calloc_buffer;
  actionid = 0;
}

-- The socket's object, with the buffers as the login has left them.
abbrev pub ami_object : ℕ → Login → Socket AmiManage
ami_object sd l = record {
  thread_no = 0;
  sd = sd;
  type = sock_client;
  events = no_events;
  recv = some l.recv;
  send = some l.send;
  user_data = some (new_manage l.actionid);
  func = 1;
}

module _ {G : Type 0} where
  -- In the map, and watched.
  unfoldable pub join_pool : Pool AmiManage G → ℕ → ℕ → Login → Pool AmiManage G
  join_pool p a sd l = call (addsocket p a (ami_object sd l)) (epoll_add sd false)

  unfoldable pub login_end : Pool AmiManage G → ℕ → ℕ → List SetupCall → LoginStep → LoginResult G
  unfolding join_pool
  login_end p a sd calls (going l) = running
  login_end p a sd calls (logged_in l) = returned (join_pool p a sd l) (some a) calls
  login_end p a sd calls given_up = returned p none calls
  login_end p a sd calls fault = faulted

  -- Behind the call of `tcp_connect`.
  unfoldable pub connected_login :
      Pool AmiManage G
      → ℕ
      → TcpResult
      → List SetupCall
      → Bool
      → LoginIo
      → List (Option Bytes)
      → LoginResult G
  unfolding login_loop login_end new_login
  connected_login p a (tcp_ok (suc fd)) calls true io chunks =
      login_end p a (suc fd) calls (login_loop io new_login chunks)
  connected_login p a _ calls ready io chunks = returned p none calls

  -- `ready` is what `select` gives within five seconds, and the last argument what each round reads.
  unfoldable pub ami_login :
      Pool AmiManage G
      → Option ℕ
      → ConnectIo
      → (ready : Bool) → LoginIo
      → List (Option Bytes)
      → LoginResult G
  unfolding connected_login tcp_connect
  ami_login p (some a) connect ready io chunks = returned p (some a) []
  ami_login p none connect ready io chunks =
      let (r, calls) = tcp_connect connect in
      connected_login (record p { next_address = suc p.next_address }) p.next_address r calls ready
        io chunks
