-- ===== src/Pool/Types.antt =====
-- tst/tst.h: the state of a worker, the transfer buffers, and the socket structure.
use tst.Common.{
  ℕ, ◌^◌, Bool, true, false, ◌||◌, Option, none, some, ◌++◌, Bytes, drop, replicate, ltb,
  if◌then◌else◌,
}

pub data SocketType : Type 0 where
  sock_sub sock_websocket sock_listen sock_client sock_user1 sock_user2 sock_user3 : SocketType

-- `type > sock_listen`, in the order of the enumeration
abbrev pub above_listen : SocketType → Bool
above_listen sock_sub = false
above_listen sock_websocket = false
above_listen sock_listen = false
above_listen _ = true

pub data Stat : Type 0 where
  tst_suspend tst_run tst_send tst_reconnected tst_disconnect tst_exit tst_exited : Stat

-- The values of the enumeration, by which the code orders the states.
abbrev pub stat_code : Stat → ℕ
stat_code tst_suspend = 0
stat_code tst_run = 1
stat_code tst_send = 2
stat_code tst_reconnected = 3
stat_code tst_disconnect = 4
stat_code tst_exit = 9
stat_code tst_exited = 10

-- The bits of an epoll event mask that the program tests.
pub record Events : Type 0 where
  pub epollin : Bool
  pub epollpri : Bool
  pub epollout : Bool
  pub epollrdhup : Bool
  pub epollerr : Bool
  pub epollhup : Bool

abbrev pub readable : Events → Bool
readable ev = ev.epollin || ev.epollpri

abbrev pub no_events : Events
no_events = record {
  epollin = false;
  epollpri = false;
  epollout = false;
  epollrdhup = false;
  epollerr = false;
  epollhup = false;
}

-- `TST_DATA`. The numbers are uint32_t; `s` is the memory behind the structure, and `s_len` the
-- size that the structure records for it.
pub record TstData : Type 0 where
  pub req_pos : ℕ
  pub req_len : ℕ
  pub com_len : ℕ
  pub checked_len : ℕ
  pub s_len : ℕ
  pub s : Bytes

abbrev pub u32_mod : ℕ
u32_mod = 2 ^ 32

-- `calloc(sizeof(TST_DATA) + len, 1)`
unfoldable pub calloc_data : ℕ → TstData
calloc_data len = record {
  req_pos = 0;
  req_len = 0;
  com_len = 0;
  checked_len = 0;
  s_len = 0;
  s = replicate len 0;
}

unfoldable pub reset_data : TstData → TstData
reset_data d = record d {
  req_len = 0;
  req_pos = 0;
  com_len = 0;
  s = replicate d.s_len 0 ++ drop d.s_len d.s;
}

-- `TST_SOCKET`. `U` is what the program keeps in `user_data`; `func` is the address of a handler,
-- 0 for none; the peer's address is left out.
pub record Socket (U : Type 0) : Type 0 where
  pub thread_no : ℕ
  pub sd : ℕ
  pub type : SocketType
  pub events : Events
  pub recv : Option TstData
  pub send : Option TstData
  pub user_data : Option U
  pub func : ℕ

-- One half of `initBuffer`: a length above 1 replaces the buffer.
unfoldable pub init_data : Option TstData → ℕ → Option TstData
unfolding calloc_data
init_data old len = if ltb 1 len then some (record (calloc_data len) { s_len = len }) else old

module _ {U : Type 0} where
  unfoldable pub init_buffer : Socket U → ℕ → ℕ → Socket U
  unfolding init_data
  init_buffer k recv_len send_len = record k {
    recv = init_data k.recv recv_len;
    send = init_data k.send send_len;
  }

  unfoldable pub remove_buffer : Socket U → Socket U
  remove_buffer k = record k { recv = none; send = none; user_data = none }

  -- The constructor with buffer sizes.
  unfoldable pub new_socket : ℕ → ℕ → Socket U
  unfolding init_buffer
  new_socket recv_len send_len =
      init_buffer
        (record {
          thread_no = 0;
          sd = 0;
          type = sock_sub;
          events = no_events;
          recv = none;
          send = none;
          user_data = none;
          func = 0;
        })
        recv_len send_len
