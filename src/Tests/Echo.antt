-- ===== src/Tests/Echo.antt =====
-- The echo of three bytes, and of a full buffer.
use tst.Echo.Farewell.{farewell, say_farewell}
use tst.Echo.Farewell.Laws.{IsTold, say_farewell-IsTold}
use tst.Pool.Lifecycle.{new_pool}
use tst.Http.Response.{decimal}
use tst.Pool.State.{Pool, epoll_mod, update}
use tst.Common.{All, length, arith, ℕ, Bytes, refl, none, some, true, [], ◌∷◌, ◌≡◌}
use tst.Pool.Types.{calloc_data, Socket, TstData, sock_sub, no_events, tst_suspend}
use tst.Echo.{EchoIo, Echoed, echo}
use tst.Echo.Laws.{echo_back}

abbrev buffer : TstData
buffer = record {
  req_pos = 0;
  req_len = 0;
  com_len = 0;
  checked_len = 3;
  s_len = 4;
  s = 1 ∷ 1 ∷ 1 ∷ 1 ∷ [];
}

abbrev peer : TstData → Socket ℕ
peer d = record {
  thread_no = 0;
  sd = 5;
  type = sock_sub;
  events = record no_events { epollin = true };
  recv = some d;
  send = some buffer;
  user_data = none;
  func = 0;
}

abbrev io : Bytes → EchoIo
io chunk = record { read = some chunk; write = λ text. some (length text); queue = some 0 }

echo_back_example :
    (e : Echoed ℕ) × (echo none (peer buffer) (io (7 ∷ 8 ∷ 9 ∷ [])) ≡ some e)
    × (e.written ≡ (7 ∷ 8 ∷ 9 ∷ []) ∷ [])
    × (e.next ≡ tst_suspend)
echo_back_example =
    echo_back (peer buffer) buffer buffer (io (7 ∷ 8 ∷ 9 ∷ [])) (7 ∷ 8 ∷ 9 ∷ [])
      (record {
        event = refl;
        buffers = (refl, refl);
        empty = refl;
        sized = (refl, omega arith);
        checked = refl;
        got = refl;
      })
      (omega arith) (omega arith) (ground arith)

abbrev full_buffer : TstData
full_buffer = record buffer { checked_len = 4 }

abbrev guest : ℕ → Socket ℕ
guest sd = record {
  thread_no = 0;
  sd = sd;
  type = sock_sub;
  events = no_events;
  recv = none;
  send = some (calloc_data 100);
  user_data = none;
  func = 0;
}

abbrev crowd : Pool ℕ ℕ
crowd = record (new_pool 0) {
  main_thread = true;
  main_run = true;
  connect = (7, 0) ∷ (9, 1) ∷ [];
  heap = update (update (λ a. none) 0 (some (guest 7))) 1 (some (guest 9));
}

say_farewell-IsTold_example :
    (q : Pool ℕ ℕ) × (say_farewell (λ sd. true) crowd ((7, 0) ∷ (9, 1) ∷ []) 5 ≡ some q)
    × All (IsTold q (farewell 5)) ((7, 0) ∷ (9, 1) ∷ [])
    × (q.calls ≡ epoll_mod 9 true ∷ epoll_mod 7 true ∷ [])
unfolding new_pool farewell decimal calloc_data
say_farewell-IsTold_example =
    say_farewell-IsTold (λ sd. true) crowd ((7, 0) ∷ (9, 1) ∷ []) 5 refl refl
      (
        (guest 7, calloc_data 100, refl, refl, refl, refl, omega arith),
        ((guest 9, calloc_data 100, refl, refl, refl, refl, omega arith), tt),
      )
