-- ===== src/Tests/Pool.antt =====
-- The pool with one connection and two workers, of which the first is at work.
use tst.Common.{
  get_elem?, length, ℕ, Option, arith, refl, none, some, true, false, [], ◌∷◌, ◌+◌, ◌≡◌, ◌↔◌, ◌⊎◌,
  ◌++◌, ◌==◌, if◌then◌else◌,
}
use tst.Common.Dict.{lookup}
use tst.Pool.Types.{
  Events, Socket, Stat, TstData, sock_listen, sock_sub, tst_disconnect, tst_run, tst_suspend,
  no_events,
}
use tst.Pool.State.{Pool, Hooks, Worker}
use tst.Pool.Transfer.{wanted, auto_receive, auto_send}
use tst.Pool.Transfer.Receive.{Received, Holds, receive-step_next, Received-Holds}
use tst.Pool.Transfer.Send.{Sent, Progress, Sent-Progress}
use tst.Pool.Connections.Laws.{IsSound}
use tst.Pool.Work.{JobIo, serve, run_job, work_round}
use tst.Pool.Work.Laws.{rest_calls, rest_state, run_job_end, tst_run_fault}
use tst.Pool.Main.{dispatch}
use tst.Pool.Main.Laws.{Assigned, IsBusy, dispatch_cases}

abbrev pub buffer : TstData
buffer = record {
  req_pos = 1;
  req_len = 3;
  com_len = 0;
  checked_len = 0;
  s_len = 5;
  s = 0 ∷ 0 ∷ 0 ∷ 0 ∷ 0 ∷ [];
}

abbrev pub arrival : Events
arrival = record no_events { epollin = true }

abbrev pub client : Socket ℕ
client = record {
  thread_no = 0;
  sd = 5;
  type = sock_sub;
  events = arrival;
  recv = some buffer;
  send = some buffer;
  user_data = none;
  func = 0;
}

-- Handlers that count their calls; the one for a job ends the connection.
abbrev pub hooks : Hooks ℕ ℕ
hooks = record {
  fconnected = some (λ k g. (k, g + 1, tst_suspend));
  fdisconnected = some (λ k g. g + 1);
  fmain = none;
  fmostelapsed = none;
  tst_func = some (λ k g. (k, g + 1, tst_disconnect));
  tst_idle = none;
}

abbrev pub worker : Stat → Option ℕ → Worker
worker st a = record {
  thread_no = 0;
  thread_stat = st;
  tst_socket = a;
  exit_code = 0;
  sum_time = 0;
  most_elapsed = 0;
  exec_count = 0;
  idle_count = 0;
}

abbrev objects : ℕ → Option (Socket ℕ)
objects a = if a == 1 then some client else none

abbrev pub pool : Pool ℕ ℕ
pool = record {
  main_thread = true;
  main_run = true;
  work_run = true;
  socktype = sock_listen;
  sockmain = some 3;
  connect = (5, 1) ∷ [];
  heap = objects;
  next_address = 2;
  workers = worker tst_run (some 1) ∷ worker tst_suspend none ∷ [];
  recv_buf_size = 8;
  send_buf_size = 8;
  shared = 0;
  calls = [];
}

pub pool-IsSound : IsSound pool
unfolding lookup
pool-IsSound = record {
  owns = λ sd a e. (client, ground arith, ground arith);
  apart = λ sd sd' a e f. ground arith;
  fresh = λ a le. ground arith;
}

abbrev io : JobIo
io = record {
  ioctl = some 9;
  read = λ n. some (7 ∷ 8 ∷ 9 ∷ []);
  write = λ b. some (length b);
  elapsed = 1000;
}

run_job_end_example :
    let (k', g', next) = serve hooks (worker tst_run (some 1)) client 0 io in
    let q = run_job hooks pool 0 (worker tst_run (some 1)) 1 client io in
    (q.calls ≡ rest_calls k'.sd next ++ [])
    × ((w' : Worker) × (get_elem? q.workers 0 ≡ some w')
        × (w'.thread_stat ≡ rest_state next)
        × (w'.tst_socket ≡ none))
unfolding serve auto_receive
run_job_end_example =
    run_job_end hooks pool 0 (worker tst_run (some 1)) 1 client io refl (omega arith)

dispatch_cases_example :
    let (q, taken) = dispatch pool 1 client arrival 3 in
    ((taken ≡ true) × Assigned pool.workers q.workers 1 × (q.calls ≡ []))
    ⊎ ((taken ≡ false)
        × (q ≡ pool)
        × ((i : ℕ) (w : Worker) → get_elem? pool.workers i ≡ some w → IsBusy w))
dispatch_cases_example = dispatch_cases pool 1 client arrival 3

-- Two reads, of two bytes and of one.
two_reads :
    Received buffer
      (auto_receive
        (auto_receive buffer (some 2) (λ n. some (7 ∷ 8 ∷ []))).0
        (some 4)
        (λ n. some (9 ∷ []))).0
      (([] ++ 7 ∷ 8 ∷ []) ++ 9 ∷ [])
unfolding auto_receive wanted
two_reads =
    Received.event 4 (λ n. some (9 ∷ [])) (9 ∷ [])
      (Received.event 2 (λ n. some (7 ∷ 8 ∷ [])) (7 ∷ 8 ∷ []) Received.start (omega arith)
        (refl, omega arith))
      (omega arith) (refl, omega arith)

Received-Holds_example :
    Holds buffer
      (auto_receive
        (auto_receive buffer (some 2) (λ n. some (7 ∷ 8 ∷ []))).0
        (some 4)
        (λ n. some (9 ∷ []))).0
      (0 ∷ [])
      (0 ∷ 0 ∷ 0 ∷ [])
      (0 ∷ [])
      (([] ++ 7 ∷ 8 ∷ []) ++ 9 ∷ [])
Received-Holds_example =
    Received-Holds buffer (0 ∷ []) (0 ∷ 0 ∷ 0 ∷ []) (0 ∷ []) refl refl refl (omega arith) refl
      two_reads

receive-step_next_example :
    ((auto_receive buffer (some 9) (λ n. some (7 ∷ 8 ∷ 9 ∷ []))).1 ≡ tst_run) ↔ (0 + 3 ≡ 3)
unfolding wanted
receive-step_next_example =
    receive-step_next buffer 9 (λ n. some (7 ∷ 8 ∷ 9 ∷ [])) (7 ∷ 8 ∷ 9 ∷ []) (omega arith)
      (omega arith) (refl, omega arith)

-- A write that takes two of three bytes.
one_write : Sent buffer (auto_send buffer (λ b. some 2)).0 ([] ++ 0 ∷ 0 ∷ [])
one_write = Sent.event (λ b. some 2) 2 Sent.start (omega arith) refl (omega arith)

Sent-Progress_example :
    Progress buffer (auto_send buffer (λ b. some 2)).0 (0 ∷ 0 ∷ 0 ∷ []) ([] ++ 0 ∷ 0 ∷ [])
Sent-Progress_example =
    Sent-Progress buffer (0 ∷ []) (0 ∷ 0 ∷ 0 ∷ []) (0 ∷ []) refl refl refl (omega arith) refl
      one_write

-- A handler that says `tst_run`.
abbrev looping : Hooks ℕ ℕ
looping = record hooks { tst_func = some (λ k g. (k, g, tst_run)) }

tst_run_fault_example :
    (w' : Worker) × (get_elem?
        (run_job looping pool 0 (worker tst_run (some 1)) 1 client io).workers
        0
      ≡ some w')
    × (work_round looping
          (run_job looping pool 0 (worker tst_run (some 1)) 1 client io)
          0
          w'
          io
          false
        ≡ none)
unfolding serve auto_receive
tst_run_fault_example =
    tst_run_fault looping pool 0 (worker tst_run (some 1)) 1 client io io refl (omega arith) refl
