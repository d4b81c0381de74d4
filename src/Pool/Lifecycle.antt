-- ===== src/Pool/Lifecycle.antt =====
-- tst/tst.cpp: the constructor, `create`, the start of `tst_main`, and `destroy`. The threads
-- themselves are in Pool/System, and what ends them is in Pool/Shutdown.
pub mod Release
pub mod Laws
use tst.Common.{
  not, ltb, Bool, List, ℕ, Option, refl, sym, ap, subst, ◌∙◌, none, some, true, false, [], ◌∷◌, inl,
  inr, zero, suc, ◌+◌, ◌-◌, ◌*◌, ◌/◌, ◌%◌, ◌^◌, ◌≤◌, ◌<◌, ◌≡◌, ◌≢◌, ◌↔◌, ◌⊎◌, ◌++◌, ◌==◌,
  if◌then◌else◌, ◌&&◌, ◌||◌,
}
use tst.Common.Dict.{lookup}
use tst.Pool.Types.{Socket, SocketType, sock_sub, sock_listen, tst_suspend}
use tst.Pool.State.{Pool, Worker, Call, epoll_add, epoll_del, close_fd, update, call}
use tst.Pool.Setup.{TcpResult, tcp_ok, tcp_error}

abbrev new_worker : ℕ → Worker
new_worker i = record {
  thread_no = i;
  thread_stat = tst_suspend;
  tst_socket = none;
  exit_code = 0;
  sum_time = 0;
  most_elapsed = 0;
  exec_count = 0;
  idle_count = 0;
}

unfoldable pub new_workers : (n i : ℕ) → List Worker
new_workers zero i = []
new_workers (suc n) i = new_worker i ∷ new_workers n (suc i)

-- `m_sockmain < 1`, where `tcp_create` has been asked.
abbrev sockmain_of : TcpResult → Option ℕ
sockmain_of (tcp_ok zero) = none
sockmain_of (tcp_ok (suc fd)) = some (suc fd)
sockmain_of (tcp_error code) = none

module _ {U G : Type 0} where
  -- The constructor clears all; `shared` is not the pool's own.
  unfoldable pub new_pool : G → Pool U G
  new_pool shared = record {
    main_thread = false;
    main_run = false;
    work_run = false;
    socktype = sock_sub;
    sockmain = none;
    connect = [];
    heap = λ a. none;
    next_address = 0;
    workers = [];
    recv_buf_size = 0;
    send_buf_size = 0;
    shared = shared;
    calls = [];
  }

  -- The tables, the sizes, the flags, and the workers.
  start_threads : Pool U G → (n recv_size send_size : ℕ) → Pool U G
  unfolding new_workers
  start_threads p n recv_size send_size = record p {
    main_thread = true;
    main_run = true;
    work_run = true;
    workers = new_workers n 0;
    recv_buf_size = recv_size;
    send_buf_size = send_size;
  }

  -- Where the main thread has ended its loop, it has freed the workers when `pthread_join` returns.
  created : Pool U G → Bool → Pool U G × Option ℕ
  created p true = (record p { main_run = false; work_run = false; workers = [] }, some 0)
  created p false = (p, some 1)

  -- The second argument is what `tcp_create` gives, `none` where no port is asked for and the program has
  -- set the main socket itself; `over` is whether the main thread is seen to have ended its loop
  -- already. The result is the number that the code returns, `none` for -1.
  unfoldable pub create :
      Pool U G
      → Option TcpResult
      → (thread_count recv_size send_size : ℕ) → (over : Bool) → Pool U G × Option ℕ
  unfolding start_threads created
  create p none n recv_size send_size over = created (start_threads p n recv_size send_size) over
  create p (some r) n recv_size send_size over = elim (sockmain_of r) [
    | none ↦ (record p { sockmain = none }, none)
    | some fd ↦
        created
          (start_threads (record p { sockmain = some fd; socktype = sock_listen }) n recv_size
            send_size)
          over
  ]

  -- `tst_main` before its loop.
  unfoldable pub start_main : Pool U G → Pool U G
  start_main p = elim p.sockmain [
    | none ↦ record p { main_run = false }
    | some sd ↦ call p (epoll_add sd false)
  ]

  -- A listening main socket is closed; one that the program has connected is left to it.
  abbrev close_main : Pool U G → Pool U G
  close_main p = elim p.socktype [
    | sock_listen ↦ elim p.sockmain [
      | none ↦ p
      | some sd ↦ record (call p (close_fd sd)) { sockmain = none }
    ]
    | _ ↦ p
  ]

  -- One entry of the map: its object's descriptor is closed, and the object deleted. `none` is the
  -- fault of an entry whose object is gone.
  abbrev close_entry : Pool U G → ℕ → Option (Pool U G)
  close_entry p a = elim (p.heap a) [
    | none ↦ none
    | some k ↦ some (record p {
      heap = update p.heap a none;
      calls = if ltb 0 k.sd then close_fd k.sd ∷ epoll_del k.sd ∷ p.calls else p.calls;
    })
  ]

  unfoldable pub close_entries : Pool U G → List (ℕ × ℕ) → Option (Pool U G)
  close_entries p [] = some p
  close_entries p ((sd, a) ∷ entries) = elim (close_entry p a) [
    | none ↦ none
    | some q ↦ close_entries q entries
  ]

  -- Behind `pthread_join`: the main thread has freed the workers.
  unfoldable pub release : Pool U G → Option (Pool U G)
  unfolding close_entries
  release p =
      let q = close_main (record p { main_run = false; workers = []; main_thread = false }) in
      elim (close_entries q q.connect) [ none ↦ none | some r ↦ some (record r { connect = [] }) ]

  -- `joined` is the pool that the threads leave behind when `m_main_run` is cleared; the flag is
  -- what the code returns.
  unfoldable pub destroy : Pool U G → (Pool U G → Pool U G) → Option (Pool U G × Bool)
  unfolding release
  destroy p joined =
      if not p.main_thread || not p.main_run
      then some (p, false)
      else elim (release (joined (record p { main_run = false }))) [
        | none ↦ none
        | some q ↦ some (q, true)
      ]
