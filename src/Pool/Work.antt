-- ===== src/Pool/Work.antt =====
-- tst/tst.cpp, `tst_work`: one round of a worker's loop, from its waking up on. The calls of the
-- kernel that a job makes and the time that it takes are arguments.
pub mod Laws
pub mod Sound
use tst.Common.{
  refl, sym, ap, subst, ◌∙◌, inl, inr, zero, ◌-◌, ◌*◌, ◌≤◌, ◌<◌, ◌≡◌, ◌≢◌, ◌↔◌, ◌⊎◌, ◌++◌, ◌==◌,
  ◌||◌, ℕ, suc, ◌+◌, ◌/◌, ◌%◌, ◌^◌, Bool, true, false, ◌&&◌, Option, none, some, List, [], ◌∷◌,
  Bytes, set, get_elem?, ltb, if◌then◌else◌,
}
use tst.Pool.Types.{
  Socket, Events, readable, Stat, tst_suspend, tst_run, tst_send, tst_reconnected, tst_disconnect,
  tst_exit, tst_exited,
}
use tst.Pool.Transfer.{auto_receive, auto_send}
use tst.Pool.State.{Pool, Hooks, Worker, Call, epoll_mod, update, call, deref}
use tst.Pool.Connections.{closesocket}

pub record JobIo : Type 0 where
  pub ioctl : Option ℕ
  pub read : ℕ → Option Bytes
  pub write : Bytes → Option ℕ
  pub elapsed : ℕ

abbrev pub u64_mod : ℕ
u64_mod = 2 ^ 64

-- The worker's own record behind a job that took `elapsed` nanoseconds.
abbrev pub done_worker : Worker → Stat → ℕ → Worker
done_worker w stat elapsed = record w {
  thread_stat = stat;
  tst_socket = none;
  sum_time = (w.sum_time + elapsed / 1_000_000) % u64_mod;
  most_elapsed = if ltb w.most_elapsed elapsed then elapsed else w.most_elapsed;
  exec_count = (w.exec_count + 1) % u64_mod;
}

-- `thread_stat < tst_exit`: only then does the worker wait at all.
abbrev pub waits : Stat → Bool
waits tst_exit = false
waits tst_exited = false
waits _ = true

module _ {U : Type 0} where
  receive_part : Socket U → JobIo → Socket U × Stat
  receive_part k io = elim k.recv [
    | none ↦ (k, tst_run)
    | some d ↦
        let (d', next) = auto_receive d io.ioctl io.read in (record k { recv = some d' }, next)
  ]

  send_part : Socket U → JobIo → Socket U × Stat
  send_part k io = elim k.send [
    | none ↦ (k, tst_run)
    | some d ↦ let (d', next) = auto_send d io.write in (record k { send = some d' }, next)
  ]

  -- `next` is `tst_run` where the user's function is to be called.
  unfoldable pub transfer : Socket U → JobIo → Socket U × Stat
  unfolding receive_part send_part
  transfer k io =
      if readable k.events
      then receive_part k io
      else if k.events.epollout
      then send_part k io
      else (k, tst_suspend)

module _ {U G : Type 0} where
  abbrev pub run_func : Hooks U G → Socket U → G → Stat → Socket U × G × Stat
  run_func h k g tst_run = elim h.tst_func [ none ↦ (k, g, tst_run) | some f ↦ f k g ]
  run_func h k g next = (k, g, next)

  abbrev pub run_mostelapsed : Hooks U G → Bool → Socket U → G → Socket U × G
  run_mostelapsed h true k g = elim h.fmostelapsed [ none ↦ (k, g) | some f ↦ f k g ]
  run_mostelapsed h false k g = (k, g)

  abbrev pub put_worker : Pool U G → ℕ → Worker → Pool U G
  put_worker p i w = record p { workers = set p.workers i w }

  -- What follows the user's function, on the socket object at `a`: the connection is closed, or the
  -- socket is armed again, for EPOLLOUT too where more is to be sent.
  unfoldable pub settle : Hooks U G → Pool U G → Socket U → Stat → Pool U G × Stat
  settle h p k tst_disconnect =
      if ltb 0 k.sd then (closesocket h p k.sd, tst_suspend) else (p, tst_suspend)
  settle h p k tst_send =
      if ltb 0 k.sd then (call p (epoll_mod k.sd true), tst_suspend) else (p, tst_send)
  settle h p k next = if ltb 0 k.sd then (call p (epoll_mod k.sd false), next) else (p, next)

  -- A job up to its end: the transfer, the user's function where the transfer is done, and the
  -- function for a new longest time.
  unfoldable pub serve : Hooks U G → Worker → Socket U → G → JobIo → Socket U × G × Stat
  unfolding transfer
  serve h w k g io =
      let (k1, asked) = transfer k io in
      let (k2, g2, next) = run_func h (record k1 { thread_no = w.thread_no }) g asked in
      let (k3, g3) = run_mostelapsed h (ltb w.most_elapsed io.elapsed) k2 g2 in (k3, g3, next)

  -- The branch for `tst_run`, on the object at address `a`.
  unfoldable pub run_job : Hooks U G → Pool U G → ℕ → Worker → ℕ → Socket U → JobIo → Pool U G
  unfolding serve settle
  run_job h p i w a k io =
      let (k', g', next) = serve h w k p.shared io in
      let (q, stat) =
        settle h (record p { heap = update p.heap a (some k'); shared = g' }) k' next in
      put_worker q i (done_worker w stat io.elapsed)

  abbrev pub ask_idle : Hooks U G → G → G × Stat
  ask_idle h g = elim h.tst_idle [ none ↦ (g, tst_suspend) | some f ↦ f g ]

  -- The branch for `tst_suspend`.
  unfoldable pub run_idle : Hooks U G → Pool U G → ℕ → Worker → Pool U G
  run_idle h p i w =
      let (g, next) = ask_idle h p.shared in
      put_worker (record p { shared = g }) i
        (record w { thread_stat = next; idle_count = (w.idle_count + 1) % u64_mod })

  -- A round that finds the state `w`. `none` is the fault of a read through a null pointer, or
  -- through one whose object is gone; the flag says whether the loop goes on.
  unfoldable pub round_in :
      Hooks U G → Pool U G → ℕ → Worker → JobIo → Stat → Option (Pool U G × Bool)
  unfolding run_job run_idle
  round_in h p i w io tst_run = elim (deref p w.tst_socket) [
    | none ↦ none
    | some (a, k) ↦ some (run_job h p i w a k io, true)
  ]
  round_in h p i w io tst_suspend = some (run_idle h p i w, true)
  round_in h p i w io tst_exit =
      some (put_worker p i (record w { thread_stat = tst_exited; exit_code = 9 }), false)
  round_in h p i w io _ = some (put_worker p i (record w { thread_stat = tst_suspend }), true)

  -- `wait_failed`: the timed wait returned an error other than ETIMEDOUT.
  unfoldable pub work_round :
      Hooks U G → Pool U G → ℕ → Worker → JobIo → Bool → Option (Pool U G × Bool)
  unfolding round_in
  work_round h p i w io wait_failed =
      if wait_failed && waits w.thread_stat
      then some (put_worker p i (record w { thread_stat = tst_suspend }), true)
      else round_in h p i w io w.thread_stat

  -- Behind the loop, which runs while `m_work_run` is set.
  unfoldable pub leave : Pool U G → ℕ → Worker → Pool U G
  leave p i w = put_worker p i (record w { thread_stat = tst_exited })
