-- ===== src/Pool/Work/Laws.antt =====
-- What a job leaves behind: the worker's state, the socket's registration, and the map.
use tst.Common.{
  get_elem?-set_ne, get_elem?-set_self, arith, List, refl, none, some, true, false, [], ◌∷◌, ◌+◌,
  ◌<◌, ◌≡◌, ◌≢◌, ◌++◌, ℕ, Bytes, length, get_elem?,
}
use tst.Pool.Types.{
  Socket, TstData, Stat, tst_suspend, tst_run, tst_send, tst_disconnect, readable, u32_mod,
}
use tst.Pool.State.{Pool, Hooks, Worker, Call, epoll_mod, epoll_del, close_fd, update}
use tst.Pool.Transfer.{auto_receive, wanted}
use tst.Pool.Transfer.Receive.{receive-step_more, Answers}
use tst.Pool.Connections.{closesocket}
use tst.Pool.Work.{done_worker, JobIo, serve, settle, run_job, work_round}

-- The state in which a worker is left by what the job returned.
abbrev pub rest_state : Stat → Stat
rest_state tst_disconnect = tst_suspend
rest_state tst_send = tst_suspend
rest_state next = next

-- The calls for the job's socket: it is closed, or armed once more, for EPOLLOUT too where the job
-- wants to send.
abbrev pub rest_calls : ℕ → Stat → List Call
rest_calls sd tst_disconnect = close_fd sd ∷ epoll_del sd ∷ []
rest_calls sd tst_send = epoll_mod sd true ∷ []
rest_calls sd next = epoll_mod sd false ∷ []

module _ {U G : Type 0} (h : Hooks U G) where
  settle_lem :
      (p : Pool U G) (k : Socket U) (next : Stat)
      → 0 < k.sd
      → let (q, stat) = settle h p k next in
        (q.calls ≡ rest_calls k.sd next ++ p.calls)
        × (stat ≡ rest_state next)
        × (q.workers ≡ p.workers)
  unfolding settle closesocket
  settle_lem p k tst_disconnect pos = ground arith
  settle_lem p k _ pos = ground arith

  -- A job of the worker at a place of the table, on a socket whose descriptor is positive at its
  -- end, ends with the socket closed, or armed exactly once, and with the worker holding no socket
  -- and in the state that the user's function returned, which is `tst_suspend` for `tst_send` and
  -- for `tst_disconnect`.
  pub run_job_end :
      (p : Pool U G) (i : ℕ) (w : Worker) (a : ℕ) (k : Socket U) (io : JobIo)
      → get_elem? p.workers i ≡ some w
      → 0 < (serve h w k p.shared io).0.sd
      → let (k', g', next) = serve h w k p.shared io in
        let q = run_job h p i w a k io in
        (q.calls ≡ rest_calls k'.sd next ++ p.calls)
        × ((w' : Worker) × (get_elem? q.workers i ≡ some w')
            × (w'.thread_stat ≡ rest_state next)
            × (w'.tst_socket ≡ none))
  unfolding run_job
  run_job_end p i w a k io at pos =
      let (k', g', next) = serve h w k p.shared io in
      let s = settle_lem (record p { heap = update p.heap a (some k'); shared = g' }) k' next pos in
      let w' =
        done_worker w
          (settle h (record p { heap = update p.heap a (some k'); shared = g' }) k' next).1
          io.elapsed in
      (s.0, (w', rw s.2 (get_elem?-set_self p.workers i w w' at), s.1, refl))

  -- The other workers see nothing of it.
  pub run_job_others :
      (p : Pool U G) (i j : ℕ) (w : Worker) (a : ℕ) (k : Socket U) (io : JobIo)
      → i ≢ j
      → 0 < (serve h w k p.shared io).0.sd
      → get_elem? (run_job h p i w a k io).workers j ≡ get_elem? p.workers j
  unfolding run_job
  run_job_others p i j w a k io ne pos =
      let (k', g', next) = serve h w k p.shared io in
      let s = settle_lem (record p { heap = update p.heap a (some k'); shared = g' }) k' next pos in
      rw s.2 (get_elem?-set_ne p.workers i j _ ne)

  -- In a job for a readable socket whose request, of less than 2 ^ 32 bytes, is still incomplete
  -- after a read that succeeds, with no function set for the longest time, the user's function is
  -- not called: what the handlers share stays as it is, and the job asks for no more than the next
  -- event.
  pub serve_incomplete :
      (w : Worker) (k : Socket U) (g : G) (io : JobIo) (d : TstData) (ready : ℕ) (chunk : Bytes)
      → readable k.events ≡ true
      → k.recv ≡ some d
      → io.ioctl ≡ some ready
      → Answers io.read (wanted d ready) chunk
      → d.req_len < u32_mod
      → d.com_len + length chunk < d.req_len
      → h.fmostelapsed ≡ none
      → let (k', g', next) = serve h w k g io in
        (g' ≡ g) × (next ≡ tst_suspend) × (k'.recv ≡ some (auto_receive d (some ready) io.read).0)
  unfolding serve
  serve_incomplete w k g io d ready chunk ev er ei ans small more hook =
      ground (arith, receive-step_more d ready io.read chunk small ans more)

  -- Let the user's function return `tst_run` from a job on a positive descriptor: the worker is
  -- left in that state with no socket, and its next round, unless the wait before it fails, reads
  -- through the null pointer.
  pub tst_run_fault :
      (p : Pool U G) (i : ℕ) (w : Worker) (a : ℕ) (k : Socket U) (io later : JobIo)
      → get_elem? p.workers i ≡ some w
      → 0 < (serve h w k p.shared io).0.sd
      → (serve h w k p.shared io).2 ≡ tst_run
      → (w' : Worker) × (get_elem? (run_job h p i w a k io).workers i ≡ some w')
        × (work_round h (run_job h p i w a k io) i w' later false ≡ none)
  unfolding work_round
  tst_run_fault p i w a k io later at pos e =
      let (_, (w', held, stat, no_socket)) = run_job_end p i w a k io at pos in
      (w', held, ground arith)
