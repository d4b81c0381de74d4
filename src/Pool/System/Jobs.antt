-- ===== src/Pool/System/Jobs.antt =====
-- A worker's round, as changes of turns.
use tst.Common.{
  Option, Bool, set, arith, map, Bool-cases, get_elem?, ℕ, List, refl, sym, ◌∙◌, none, some, true,
  inl, inr, ◌≡◌, ◌&&◌,
}
use tst.Pool.Types.{Socket, Events, Stat, tst_run, tst_suspend, tst_exit}
use tst.Pool.State.{Pool, Hooks, Worker, deref}
use tst.Pool.Work.{
  JobIo, run_job, run_idle, round_in, work_round, leave, waits, put_worker, ask_idle,
}
use tst.Pool.Shutdown.{signal_exit, stop_workers}
use tst.Pool.Turns.{Turn, stay}
use tst.Pool.System.{Epoll, ctl_all}
use tst.Pool.System.Changes.{Live-workers}
use tst.Pool.System.Calls.{IsLive, Follows}
use tst.Pool.System.Work.{Fewer-set, Fewer-signal_exit, JobsKeepDescriptor, run_job-Follows}

module _ (E : Epoll) {U G : Type 0} (h : Hooks U G) (kernel : E.State) where
  -- A worker that changes with nothing about its socket, but that it may let go of it.
  put_worker-Follows :
      (p : Pool U G) (i : ℕ) (w w' : Worker) (σ : ℕ → Turn) (pending : List (ℕ × Events))
      → IsLive E p kernel pending σ
      → get_elem? p.workers i ≡ some w
      → w'.tst_socket ≡ w.tst_socket
      → Follows E (put_worker p i w') kernel pending σ
  put_worker-Follows p i w w' σ pending v at same = (
    σ,
    stay,
    Live-workers E p.sockmain p.connect p.heap p.next_address p.workers (ctl_all E p.calls kernel)
        pending σ (set p.workers i w') v (Fewer-set p.workers i w w' at (λ a e. sym same ∙ e)),
  )

  pub run_idle-Follows :
      (p : Pool U G) (i : ℕ) (w : Worker) (σ : ℕ → Turn) (pending : List (ℕ × Events))
      → IsLive E p kernel pending σ
      → get_elem? p.workers i ≡ some w
      → Follows E (run_idle h p i w) kernel pending σ
  unfolding run_idle
  run_idle-Follows p i w σ pending v at =
      put_worker-Follows (record p { shared = (ask_idle h p.shared).0 }) i w _ σ pending v at refl

  pub leave-Follows :
      (p : Pool U G) (i : ℕ) (w : Worker) (σ : ℕ → Turn) (pending : List (ℕ × Events))
      → IsLive E p kernel pending σ
      → get_elem? p.workers i ≡ some w
      → Follows E (leave p i w) kernel pending σ
  unfolding leave
  leave-Follows p i w σ pending v at = put_worker-Follows p i w _ σ pending v at refl

  pub stop_workers-Follows :
      (p : Pool U G) (σ : ℕ → Turn) (pending : List (ℕ × Events))
      → IsLive E p kernel pending σ
      → Follows E (stop_workers p) kernel pending σ
  unfolding stop_workers
  stop_workers-Follows p σ pending v = (
    σ,
    stay,
    Live-workers E p.sockmain p.connect p.heap p.next_address p.workers (ctl_all E p.calls kernel)
        pending σ (map signal_exit p.workers) v (Fewer-signal_exit p.workers),
  )

  -- The outcome of a round: a fault, or a pool that stands right to turns that come from `σ`.
  abbrev pub Rounded : Option (Pool U G × Bool) → List (ℕ × Events) → (ℕ → Turn) → Type 0
  Rounded none pending σ = Unit
  Rounded (some (q, goes_on)) pending σ = Follows E q kernel pending σ

  found_job-Rounded :
      (p : Pool U G) (i : ℕ) (w : Worker) (io : JobIo) (σ : ℕ → Turn) (pending : List (ℕ × Events))
      (socket : Option ℕ) (found : Option (ℕ × Socket U))
      → JobsKeepDescriptor h
      → IsLive E p kernel pending σ
      → get_elem? p.workers i ≡ some w
      → w.tst_socket ≡ socket
      → deref p socket ≡ found
      → Rounded
          (elim found [ none ↦ none | some (a, k) ↦ some (run_job h p i w a k io, true) ])
          pending
          σ
  found_job-Rounded p i w io σ pending socket none keep v at holds e = tt
  found_job-Rounded p i w io σ pending none (some (a, k)) keep v at holds e = absurd (cc e)
  found_job-Rounded p i w io σ pending (some b) (some (a, k)) keep v at holds e =
      run_job-Follows E h kernel p i w a k io σ pending v at (ground (arith, holds)) (ground arith)
        (keep w k p.shared io)

  round_in-Rounded :
      (p : Pool U G) (i : ℕ) (w : Worker) (io : JobIo) (stat : Stat) (σ : ℕ → Turn)
      (pending : List (ℕ × Events))
      → JobsKeepDescriptor h
      → IsLive E p kernel pending σ
      → get_elem? p.workers i ≡ some w
      → Rounded (round_in h p i w io stat) pending σ
  unfolding round_in
  round_in-Rounded p i w io tst_run σ pending keep v at =
      found_job-Rounded p i w io σ pending w.tst_socket (deref p w.tst_socket) keep v at refl refl
  round_in-Rounded p i w io tst_suspend σ pending keep v at = run_idle-Follows p i w σ pending v at
  round_in-Rounded p i w io tst_exit σ pending keep v at =
      put_worker-Follows p i w _ σ pending v at refl
  round_in-Rounded p i w io _ σ pending keep v at = put_worker-Follows p i w _ σ pending v at refl

  -- Where the pool stands right to the turns, a round of a worker changes them by moves of theirs.
  pub work_round-Rounded :
      (p : Pool U G) (i : ℕ) (w : Worker) (io : JobIo) (wait_failed : Bool) (σ : ℕ → Turn)
      (pending : List (ℕ × Events))
      → JobsKeepDescriptor h
      → IsLive E p kernel pending σ
      → get_elem? p.workers i ≡ some w
      → Rounded (work_round h p i w io wait_failed) pending σ
  unfolding work_round
  work_round-Rounded p i w io wait_failed σ pending keep v at =
      elim (Bool-cases (wait_failed && waits w.thread_stat)) [
        | inl e ↦ rw e (put_worker-Follows p i w _ σ pending v at refl)
        | inr e ↦ rw e (round_in-Rounded p i w io w.thread_stat σ pending keep v at)
      ]
