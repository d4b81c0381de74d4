-- ===== src/Pool/System/Faultless.antt =====
-- A worker that finds `tst_run` in its loop has a socket, unless a user's function gives that state.
use tst.Common.{
  arith, Bool-cases, Option, Bool, ℕ, List, [], ◌∷◌, refl, sym, ap, ◌∙◌, subst, none, some, true,
  inl, inr, ◌≡◌, ◌≢◌, ◌==◌, get_elem?, ◌&&◌, set, map, get_elem?-set_self, get_elem?-set_ne, zero,
  suc,
}
use tst.Pool.Types.{Socket, Stat, tst_disconnect, tst_send, tst_suspend, tst_run, tst_exit}
use tst.Pool.State.{Pool, Hooks, Worker, update, deref}
use tst.Pool.Main.Sound.{KeepsDescriptor}
use tst.Pool.Work.{
  JobIo, serve, settle, run_job, run_idle, round_in, work_round, leave, waits, put_worker, ask_idle,
  done_worker,
}
use tst.Pool.Shutdown.{stop_workers, signal_exit}
use tst.Pool.System.{
  Epoll, System, Step, Reach, start, later, Phase, idle_running, wait, handle, clear, stop, round,
  choose_idle, start_idle, end_idle, end_loop, quiet, phase_after, looping, stopped,
}
use tst.Pool.System.Work.{JobsKeepDescriptor, settle_same}
use tst.Pool.System.Running.{Given, Gives, handle_event-Gives}
use tst.Pool.System.Safety.{IsFirst, Reach-Refines}

-- The worker has a socket if its state is `tst_run`.
abbrev pub IsGiven : Worker → Type 0
IsGiven w = w.thread_stat ≡ tst_run → (a : ℕ) × (w.tst_socket ≡ some a)

-- So does every worker, but one that runs `tst_idle`.
abbrev pub AllGiven : List Worker → (ℕ → Phase) → Type 0
AllGiven ws phase =
    (i : ℕ) (w : Worker) → get_elem? ws i ≡ some w → phase i ≢ idle_running → IsGiven w

AllGiven-Given :
    (ws ws' : List Worker) (phase : ℕ → Phase)
    → Given ws ws'
    → AllGiven ws phase
    → AllGiven ws' phase
AllGiven-Given ws ws' phase given all i w at ne run = elim (given i w at) [
  | inl before ↦ all i w before ne run
  | inr has ↦ has
]

AllGiven-set :
    (ws : List Worker) (phase : ℕ → Phase) (j : ℕ) (w w' : Worker) (now : Phase)
    → get_elem? ws j ≡ some w
    → AllGiven ws phase
    → (now ≢ idle_running → IsGiven w')
    → AllGiven (set ws j w') (update phase j now)
AllGiven-set ws phase j w w' now at all own i x at' ne run = elim (Bool-cases (j == i)) [
  | inl hit ↦
      let e : j ≡ i = ground arith in
      let f : x ≡ w' = cc (at', get_elem?-set_self ws j w w' at, ap (get_elem? (set ws j w')) e) in
      let g = own (λ idle. ne (ground arith)) (ap (λ (y : Worker). y.thread_stat) (sym f) ∙ run) in
      (g.0, ap (λ (y : Worker). y.tst_socket) f ∙ g.1)
  | inr miss ↦
      let away : j ≢ i = ground arith in
      all i x (sym (get_elem?-set_ne ws j i w' away) ∙ at') (λ idle. ne (ground (arith, away))) run
]

signal_exit-IsGiven : (w : Worker) → IsGiven w → IsGiven (signal_exit w)
signal_exit-IsGiven w g run = ground (arith, g)

AllGiven-signal_exit :
    (ws : List Worker) (phase : ℕ → Phase) → AllGiven ws phase → AllGiven (map signal_exit ws) phase
AllGiven-signal_exit [] phase all i w at ne run = absurd (cc at)
AllGiven-signal_exit (x ∷ ws) phase all zero w at ne run =
    ground (arith, signal_exit-IsGiven x (all zero x refl ne))
AllGiven-signal_exit (x ∷ ws) phase all (suc i) w at ne run =
    AllGiven-signal_exit ws (λ n. phase (suc n)) (λ n. all (suc n)) i w at ne run

module _ {U G : Type 0} (h : Hooks U G) where
  -- No job ends in `tst_run`, and neither does `tst_idle`: the user's function is set, and gives
  -- another state.
  pub record NeverRuns : Type 0 where
    pub jobs : (w : Worker) (k : Socket U) (g : G) (io : JobIo) → (serve h w k g io).2 ≢ tst_run
    pub idle : (g : G) → (ask_idle h g).1 ≢ tst_run

  settle_rests :
      (p : Pool U G) (k : Socket U) (next : Stat) → next ≢ tst_run → (settle h p k next).1 ≢ tst_run
  unfolding settle
  settle_rests p k tst_disconnect ne = ground arith
  settle_rests p k tst_send ne = ground arith
  settle_rests p k _ ne = ground arith

  -- The outcome of a round of worker `j`: a fault, or a table in which only its own record is new.
  abbrev Turned : Pool U G → ℕ → Option (Pool U G × Bool) → Type 0
  Turned p j none = Unit
  Turned p j (some (q, goes_on)) = (w' : Worker) × (q.workers ≡ set p.workers j w') × IsGiven w'

  run_job-Turned :
      (p : Pool U G) (j : ℕ) (w : Worker) (a : ℕ) (k : Socket U) (io : JobIo)
      → NeverRuns
      → Turned p j (some (run_job h p j w a k io, true))
  unfolding run_job
  run_job-Turned p j w a k io never =
      let (k', g', next) = serve h w k p.shared io in
      let q = record p { heap = update p.heap a (some k'); shared = g' } in
      (
        done_worker w (settle h q k' next).1 io.elapsed,
        ap (λ ws. set ws j (done_worker w (settle h q k' next).1 io.elapsed))
            (settle_same h q k' next),
        λ run. absurd (settle_rests q k' next (never.jobs w k p.shared io) run),
      )

  found_job-Turned :
      (p : Pool U G) (j : ℕ) (w : Worker) (io : JobIo) (found : Option (ℕ × Socket U))
      → NeverRuns
      → Turned p j (elim found [ none ↦ none | some (a, k) ↦ some (run_job h p j w a k io, true) ])
  found_job-Turned p j w io none never = tt
  found_job-Turned p j w io (some (a, k)) never = run_job-Turned p j w a k io never

  round_in-Turned :
      (p : Pool U G) (j : ℕ) (w : Worker) (io : JobIo) (stat : Stat)
      → NeverRuns
      → Turned p j (round_in h p j w io stat)
  unfolding round_in run_idle
  round_in-Turned p j w io tst_run never = found_job-Turned p j w io (deref p w.tst_socket) never
  round_in-Turned p j w io tst_suspend never = (_, refl, λ run. absurd (never.idle p.shared run))
  round_in-Turned p j w io tst_exit never = (_, refl, λ run. absurd (cc run))
  round_in-Turned p j w io _ never = (_, refl, λ run. absurd (cc run))

  work_round-Turned :
      (p : Pool U G) (j : ℕ) (w : Worker) (io : JobIo) (wait_failed : Bool)
      → NeverRuns
      → Turned p j (work_round h p j w io wait_failed)
  unfolding work_round
  work_round-Turned p j w io wait_failed never =
      elim (Bool-cases (wait_failed && waits w.thread_stat)) [
        | inl e ↦ rw e (_, refl, λ run. absurd (cc run))
        | inr e ↦ rw e (round_in-Turned p j w io w.thread_stat never)
      ]

module _ (E : Epoll) {U G : Type 0} (h : Hooks U G) where
  Step-AllGiven :
      (t u : System U G E)
      → NeverRuns h
      → Step E h t u
      → AllGiven t.pool.workers t.phase
      → AllGiven u.pool.workers u.phase
  unfolding run_idle leave stop_workers
  Step-AllGiven t u never (wait es run idle room b) all = all
  Step-AllGiven t u never (handle sd ev es accepted queried q done run first new e) all =
      AllGiven-Given t.pool.workers q.workers t.phase
        (subst (λ o. Gives h (quiet E t.pool) o) e
          (handle_event-Gives h (quiet E t.pool) sd ev accepted queried))
        all
  Step-AllGiven t u never clear all = all
  Step-AllGiven t u never (stop over) all = AllGiven-signal_exit t.pool.workers t.phase all
  Step-AllGiven t u never (round j w io wait_failed q goes_on loop at e) all =
      let (w', same, given) =
        subst (λ o. Turned h (quiet E t.pool) j o) e
          (work_round-Turned h (quiet E t.pool) j w io wait_failed never) in
      subst (λ ws. AllGiven ws (update t.phase j (phase_after goes_on))) (sym same)
        (AllGiven-set t.pool.workers t.phase j w w' (phase_after goes_on) at all (λ ne. given))
  Step-AllGiven t u never (choose_idle j w loop at stat) all = λ i x at' ne.
      elim (Bool-cases (j == i)) [
        | inl hit ↦ let e : j ≡ i = ground arith in all i x at' (λ f. cc (f, loop, ap t.phase e))
        | inr miss ↦
            let away : j ≢ i = ground arith in all i x at' (λ f. ne (ground (arith, away, f)))
      ]
  Step-AllGiven t u never (start_idle j w phase at) all =
      AllGiven-set t.pool.workers t.phase j w _ idle_running at all (λ ne. absurd (ne refl))
  Step-AllGiven t u never (end_idle j w phase at) all =
      AllGiven-set t.pool.workers t.phase j w _ looping at all
        (λ ne run. absurd (never.idle t.pool.shared run))
  Step-AllGiven t u never (end_loop j w loop over at) all =
      AllGiven-set t.pool.workers t.phase j w _ stopped at all (λ ne run. absurd (cc run))

  Reach-AllGiven :
      (s t : System U G E)
      → NeverRuns h
      → AllGiven s.pool.workers s.phase
      → Reach E h s t
      → AllGiven t.pool.workers t.phase
  Reach-AllGiven s t never all start = all
  Reach-AllGiven s t never all (later {s = m} r step) =
      Step-AllGiven m t never step (Reach-AllGiven s m never all r)

  round_in_total :
      (p : Pool U G) (i : ℕ) (w : Worker) (io : JobIo) (stat : Stat)
      → (stat ≡ tst_run → (found : ℕ × Socket U) × (deref p w.tst_socket ≡ some found))
      → (o : Pool U G × Bool) × (round_in h p i w io stat ≡ some o)
  unfolding round_in
  round_in_total p i w io tst_run found =
      let ((a, k), e) = found refl in ((run_job h p i w a k io, true), rw (e, round_in) refl)
  round_in_total p i w io tst_suspend found = (_, refl)
  round_in_total p i w io tst_exit found = (_, refl)
  round_in_total p i w io _ found = (_, refl)

  -- Let the functions for new connections and for jobs leave the descriptor of their socket alone,
  -- and let no job, and not `tst_idle`, end in `tst_run`. In every state that the threads reach
  -- from workers with no job that are not in `tst_run`, a map and heap that agree, and an epoll
  -- that watches none but the main socket and registered ones, the next round of a worker that
  -- stands in its loop comes to its end, whatever the kernel answers: where the worker is in
  -- `tst_run`, its `tst_socket` is not null and the socket's object is there. The states are those
  -- before the main thread cancels the workers and frees their memory.
  pub Reach-work_round :
      (s t : System U G E) (i : ℕ) (w : Worker) (io : JobIo) (wait_failed : Bool)
      → KeepsDescriptor h
      → JobsKeepDescriptor h
      → NeverRuns h
      → IsFirst E s
      → ((j : ℕ) (x : Worker) → get_elem? s.pool.workers j ≡ some x → x.thread_stat ≢ tst_run)
      → Reach E h s t
      → get_elem? t.pool.workers i ≡ some w
      → t.phase i ≡ looping
      → (o : Pool U G × Bool) × (work_round h (quiet E t.pool) i w io wait_failed ≡ some o)
  unfolding work_round
  Reach-work_round s t i w io wait_failed keep jobs never f rests r at loop =
      let (σ, ms, v) = Reach-Refines E h s t keep jobs f r in
      let all = Reach-AllGiven s t never (λ j x at' ne run. absurd (rests j x at' run)) r in
      let found : w.thread_stat ≡ tst_run
          → (found : ℕ × Socket U) × (deref (quiet E t.pool) w.tst_socket ≡ some found) =
        λ run.
          let (a, holds) = all i w at (λ idle. cc (idle, loop)) run in
          let o = v.owned i a w at holds in ((a, o.socket), ground (arith, holds, o.alive)) in
      elim (Bool-cases (wait_failed && waits w.thread_stat)) [
        | inl e ↦ (
          (put_worker (quiet E t.pool) i (record w { thread_stat = tst_suspend }), true),
          rw e refl,
        )
        | inr e ↦ rw e (round_in_total (quiet E t.pool) i w io w.thread_stat found)
      ]
