-- ===== src/Pool/System/Untouched.antt =====
-- While a worker has a job, what the other threads do leaves its socket's object alone.
use tst.Common.{
  arith, Bool-cases, Option, Bool, ℕ, refl, sym, ap, ◌∙◌, subst, none, some, true, inl, inr, ◌≡◌,
  ◌≢◌, ltb, get_elem?, ◌&&◌,
}
use tst.Common.Dict.{lookup}
use tst.Pool.Types.{Socket, Stat, tst_disconnect, tst_send, tst_suspend, tst_run, tst_exit}
use tst.Pool.State.{Pool, Hooks, Worker, update, deref}
use tst.Pool.Connections.Laws.{IsSound, Agrees-update}
use tst.Pool.Main.Sound.{KeepsDescriptor}
use tst.Pool.Work.{JobIo, serve, settle, run_job, run_idle, round_in, work_round, leave, waits}
use tst.Pool.Shutdown.{stop_workers}
use tst.Pool.Turns.{Turn, held}
use tst.Pool.System.{
  Epoll, System, Step, Reach, wait, handle, clear, stop, round, choose_idle, start_idle, end_idle,
  end_loop, quiet,
}
use tst.Pool.System.Live.{Owner, Queued}
use tst.Pool.System.Work.{JobsKeepDescriptor}
use tst.Pool.System.Refine.{Refines}
use tst.Pool.System.Safety.{IsFirst, Reach-Refines}
use tst.Pool.System.Elsewhere.{Keeps, Kept, closesocket-Keeps, handle_event-Kept}

module _ {U G : Type 0} (h : Hooks U G) (sd a : ℕ) where
  settle-Keeps :
      (p : Pool U G) (k : Socket U) (next : Stat)
      → IsSound p
      → k.sd ≢ sd
      → lookup sd p.connect ≡ some a
      → Keeps h sd a p (settle h p k next).0
  unfolding settle
  settle-Keeps p k tst_disconnect v ne known = elim (Bool-cases (ltb 0 k.sd)) [
    | inl e ↦ rw e (closesocket-Keeps h sd a p k.sd v ne known)
    | inr e ↦ rw e (refl, refl)
  ]
  settle-Keeps p k tst_send v ne known = ground arith
  settle-Keeps p k _ v ne known = ground arith

  run_job-Keeps :
      (p : Pool U G) (j : ℕ) (w : Worker) (b : ℕ) (k : Socket U) (io : JobIo)
      → IsSound p
      → b ≢ a
      → k.sd ≢ sd
      → lookup sd p.connect ≡ some a
      → p.heap b ≡ some k
      → (serve h w k p.shared io).0.sd ≡ k.sd
      → Keeps h sd a p (run_job h p j w b k io)
  unfolding run_job
  run_job-Keeps p j w b k io v away ne known alive same =
      let (k', g', next) = serve h w k p.shared io in
      let q = record p { heap = update p.heap b (some k'); shared = g' } in
      let (e, f) =
        settle-Keeps q k' next (Agrees-update p.connect p.heap p.next_address b k k' v alive same)
          (λ again. ne (sym same ∙ again)) known in
      (e ∙ ground (arith, away), f)

  found_job-Kept :
      (p : Pool U G) (j : ℕ) (w : Worker) (io : JobIo) (socket : Option ℕ)
      (found : Option (ℕ × Socket U))
      → JobsKeepDescriptor h
      → IsSound p
      → lookup sd p.connect ≡ some a
      → ((b : ℕ) (k : Socket U) → socket ≡ some b → p.heap b ≡ some k → (b ≢ a) × (k.sd ≢ sd))
      → deref p socket ≡ found
      → Kept h sd a p
          (elim found [ none ↦ none | some (b, k) ↦ some (run_job h p j w b k io, true) ])
  found_job-Kept p j w io socket none jobs v known other e = tt
  found_job-Kept p j w io none (some (b, k)) jobs v known other e = absurd (cc e)
  found_job-Kept p j w io (some c) (some (b, k)) jobs v known other e =
      let same : c ≡ b = ground arith in
      let alive : p.heap b ≡ some k = ground arith in
      let (away, ne) = other b k (ap some same) alive in
      run_job-Keeps p j w b k io v away ne known alive (jobs w k p.shared io)

  round_in-Kept :
      (p : Pool U G) (j : ℕ) (w : Worker) (io : JobIo) (stat : Stat)
      → JobsKeepDescriptor h
      → IsSound p
      → lookup sd p.connect ≡ some a
      → ((b : ℕ) (k : Socket U) → w.tst_socket ≡ some b → p.heap b ≡ some k → (b ≢ a) × (k.sd ≢ sd))
      → Kept h sd a p (round_in h p j w io stat)
  unfolding round_in run_idle
  round_in-Kept p j w io tst_run jobs v known other =
      found_job-Kept p j w io w.tst_socket (deref p w.tst_socket) jobs v known other refl
  round_in-Kept p j w io tst_suspend jobs v known other = (refl, refl)
  round_in-Kept p j w io tst_exit jobs v known other = (refl, refl)
  round_in-Kept p j w io _ jobs v known other = (refl, refl)

  work_round-Kept :
      (p : Pool U G) (j : ℕ) (w : Worker) (io : JobIo) (wait_failed : Bool)
      → JobsKeepDescriptor h
      → IsSound p
      → lookup sd p.connect ≡ some a
      → ((b : ℕ) (k : Socket U) → w.tst_socket ≡ some b → p.heap b ≡ some k → (b ≢ a) × (k.sd ≢ sd))
      → Kept h sd a p (work_round h p j w io wait_failed)
  unfolding work_round
  work_round-Kept p j w io wait_failed jobs v known other =
      elim (Bool-cases (wait_failed && waits w.thread_stat)) [
        | inl e ↦ rw e (refl, refl)
        | inr e ↦ rw e (round_in-Kept p j w io w.thread_stat jobs v known other)
      ]

module _ (E : Epoll) {U G : Type 0} (h : Hooks U G) where
  -- The step is no round of worker `i`.
  abbrev pub IsElsewhere : {s t : System U G E} → ℕ → Step E h s t → Type 0
  IsElsewhere i (round j w io wait_failed q goes_on loop at e) = j ≢ i
  IsElsewhere i _ = Unit

  -- The object of another worker's job is another one, with another descriptor.
  others_apart :
      (t : System U G E) (σ : ℕ → Turn) (i j a b : ℕ) (k : Socket U) (w : Worker)
      (o : Owner t.pool.connect t.pool.heap σ i a)
      → Refines E t σ
      → j ≢ i
      → get_elem? t.pool.workers j ≡ some w
      → w.tst_socket ≡ some b
      → t.pool.heap b ≡ some k
      → (b ≢ a) × (k.sd ≢ o.socket.sd)
  others_apart t σ i j a b k w o v ne at holds alive =
      let o' = v.owned j b w at holds in
      let e : o'.socket ≡ k = cc (o'.alive, alive) in
      let turn : σ k.sd ≡ held j = ap (λ (x : Socket U). σ x.sd) (sym e) ∙ o'.turn in
      let apart : k.sd ≢ o.socket.sd =
        λ same. let f : held j ≡ held i = sym turn ∙ ap σ same ∙ o.turn in ne (cc f) in
      let away : b ≢ a = λ same.
        let f : k ≡ o.socket = cc (alive, o.alive, ap t.pool.heap same) in
        apart (ap (λ (x : Socket U). x.sd) f) in
      (away, apart)

  Step-Keeps :
      (t u : System U G E) (σ : ℕ → Turn) (i a : ℕ) (o : Owner t.pool.connect t.pool.heap σ i a)
      → KeepsDescriptor h
      → JobsKeepDescriptor h
      → Refines E t σ
      → (step : Step E h t u) → IsElsewhere i step
      → Keeps h o.socket.sd a t.pool u.pool
  unfolding run_idle leave stop_workers
  Step-Keeps t u σ i a o keep jobs v (wait es run idle room b) away = (refl, refl)
  Step-Keeps t u σ i a o keep jobs v (handle sd ev es accepted queried q done run first new e)
        away =
      let turn = (subst (λ l. Queued σ l) first v.queued).0 in
      let ne : sd ≢ o.socket.sd = λ same. cc (turn, o.turn, ap σ same) in
      subst (λ r. Kept h o.socket.sd a (quiet E t.pool) r) e
        (handle_event-Kept h o.socket.sd a (quiet E t.pool) sd ev accepted queried o.socket keep
          v.sound ne o.alive o.known (λ client f. (new client f).0))
  Step-Keeps t u σ i a o keep jobs v clear away = (refl, refl)
  Step-Keeps t u σ i a o keep jobs v (stop over) away = (refl, refl)
  Step-Keeps t u σ i a o keep jobs v (round j w io wait_failed q goes_on loop at e) away =
      subst (λ r. Kept h o.socket.sd a (quiet E t.pool) r) e
        (work_round-Kept h o.socket.sd a (quiet E t.pool) j w io wait_failed jobs v.sound o.known
          (λ b k holds alive. others_apart t σ i j a b k w o v away at holds alive))
  Step-Keeps t u σ i a o keep jobs v (choose_idle j w loop at stat) away = (refl, refl)
  Step-Keeps t u σ i a o keep jobs v (start_idle j w phase at) away = (refl, refl)
  Step-Keeps t u σ i a o keep jobs v (end_idle j w phase at) away = (refl, refl)
  Step-Keeps t u σ i a o keep jobs v (end_loop j w loop over at) away = (refl, refl)

  -- In every state that the threads reach from workers with no job, a map and heap that agree, and
  -- an epoll that watches none but the main socket and registered ones, where the functions for
  -- new connections and for jobs leave the descriptor alone: while a worker has the job of a
  -- socket, no step of the main thread or of another worker, nor an idle round or the end of its
  -- own loop, writes or frees the socket's object, or takes its descriptor from the map.
  pub Reach-Keeps :
      (s t u : System U G E) (i a : ℕ) (w : Worker) (k : Socket U)
      → KeepsDescriptor h
      → JobsKeepDescriptor h
      → IsFirst E s
      → Reach E h s t
      → get_elem? t.pool.workers i ≡ some w
      → w.tst_socket ≡ some a
      → t.pool.heap a ≡ some k
      → (step : Step E h t u) → IsElsewhere i step
      → (u.pool.heap a ≡ some k) × (lookup k.sd u.pool.connect ≡ some a)
  Reach-Keeps s t u i a w k keep jobs f r at holds alive step away =
      let (σ, ms, v) = Reach-Refines E h s t keep jobs f r in
      let o = v.owned i a w at holds in
      let same : o.socket ≡ k = cc (o.alive, alive) in
      let (e, g) = Step-Keeps t u σ i a o keep jobs v step away in
      (e ∙ alive, subst (λ (x : Socket U). lookup x.sd u.pool.connect ≡ some a) same (g ∙ o.known))
