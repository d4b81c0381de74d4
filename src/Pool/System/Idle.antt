-- ===== src/Pool/System/Idle.antt =====
-- tst/tst.cpp, `tst_work`: a worker sets `tst_run` for its idle function after the test that found
-- `tst_suspend`, and not under the mutex.
use tst.Common.{
  get_elem?-set_self, set, arith, get_elem?, ℕ, List, refl, none, some, true, false, [], ◌∷◌, zero,
  suc, ◌≡◌,
}
use tst.Pool.Types.{Socket, Events, tst_run, tst_suspend}
use tst.Pool.State.{Pool, Hooks, Worker, update, find}
use tst.Pool.Work.{ask_idle, run_idle}
use tst.Pool.Main.{
  handle_event, on_socket, dispatch, first_idle, assign_at, assign_worker, is_closed, is_sockmain,
  note_event,
}
use tst.Pool.System.{
  Phase, Epoll, System, Reach, start, later, handle, start_idle, end_idle, idle_chosen,
  idle_running, looping, after, quiet,
}

update_same : (f : ℕ → Phase) (i : ℕ) → update f i idle_running i ≡ idle_running
update_same f i = ground arith

pub get_elem?-assign_at :
    (workers : List Worker) (i a : ℕ) (w : Worker)
    → get_elem? workers i ≡ some w
    → get_elem? (assign_at i a workers) i ≡ some (assign_worker a w)
unfolding assign_at
get_elem?-assign_at [] i a w at = absurd (cc at)
get_elem?-assign_at (v ∷ ws) zero a w at = ground arith
get_elem?-assign_at (v ∷ ws) (suc i) a w at = get_elem?-assign_at ws i a w at

module _ (E : Epoll) {U G : Type 0} (h : Hooks U G) where
  abbrev pub given_pool : Pool U G → ℕ → ℕ → Socket U → Events → ℕ → Pool U G
  given_pool p i a k ev n = record p {
    workers = assign_at i a p.workers;
    heap = update p.heap a (some (note_event k ev n));
  }

  pub handle_event_given :
      (p : Pool U G) (i sd a n : ℕ) (k : Socket U) (ev : Events)
      → is_sockmain p.sockmain sd ≡ false
      → is_closed ev (some n) ≡ false
      → find p sd ≡ some (a, k)
      → first_idle p.workers ≡ some i
      → handle_event h p sd ev none (some n) ≡ some (given_pool p i a k ev n, true)
  unfolding handle_event on_socket dispatch
  handle_event_given p i sd a n k ev other on found waits =
      rw (other, on, found) (rw (waits, dispatch) refl)

  -- Let a worker stand behind the test that found `tst_suspend`, be the first that waits, and have
  -- an idle function that returns `tst_suspend`, and let an event of a connection be next that is
  -- not the main socket's and does not close it. The main thread may give it the job and the
  -- worker then go through its idle round: the event is gone, epoll is as before, and the worker
  -- waits, with the job's socket but with no job done.
  pub idle_race :
      (s : System U G E) (i sd a n : ℕ) (w : Worker) (k : Socket U) (ev : Events)
      (es : List (ℕ × Events))
      → s.pool.main_run ≡ true
      → s.pending ≡ (sd, ev) ∷ es
      → is_sockmain s.pool.sockmain sd ≡ false
      → is_closed ev (some n) ≡ false
      → find s.pool sd ≡ some (a, k)
      → s.phase i ≡ idle_chosen
      → get_elem? s.pool.workers i ≡ some w
      → first_idle s.pool.workers ≡ some i
      → (ask_idle h s.pool.shared).1 ≡ tst_suspend
      → (t : System U G E) × Reach E h s t
        × (t.pending ≡ es)
        × (t.kernel ≡ s.kernel)
        × (t.phase i ≡ looping)
        × ((w' : Worker) × (get_elem? t.pool.workers i ≡ some w')
            × (w'.thread_stat ≡ tst_suspend)
            × (w'.tst_socket ≡ some a)
            × (w'.exec_count ≡ w.exec_count))
  unfolding run_idle
  idle_race s i sd a n w k ev es run first other on found chosen at waits idle =
      let q = given_pool (quiet E s.pool) i a k ev n in
      let s1 = record (after E s q) { pending = es } in
      let w1 = assign_worker a w in
      let at1 = get_elem?-assign_at s.pool.workers i a w at in
      let w2 = record w1 { thread_stat = tst_run } in
      let s2 = record s1 {
        pool = record s1.pool { workers = set s1.pool.workers i w2 };
        phase = update s1.phase i idle_running;
      } in
      let at2 = get_elem?-set_self s1.pool.workers i w1 w2 at1 in
      let s3 = record (after E s2 (run_idle h (quiet E s2.pool) i w2)) {
        phase = update s2.phase i looping;
      } in
      let step1 =
        handle sd ev es none (some n) q true run first (λ c e. absurd (cc e))
          (handle_event_given (quiet E s.pool) i sd a n k ev other on found waits) in
      let step2 = start_idle i w1 chosen at1 in
      let step3 = end_idle i w2 (update_same s1.phase i) at2 in
      (
        s3,
        later (later (later start step1) step2) step3,
        refl,
        refl,
        ground arith,
        (_, get_elem?-set_self s2.pool.workers i w2 _ at2, idle, refl, refl),
      )
