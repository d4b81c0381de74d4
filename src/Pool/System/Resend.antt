-- ===== src/Pool/System/Resend.antt =====
-- tst/tst.cpp, `need_send`: it arms a descriptor whether or not a worker has a job for it.
use tst.Common.{
  arith, length, get_elem?, List, ℕ, refl, sym, ap, subst, ◌∙◌, none, some, true, false, [], ◌∷◌,
  zero, suc, ◌≤◌, ◌≡◌, ◌≢◌,
}
use tst.Pool.Types.{Socket, Events}
use tst.Pool.State.{Pool, Hooks, Worker, find, epoll_mod}
use tst.Pool.Connections.{need_send}
use tst.Pool.Main.{first_idle, assign_at, assign_worker, is_closed, is_sockmain}
use tst.Pool.System.{
  Epoll, System, Step, Reach, start, later, wait, handle, after, quiet, no_more, one_more,
}
use tst.Pool.System.Idle.{get_elem?-assign_at, handle_event_given, given_pool}

get_elem?-assign_at_ne :
    (workers : List Worker) (i j a : ℕ)
    → i ≢ j
    → get_elem? (assign_at j a workers) i ≡ get_elem? workers i
unfolding assign_at
get_elem?-assign_at_ne [] i j a ne = refl
get_elem?-assign_at_ne (w ∷ ws) zero zero a ne = absurd (ne refl)
get_elem?-assign_at_ne (w ∷ ws) (suc i) zero a ne = refl
get_elem?-assign_at_ne (w ∷ ws) zero (suc j) a ne = refl
get_elem?-assign_at_ne (w ∷ ws) (suc i) (suc j) a ne =
    get_elem?-assign_at_ne ws i j a (λ e. ne (ap suc e))

module _ (E : Epoll) {U G : Type 0} (h : Hooks U G) where
  need_send_granted :
      (p : Pool U G) (sd : ℕ)
      → p.main_thread ≡ true
      → p.main_run ≡ true
      → (need_send p sd true).0 ≡ record p { calls = epoll_mod sd true ∷ p.calls }
  unfolding need_send
  need_send_granted p sd started run = ground (arith, started, run)

  -- Let worker `i` have the job for a registered connection that is not the main socket, and
  -- another one be the first that waits, with no event left to handle. Once `need_send` is called
  -- for that connection and epoll grants it, an event that does not close it may be reported, and
  -- the main thread gives the same object to the other worker.
  pub need_send_shared :
      (s : System U G E) (i j sd a n : ℕ) (w v : Worker) (k : Socket U) (ev : Events)
      → s.pool.main_thread ≡ true
      → s.pool.main_run ≡ true
      → s.pending ≡ []
      → E.is_armed (E.ctl (epoll_mod sd true) s.kernel) sd ≡ true
      → is_sockmain s.pool.sockmain sd ≡ false
      → is_closed ev (some n) ≡ false
      → find s.pool sd ≡ some (a, k)
      → i ≢ j
      → get_elem? s.pool.workers i ≡ some w
      → w.tst_socket ≡ some a
      → get_elem? s.pool.workers j ≡ some v
      → first_idle s.pool.workers ≡ some j
      → 1 ≤ length s.pool.workers
      → (t : System U G E) × Reach E h (after E s (need_send (quiet E s.pool) sd true).0) t
        × ((w' : Worker) × (get_elem? t.pool.workers i ≡ some w') × (w'.tst_socket ≡ some a))
        × ((v' : Worker) × (get_elem? t.pool.workers j ≡ some v') × (v'.tst_socket ≡ some a))
  need_send_shared s i j sd a n w v k ev started run idle granted other on found ne at holds at'
        waits room =
      let p1 = record (quiet E s.pool) { calls = epoll_mod sd true ∷ [] } in
      let s1 = after E s p1 in
      let s2 = record s1 { kernel = E.report sd s1.kernel; pending = (sd, ev) ∷ [] } in
      let q = given_pool E h (quiet E s2.pool) j a k ev n in
      let s3 = record (after E s2 q) { pending = [] } in
      let step1 : Step E h s1 s2 =
        wait ((sd, ev) ∷ []) run idle room (one_more sd ev granted no_more) in
      let step2 =
        handle sd ev [] none (some n) q true run refl (λ c e. absurd (cc e))
          (handle_event_given E h (quiet E s2.pool) j sd a n k ev other on found waits) in
      (
        s3,
        subst (λ x. Reach E h (after E s x) s3)
            (sym (need_send_granted (quiet E s.pool) sd started run))
            (later (later start step1) step2),
        (w, get_elem?-assign_at_ne s.pool.workers i j a ne ∙ at, holds),
        (assign_worker a v, get_elem?-assign_at s.pool.workers j a v at', refl),
      )
