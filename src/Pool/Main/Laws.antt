-- ===== src/Pool/Main/Laws.antt =====
-- What the main thread's handling of an event does to the workers, the map and the registrations.
use tst.Common.{
  Option-cases, arith, refl, ap, none, some, true, false, [], ◌∷◌, inl, inr, zero, suc, ◌≤◌, ◌<◌,
  ◌≡◌, ◌≢◌, ◌⊎◌, ℕ, get_elem?, List,
}
use tst.Pool.Connections.{addsocket, closesocket}
use tst.Pool.Types.{Socket, Events, stat_code}
use tst.Pool.State.{close_fd, Pool, Hooks, Worker, epoll_mod}
use tst.Pool.Main.{
  epoll_del, epoll_add, lookup, addsocket, closesocket, first_idle, assign_worker, assign_at,
  dispatch, accept_client, on_listen,
}

-- A worker that takes no job now.
abbrev pub IsBusy : Worker → Type 0
IsBusy w = 1 ≤ stat_code w.thread_stat

-- What `dispatch` does to the table of workers when it finds one: the first that waits, `w` at
-- place `i`, gets the job.
pub record Assigned (before after : List Worker) (a : ℕ) : Type 0 where
  pub place : ℕ
  pub worker : Worker
  pub found : get_elem? before place ≡ some worker
  pub waited : stat_code worker.thread_stat < 1
  pub given : get_elem? after place ≡ some (assign_worker a worker)
  pub others : (j : ℕ) → j ≢ place → get_elem? after j ≡ get_elem? before j
  pub earlier : (j : ℕ) (w : Worker) → j < place → get_elem? before j ≡ some w → IsBusy w

first_idle_zero :
    (w : Worker) (ws : List Worker) → first_idle (w ∷ ws) ≡ some 0 → stat_code w.thread_stat < 1
unfolding first_idle
first_idle_zero w ws e = ground arith

first_idle-suc :
    (w : Worker) (ws : List Worker) (i : ℕ)
    → first_idle (w ∷ ws) ≡ some (suc i)
    → IsBusy w × (first_idle ws ≡ some i)
unfolding first_idle
first_idle-suc w ws i e = (ground arith, ground arith)

Assigned-cons :
    (w : Worker) (ws vs : List Worker) (a : ℕ)
    → IsBusy w
    → Assigned ws vs a
    → Assigned (w ∷ ws) (w ∷ vs) a
Assigned-cons w ws vs a busy r = record {
  place = suc r.place;
  worker = r.worker;
  found = r.found;
  waited = r.waited;
  given = r.given;
  others = elim [ zero ↦ λ ne. refl | suc j ↦ λ ne. r.others j (λ e. ne (ap suc e)) ];
  earlier = elim [
    | zero ↦ λ v lt at. ground arith
    | suc j ↦ λ v lt at. r.earlier j v (omega arith) at
  ];
}

pub first_idle-Assigned :
    (ws : List Worker) (a i : ℕ) → first_idle ws ≡ some i → Assigned ws (assign_at i a ws) a
unfolding assign_at
first_idle-Assigned [] a i e = absurd (unfold first_idle in cc)
first_idle-Assigned (w ∷ ws) a zero e = record {
  place = 0;
  worker = w;
  found = refl;
  waited = first_idle_zero w ws e;
  given = refl;
  others = elim [ zero ↦ λ ne. absurd (ne refl) | suc j ↦ λ ne. refl ];
  earlier = λ j v lt at. absurd (omega arith);
}
first_idle-Assigned (w ∷ ws) a (suc i) e =
    let (busy, e') = first_idle-suc w ws i e in
    Assigned-cons w ws (assign_at i a ws) a busy (first_idle-Assigned ws a i e')

first_idle-none :
    (ws : List Worker) (i : ℕ) (w : Worker)
    → first_idle ws ≡ none
    → get_elem? ws i ≡ some w
    → IsBusy w
unfolding first_idle
first_idle-none [] i w e at = absurd (cc)
first_idle-none (v ∷ ws) zero w e at = ground arith
first_idle-none (v ∷ ws) (suc i) w e at = ground (arith, first_idle-none ws i w)

module _ {U G : Type 0} where
  -- A job goes to the first worker that waits, no other worker changes, and no call is made; where
  -- it goes to none, every worker is busy and nothing changes.
  pub dispatch_cases :
      (p : Pool U G) (a : ℕ) (k : Socket U) (ev : Events) (n : ℕ)
      → let (q, taken) = dispatch p a k ev n in
        ((taken ≡ true) × Assigned p.workers q.workers a × (q.calls ≡ p.calls))
        ⊎ ((taken ≡ false)
            × (q ≡ p)
            × ((i : ℕ) (w : Worker) → get_elem? p.workers i ≡ some w → IsBusy w))
  unfolding dispatch
  dispatch_cases p a k ev n = elim (Option-cases (first_idle p.workers)) [
    | inl e ↦ inr (ground arith, ground arith, λ i w. first_idle-none p.workers i w e)
    | inr (i, e) ↦
        inl (ground arith, rw (e, dispatch) (first_idle-Assigned p.workers a i e), ground arith)
  ]

  -- After a connection is taken the listening socket is armed again; after a failed `accept` it is
  -- not, and EPOLLONESHOT keeps it silent.
  pub on_listen_calls :
      (h : Hooks U G) (p : Pool U G) (sd client : ℕ) (ev : Events)
      → ev.epollin ≡ true
      → ((on_listen h p sd ev (some client)).calls
          ≡ epoll_mod sd false ∷ (accept_client h p client).calls)
        × (on_listen h p sd ev none ≡ p)
  unfolding on_listen
  on_listen_calls h p sd client ev e = (ground arith, ground arith)

  -- With no function for new connections, an accepted descriptor that the map still holds from
  -- before is closed, and only then watched.
  pub accept_stale :
      (h : Hooks U G) (p : Pool U G) (client b : ℕ)
      → lookup client p.connect ≡ some b
      → 0 < client
      → h.fconnected ≡ none
      → p.heap p.next_address ≡ none
      → (accept_client h p client).calls
        ≡ epoll_add client false ∷ close_fd client ∷ epoll_del client ∷ p.calls
  unfolding accept_client closesocket addsocket
  accept_stale h p client b e pos hook fresh = ground arith
