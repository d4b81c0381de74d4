-- ===== src/Pool/System/Running.antt =====
-- What one event does to the table of workers: it may give one of them a socket.
use tst.Common.{
  arith, Bool-cases, Option-cases, Option, Bool, ℕ, List, [], ◌∷◌, refl, sym, ap, ◌∙◌, subst, none,
  some, true, false, inl, inr, ◌≡◌, ◌⊎◌, get_elem?, zero, suc, if◌then◌else◌,
}
use tst.Pool.Types.{Socket, Events, SocketType, sock_listen, sock_sub, sock_websocket}
use tst.Pool.State.{Pool, Hooks, Worker, find}
use tst.Pool.Connections.{closesocket, addsocket}
use tst.Pool.Main.{
  accept_client, on_listen, dispatch, on_socket, on_client, on_main, handle_event, ask_main,
  is_closed, is_reconnected, is_sockmain, or_zero, first_idle, assign_at,
}

-- Every worker of the table `ws'` stands in `ws`, or has a socket.
abbrev pub Given : List Worker → List Worker → Type 0
Given ws ws' =
    (i : ℕ) (w : Worker)
    → get_elem? ws' i ≡ some w
    → (get_elem? ws i ≡ some w) ⊎ ((a : ℕ) × (w.tst_socket ≡ some a))

Given-same : (ws ws' : List Worker) → ws' ≡ ws → Given ws ws'
Given-same ws ws' e i w at = inl (ap (λ l. get_elem? l i) (sym e) ∙ at)

Given-assign_at : (ws : List Worker) (j a : ℕ) → Given ws (assign_at j a ws)
unfolding assign_at
Given-assign_at [] j a i w at = absurd (cc at)
Given-assign_at (x ∷ ws) zero a zero w at = inr (a, ground arith)
Given-assign_at (x ∷ ws) zero a (suc i) w at = inl at
Given-assign_at (x ∷ ws) (suc j) a zero w at = inl at
Given-assign_at (x ∷ ws) (suc j) a (suc i) w at = Given-assign_at ws j a i w at

module _ {U G : Type 0} (h : Hooks U G) where
  accept_client-workers :
      (p : Pool U G) (client : ℕ) → (accept_client h p client).workers ≡ p.workers
  unfolding accept_client closesocket addsocket
  accept_client-workers p client = ground arith

  on_listen-workers :
      (p : Pool U G) (sd : ℕ) (ev : Events) (accepted : Option ℕ)
      → (on_listen h p sd ev accepted).workers ≡ p.workers
  unfolding on_listen
  on_listen-workers p sd ev none = ground arith
  on_listen-workers p sd ev (some client) = ground (arith, accept_client-workers p client)

  -- The outcome of one event: a fault, or workers that stand as before or have a socket.
  abbrev pub Gives : Pool U G → Option (Pool U G × Bool) → Type 0
  Gives p none = Unit
  Gives p (some (q, done)) = Given p.workers q.workers

  dispatch-Given :
      (p : Pool U G) (b : ℕ) (k : Socket U) (ev : Events) (n : ℕ)
      → Given p.workers (dispatch p b k ev n).0.workers
  unfolding dispatch
  dispatch-Given p b k ev n = elim (Option-cases (first_idle p.workers)) [
    | inl e ↦ rw (e, dispatch) (Given-same p.workers p.workers refl)
    | inr (i, e) ↦ rw (e, dispatch) (Given-assign_at p.workers i b)
  ]

  found-Gives :
      (p : Pool U G) (ev : Events) (n : ℕ) (found : Option (ℕ × Socket U))
      → Gives p (elim found [ none ↦ none | some (b, k) ↦ some (dispatch p b k ev n) ])
  found-Gives p ev n none = tt
  found-Gives p ev n (some (b, k)) = dispatch-Given p b k ev n

  closed-Gives :
      (p : Pool U G) (is_main : Bool) (sd : ℕ)
      → Gives p (
          some (
            if is_main
            then (record (closesocket h p sd) { main_run = false }, false)
            else (closesocket h p sd, true)))
  unfolding closesocket
  closed-Gives p true sd = Given-same p.workers p.workers refl
  closed-Gives p false sd = Given-same p.workers p.workers refl

  on_socket-Gives :
      (p : Pool U G) (is_main : Bool) (sd : ℕ) (ev : Events) (queried : Option ℕ)
      → Gives p (on_socket h p is_main sd ev queried)
  unfolding on_socket
  on_socket-Gives p is_main sd ev queried = elim (Bool-cases (is_closed ev queried)) [
    | inl e ↦ rw e (closed-Gives p is_main sd)
    | inr e ↦ rw e (found-Gives p ev (or_zero queried) (find p sd))
  ]

  Gives-from :
      (p q : Pool U G) (o : Option (Pool U G × Bool))
      → q.workers ≡ p.workers
      → Gives q o
      → Gives p o
  Gives-from p q none e v = tt
  Gives-from p q (some (r, done)) e v = subst (λ ws. Given ws r.workers) e v

  ask_main-workers : (p : Pool U G) (sd : ℕ) → (ask_main h p sd).0.workers ≡ p.workers
  ask_main-workers p sd = elim (Option-cases h.fmain) [
    | inl e ↦ rw (e, ask_main) refl
    | inr (f, e) ↦ rw (e, ask_main) refl
  ]

  on_client-Gives :
      (p : Pool U G) (sd : ℕ) (ev : Events) (queried : Option ℕ)
      → Gives p (on_client h p sd ev queried)
  unfolding on_client
  on_client-Gives p sd ev queried =
      let q = (ask_main h p sd).0 in
      elim (Bool-cases (is_reconnected (ask_main h p sd).1)) [
        | inl back ↦ rw back (Given-same p.workers q.workers (ask_main-workers p sd))
        | inr on ↦
            rw on (Gives-from p q _ (ask_main-workers p sd) (on_socket-Gives q true sd ev queried))
      ]

  on_main-Gives :
      (p : Pool U G) (sd : ℕ) (ev : Events) (accepted queried : Option ℕ) (t : SocketType)
      → Gives p (on_main h p sd ev accepted queried t)
  unfolding on_main
  on_main-Gives p sd ev accepted queried sock_listen =
      Given-same p.workers _ (on_listen-workers p sd ev accepted)
  on_main-Gives p sd ev accepted queried sock_sub = on_socket-Gives p true sd ev queried
  on_main-Gives p sd ev accepted queried sock_websocket = on_socket-Gives p true sd ev queried
  on_main-Gives p sd ev accepted queried _ = on_client-Gives p sd ev queried

  pub handle_event-Gives :
      (p : Pool U G) (sd : ℕ) (ev : Events) (accepted queried : Option ℕ)
      → Gives p (handle_event h p sd ev accepted queried)
  unfolding handle_event
  handle_event-Gives p sd ev accepted queried = elim (Bool-cases (is_sockmain p.sockmain sd)) [
    | inl e ↦ rw e (on_main-Gives p sd ev accepted queried p.socktype)
    | inr e ↦ rw e (on_socket-Gives p false sd ev queried)
  ]
