-- ===== src/Pool/System/Elsewhere.antt =====
-- One event of the main thread leaves the object of another connection alone.
use tst.Common.{
  arith, Bool-cases, Option-cases, Option, Bool, ℕ, refl, ap, ◌∙◌, none, some, true, false, inl,
  inr, ◌≡◌, ◌≢◌, ltb, if◌then◌else◌,
}
use tst.Common.Dict.{lookup, lookup-insert}
use tst.Pool.Types.{
  Socket, Events, Stat, SocketType, stat_code, tst_reconnected, sock_listen, sock_sub,
  sock_websocket,
}
use tst.Pool.State.{Pool, Hooks, update, find}
use tst.Pool.Connections.{closesocket, addsocket}
use tst.Pool.Connections.Laws.{IsSound, Agrees-update, lookup-closesocket, heap-closesocket}
use tst.Pool.Main.{
  accept_client, register, admit, watch_or_close, run_connected, drop_stale, on_listen, dispatch,
  on_socket, on_client, on_main, handle_event, ask_main, is_closed, is_reconnected, is_sockmain,
  or_zero, first_idle,
}
use tst.Pool.Main.Sound.{KeepsDescriptor, register-IsSound}

-- `b` is another object, and `sd'` another descriptor, than those of the job.
module _ {U G : Type 0} (h : Hooks U G) (sd a : ℕ) where
  -- The object at `a` is the same in both pools, and so is the registration of `sd`.
  abbrev pub Keeps : Pool U G → Pool U G → Type 0
  Keeps p q = (q.heap a ≡ p.heap a) × (lookup sd q.connect ≡ lookup sd p.connect)

  pub closesocket-Keeps :
      (p : Pool U G) (sd' : ℕ)
      → IsSound p
      → sd' ≢ sd
      → lookup sd p.connect ≡ some a
      → Keeps p (closesocket h p sd')
  closesocket-Keeps p sd' v ne known =
      (heap-closesocket h p sd' sd a v ne known, lookup-closesocket h p sd' sd ∙ ground arith)

  watch_or_close-Keeps :
      (p : Pool U G) (sd' : ℕ) (next : Stat)
      → IsSound p
      → sd' ≢ sd
      → lookup sd p.connect ≡ some a
      → Keeps p (watch_or_close h p sd' next)
  unfolding watch_or_close
  watch_or_close-Keeps p sd' next v ne known =
      elim (Bool-cases (ltb (stat_code next) (stat_code tst_reconnected))) [
        | inl e ↦ rw e (refl, refl)
        | inr e ↦ rw e (closesocket-Keeps p sd' v ne known)
      ]

  admit-Keeps :
      (p : Pool U G) (sd' b : ℕ) (k : Option (Socket U))
      → KeepsDescriptor h
      → IsSound p
      → sd' ≢ sd
      → b ≢ a
      → lookup sd p.connect ≡ some a
      → p.heap b ≡ k
      → Keeps p (admit h p sd' b k)
  unfolding admit
  admit-Keeps p sd' b none keep v ne away known at = (refl, refl)
  admit-Keeps p sd' b (some k) keep v ne away known at =
      let (k', g, next) = run_connected h k p.shared in
      let q = record p { heap = update p.heap b (some k'); shared = g } in
      let (e, f) =
        watch_or_close-Keeps q sd' next
          (Agrees-update p.connect p.heap p.next_address b k k' v at (keep k p.shared)) ne known in
      (e ∙ ground (arith, away), f)

  register-Keeps :
      (p : Pool U G) (client : ℕ)
      → IsSound p
      → client ≢ sd
      → p.next_address ≢ a
      → lookup client p.connect ≡ none
      → Keeps p (register h p client)
  unfolding register addsocket
  register-Keeps p client v ne away unused =
      rw (unused, drop_stale)
        (ground (arith, away), lookup-insert client sd _ p.connect ∙ ground (arith, ne))

  accept_client-Keeps :
      (p : Pool U G) (client : ℕ) (k : Socket U)
      → KeepsDescriptor h
      → IsSound p
      → p.heap a ≡ some k
      → lookup sd p.connect ≡ some a
      → lookup client p.connect ≡ none
      → Keeps p (accept_client h p client)
  unfolding accept_client
  accept_client-Keeps p client k keep v alive known unused =
      let ne : client ≢ sd = λ e. cc (known, unused, ap (λ x. lookup x p.connect) e) in
      let away : p.next_address ≢ a =
        λ e. cc (alive, v.fresh p.next_address (omega arith), ap p.heap e) in
      let q = register h p client in
      let (e, f) = register-Keeps p client v ne away unused in
      let (e', f') =
        admit-Keeps q client p.next_address (q.heap p.next_address) keep
          (register-IsSound h p client v) ne away (f ∙ known) refl in
      (e' ∙ e, f' ∙ f)

  on_listen-Keeps :
      (p : Pool U G) (sd' : ℕ) (ev : Events) (accepted : Option ℕ) (k : Socket U)
      → KeepsDescriptor h
      → IsSound p
      → p.heap a ≡ some k
      → lookup sd p.connect ≡ some a
      → ((client : ℕ) → accepted ≡ some client → lookup client p.connect ≡ none)
      → Keeps p (on_listen h p sd' ev accepted)
  unfolding on_listen
  on_listen-Keeps p sd' ev none k keep v alive known new = ground arith
  on_listen-Keeps p sd' ev (some client) k keep v alive known new = elim (Bool-cases ev.epollin) [
    | inl e ↦ rw e (accept_client-Keeps p client k keep v alive known (new client refl))
    | inr e ↦ rw e (ground arith)
  ]

  -- The outcome of one event: a fault, or a pool that keeps the object and its registration.
  abbrev pub Kept : Pool U G → Option (Pool U G × Bool) → Type 0
  Kept p none = Unit
  Kept p (some (q, done)) = Keeps p q

  dispatch-Keeps :
      (p : Pool U G) (b : ℕ) (k : Socket U) (ev : Events) (n : ℕ)
      → b ≢ a
      → Keeps p (dispatch p b k ev n).0
  unfolding dispatch
  dispatch-Keeps p b k ev n away = elim (Option-cases (first_idle p.workers)) [
    | inl e ↦ rw (e, dispatch) (refl, refl)
    | inr (i, e) ↦ rw (e, dispatch) (ground (arith, away), refl)
  ]

  found-Kept :
      (p : Pool U G) (sd' : ℕ) (ev : Events) (n : ℕ) (found : Option (ℕ × Socket U))
      → IsSound p
      → sd' ≢ sd
      → lookup sd p.connect ≡ some a
      → find p sd' ≡ found
      → Kept p (elim found [ none ↦ none | some (b, k) ↦ some (dispatch p b k ev n) ])
  found-Kept p sd' ev n none v ne known e = tt
  found-Kept p sd' ev n (some (b, k)) v ne known e =
      let named : lookup sd' p.connect ≡ some b = ground arith in
      dispatch-Keeps p b k ev n (λ same. ne (v.apart sd' sd a (named ∙ ap some same) known))

  closed-Kept :
      (p : Pool U G) (is_main : Bool) (sd' : ℕ)
      → IsSound p
      → sd' ≢ sd
      → lookup sd p.connect ≡ some a
      → Kept p (
          some (
            if is_main
            then (record (closesocket h p sd') { main_run = false }, false)
            else (closesocket h p sd', true)))
  closed-Kept p true sd' v ne known = closesocket-Keeps p sd' v ne known
  closed-Kept p false sd' v ne known = closesocket-Keeps p sd' v ne known

  on_socket-Kept :
      (p : Pool U G) (is_main : Bool) (sd' : ℕ) (ev : Events) (queried : Option ℕ)
      → IsSound p
      → sd' ≢ sd
      → lookup sd p.connect ≡ some a
      → Kept p (on_socket h p is_main sd' ev queried)
  unfolding on_socket
  on_socket-Kept p is_main sd' ev queried v ne known = elim (Bool-cases (is_closed ev queried)) [
    | inl e ↦ rw e (closed-Kept p is_main sd' v ne known)
    | inr e ↦ rw e (found-Kept p sd' ev (or_zero queried) (find p sd') v ne known refl)
  ]

  Kept-from :
      (p q : Pool U G) (o : Option (Pool U G × Bool))
      → q.heap ≡ p.heap
      → q.connect ≡ p.connect
      → Kept q o
      → Kept p o
  Kept-from p q none e f done = tt
  Kept-from p q (some (r, b)) e f (e', f') = (e' ∙ ap (λ m. m a) e, f' ∙ ap (λ c. lookup sd c) f)

  ask_main-IsSound :
      (p : Pool U G) (sd' : ℕ)
      → IsSound p
      → let q = (ask_main h p sd').0 in IsSound q × (q.heap ≡ p.heap) × (q.connect ≡ p.connect)
  ask_main-IsSound p sd' v = elim (Option-cases h.fmain) [
    | inl e ↦ rw (e, ask_main) (v, refl, refl)
    | inr (f, e) ↦ rw (e, ask_main) (v, refl, refl)
  ]

  on_client-Kept :
      (p : Pool U G) (sd' : ℕ) (ev : Events) (queried : Option ℕ)
      → IsSound p
      → sd' ≢ sd
      → lookup sd p.connect ≡ some a
      → Kept p (on_client h p sd' ev queried)
  unfolding on_client
  on_client-Kept p sd' ev queried v ne known =
      let q = (ask_main h p sd').0 in
      let (v', e, f) = ask_main-IsSound p sd' v in
      elim (Bool-cases (is_reconnected (ask_main h p sd').1)) [
        | inl back ↦ rw back (ap (λ m. m a) e, ap (λ c. lookup sd c) f)
        | inr on ↦ rw on (
            Kept-from p q _ e f
              (on_socket-Kept q true sd' ev queried v' ne (ap (λ c. lookup sd c) f ∙ known)))
      ]

  on_main-Kept :
      (p : Pool U G) (sd' : ℕ) (ev : Events) (accepted queried : Option ℕ) (t : SocketType)
      (k : Socket U)
      → KeepsDescriptor h
      → IsSound p
      → sd' ≢ sd
      → p.heap a ≡ some k
      → lookup sd p.connect ≡ some a
      → ((client : ℕ) → accepted ≡ some client → lookup client p.connect ≡ none)
      → Kept p (on_main h p sd' ev accepted queried t)
  unfolding on_main
  on_main-Kept p sd' ev accepted queried sock_listen k keep v ne alive known new =
      on_listen-Keeps p sd' ev accepted k keep v alive known new
  on_main-Kept p sd' ev accepted queried sock_sub k keep v ne alive known new =
      on_socket-Kept p true sd' ev queried v ne known
  on_main-Kept p sd' ev accepted queried sock_websocket k keep v ne alive known new =
      on_socket-Kept p true sd' ev queried v ne known
  on_main-Kept p sd' ev accepted queried _ k keep v ne alive known new =
      on_client-Kept p sd' ev queried v ne known

  -- One event of another descriptor keeps the object and its registration.
  pub handle_event-Kept :
      (p : Pool U G) (sd' : ℕ) (ev : Events) (accepted queried : Option ℕ) (k : Socket U)
      → KeepsDescriptor h
      → IsSound p
      → sd' ≢ sd
      → p.heap a ≡ some k
      → lookup sd p.connect ≡ some a
      → ((client : ℕ) → accepted ≡ some client → lookup client p.connect ≡ none)
      → Kept p (handle_event h p sd' ev accepted queried)
  unfolding handle_event
  handle_event-Kept p sd' ev accepted queried k keep v ne alive known new =
      elim (Bool-cases (is_sockmain p.sockmain sd')) [
        | inl e ↦
            rw e (on_main-Kept p sd' ev accepted queried p.socktype k keep v ne alive known new)
        | inr e ↦ rw e (on_socket-Kept p false sd' ev queried v ne known)
      ]
