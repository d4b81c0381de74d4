-- ===== src/Pool/Main/Sound.antt =====
-- Every event keeps the map of connections and the heap in agreement, and faults only where the
-- map has lost the descriptor.
use tst.Common.{
  Bool, true, false, if◌then◌else◌, ◌||◌, ltb, Bool-cases, arith, refl, none, some, inl, inr, suc,
  ◌≡◌, ℕ, Option, Option-cases,
}
use tst.Common.Dict.{lookup}
use tst.Pool.Types.{
  sock_listen, sock_sub, sock_websocket, Socket, Events, Stat, stat_code, tst_reconnected,
}
use tst.Pool.State.{Pool, Hooks, update, find}
use tst.Pool.Connections.{closesocket}
use tst.Pool.Connections.Laws.{
  IsSound, closesocket-IsSound, addsocket-IsSound, Agrees-update, heap-closesocket-none,
}
use tst.Pool.Main.{
  SocketType, ask_main, is_reconnected, is_sockmain, on_main, or_zero, is_closed, handle_event,
  on_client, on_socket, on_listen, first_idle, note_event, dispatch, accept_client, run_connected,
  admit, drop_stale, register, watch_or_close,
}

module _ {U G : Type 0} (h : Hooks U G) where
  -- The user's function for a new connection leaves the descriptor alone.
  abbrev pub KeepsDescriptor : Type 0
  KeepsDescriptor = (k : Socket U) (g : G) → (run_connected h k g).0.sd ≡ k.sd

  pub find-heap :
      (p : Pool U G) (sd a : ℕ) (k : Socket U) → find p sd ≡ some (a, k) → p.heap a ≡ some k
  find-heap p sd a k e = ground arith

  pub note_event-sd : (k : Socket U) (ev : Events) (n : ℕ) → (note_event k ev n).sd ≡ k.sd
  unfolding note_event
  note_event-sd k ev n = ground arith

  dispatch-IsSound :
      (p : Pool U G) (a : ℕ) (k : Socket U) (ev : Events) (n : ℕ)
      → IsSound p
      → p.heap a ≡ some k
      → IsSound (dispatch p a k ev n).0
  unfolding dispatch
  dispatch-IsSound p a k ev n v held = elim (Option-cases (first_idle p.workers)) [
    | inl e ↦ rw (e, dispatch) v
    | inr (i, e) ↦
        rw (e, dispatch)
          (Agrees-update p.connect p.heap p.next_address a k _ v held (note_event-sd k ev n))
  ]

  watch_or_close-IsSound :
      (p : Pool U G) (sd : ℕ) (next : Stat) → IsSound p → IsSound (watch_or_close h p sd next)
  unfolding watch_or_close
  watch_or_close-IsSound p sd next v =
      elim (Bool-cases (ltb (stat_code next) (stat_code tst_reconnected))) [
        | inl e ↦ rw e v
        | inr e ↦ rw e (closesocket-IsSound h p sd v)
      ]

  admit-IsSound :
      (p : Pool U G) (sd a : ℕ) (k : Option (Socket U))
      → KeepsDescriptor
      → IsSound p
      → p.heap a ≡ k
      → IsSound (admit h p sd a k)
  unfolding admit
  admit-IsSound p sd a none keep v held = v
  admit-IsSound p sd a (some k) keep v held =
      let (k', g, next) = run_connected h k p.shared in
      watch_or_close-IsSound (record p { heap = update p.heap a (some k'); shared = g }) sd next
        (Agrees-update p.connect p.heap p.next_address a k k' v held (keep k p.shared))

  drop_stale-IsSound : (p : Pool U G) (sd : ℕ) → IsSound p → IsSound (drop_stale h p sd)
  drop_stale-IsSound p sd v = elim (Option-cases (lookup sd p.connect)) [
    | inl e ↦ rw (e, drop_stale) v
    | inr (a, e) ↦ rw (e, drop_stale) (closesocket-IsSound h p sd v)
  ]

  heap-drop_stale : (p : Pool U G) (sd a : ℕ) → p.heap a ≡ none → (drop_stale h p sd).heap a ≡ none
  heap-drop_stale p sd a free = elim (Option-cases (lookup sd p.connect)) [
    | inl e ↦ rw (e, drop_stale) free
    | inr (b, e) ↦ rw (e, drop_stale) (heap-closesocket-none h p sd a free)
  ]

  next-drop_stale : (p : Pool U G) (sd : ℕ) → (drop_stale h p sd).next_address ≡ p.next_address
  unfolding closesocket
  next-drop_stale p sd = ground arith

  pub register-IsSound : (p : Pool U G) (sd : ℕ) → IsSound p → IsSound (register h p sd)
  unfolding register
  register-IsSound p sd v =
      let q = record p { next_address = suc p.next_address } in
      let w : IsSound q = record {
        owns = v.owns;
        apart = v.apart;
        fresh = λ a le. v.fresh a (omega arith);
      } in
      addsocket-IsSound (drop_stale h q sd) p.next_address _ (drop_stale-IsSound q sd w)
        (heap-drop_stale q sd p.next_address (v.fresh p.next_address (omega arith)))
        (omega (arith, next-drop_stale q sd))

  accept_client-IsSound :
      (p : Pool U G) (sd : ℕ) → KeepsDescriptor → IsSound p → IsSound (accept_client h p sd)
  unfolding accept_client
  accept_client-IsSound p sd keep v =
      let q = register h p sd in
      admit-IsSound q sd p.next_address (q.heap p.next_address) keep (register-IsSound p sd v) refl

  -- A result of an event's handling: a fault, or a pool where map and heap agree.
  abbrev pub ResultIsSound : Option (Pool U G × Bool) → Type 0
  ResultIsSound none = Unit
  ResultIsSound (some (q, done)) = IsSound q

  on_listen-IsSound :
      (p : Pool U G) (sd : ℕ) (ev : Events) (accepted : Option ℕ)
      → KeepsDescriptor
      → IsSound p
      → IsSound (on_listen h p sd ev accepted)
  unfolding on_listen
  on_listen-IsSound p sd ev none keep v = elim (Bool-cases ev.epollin) [
    | inl e ↦ rw e v
    | inr e ↦ rw e (elim (Bool-cases (ev.epollhup || ev.epollrdhup || ev.epollerr)) [
      | inl f ↦ rw f v
      | inr f ↦ rw f v
    ])
  ]
  on_listen-IsSound p sd ev (some client) keep v = elim (Bool-cases ev.epollin) [
    | inl e ↦ rw e (accept_client-IsSound p client keep v)
    | inr e ↦ rw e (elim (Bool-cases (ev.epollhup || ev.epollrdhup || ev.epollerr)) [
      | inl f ↦ rw f v
      | inr f ↦ rw f v
    ])
  ]

  dispatched-IsSound :
      (p : Pool U G) (ev : Events) (n : ℕ) (found : Option (ℕ × Socket U))
      → IsSound p
      → ((a : ℕ) (k : Socket U) → found ≡ some (a, k) → p.heap a ≡ some k)
      → ResultIsSound (elim found [ none ↦ none | some (a, k) ↦ some (dispatch p a k ev n) ])
  dispatched-IsSound p ev n none v held = tt
  dispatched-IsSound p ev n (some (a, k)) v held = dispatch-IsSound p a k ev n v (held a k refl)

  on_socket-IsSound :
      (p : Pool U G) (is_main : Bool) (sd : ℕ) (ev : Events) (queried : Option ℕ)
      → IsSound p
      → ResultIsSound (on_socket h p is_main sd ev queried)
  unfolding on_socket
  on_socket-IsSound p is_main sd ev queried v = elim (Bool-cases (is_closed ev queried)) [
    | inl e ↦ rw e (closed is_main)
    | inr e ↦
        rw e (dispatched-IsSound p ev (or_zero queried) (find p sd) v (λ a k. find-heap p sd a k))
  ]
    where
      closed :
          (b : Bool)
          → ResultIsSound (
              some (
                if b
                then (record (closesocket h p sd) { main_run = false }, false)
                else (closesocket h p sd, true)))
      closed true = closesocket-IsSound h p sd v
      closed false = closesocket-IsSound h p sd v

  ask_main-IsSound : (p : Pool U G) (sd : ℕ) → IsSound p → IsSound (ask_main h p sd).0
  ask_main-IsSound p sd v = elim (Option-cases h.fmain) [
    | inl e ↦ rw (e, ask_main) v
    | inr (f, e) ↦ rw (e, ask_main) v
  ]

  on_client-IsSound :
      (p : Pool U G) (sd : ℕ) (ev : Events) (queried : Option ℕ)
      → IsSound p
      → ResultIsSound (on_client h p sd ev queried)
  unfolding on_client
  on_client-IsSound p sd ev queried v =
      let w = ask_main-IsSound p sd v in
      elim (Bool-cases (is_reconnected (ask_main h p sd).1)) [
        | inl e ↦ rw e w
        | inr e ↦ rw e (on_socket-IsSound (ask_main h p sd).0 true sd ev queried w)
      ]

  on_main-IsSound :
      (p : Pool U G) (sd : ℕ) (ev : Events) (accepted queried : Option ℕ) (t : SocketType)
      → KeepsDescriptor
      → IsSound p
      → ResultIsSound (on_main h p sd ev accepted queried t)
  unfolding on_main
  on_main-IsSound p sd ev accepted queried sock_listen keep v =
      on_listen-IsSound p sd ev accepted keep v
  on_main-IsSound p sd ev accepted queried sock_sub keep v =
      on_socket-IsSound p true sd ev queried v
  on_main-IsSound p sd ev accepted queried sock_websocket keep v =
      on_socket-IsSound p true sd ev queried v
  on_main-IsSound p sd ev accepted queried _ keep v = on_client-IsSound p sd ev queried v

  -- Where the user's function for new connections leaves the descriptor alone, one event, of
  -- whatever kind and with whatever answers of the kernel, keeps the map of connections and the
  -- heap in agreement.
  pub handle_event-IsSound :
      (p : Pool U G) (sd : ℕ) (ev : Events) (accepted queried : Option ℕ)
      → KeepsDescriptor
      → IsSound p
      → ResultIsSound (handle_event h p sd ev accepted queried)
  unfolding handle_event
  handle_event-IsSound p sd ev accepted queried keep v =
      elim (Bool-cases (is_sockmain p.sockmain sd)) [
        | inl e ↦ rw e (on_main-IsSound p sd ev accepted queried p.socktype keep v)
        | inr e ↦ rw e (on_socket-IsSound p false sd ev queried v)
      ]
