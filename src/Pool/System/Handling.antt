-- ===== src/Pool/System/Handling.antt =====
-- The main thread's handling of one event, as changes of turns.
use tst.Common.{
  arith, Option-cases, Bool, Option, Bool-cases, ℕ, List, refl, none, some, true, false, ◌∷◌, inl,
  inr, ◌≡◌, if◌then◌else◌,
}
use tst.Common.Dict.{lookup}
use tst.Pool.Types.{Socket, Events, SocketType, sock_listen, sock_sub, sock_websocket}
use tst.Pool.State.{Pool, Hooks, update, find}
use tst.Pool.Connections.{closesocket}
use tst.Pool.Main.{
  assign_at, is_closed, or_zero, ask_main, is_reconnected, is_sockmain, dispatch, on_socket,
  on_client, on_main, handle_event, note_event, first_idle,
}
use tst.Pool.Main.Laws.{first_idle-Assigned}
use tst.Pool.Main.Sound.{KeepsDescriptor, note_event-sd, find-heap}
use tst.Pool.Turns.{Turn, held, stay, onward, taken}
use tst.Pool.System.{Epoll, ctl_all, remaining}
use tst.Pool.System.Changes.{Live-heap}
use tst.Pool.System.Joining.{Live-assign_at}
use tst.Pool.System.Calls.{IsLive, Follows, InHand-ready, closesocket-Follows}
use tst.Pool.System.Accepting.{IsNew, dropped-Follows, on_listen-Follows}

module _ (E : Epoll) {U G : Type 0} (h : Hooks U G) (kernel : E.State) where
  -- The outcome of one event: a fault, or a pool that stands right to turns that come from `σ`.
  abbrev pub Handled :
      Option (Pool U G × Bool) → (ℕ × Events) → List (ℕ × Events) → (ℕ → Turn) → Type 0
  Handled none e es σ = Unit
  Handled (some (q, done)) e es σ = Follows E q kernel (remaining done q.main_run e es) σ

  kept-Follows :
      (p : Pool U G) (b : Bool) (sd : ℕ) (ev : Events) (σ : ℕ → Turn) (es : List (ℕ × Events))
      → IsLive E p kernel ((sd, ev) ∷ es) σ
      → Follows E p kernel (remaining false b (sd, ev) es) σ
  kept-Follows p true sd ev σ es v = (σ, stay, v)
  kept-Follows p false sd ev σ es v = dropped-Follows E h kernel p sd ev σ es v

  dispatch-Handled :
      (p : Pool U G) (sd a : ℕ) (k : Socket U) (ev : Events) (n : ℕ) (σ : ℕ → Turn)
      (es : List (ℕ × Events))
      → IsLive E p kernel ((sd, ev) ∷ es) σ
      → lookup sd p.connect ≡ some a
      → p.heap a ≡ some k
      → Handled (some (dispatch p a k ev n)) (sd, ev) es σ
  unfolding dispatch
  dispatch-Handled p sd a k ev n σ es v known alive = elim (Option-cases (first_idle p.workers)) [
    | inl e ↦ rw (e, dispatch) (kept-Follows p p.main_run sd ev σ es v)
    | inr (i, e) ↦
        rw (e, dispatch)
          (
            update σ sd (held (first_idle-Assigned p.workers a i e).place),
            onward stay (taken sd (first_idle-Assigned p.workers a i e).place v.queued.0),
            Live-assign_at E p.sockmain p.connect (update p.heap a (some (note_event k ev n)))
                p.next_address p.workers (assign_at i a p.workers) (ctl_all E p.calls kernel) es σ
                sd a ev
                (Live-heap E p.sockmain p.connect p.heap p.next_address p.workers
                  (ctl_all E p.calls kernel) ((sd, ev) ∷ es) σ a k (note_event k ev n) v alive
                  (note_event-sd h k ev n))
                known (first_idle-Assigned p.workers a i e),
          )
  ]

  found-Handled :
      (p : Pool U G) (sd : ℕ) (ev : Events) (n : ℕ) (σ : ℕ → Turn) (es : List (ℕ × Events))
      (found : Option (ℕ × Socket U))
      → IsLive E p kernel ((sd, ev) ∷ es) σ
      → find p sd ≡ found
      → Handled
          (elim found [ none ↦ none | some (a, k) ↦ some (dispatch p a k ev n) ])
          (sd, ev)
          es
          σ
  found-Handled p sd ev n σ es none v e = tt
  found-Handled p sd ev n σ es (some (a, k)) v e =
      dispatch-Handled p sd a k ev n σ es v (ground arith) (find-heap h p sd a k e)

  closed-Handled :
      (p : Pool U G) (b : Bool) (sd : ℕ) (ev : Events) (σ : ℕ → Turn) (es : List (ℕ × Events))
      → IsLive E p kernel ((sd, ev) ∷ es) σ
      → Handled
          (some (
            if b
            then (record (closesocket h p sd) { main_run = false }, false)
            else (closesocket h p sd, true)))
          (sd, ev)
          es
          σ
  closed-Handled p b sd ev σ es v =
      let done =
        closesocket-Follows E h kernel p sd σ ((sd, ev) ∷ es) es v
          (InHand-ready E h kernel p sd ev σ es v) in
      elim b
        as (λ b.
          Handled
            (some (
              if b
              then (record (closesocket h p sd) { main_run = false }, false)
              else (closesocket h p sd, true)))
            (sd, ev) es σ) [ true ↦ done | false ↦ done ]

  on_socket-Handled :
      (p : Pool U G) (is_main : Bool) (sd : ℕ) (ev : Events) (queried : Option ℕ) (σ : ℕ → Turn)
      (es : List (ℕ × Events))
      → IsLive E p kernel ((sd, ev) ∷ es) σ
      → Handled (on_socket h p is_main sd ev queried) (sd, ev) es σ
  unfolding on_socket
  on_socket-Handled p is_main sd ev queried σ es v = elim (Bool-cases (is_closed ev queried)) [
    | inl e ↦ rw e (closed-Handled p is_main sd ev σ es v)
    | inr e ↦ rw e (found-Handled p sd ev (or_zero queried) σ es (find p sd) v refl)
  ]

  ask_main-IsLive :
      (p : Pool U G) (sd : ℕ) (σ : ℕ → Turn) (pending : List (ℕ × Events))
      → IsLive E p kernel pending σ
      → IsLive E (ask_main h p sd).0 kernel pending σ
  ask_main-IsLive p sd σ pending v = elim (Option-cases h.fmain) [
    | inl e ↦ rw (e, ask_main) v
    | inr (f, e) ↦ rw (e, ask_main) v
  ]

  on_client-Handled :
      (p : Pool U G) (sd : ℕ) (ev : Events) (queried : Option ℕ) (σ : ℕ → Turn)
      (es : List (ℕ × Events))
      → IsLive E p kernel ((sd, ev) ∷ es) σ
      → Handled (on_client h p sd ev queried) (sd, ev) es σ
  unfolding on_client
  on_client-Handled p sd ev queried σ es v =
      let q = (ask_main h p sd).0 in
      let w = ask_main-IsLive p sd σ ((sd, ev) ∷ es) v in
      elim (Bool-cases (is_reconnected (ask_main h p sd).1)) [
        | inl e ↦ rw e (kept-Follows q q.main_run sd ev σ es w)
        | inr e ↦ rw e (on_socket-Handled q true sd ev queried σ es w)
      ]

  on_main-Handled :
      (p : Pool U G) (sd : ℕ) (ev : Events) (accepted queried : Option ℕ) (t : SocketType)
      (σ : ℕ → Turn) (es : List (ℕ × Events))
      → KeepsDescriptor h
      → IsLive E p kernel ((sd, ev) ∷ es) σ
      → ((client : ℕ) → accepted ≡ some client → IsNew E h kernel p ((sd, ev) ∷ es) client)
      → Handled (on_main h p sd ev accepted queried t) (sd, ev) es σ
  unfolding on_main
  on_main-Handled p sd ev accepted queried sock_listen σ es keep v new =
      on_listen-Follows E h kernel p sd ev accepted σ es keep v new
  on_main-Handled p sd ev accepted queried sock_sub σ es keep v new =
      on_socket-Handled p true sd ev queried σ es v
  on_main-Handled p sd ev accepted queried sock_websocket σ es keep v new =
      on_socket-Handled p true sd ev queried σ es v
  on_main-Handled p sd ev accepted queried _ σ es keep v new =
      on_client-Handled p sd ev queried σ es v

  -- Where the pool stands right to the turns, one event, whatever the kernel answers, changes them
  -- by moves of theirs.
  pub handle_event-Handled :
      (p : Pool U G) (sd : ℕ) (ev : Events) (accepted queried : Option ℕ) (σ : ℕ → Turn)
      (es : List (ℕ × Events))
      → KeepsDescriptor h
      → IsLive E p kernel ((sd, ev) ∷ es) σ
      → ((client : ℕ) → accepted ≡ some client → IsNew E h kernel p ((sd, ev) ∷ es) client)
      → Handled (handle_event h p sd ev accepted queried) (sd, ev) es σ
  unfolding handle_event
  handle_event-Handled p sd ev accepted queried σ es keep v new =
      elim (Bool-cases (is_sockmain p.sockmain sd)) [
        | inl e ↦ rw e (on_main-Handled p sd ev accepted queried p.socktype σ es keep v new)
        | inr e ↦ rw e (on_socket-Handled p false sd ev queried σ es v)
      ]
