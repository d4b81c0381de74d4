-- ===== src/Pool/System/Safety.antt =====
-- What holds in every state that the threads reach, and a job that is lost.
use tst.Common.{
  arith, Bool, List, Option, refl, subst, true, ◌∷◌, Bool-cases, get_elem?, ℕ, sym, ap, ◌∙◌, none,
  some, false, [], inl, inr, ◌≡◌,
}
use tst.Common.Dict.{lookup}
use tst.Pool.Types.{Socket, Events, sock_listen}
use tst.Pool.State.{Hooks, Worker, Pool, find, deref}
use tst.Pool.Connections.Laws.{IsSound}
use tst.Pool.Main.Sound.{KeepsDescriptor}
use tst.Pool.Turns.{Turn, held, rest, Moves, stay, Moves-append}
use tst.Pool.System.{quiet, Epoll, Apart, System, Reach, start, later}
use tst.Pool.System.Live.{IsKnown, Apart-Queued, Queued}
use tst.Pool.Connections.{closesocket}
use tst.Pool.Main.{
  handle_event, on_socket, on_main, on_listen, dispatch, is_closed, or_zero, is_sockmain,
}
use tst.Pool.System.Work.{JobsKeepDescriptor}
use tst.Pool.System.Refine.{Refines, Step-Refines}

module _ (E : Epoll) {U G : Type 0} where
  -- A system whose workers have no job yet.
  pub record IsFirst (s : System U G E) : Type 0 where
    pub sound : IsSound s.pool
    pub at_rest : (i : ℕ) (w : Worker) → get_elem? s.pool.workers i ≡ some w → w.tst_socket ≡ none
    pub none_pending : s.pending ≡ []
    pub all_known :
        (sd : ℕ) → E.is_armed s.kernel sd ≡ true → IsKnown s.pool.sockmain s.pool.connect sd

  -- The turns at the start: epoll's, where it watches.
  abbrev pub first_turns : System U G E → ℕ → Turn
  first_turns s sd = rest (E.is_armed s.kernel sd)

  first_Refines : (s : System U G E) → IsFirst s → Refines E s (first_turns s)
  first_Refines s f = record {
    sound = f.sound;
    watched = λ sd on. ap rest on;
    queued = rw (f.none_pending) tt;
    owned = λ i a w at holds. absurd (cc (f.at_rest i w at, holds));
    gone = λ sd lost off far. ap rest off;
    known = λ sd ne. elim (Bool-cases (E.is_armed s.kernel sd)) [
      | inl on ↦ f.all_known sd on
      | inr off ↦ absurd (ne (ap rest off))
    ];
  }

  -- Let the functions for new connections and for jobs leave the descriptor of their socket alone,
  -- and start with workers that have no job, a map and heap that agree, and an epoll that watches
  -- none but the main socket and registered ones. However the main thread, the workers and epoll
  -- interleave, the state that they reach stands right to turns that moves of single descriptors
  -- lead to: an armed descriptor is epoll's, a reported one the main thread's, and the one of a
  -- job its worker's, whose object is allocated and registered; each is the main socket's or
  -- registered; and the map and the heap agree.
  pub Reach-Refines :
      (h : Hooks U G) (s t : System U G E)
      → KeepsDescriptor h
      → JobsKeepDescriptor h
      → IsFirst s
      → Reach E h s t
      → (σ : ℕ → Turn) × Moves (first_turns s) σ × Refines E t σ
  Reach-Refines h s t keep jobs f start = (first_turns s, stay, first_Refines s f)
  Reach-Refines h s t keep jobs f (later {s = m} r step) =
      let (σ, ms, v) = Reach-Refines h s m keep jobs f r in
      let (σ', ns, v') = Step-Refines E h m t σ keep jobs v step in (σ', Moves-append ms ns, v')

  -- What a worker may rely on for the socket at address `a` while it has the job.
  pub record IsExclusive (t : System U G E) (i a : ℕ) : Type 0 where
    pub socket : Socket U
    pub alive : t.pool.heap a ≡ some socket
    pub known : lookup socket.sd t.pool.connect ≡ some a
    pub quiet : E.is_armed t.kernel socket.sd ≡ false
    pub apart : Apart socket.sd t.pending
    pub alone :
        (j : ℕ) (w : Worker) → get_elem? t.pool.workers j ≡ some w → w.tst_socket ≡ some a → j ≡ i

  held_turn :
      (t : System U G E) (σ : ℕ → Turn) (i j a : ℕ) (w w' : Worker)
      → Refines E t σ
      → get_elem? t.pool.workers i ≡ some w
      → w.tst_socket ≡ some a
      → get_elem? t.pool.workers j ≡ some w'
      → w'.tst_socket ≡ some a
      → j ≡ i
  held_turn t σ i j a w w' v at holds at' holds' =
      let o = v.owned i a w at holds in
      let o' = v.owned j a w' at' holds' in
      let e : o.socket ≡ o'.socket = cc (o.alive, o'.alive) in
      let f : held j ≡ held i = sym o'.turn ∙ ap (λ (k : Socket U). σ k.sd) (sym e) ∙ o.turn in cc f

  -- In every state that the threads reach from workers with no job, a map and heap that agree, and
  -- an epoll that watches none but the main socket and registered ones, where the functions for
  -- new connections and for jobs leave the descriptor alone: a worker that has a job holds an
  -- object that is allocated and registered under its descriptor, for which epoll is silent and no
  -- event is left to handle, and no other worker holds it.
  pub Reach-IsExclusive :
      (h : Hooks U G) (s t : System U G E) (i a : ℕ) (w : Worker)
      → KeepsDescriptor h
      → JobsKeepDescriptor h
      → IsFirst s
      → Reach E h s t
      → get_elem? t.pool.workers i ≡ some w
      → w.tst_socket ≡ some a
      → IsExclusive t i a
  Reach-IsExclusive h s t i a w keep jobs f r at holds =
      let (σ, ms, v) = Reach-Refines h s t keep jobs f r in
      let o = v.owned i a w at holds in
      record {
        socket = o.socket;
        alive = o.alive;
        known = o.known;
        quiet = elim (Bool-cases (E.is_armed t.kernel o.socket.sd)) [
          | inl on ↦ absurd (cc (v.watched o.socket.sd on, o.turn))
          | inr off ↦ off
        ];
        apart = Apart-Queued σ o.socket.sd t.pending v.queued (λ e. cc (e, o.turn));
        alone = λ j w' at' holds'. held_turn t σ i j a w w' v at holds at' holds';
      }

  find_known :
      (p : Pool U G) (sd a : ℕ)
      → IsSound p
      → lookup sd p.connect ≡ some a
      → (k : Socket U) × (find p sd ≡ some (a, k))
  find_known p sd a v e =
      let (k, alive, named) = v.owns sd a e in (k, rw (e, deref) (rw (alive, deref) refl))

  on_socket_known :
      (h : Hooks U G) (p : Pool U G) (sd a : ℕ) (ev : Events) (queried : Option ℕ)
      → IsSound p
      → lookup sd p.connect ≡ some a
      → (o : Pool U G × Bool) × (on_socket h p false sd ev queried ≡ some o)
  unfolding on_socket
  on_socket_known h p sd a ev queried v e =
      let (k, f) = find_known p sd a v e in
      elim (Bool-cases (is_closed ev queried)) [
        | inl over ↦ ((closesocket h p sd, true), rw over refl)
        | inr on ↦ (dispatch p a k ev (or_zero queried), rw on (rw (f, on_socket) refl))
      ]

  handle_event_known :
      (h : Hooks U G) (p : Pool U G) (sd : ℕ) (ev : Events) (accepted queried : Option ℕ)
      → IsSound p
      → IsKnown p.sockmain p.connect sd
      → p.socktype ≡ sock_listen
      → (o : Pool U G × Bool) × (handle_event h p sd ev accepted queried ≡ some o)
  unfolding handle_event on_main
  handle_event_known h p sd ev accepted queried v known listens =
      elim (Bool-cases (is_sockmain p.sockmain sd)) [
        | inl e ↦ (
          (on_listen h p sd ev accepted, true),
          rw e (ap (on_main h p sd ev accepted queried) listens),
        )
        | inr e ↦ elim known [
          | inl main ↦ absurd (ground (arith, e, main))
          | inr (a, f) ↦ let (o, g) = on_socket_known h p sd a ev queried v f in (o, rw e g)
        ]
      ]

  -- In every state that the threads reach from workers with no job, a map and heap that agree, and
  -- an epoll that watches none but the main socket and registered ones, where the functions for
  -- new connections and for jobs leave the descriptor alone and the main socket listens: the next
  -- event to handle is handled without a fault, whatever the kernel answers, so that its
  -- descriptor, if it is not the main socket's, is found in the map.
  pub Reach-handle_event :
      (h : Hooks U G) (s t : System U G E) (sd : ℕ) (ev : Events) (es : List (ℕ × Events))
      (accepted queried : Option ℕ)
      → KeepsDescriptor h
      → JobsKeepDescriptor h
      → IsFirst s
      → Reach E h s t
      → t.pool.socktype ≡ sock_listen
      → t.pending ≡ (sd, ev) ∷ es
      → (o : Pool U G × Bool) × (handle_event h (quiet E t.pool) sd ev accepted queried ≡ some o)
  Reach-handle_event h s t sd ev es accepted queried keep jobs f r listens next =
      let (σ, ms, v) = Reach-Refines h s t keep jobs f r in
      let q = subst (λ l. Queued σ l) next v.queued in
      handle_event_known h (quiet E t.pool) sd ev accepted queried v.sound
        (v.known sd (λ e. cc (e, q.0))) listens
