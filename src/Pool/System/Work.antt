-- ===== src/Pool/System/Work.antt =====
-- The end of a job, as a change of turns.
use tst.Common.{
  get_elem?-set_ne, get_elem?-set_self, set, ltb, arith, map, Bool-cases, get_elem?, ℕ, List, refl,
  sym, ap, subst, ◌∙◌, none, some, true, false, [], ◌∷◌, inl, inr, zero, suc, ◌≡◌, ◌≢◌, ◌==◌,
}
use tst.Pool.Types.{Socket, Events, Stat, tst_disconnect, tst_send}
use tst.Pool.State.{Pool, Hooks, Worker, epoll_mod, update}
use tst.Pool.Connections.{closesocket}
use tst.Pool.Work.{JobIo, serve, settle, run_job, done_worker}
use tst.Pool.Shutdown.{signal_exit}
use tst.Pool.Turns.{Turn, held, held_rest}
use tst.Pool.System.{lookup, Epoll, ctl_all}
use tst.Pool.System.Live.{Fewer, Without-same, Apart-Queued}
use tst.Pool.System.Changes.{Live-heap, Live-workers}
use tst.Pool.System.Calls.{
  IsLive, Follows, InHand, Live-off, call-Follows, drop-Follows, closesocket-Follows,
}

pub Fewer-set :
    (workers : List Worker) (i : ℕ) (w w' : Worker)
    → get_elem? workers i ≡ some w
    → ((a : ℕ) → w'.tst_socket ≡ some a → w.tst_socket ≡ some a)
    → Fewer workers (set workers i w')
Fewer-set workers i w w' at less j a x at' holds = elim (Bool-cases (i == j)) [
  | inl hit ↦
      let e : i ≡ j = ground arith in
      let f : x ≡ w' =
        cc (at', get_elem?-set_self workers i w w' at, ap (get_elem? (set workers i w')) e) in
      (
        w,
        cc (at, ap (get_elem? workers) e),
        less a (cc (holds, ap (λ (y : Worker). y.tst_socket) f)),
      )
  | inr miss ↦
      let ne : i ≢ j = ground arith in (x, sym (get_elem?-set_ne workers i j w' ne) ∙ at', holds)
]

pub Fewer-signal_exit : (workers : List Worker) → Fewer workers (map signal_exit workers)
Fewer-signal_exit [] i a w at holds = absurd (cc)
Fewer-signal_exit (w ∷ ws) zero a x at holds = (w, refl, ground arith)
Fewer-signal_exit (w ∷ ws) (suc i) a x at holds = Fewer-signal_exit ws i a x at holds

-- Jobs leave the descriptor of their socket alone.
abbrev pub JobsKeepDescriptor : {U G : Type 0} → Hooks U G → Type 0
JobsKeepDescriptor {U} {G} h =
    (w : Worker) (k : Socket U) (g : G) (io : JobIo) → (serve h w k g io).0.sd ≡ k.sd

module _ {U G : Type 0} (h : Hooks U G) where
  pub settle_same :
      (p : Pool U G) (k : Socket U) (next : Stat) → (settle h p k next).0.workers ≡ p.workers
  unfolding settle closesocket
  settle_same p k tst_disconnect = ground arith
  settle_same p k _ = ground arith

module _ (E : Epoll) {U G : Type 0} (h : Hooks U G) (kernel : E.State) where
  settle-Follows :
      (p : Pool U G) (k : Socket U) (next : Stat) (σ : ℕ → Turn) (pending : List (ℕ × Events))
      → IsLive E p kernel pending σ
      → InHand E p kernel k.sd σ pending pending
      → Follows E (settle h p k next).0 kernel pending σ
  unfolding settle
  settle-Follows p k tst_disconnect σ pending v mine = elim (Bool-cases (ltb 0 k.sd)) [
    | inl e ↦ rw e (closesocket-Follows E h kernel p k.sd σ pending pending v mine)
    | inr e ↦ rw e (drop-Follows E h kernel p k.sd σ pending pending v mine)
  ]
  settle-Follows p k tst_send σ pending v mine = elim (Bool-cases (ltb 0 k.sd)) [
    | inl e ↦ rw e (call-Follows E h kernel p (epoll_mod k.sd true) σ pending pending v mine)
    | inr e ↦ rw e (drop-Follows E h kernel p k.sd σ pending pending v mine)
  ]
  settle-Follows p k _ σ pending v mine = elim (Bool-cases (ltb 0 k.sd)) [
    | inl e ↦ rw e (call-Follows E h kernel p (epoll_mod k.sd false) σ pending pending v mine)
    | inr e ↦ rw e (drop-Follows E h kernel p k.sd σ pending pending v mine)
  ]

  -- What follows a job does not look at the workers.
  settle-workers :
      (p : Pool U G) (k : Socket U) (next : Stat) (ws : List Worker)
      → (settle h (record p { workers = ws }) k next).0
        ≡ record (settle h p k next).0 { workers = ws }
  unfolding settle closesocket
  settle-workers p k tst_disconnect ws = ground arith
  settle-workers p k _ ws = ground arith

  InHand-held :
      (p : Pool U G) (i : ℕ) (w w' : Worker) (a : ℕ) (k : Socket U) (σ : ℕ → Turn)
      (pending : List (ℕ × Events))
      → IsLive E p kernel pending σ
      → get_elem? p.workers i ≡ some w
      → w'.tst_socket ≡ none
      → σ k.sd ≡ held i
      → lookup k.sd p.connect ≡ some a
      → InHand E (record p { workers = set p.workers i w' }) kernel k.sd σ pending pending
  InHand-held p i w w' a k σ pending v at empty turn named = record {
    known = inr (a, named);
    free = λ j b x l at' holds alive same. elim (Bool-cases (i == j)) [
      | inl hit ↦
          let e : i ≡ j = ground arith in
          let f : x ≡ w' =
            cc (
              at',
              get_elem?-set_self p.workers i w w' at,
              ap (get_elem? (set p.workers i w')) e,
            ) in
          cc (holds, empty, ap (λ (y : Worker). y.tst_socket) f)
      | inr miss ↦
          let ne : i ≢ j = ground arith in
          let o = v.owned j b x (sym (get_elem?-set_ne p.workers i j w' ne) ∙ at') holds in
          let f : o.socket ≡ l = cc (o.alive, alive) in
          let g : held j ≡ held i =
            sym o.turn ∙ ap (λ (y : Socket U). σ y.sd) f ∙ ap σ same ∙ turn in
          ne (cc g)
    ];
    less =
        Without-same k.sd σ pending v.queued
          (Apart-Queued σ k.sd pending v.queued (λ e. cc (e, turn)));
    off = Live-off E h kernel p k.sd σ pending v (λ e. cc (e, turn));
    moves = λ b. held_rest σ k.sd i b turn;
  }

  pub run_job-Follows :
      (p : Pool U G) (i : ℕ) (w : Worker) (a : ℕ) (k : Socket U) (io : JobIo) (σ : ℕ → Turn)
      (pending : List (ℕ × Events))
      → IsLive E p kernel pending σ
      → get_elem? p.workers i ≡ some w
      → w.tst_socket ≡ some a
      → p.heap a ≡ some k
      → (serve h w k p.shared io).0.sd ≡ k.sd
      → Follows E (run_job h p i w a k io) kernel pending σ
  unfolding run_job
  run_job-Follows p i w a k io σ pending v at holds alive same =
      let (k', g', next) = serve h w k p.shared io in
      let p1 = record p { heap = update p.heap a (some k'); shared = g' } in
      let w' = done_worker w (settle h p1 k' next).1 io.elapsed in
      let v1 =
        Live-heap E p.sockmain p.connect p.heap p.next_address p.workers (ctl_all E p.calls kernel)
          pending σ a k k' v alive same in
      let o = v1.owned i a w at holds in
      let e : o.socket ≡ k' = ground (arith, o.alive) in
      let turn : σ k'.sd ≡ held i = ap (λ (j : Socket U). σ j.sd) (sym e) ∙ o.turn in
      let named : lookup k'.sd p.connect ≡ some a =
        ap (λ (j : Socket U). lookup j.sd p.connect) (sym e) ∙ o.known in
      let p2 = record p1 { workers = set p.workers i w' } in
      let v2 =
        Live-workers E p1.sockmain p1.connect p1.heap p1.next_address p1.workers
          (ctl_all E p1.calls kernel) pending σ (set p.workers i w') v1
          (Fewer-set p.workers i w w' at (λ b f. absurd (cc f))) in
      subst (λ q. Follows E q kernel pending σ)
        (settle-workers p1 k' next (set p.workers i w')
          ∙ ap (λ ws. record (settle h p1 k' next).0 { workers = set ws i w' })
              (sym (settle_same h p1 k' next)))
        (settle-Follows p2 k' next σ pending v2
          (InHand-held p1 i w w' a k' σ pending v1 at refl turn named))
