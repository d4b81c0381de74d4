-- ===== src/Pool/System/Calls.antt =====
-- A request to epoll and the close of a connection, by the thread that has the descriptor in hand.
use tst.Common.{
  ltb, Bool-cases, arith, Bool, ℕ, List, refl, sym, ap, ◌∙◌, false, ◌∷◌, inl, inr, ◌≡◌, ◌≢◌,
}
use tst.Pool.Types.{Events}
use tst.Pool.State.{Pool, Hooks, Call, epoll_del, close_fd, update, call}
use tst.Pool.Connections.{closesocket}
use tst.Pool.Turns.{Turn, silent, armed, rest, Move, Moves, stay, onward, joined_rest, ready_rest}
use tst.Pool.System.{Epoll, ctl_all, target}
use tst.Pool.System.Live.{IsKnown, Live, Unheld, Without, Without-head, Without-same, Apart-Queued}
use tst.Pool.System.Changes.{Unheld-Live, Live-rest}
use tst.Pool.System.Joining.{Live-closesocket}

module _ (E : Epoll) {U G : Type 0} where
  abbrev pub IsLive : Pool U G → E.State → List (ℕ × Events) → (ℕ → Turn) → Type 0
  IsLive p kernel pending σ =
      Live E p.sockmain p.connect p.heap p.next_address p.workers (ctl_all E p.calls kernel) pending
        σ

  -- The pool and the events to handle stand right to turns that come from `σ`.
  abbrev pub Follows : Pool U G → E.State → List (ℕ × Events) → (ℕ → Turn) → Type 0
  Follows p kernel pending σ = (σ' : ℕ → Turn) × Moves σ σ' × IsLive p kernel pending σ'

  -- The descriptor is in the hands of the thread that takes the step.
  pub record InHand (p : Pool U G) (kernel : E.State) (sd : ℕ) (σ : ℕ → Turn)
      (pending pending' : List (ℕ × Events)) : Type 0 where
    pub known : IsKnown p.sockmain p.connect sd
    pub free : Unheld p.heap p.workers sd
    pub less : Without sd σ pending pending'
    pub off : E.is_armed (ctl_all E p.calls kernel) sd ≡ false
    pub moves : (b : Bool) → Move σ (update σ sd (rest b))

module _ (E : Epoll) {U G : Type 0} (h : Hooks U G) (kernel : E.State) where
  pub Live-off :
      (p : Pool U G) (sd : ℕ) (σ : ℕ → Turn) (pending : List (ℕ × Events))
      → IsLive E p kernel pending σ
      → σ sd ≢ armed
      → E.is_armed (ctl_all E p.calls kernel) sd ≡ false
  Live-off p sd σ pending v ne = elim (Bool-cases (E.is_armed (ctl_all E p.calls kernel) sd)) [
    | inl on ↦ absurd (ne (v.watched sd on))
    | inr off ↦ off
  ]

  pub InHand-ready :
      (p : Pool U G) (sd : ℕ) (ev : Events) (σ : ℕ → Turn) (es : List (ℕ × Events))
      → IsLive E p kernel ((sd, ev) ∷ es) σ
      → InHand E p kernel sd σ ((sd, ev) ∷ es) es
  InHand-ready p sd ev σ es v = record {
    known = v.known sd (λ e. cc (e, v.queued.0));
    free =
        Unheld-Live E p.sockmain p.connect p.heap p.next_address p.workers
          (ctl_all E p.calls kernel) ((sd, ev) ∷ es) σ sd v (λ i e. cc (e, v.queued.0));
    less = Without-head sd ev σ es v.queued;
    off = Live-off p sd σ ((sd, ev) ∷ es) v (λ e. cc (e, v.queued.0));
    moves = λ b. ready_rest σ sd b v.queued.0;
  }

  pub InHand-silent :
      (p : Pool U G) (sd : ℕ) (σ : ℕ → Turn) (pending : List (ℕ × Events))
      → IsLive E p kernel pending σ
      → σ sd ≡ silent
      → IsKnown p.sockmain p.connect sd
      → InHand E p kernel sd σ pending pending
  InHand-silent p sd σ pending v e named = record {
    known = named;
    free =
        Unheld-Live E p.sockmain p.connect p.heap p.next_address p.workers
          (ctl_all E p.calls kernel) pending σ sd v (λ i f. cc (e, f));
    less = Without-same sd σ pending v.queued (Apart-Queued σ sd pending v.queued (λ f. cc (e, f)));
    off = Live-off p sd σ pending v (λ f. cc (e, f));
    moves = λ b. joined_rest σ sd b e;
  }

  -- A request to epoll about a descriptor in hand.
  pub call-Follows :
      (p : Pool U G) (c : Call) (σ : ℕ → Turn) (pending pending' : List (ℕ × Events))
      → IsLive E p kernel pending σ
      → InHand E p kernel (target c) σ pending pending'
      → Follows E (call p c) kernel pending' σ
  call-Follows p c σ pending pending' v mine = (
    _,
    onward stay (mine.moves (E.is_armed (ctl_all E (call p c).calls kernel) (target c))),
    Live-rest E p.sockmain p.connect p.heap p.next_address p.workers (ctl_all E p.calls kernel)
        pending σ (target c) (ctl_all E (call p c).calls kernel) pending' v mine.free mine.less
        mine.known (λ sd' ne. E.ctl_others c (ctl_all E p.calls kernel) sd' (λ e. ne (sym e))),
  )

  -- An event that is dropped.
  pub drop-Follows :
      (p : Pool U G) (sd : ℕ) (σ : ℕ → Turn) (pending pending' : List (ℕ × Events))
      → IsLive E p kernel pending σ
      → InHand E p kernel sd σ pending pending'
      → Follows E p kernel pending' σ
  drop-Follows p sd σ pending pending' v mine = (
    _,
    onward stay (mine.moves (E.is_armed (ctl_all E p.calls kernel) sd)),
    Live-rest E p.sockmain p.connect p.heap p.next_address p.workers (ctl_all E p.calls kernel)
        pending σ sd (ctl_all E p.calls kernel) pending' v mine.free mine.less mine.known
        (λ sd' ne. refl),
  )

  closesocket-armed :
      (p : Pool U G) (sd sd' : ℕ)
      → sd ≢ sd'
      → E.is_armed (ctl_all E (closesocket h p sd).calls kernel) sd'
        ≡ E.is_armed (ctl_all E p.calls kernel) sd'
  unfolding closesocket
  closesocket-armed p sd sd' ne = elim (Bool-cases (ltb 0 sd)) [
    | inl e ↦ rw e (
        E.ctl_others (close_fd sd) _ sd' (λ f. ne (sym f))
        ∙ E.ctl_others (epoll_del sd) _ sd' (λ f. ne (sym f)))
    | inr e ↦ rw e refl
  ]

  closesocket-off :
      (p : Pool U G) (sd : ℕ)
      → E.is_armed (ctl_all E p.calls kernel) sd ≡ false
      → E.is_armed (ctl_all E (closesocket h p sd).calls kernel) sd ≡ false
  unfolding closesocket
  closesocket-off p sd off = elim (Bool-cases (ltb 0 sd)) [
    | inl e ↦ rw e (E.ctl_close _ sd)
    | inr e ↦ rw e off
  ]

  -- The close of a connection in hand.
  pub closesocket-Follows :
      (p : Pool U G) (sd : ℕ) (σ : ℕ → Turn) (pending pending' : List (ℕ × Events))
      → IsLive E p kernel pending σ
      → InHand E p kernel sd σ pending pending'
      → Follows E (closesocket h p sd) kernel pending' σ
  closesocket-Follows p sd σ pending pending' v mine =
      let kernel' = ctl_all E (closesocket h p sd).calls kernel in
      let b = E.is_armed kernel' sd in
      (
        update σ sd (rest b),
        onward stay (mine.moves b),
        Live-closesocket E h p kernel' (update σ sd (rest b)) sd pending'
            (Live-rest E p.sockmain p.connect p.heap p.next_address p.workers
              (ctl_all E p.calls kernel) pending σ sd kernel' pending' v mine.free mine.less
              mine.known (λ sd' ne. closesocket-armed p sd sd' ne))
            (ground (arith, ap rest (closesocket-off p sd mine.off))),
      )
