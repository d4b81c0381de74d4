-- ===== src/Pool/System/Refine.antt =====
-- Every step of the threads is made of moves of turns, and what follows from it.
use tst.Common.{
  arith, Bool-cases, ℕ, List, refl, sym, ap, subst, ◌∙◌, true, false, [], inl, inr, ◌≡◌, ◌≢◌, ◌==◌,
}
use tst.Pool.Types.{Events}
use tst.Pool.State.{Hooks, update}
use tst.Pool.Main.Sound.{KeepsDescriptor}
use tst.Pool.Turns.{silent, Turn, armed, ready, Moves, stay, onward, Moves-append, fired}
use tst.Pool.System.{
  Epoll, Apart, System, Batch, no_more, one_more, Step, wait, handle, clear, stop, round,
  choose_idle, start_idle, end_idle, end_loop, quiet,
}
use tst.Pool.System.Live.{Queued}
use tst.Pool.System.Changes.{Live-workers}
use tst.Pool.System.Calls.{IsLive}
use tst.Pool.System.Handling.{Handled, handle_event-Handled}
use tst.Pool.System.Jobs.{
  Rounded, run_idle-Follows, leave-Follows, stop_workers-Follows, work_round-Rounded,
}
use tst.Pool.System.Work.{Fewer-set, JobsKeepDescriptor}

module _ (E : Epoll) where
  -- What a batch of reports does to the turns.
  record Reported (s t : E.State) (es : List (ℕ × Events)) (σ : ℕ → Turn) : Type 0 where
    turns : ℕ → Turn
    moves : Moves σ turns
    queue : Queued turns es
    still : (sd : ℕ) → E.is_armed t sd ≡ true → (E.is_armed s sd ≡ true) × (turns sd ≡ armed)
    asleep : (sd : ℕ) → σ sd ≡ silent → turns sd ≡ silent
    others : (sd : ℕ) → E.is_armed s sd ≡ false → turns sd ≡ σ sd
    silenced : (sd : ℕ) → E.is_armed t sd ≡ false → Apart sd es → E.is_armed s sd ≡ false

  Apart-Batch :
      {s t : E.State} {es : List (ℕ × Events)} (sd : ℕ)
      → Batch E s es t
      → E.is_armed s sd ≡ false
      → Apart sd es
  Apart-Batch sd no_more off = tt
  Apart-Batch {s} sd (one_more sd' ev on b) off = (
    λ e. cc (on, off, ap (E.is_armed s) e),
    Apart-Batch sd b (elim (Bool-cases (sd' == sd)) [
      | inl hit ↦
          let e : sd' ≡ sd = ground arith in
          ap (E.is_armed (E.report sd' s)) (sym e) ∙ E.report_once s sd'
      | inr miss ↦ E.report_others s sd' sd (ground arith) ∙ off
    ]),
  )

  Batch-Reported :
      {s t : E.State} {es : List (ℕ × Events)} (σ : ℕ → Turn)
      → ((sd : ℕ) → E.is_armed s sd ≡ true → σ sd ≡ armed)
      → Batch E s es t
      → Reported s t es σ
  Batch-Reported σ watched no_more = record {
    turns = σ;
    moves = stay;
    queue = tt;
    still = λ sd on. (on, watched sd on);
    asleep = λ sd e. e;
    others = λ sd off. refl;
    silenced = λ sd off far. off;
  }
  Batch-Reported {s} σ watched (one_more sd ev on b) =
      let away = λ (x : ℕ) (e : E.is_armed (E.report sd s) x ≡ true).
        let ne : sd ≢ x =
          λ same. cc (E.report_once s sd, e, ap (E.is_armed (E.report sd s)) same) in
        ne in
      let r =
        Batch-Reported (update σ sd ready)
          (λ x e.
            let ne = away x e in
            ground (arith, watched x (sym (E.report_others s sd x ne) ∙ e), ne))
          b in
      record {
        turns = r.turns;
        moves = Moves-append (onward stay (fired sd (watched sd on))) r.moves;
        queue = (
          r.others sd (E.report_once s sd) ∙ ground arith,
          Apart-Batch sd b (E.report_once s sd),
          r.queue,
        );
        still = λ x e.
            let (e', turn) = r.still x e in (sym (E.report_others s sd x (away x e')) ∙ e', turn);
        asleep = λ x e.
            let ne : sd ≢ x = λ same. cc (watched sd on, e, ap σ same) in
            r.asleep x (ground (arith, e, ne));
        others = λ x off.
            let ne : sd ≢ x = λ same. cc (on, off, ap (E.is_armed s) same) in
            r.others x (E.report_others s sd x ne ∙ off) ∙ ground (arith, ne);
        silenced = λ x off far. sym (E.report_others s sd x far.0) ∙ r.silenced x off far.1;
      }

module _ (E : Epoll) {U G : Type 0} where
  -- The pool, the kernel and the events to handle stand right to the turns `σ`.
  abbrev pub Refines : System U G E → (ℕ → Turn) → Type 0
  Refines s σ = IsLive E (quiet E s.pool) s.kernel s.pending σ

  wait-Refines :
      (s : System U G E) (t : E.State) (es : List (ℕ × Events)) (σ : ℕ → Turn)
      → s.pending ≡ []
      → Batch E s.kernel es t
      → Refines s σ
      → (σ' : ℕ → Turn) × Moves σ σ' × Refines (record s { kernel = t; pending = es }) σ'
  wait-Refines s t es σ none_left b v =
      let r = Batch-Reported E σ v.watched b in
      (
        r.turns,
        r.moves,
        record {
          sound = v.sound;
          watched = λ sd on. (r.still sd on).1;
          queued = r.queue;
          owned = λ i a w at holds.
              let o = v.owned i a w at holds in
              record {
                socket = o.socket;
                alive = o.alive;
                known = o.known;
                turn =
                    r.others o.socket.sd (elim (Bool-cases (E.is_armed s.kernel o.socket.sd)) [
                      | inl on ↦ absurd (cc (v.watched o.socket.sd on, o.turn))
                      | inr off ↦ off
                    ])
                    ∙ o.turn;
              };
          known = λ sd ne. v.known sd (λ e. ne (r.asleep sd e));
          gone = λ sd lost off far.
              let off' = r.silenced sd off far in
              r.others sd off' ∙ v.gone sd lost off' (subst (λ p. Apart sd p) (sym none_left) tt);
        },
      )

  -- Where the functions for new connections and for jobs leave the descriptor alone, each step of
  -- the main thread or of a worker is made of moves of turns.
  pub Step-Refines :
      (h : Hooks U G) (s t : System U G E) (σ : ℕ → Turn)
      → KeepsDescriptor h
      → JobsKeepDescriptor h
      → Refines s σ
      → Step E h s t
      → (σ' : ℕ → Turn) × Moves σ σ' × Refines t σ'
  Step-Refines h s t σ keep jobs v (wait es run none_left small b) =
      wait-Refines s _ es σ none_left b v
  Step-Refines h s t σ keep jobs v (handle sd ev es accepted queried q done run first new e) =
      let p = quiet E s.pool in
      let v' = subst (λ l. IsLive E p s.kernel l σ) first v in
      subst (λ o. Handled E h s.kernel o (sd, ev) es σ) e
        (handle_event-Handled E h s.kernel p sd ev accepted queried σ es keep v' (λ client f.
          let (unused, off, far) = new client f in
          (unused, off, subst (λ l. Apart client l) first far)))
  Step-Refines h s t σ keep jobs v clear = (σ, stay, v)
  Step-Refines h s t σ keep jobs v (stop over) =
      stop_workers-Follows E h s.kernel (quiet E s.pool) σ s.pending v
  Step-Refines h s t σ keep jobs v (round i w io wait_failed q goes_on loop at e) =
      subst (λ o. Rounded E h s.kernel o s.pending σ) e
        (work_round-Rounded E h s.kernel (quiet E s.pool) i w io wait_failed σ s.pending jobs v at)
  Step-Refines h s t σ keep jobs v (choose_idle i w loop at stat) = (σ, stay, v)
  Step-Refines h s t σ keep jobs v (start_idle i w phase at) = (
    σ,
    stay,
    Live-workers E s.pool.sockmain s.pool.connect s.pool.heap s.pool.next_address s.pool.workers
        s.kernel s.pending σ _ v (Fewer-set s.pool.workers i w _ at (λ a f. f)),
  )
  Step-Refines h s t σ keep jobs v (end_idle i w phase at) =
      run_idle-Follows E h s.kernel (quiet E s.pool) i w σ s.pending v at
  Step-Refines h s t σ keep jobs v (end_loop i w loop over at) =
      leave-Follows E h s.kernel (quiet E s.pool) i w σ s.pending v at
