-- ===== src/Pool/System/Joining.antt =====
-- What a new connection, a job handed out, and a close do to whose turn it is.
use tst.Common.{
  get_elem?, arith, Bool-cases, Option, ℕ, List, refl, sym, ap, subst, ◌∙◌, none, some, ◌∷◌, inl,
  inr, ◌≡◌, ◌≢◌, ◌==◌, if◌then◌else◌,
}
use tst.Common.Dict.{lookup, lookup-insert}
use tst.Pool.Types.{Socket, Events}
use tst.Pool.State.{Hooks, Pool, Worker, update}
use tst.Pool.Connections.{addsocket, closesocket}
use tst.Pool.Connections.Laws.{closesocket-IsSound, heap-closesocket, lookup-closesocket}
use tst.Pool.Main.{drop_stale, register, assign_worker}
use tst.Pool.Main.Laws.{Assigned}
use tst.Pool.Main.Sound.{register-IsSound}
use tst.Pool.Turns.{Turn, silent, held}
use tst.Pool.System.{Epoll}
use tst.Pool.System.Live.{IsKnown, Live, Queued-update}

module _ (E : Epoll) {U G : Type 0} (h : Hooks U G) (p : Pool U G) (kernel : E.State)
    (σ : ℕ → Turn) where
  closesocket-IsKnown :
      (sd sd' : ℕ)
      → sd ≢ sd'
      → IsKnown p.sockmain p.connect sd'
      → let q = closesocket h p sd in IsKnown q.sockmain q.connect sd'
  closesocket-IsKnown sd sd' ne (inl e) = inl (unfold closesocket in e)
  closesocket-IsKnown sd sd' ne (inr (a, e)) =
      inr (a, ground (arith, lookup-closesocket h p sd sd', e, ne))

  -- A connection that nobody will do anything for may leave the map.
  pub Live-closesocket :
      (sd : ℕ) (pending : List (ℕ × Events))
      → Live E p.sockmain p.connect p.heap p.next_address p.workers kernel pending σ
      → σ sd ≡ silent
      → let q = closesocket h p sd in
        Live E q.sockmain q.connect q.heap q.next_address q.workers kernel pending σ
  Live-closesocket sd pending v e = record {
    sound = closesocket-IsSound h p sd v.sound;
    watched = v.watched;
    queued = v.queued;
    owned = λ i a w at holds.
        let o = v.owned i a w (unfold closesocket in at) holds in
        let ne : sd ≢ o.socket.sd = λ same. cc (o.turn, ap σ same, e) in
        record {
          socket = o.socket;
          alive = heap-closesocket h p sd o.socket.sd a v.sound ne o.known ∙ o.alive;
          known = ground (arith, lookup-closesocket h p sd o.socket.sd, o.known, ne);
          turn = o.turn;
        };
    gone = λ sd' lost off far. elim (Bool-cases (sd == sd')) [
      | inl hit ↦ let same : sd ≡ sd' = ground arith in subst (λ x. σ x ≡ silent) same e
      | inr miss ↦ v.gone sd' (ground (arith, lookup-closesocket h p sd sd')) off far
    ];
    known = λ sd' ne.
        let away : sd ≢ sd' = λ same. ne (subst (λ x. σ x ≡ silent) same e) in
        closesocket-IsKnown sd sd' away (v.known sd' ne);
  }

  register-lookup :
      (sd sd' : ℕ)
      → lookup sd p.connect ≡ none
      → lookup sd' (register h p sd).connect
        ≡ (if sd == sd' then some p.next_address else lookup sd' p.connect)
  unfolding register addsocket
  register-lookup sd sd' unused =
      rw (unused, drop_stale) (lookup-insert sd sd' p.next_address p.connect)

  register-heap :
      (sd a : ℕ)
      → lookup sd p.connect ≡ none
      → a ≢ p.next_address
      → (register h p sd).heap a ≡ p.heap a
  unfolding register addsocket
  register-heap sd a unused ne = rw (unused, drop_stale) (ground arith)

  register-workers : (sd : ℕ) → lookup sd p.connect ≡ none → (register h p sd).workers ≡ p.workers
  unfolding register addsocket
  register-workers sd unused = rw (unused, drop_stale) refl

  register-sockmain :
      (sd : ℕ) → lookup sd p.connect ≡ none → (register h p sd).sockmain ≡ p.sockmain
  unfolding register addsocket
  register-sockmain sd unused = rw (unused, drop_stale) refl

  register-IsKnown :
      (sd sd' : ℕ)
      → lookup sd p.connect ≡ none
      → IsKnown p.sockmain p.connect sd'
      → let q = register h p sd in IsKnown q.sockmain q.connect sd'
  register-IsKnown sd sd' unused (inl e) = inl (register-sockmain sd unused ∙ e)
  register-IsKnown sd sd' unused (inr (a, e)) =
      let ne : sd ≢ sd' = λ same. cc (unused, e, ap (λ x. lookup x p.connect) same) in
      inr (a, ground (arith, register-lookup sd sd' unused, e, ne))

  -- The new connection is registered.
  pub register_new :
      (sd : ℕ)
      → lookup sd p.connect ≡ none
      → let q = register h p sd in IsKnown q.sockmain q.connect sd
  register_new sd unused = inr (p.next_address, ground (arith, register-lookup sd sd unused))

  -- The object for a new connection is in the map.
  pub Live-register :
      (sd : ℕ) (pending : List (ℕ × Events))
      → Live E p.sockmain p.connect p.heap p.next_address p.workers kernel pending σ
      → lookup sd p.connect ≡ none
      → let q = register h p sd in
        Live E q.sockmain q.connect q.heap q.next_address q.workers kernel pending σ
  Live-register sd pending v unused = record {
    sound = register-IsSound h p sd v.sound;
    watched = v.watched;
    queued = v.queued;
    owned = λ i a w at holds.
        let o =
          v.owned i a w (ap (λ ws. get_elem? ws i) (sym (register-workers sd unused)) ∙ at) holds in
        let ne : sd ≢ o.socket.sd =
          λ same. cc (o.known, unused, ap (λ x. lookup x p.connect) same) in
        let old : a ≢ p.next_address =
          λ same. cc (o.alive, ap p.heap same, v.sound.fresh p.next_address (omega arith)) in
        record {
          socket = o.socket;
          alive = register-heap sd a unused old ∙ o.alive;
          known = ground (arith, register-lookup sd o.socket.sd unused, o.known, ne);
          turn = o.turn;
        };
    gone = λ sd' lost off far. v.gone sd' (ground (arith, register-lookup sd sd' unused)) off far;
    known = λ sd' ne. register-IsKnown sd sd' unused (v.known sd' ne);
  }

module _ (E : Epoll) {U : Type 0} (main : Option ℕ) (connect : List (ℕ × ℕ))
    (heap : ℕ → Option (Socket U)) (next : ℕ) (workers workers' : List Worker) (kernel : E.State)
    (es : List (ℕ × Events)) (σ : ℕ → Turn) where
  -- The job of the event at hand goes to a worker.
  pub Live-assign_at :
      (sd a : ℕ) (ev : Events)
      → Live E main connect heap next workers kernel ((sd, ev) ∷ es) σ
      → lookup sd connect ≡ some a
      → (r : Assigned workers workers' a)
      → Live E main connect heap next workers' kernel es (update σ sd (held r.place))
  Live-assign_at sd a ev v known r =
      let (now, apart, q) = v.queued in
      let (k, alive, named) = v.sound.owns sd a known in
      record {
        sound = v.sound;
        watched = λ sd' on. ground (arith, v.watched sd' on, now);
        queued = Queued-update σ sd _ es apart q;
        owned = λ i b w at holds. elim (Bool-cases (r.place == i)) [
          | inl hit ↦
              let e : r.place ≡ i = ground arith in
              let f : w ≡ assign_worker a r.worker = cc (at, r.given, ap (get_elem? workers') e) in
              let g : a ≡ b = cc (holds, ap (λ (x : Worker). x.tst_socket) f) in
              record {
                socket = k;
                alive = cc (alive, ap heap g);
                known = cc (known, g, ap (λ x. lookup x connect) named);
                turn = ground (arith, named);
              }
          | inr miss ↦
              let ne : i ≢ r.place = ground arith in
              let o = v.owned i b w (sym (r.others i ne) ∙ at) holds in
              let away : sd ≢ o.socket.sd = λ same. cc (o.turn, ap σ same, now) in
              record {
                socket = o.socket;
                alive = o.alive;
                known = o.known;
                turn = ground (arith, o.turn, away);
              }
        ];
        gone = λ sd' lost off far.
            let away : sd ≢ sd' = λ same. cc (known, lost, ap (λ x. lookup x connect) same) in
            ground (arith, v.gone sd' lost off (away, far), away);
        known = λ sd' ne. elim (Bool-cases (sd == sd')) [
          | inl hit ↦
              let e : sd ≡ sd' = ground arith in
              inr (a, subst (λ x. lookup x connect ≡ some a) e known)
          | inr miss ↦
              let away : sd ≢ sd' = ground arith in
              v.known sd' (λ quiet. ne (ground (arith, quiet, away)))
        ];
      }
