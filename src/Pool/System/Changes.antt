-- ===== src/Pool/System/Changes.antt =====
-- What one change of the map, the heap, the workers or the kernel does to whose turn it is.
use tst.Common.{
  arith, Bool-cases, Option, ℕ, List, sym, ap, subst, ◌∙◌, some, true, false, inl, inr, ◌≡◌, ◌≢◌,
  ◌==◌,
}
use tst.Common.Dict.{lookup}
use tst.Pool.Types.{Socket, Events}
use tst.Pool.State.{Worker, update}
use tst.Pool.Connections.Laws.{Agrees-update}
use tst.Pool.Turns.{Turn, held, rest}
use tst.Pool.System.{Epoll}
use tst.Pool.System.Live.{IsKnown, Live, Queued-update, Unheld, Fewer, Without}

module _ (E : Epoll) {U : Type 0} (main : Option ℕ) (connect : List (ℕ × ℕ))
    (heap : ℕ → Option (Socket U)) (next : ℕ) (workers : List Worker) (kernel : E.State)
    (pending : List (ℕ × Events)) (σ : ℕ → Turn) where
  pub Unheld-Live :
      (sd : ℕ)
      → Live E main connect heap next workers kernel pending σ
      → ((i : ℕ) → σ sd ≢ held i)
      → Unheld heap workers sd
  Unheld-Live sd v ne i a w k at holds alive same =
      let o = v.owned i a w at holds in
      let e : o.socket ≡ k = cc (o.alive, alive) in
      ne i (cc (o.turn, ap σ same, ap (λ (j : Socket U). σ j.sd) e))

  -- An object may change, as long as it keeps its descriptor.
  pub Live-heap :
      (a : ℕ) (k k' : Socket U)
      → Live E main connect heap next workers kernel pending σ
      → heap a ≡ some k
      → k'.sd ≡ k.sd
      → Live E main connect (update heap a (some k')) next workers kernel pending σ
  Live-heap a k k' v alive same = record {
    sound = Agrees-update connect heap next a k k' v.sound alive same;
    watched = v.watched;
    queued = v.queued;
    owned = λ i b w at holds.
        let o = v.owned i b w at holds in
        elim (Bool-cases (a == b)) [
          | inl hit ↦
              let e : a ≡ b = ground arith in
              let f : o.socket ≡ k = cc (o.alive, alive, ap heap e) in
              let g : o.socket.sd ≡ k'.sd = cc (ap (λ (j : Socket U). j.sd) f, same) in
              record {
                socket = k';
                alive = ground arith;
                known = subst (λ sd. lookup sd connect ≡ some b) g o.known;
                turn = subst (λ sd. σ sd ≡ held i) g o.turn;
              }
          | inr miss ↦ record {
            socket = o.socket;
            alive = ground (arith, o.alive);
            known = o.known;
            turn = o.turn;
          }
        ];
    gone = v.gone;
    known = v.known;
  }

  -- Workers may let go of sockets, and change in any way that has nothing to do with sockets.
  pub Live-workers :
      (workers' : List Worker)
      → Live E main connect heap next workers kernel pending σ
      → Fewer workers workers'
      → Live E main connect heap next workers' kernel pending σ
  Live-workers workers' v fewer = record {
    sound = v.sound;
    watched = v.watched;
    queued = v.queued;
    owned =
        λ i a w at holds. let (w', at', holds') = fewer i a w at holds in v.owned i a w' at' holds';
    gone = v.gone;
    known = v.known;
  }

  -- The turn of a descriptor that no worker holds and no other event waits for may change to what
  -- the kernel says, after calls that are about it alone.
  pub Live-rest :
      (sd : ℕ) (kernel' : E.State) (pending' : List (ℕ × Events))
      → Live E main connect heap next workers kernel pending σ
      → Unheld heap workers sd
      → Without sd σ pending pending'
      → IsKnown main connect sd
      → ((sd' : ℕ) → sd ≢ sd' → E.is_armed kernel' sd' ≡ E.is_armed kernel sd')
      → Live E main connect heap next workers kernel' pending'
          (update σ sd (rest (E.is_armed kernel' sd)))
  Live-rest sd kernel' pending' v free less named others = record {
    sound = v.sound;
    watched = λ sd' on. elim (Bool-cases (sd == sd')) [
      | inl hit ↦
          let e : sd ≡ sd' = ground arith in
          let f : E.is_armed kernel' sd ≡ true = cc (on, ap (E.is_armed kernel') e) in
          ground (arith, ap rest f)
      | inr miss ↦
          let ne : sd ≢ sd' = ground arith in
          ground (arith, v.watched sd' (sym (others sd' ne) ∙ on))
    ];
    queued = Queued-update σ sd _ pending' less.apart less.kept;
    owned = λ i a w at holds.
        let o = v.owned i a w at holds in
        let ne = free i a w o.socket at holds o.alive in
        record {
          socket = o.socket;
          alive = o.alive;
          known = o.known;
          turn = ground (arith, o.turn, ne);
        };
    gone = λ sd' lost off far. elim (Bool-cases (sd == sd')) [
      | inl hit ↦
          let e : sd ≡ sd' = ground arith in
          let f : E.is_armed kernel' sd ≡ false = cc (off, ap (E.is_armed kernel') e) in
          ground (arith, ap rest f)
      | inr miss ↦
          let ne : sd ≢ sd' = ground arith in
          ground (arith, v.gone sd' lost (sym (others sd' ne) ∙ off) (less.back sd' ne far))
    ];
    known = λ sd' ne. elim (Bool-cases (sd == sd')) [
      | inl hit ↦ let e : sd ≡ sd' = ground arith in subst (λ x. IsKnown main connect x) e named
      | inr miss ↦
          let away : sd ≢ sd' = ground arith in
          v.known sd' (λ quiet. ne (ground (arith, quiet, away)))
    ];
  }
